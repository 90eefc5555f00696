-- ===== src/Lib.antt =====
-- The verification of the Crypto Zalo Bot: a NestJS service that answers commands in Zalo chats with
-- crypto prices, watches price alerts, keeps a portfolio of trades for each chat and signals strong
-- price swings.
--
-- The parts and the files that model them:
--   * Base: shared types, Boolean tests, lists, texts (lists of character codes), dictionaries,
--     decimals, a stable sort, and `Number`, the operations on doubles that the program uses. Theorems
--     hold for every `Number`; `scaled` is a concrete one for the examples.
--   * Alerts: price alerts (src/price-alerts). Alerts/Evaluator is price-alert-evaluator.ts;
--     Alerts/Check is the per-minute run of price-alerts.controller.ts (checkPriceAlerts, runCheck,
--     loadPrices, processAlert), written over the calls it makes, each answered or failed by an
--     arbitrary world; Alerts/Monitor is price-alert-monitor.ts (evaluateMonitor, evaluateWatchdog);
--     Alerts/Watcher is price-alerts-monitor.service.ts (runWatcher, checkWatcher), which applies those
--     rules, messages the owner and stores what was delivered. Alerts/Store is price-alerts.service.ts,
--     one function per method, over the commands of the Redis client (Alerts/Store/Client) and what
--     they are documented to do (time, and the keys that it ends, included); Alerts/Store/Memory is
--     a concrete store that does so.
--   * Portfolio: the portfolio of trades (src/portfolio). Portfolio/Quantity, Portfolio/Holdings and
--     Portfolio/Value are portfolio-calculator.ts, and Portfolio/Prices is portfolio-prices.ts.
--     Portfolio/Ledger is portfolio.service.ts, where one transaction under the chat's lock is one step
--     on the tables `portfolio_trades` and `portfolio_usage`; its refusals and the snapshots of Value
--     are made from the holdings.
--   * Signals: the swing signals (src/signals). Signals/Evaluator is signal-evaluator.ts,
--     Signals/Repeat is signal-repeat.ts, Signals/Monitor is signals-monitor.ts and Signals/Backtest is
--     signal-backtest.ts.
--   * Commands: the parser of messages (src/command-parser). Commands/Words, Commands/Numbers and
--     Commands/Syntax are its words, numbers and patterns, and Commands/Parser is `parse`. A text is
--     its list of UTF-16 code units; lower case and decomposition are the language's tables and
--     parameters.
--   * Webhook: the dispatch of src/webhook/webhook.controller.ts. Webhook/Portfolio and Webhook/Commands
--     are the replies to each command, and Webhook/Dispatch is handleWebhook, replyToMessage and
--     handleReplyError. They call the parser, the transactions of Portfolio/Ledger, the methods of
--     Alerts/Store and the table of Subscribers as modelled, on one world; the price source and the
--     signals are answers, given as `Services`. A reply is the format function that writes it, with
--     its arguments. The world also says which call of a database fails, and how.
--   * Prices: getPricesBySymbols of src/coingecko/coingecko.service.ts with its fallback of
--     src/coinpaprika/coinpaprika.service.ts, over the answers of the two services.
--   * Subscribers: src/subscribers/subscribers.service.ts, one function per method on the table's rows.
--
-- Dates are epoch milliseconds, and quantities are exact numbers of 10^-8 units as in the source. An
-- operation on doubles has no law but where a theorem names one. Every loop is structural recursion
-- on the list that it goes through, so no fuel is needed but in the printing of decimals, where the
-- number itself bounds the digits.
--
-- Not modelled: the Redis server, the Postgres driver and the HTTP clients, whose calls are parameters
-- with documented behaviour, answers of the world or steps on tables; the counts of rejected calls in
-- the alert store; the top markets and the price history; the texts of messages; logging; and the
-- framework's wiring. The digest and the run and stores of the signals check are left out so far.
pub mod Base
pub mod Alerts
pub mod Portfolio
pub mod Signals
pub mod Commands
pub mod Webhook
pub mod Subscribers
pub mod Prices
