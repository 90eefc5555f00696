-- ===== src/Subscribers.antt =====
-- The subscribers of the daily digest (src/subscribers/subscribers.service.ts): the table `subscribers`
-- as the list of its rows, each statement as the list operation that it states. `chat_id` is the
-- table's primary key. A row and the subscriber made from it have the same fields.
pub mod Watchlists
mod Tests
use crypto_zalo_bot.Base.{
  ℕ, Bool, true, false, not, ◌&&◌, Option, none, some, List, [], ◌∷◌, map, ltb, ◌==◌, if◌then◌else◌,
  length, keep, find, dedupe, Text, text_eq,
}
use crypto_zalo_bot.Alerts.Store.{Answer, done, thrown}
use crypto_zalo_bot.Commands.Words.{Unicode, trim, is_empty}

pub record Subscriber : Type 0 where
  pub chat_id : Text
  pub watchlist : List Text
  pub is_active : Bool
  pub created_at : ℕ

-- The two messages of an InvalidWatchlistError.
pub data InvalidWatchlistError : Type 0 where
  no_symbol too_many_symbols : InvalidWatchlistError

abbrev pub max_watchlist_size : ℕ
max_watchlist_size = 20

normalized_watchlist : Unicode → List Text → List Text
normalized_watchlist unicode watchlist =
    dedupe (keep (λ s. not (is_empty s)) (map (λ s. unicode.to_lower_case (trim s)) watchlist))

sized_watchlist : List Text → Answer InvalidWatchlistError (List Text)
sized_watchlist normalized =
    if length normalized == 0
    then thrown InvalidWatchlistError.no_symbol
    else if ltb max_watchlist_size (length normalized)
    then thrown InvalidWatchlistError.too_many_symbols
    else done normalized

pub normalize_watchlist : Unicode → List Text → Answer InvalidWatchlistError (List Text)
normalize_watchlist unicode watchlist = sized_watchlist (normalized_watchlist unicode watchlist)

-- `INSERT ... ON CONFLICT (chat_id) DO UPDATE`, at the time `now`.
upsert : Text → List Text → ℕ → List Subscriber → List Subscriber
upsert chat_id watchlist now [] =
    record { chat_id = chat_id; watchlist = watchlist; is_active = true; created_at = now } ∷ []
upsert chat_id watchlist now (r ∷ rows) =
    let rest = upsert chat_id watchlist now rows in
    if text_eq r.chat_id chat_id
    then record r { watchlist = watchlist; is_active = true } ∷ rows
    else r ∷ rest

abbrev is_active_of : Text → Subscriber → Bool
is_active_of chat_id r = text_eq r.chat_id chat_id && r.is_active

pub find_active_by_chat_id : Text → List Subscriber → Option Subscriber
find_active_by_chat_id chat_id rows = find (is_active_of chat_id) rows

subscribed :
    Text
    → ℕ
    → Answer InvalidWatchlistError (List Text)
    → List Subscriber
    → Answer InvalidWatchlistError (Option Subscriber) × List Subscriber
subscribed chat_id now (thrown e) rows = (thrown e, rows)
subscribed chat_id now (done watchlist) rows =
    let after = upsert chat_id watchlist now rows in
    (done (find_active_by_chat_id chat_id after), after)

pub subscribe :
    Unicode
    → Text
    → List Text
    → ℕ
    → List Subscriber
    → Answer InvalidWatchlistError (Option Subscriber) × List Subscriber
subscribe unicode chat_id watchlist now rows =
    subscribed chat_id now (normalize_watchlist unicode watchlist) rows

-- `UPDATE ... SET is_active = false WHERE chat_id = ...`
deactivated : Text → Subscriber → Subscriber
deactivated chat_id r = if text_eq r.chat_id chat_id then record r { is_active = false } else r

pub unsubscribe : Text → List Subscriber → List Subscriber
unsubscribe chat_id rows = map (deactivated chat_id) rows

with_watchlist : Text → List Text → Subscriber → Subscriber
with_watchlist chat_id watchlist r =
    if is_active_of chat_id r then record r { watchlist = watchlist } else r

updated :
    Text
    → Answer InvalidWatchlistError (List Text)
    → List Subscriber
    → Answer InvalidWatchlistError (Option Subscriber) × List Subscriber
updated chat_id (thrown e) rows = (thrown e, rows)
updated chat_id (done watchlist) rows =
    let after = map (with_watchlist chat_id watchlist) rows in
    (done (find_active_by_chat_id chat_id after), after)

pub update_watchlist :
    Unicode
    → Text
    → List Text
    → List Subscriber
    → Answer InvalidWatchlistError (Option Subscriber) × List Subscriber
update_watchlist unicode chat_id watchlist rows =
    updated chat_id (normalize_watchlist unicode watchlist) rows

pub list_active : List Subscriber → List Subscriber
list_active rows = keep (λ (r : Subscriber). r.is_active) rows
