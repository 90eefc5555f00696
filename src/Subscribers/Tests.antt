-- ===== src/Subscribers/Tests.antt =====
-- Runs of the subscribers' table: one chat comes, changes its list, goes and comes back.
use crypto_zalo_bot.Base.{◌≡◌, List, [], ◌∷◌, Text, codes}
use crypto_zalo_bot.Commands.Words.{Unicode}
use crypto_zalo_bot.Subscribers.{Subscriber}
use crypto_zalo_bot.Subscribers.Watchlists.{
  Change, active_watchlist, apply_all, change_map_all, apply_all-change_map,
}

-- Letters without case and marks are left as they are.
abbrev ascii : Unicode
ascii = record { to_lower_case = λ s. s; normalize_nfd = λ s. s }

abbrev ann : Text
ann = codes "ann"

abbrev btc : List Text
btc = codes "btc" ∷ []

abbrev visits : List Change
visits =
    Change.subscribes ann btc
    ∷ Change.updates ann (codes "eth" ∷ [])
    ∷ Change.unsubscribes ann
    ∷ Change.updates ann []
    ∷ Change.subscribes ann btc
    ∷ []

abbrev nobody : List Subscriber
nobody = []

apply_all-change_map_example :
    active_watchlist (apply_all ascii 1_000 visits nobody) ann
    ≡ change_map_all ascii 1_000 visits (active_watchlist nobody) ann
apply_all-change_map_example = apply_all-change_map ascii 1_000 visits nobody ann
