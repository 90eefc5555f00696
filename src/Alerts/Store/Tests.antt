-- ===== src/Alerts/Store/Tests.antt =====
-- Runs of the alert store in memory: two chats with an alert each.
use crypto_zalo_bot.Base.{
  ◌≡◌, refl, false, none, some, List, [], ◌∷◌, All, Text, codes, text_eq, text_eq_refl, arith,
}
use crypto_zalo_bot.Base.Int.{ℤ, pos}
use crypto_zalo_bot.Base.Number.{scaled}
use crypto_zalo_bot.Alerts.{above, below, PriceAlert}
use crypto_zalo_bot.Alerts.Store.{
  Stored, Answer, done, create, list_by_chat, load_alerts, found_alerts, add_found, as_alert,
  deleted, delete_by_index, update_state, stored_new, new_alert, alert_key, chat_ids_key,
  acquire_run_lock, release_run_lock,
}
use crypto_zalo_bot.Alerts.Store.Client.{Redis}
use crypto_zalo_bot.Alerts.Store.Memory.{Memory, no_memory, memory_redis, memory_redis-IsLawful}
use crypto_zalo_bot.Alerts.Store.Consistency.{IsConsistent}
use crypto_zalo_bot.Alerts.Store.Deletion.{
  delete_by_index-other_chats, update_state-delete_by_index,
}
use crypto_zalo_bot.Alerts.Store.Reachable.{IsReachable, IsReachable-IsConsistent}
use crypto_zalo_bot.Alerts.Store.Lock.{
  LockEvent, IsHeldBy, lock_events, acquire_run_lock-exclusive, acquire_run_lock-next,
}
use crypto_zalo_bot.Alerts.Store.Logs.{push_all, push_all-newest}

abbrev Values : Type 0
Values = Stored ℤ

abbrev store : Redis Values
store = memory_redis Values

abbrev ann : Text
ann = codes "ann"

abbrev bob : Text
bob = codes "bob"

-- Every coin costs 60.
abbrev at_sixty : Text → Answer Unit ℤ
at_sixty symbol = done (pos 60)

abbrev with_one : Memory Values
with_one = (create scaled store ann (codes "btc") above (pos 100) 1_000 at_sixty no_memory).1

abbrev with_two : Memory Values
with_two = (create scaled store bob (codes "eth") below (pos 50) 2_000 at_sixty with_one).1

two_alerts : IsReachable scaled store Unit with_two
two_alerts = IsReachable.creates with_one bob (codes "eth") below (pos 50) 2_000 at_sixty (
    IsReachable.creates no_memory ann (codes "btc") above (pos 100) 1_000 at_sixty
      (IsReachable.empty no_memory (λ k. refl)))

two_alerts-IsConsistent : IsConsistent scaled store (memory_redis-IsLawful Values) with_two
two_alerts-IsConsistent =
    IsReachable-IsConsistent scaled store (memory_redis-IsLawful Values) with_two two_alerts

IsReachable-IsConsistent_example : IsConsistent scaled store (memory_redis-IsLawful Values) with_two
IsReachable-IsConsistent_example =
    IsReachable-IsConsistent scaled store (memory_redis-IsLawful Values) with_two two_alerts

delete_by_index-other_chats_example :
    list_by_chat scaled store bob (delete_by_index scaled store {E = Unit} ann 1 with_two).1
    ≡ list_by_chat scaled store bob with_two
delete_by_index-other_chats_example =
    delete_by_index-other_chats scaled store (memory_redis-IsLawful Values) Unit ann bob 1 with_two
      two_alerts-IsConsistent (unfold text_eq in refl)

abbrev sample : PriceAlert ℤ
sample = new_alert scaled store ann (codes "btc") above (pos 100) 1 1_000

abbrev with_sample : Memory Values
with_sample = stored_new scaled store sample no_memory

sample_deleted : (delete_by_index scaled store {E = Unit} ann 1 with_sample).0 ≡ done sample
unfolding delete_by_index deleted list_by_chat load_alerts found_alerts add_found as_alert
    stored_new new_alert chat_ids_key text_eq
sample_deleted = rw (text_eq_refl (alert_key 1)) refl

update_state-delete_by_index_example :
    update_state scaled store sample (delete_by_index scaled store {E = Unit} ann 1 with_sample).1
    ≡ (false, (delete_by_index scaled store {E = Unit} ann 1 with_sample).1)
update_state-delete_by_index_example =
    update_state-delete_by_index scaled store (memory_redis-IsLawful Values) ann 1 with_sample
      sample sample sample_deleted refl

abbrev mine : Text
mine = codes "run-1"

abbrev theirs : Text
theirs = codes "run-2"

abbrev meanwhile : List LockEvent
meanwhile = LockEvent.acquires theirs ∷ LockEvent.releases theirs ∷ LockEvent.acquires theirs ∷ []

abbrev locked : Memory Values
locked = (acquire_run_lock scaled store mine no_memory).1

acquire_run_lock-exclusive_example :
    ((acquire_run_lock scaled store mine no_memory).0 ≡ some mine)
    × All (λ answer. answer ≡ none) (lock_events scaled store meanwhile locked).0
    × IsHeldBy scaled store mine (lock_events scaled store meanwhile locked).1
acquire_run_lock-exclusive_example =
    acquire_run_lock-exclusive scaled store (memory_redis-IsLawful Values) mine meanwhile no_memory
      refl (tt, ((unfold text_eq in refl), (tt, tt)))

acquire_run_lock-next_example :
    let during = (lock_events scaled store meanwhile locked).1 in
    ((acquire_run_lock scaled store theirs (release_run_lock scaled store mine during)).0
      ≡ some theirs)
    × ((acquire_run_lock scaled store theirs (store.elapse during 60_000)).0 ≡ none)
    × ((acquire_run_lock scaled store theirs (store.elapse during 180_000)).0 ≡ some theirs)
acquire_run_lock-next_example =
    acquire_run_lock-next scaled store (memory_redis-IsLawful Values) mine theirs meanwhile
      no_memory 60_000 180_000 refl (tt, ((unfold text_eq in refl), (tt, tt))) (omega arith)
      (omega arith)

abbrev entries : List Values
entries = Stored.stored_token mine ∷ Stored.stored_token theirs ∷ Stored.stored_token ann ∷ []

push_all-newest_example :
    store.list_all (push_all scaled store (codes "log") 2 entries no_memory) (codes "log")
    ≡ Stored.stored_token ann ∷ Stored.stored_token theirs ∷ []
push_all-newest_example =
    push_all-newest scaled store (memory_redis-IsLawful Values) (codes "log") 2 entries no_memory
      (omega arith) (omega arith)
