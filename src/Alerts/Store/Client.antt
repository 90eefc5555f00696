-- ===== src/Alerts/Store/Client.antt =====
-- The commands of the Redis client that the alert store uses, over an unknown state, and what they are
-- documented to do. A key of the wrong kind does not occur. `elapse` is the passing of milliseconds, after
-- which a key is gone once its time to live is up; `expire` is a key that goes, at whatever moment.
use crypto_zalo_bot.Base.{
  ℕ, suc, ◌<◌, ◌≤◌, ◌≡◌, Bool, true, false, not, ◌&&◌, ◌||◌, Option, none, some, List, ◌∷◌, ◌==◌,
  if◌then◌else◌, length, take, any, is_some, Text, text_eq,
}

abbrev pub contains : ℕ → List ℕ → Bool
contains i is = any (λ j. j == i) is

pub record Redis (V : Type 0) : Type 1 where
  pub State : Type 0
  pub get : State → Text → Option V
  pub set : State → Text → V → State
  -- `SET ... XX` and `SET ... NX PX ttl`, with whether they wrote.
  pub set_xx : State → Text → V → Bool × State
  pub set_nx : State → Text → V → ℕ → Bool × State
  pub set_px : State → Text → V → ℕ → State
  pub del : State → Text → State
  pub expire : State → Text → State
  pub elapse : State → ℕ → State
  -- The integer under a key, 0 where there is none, and `INCR`.
  pub counter : State → Text → ℕ
  pub incr : State → Text → ℕ × State
  pub smembers : State → Text → List ℕ
  pub scard : State → Text → ℕ
  pub sadd : State → Text → ℕ → State
  pub srem : State → Text → ℕ → State
  pub lpush : State → Text → V → State
  -- `LTRIM key 0 (n - 1)`, `LRANGE key 0 -1` and `LRANGE key 0 (n - 1)`.
  pub ltrim : State → Text → ℕ → State
  pub list_all : State → Text → List V
  pub list_first : State → Text → ℕ → List V

pub record IsLawful {V : Type 0} (r : Redis V) : Type 0 where
  pub get-set :
      (s : r.State) (k : Text) (v : V) (j : Text)
      → r.get (r.set s k v) j ≡ (if text_eq k j then some v else r.get s j)
  pub get-del :
      (s : r.State) (k j : Text) → r.get (r.del s k) j ≡ (if text_eq k j then none else r.get s j)
  pub get-expire :
      (s : r.State) (k j : Text)
      → r.get (r.expire s k) j ≡ (if text_eq k j then none else r.get s j)
  pub set_xx_lem :
      (s : r.State) (k : Text) (v : V)
      → r.set_xx s k v ≡ (if is_some (r.get s k) then (true, r.set s k v) else (false, s))
  pub set_nx-refused :
      (s : r.State) (k : Text) (v w : V) (ttl : ℕ)
      → r.get s k ≡ some w
      → r.set_nx s k v ttl ≡ (false, s)
  pub set_nx-granted :
      (s : r.State) (k : Text) (v : V) (ttl : ℕ)
      → r.get s k ≡ none
      → ((r.set_nx s k v ttl).0 ≡ true)
        × ((j : Text)
            → r.get (r.set_nx s k v ttl).1 j ≡ (if text_eq k j then some v else r.get s j))
  pub get-elapse_within :
      (s : r.State) (k : Text) (v : V) (ttl ms : ℕ)
      → r.get s k ≡ none
      → ms < ttl
      → r.get (r.elapse (r.set_nx s k v ttl).1 ms) k ≡ some v
  pub get-elapse_after :
      (s : r.State) (k : Text) (v : V) (ttl ms : ℕ)
      → r.get s k ≡ none
      → 0 < ttl
      → ttl ≤ ms
      → r.get (r.elapse (r.set_nx s k v ttl).1 ms) k ≡ none
  pub get-incr :
      (s : r.State) (k j : Text) → text_eq k j ≡ false → r.get (r.incr s k).1 j ≡ r.get s j
  pub get-sadd :
      (s : r.State) (k : Text) (i : ℕ) (j : Text)
      → text_eq k j ≡ false
      → r.get (r.sadd s k i) j ≡ r.get s j
  pub get-srem :
      (s : r.State) (k : Text) (i : ℕ) (j : Text)
      → text_eq k j ≡ false
      → r.get (r.srem s k i) j ≡ r.get s j
  pub incr_value : (s : r.State) (k : Text) → (r.incr s k).0 ≡ suc (r.counter s k)
  pub counter-incr : (s : r.State) (k : Text) → r.counter (r.incr s k).1 k ≡ suc (r.counter s k)
  pub counter-set :
      (s : r.State) (k : Text) (v : V) (j : Text)
      → text_eq k j ≡ false
      → r.counter (r.set s k v) j ≡ r.counter s j
  pub counter-del :
      (s : r.State) (k j : Text) → text_eq k j ≡ false → r.counter (r.del s k) j ≡ r.counter s j
  pub counter-sadd :
      (s : r.State) (k : Text) (i : ℕ) (j : Text)
      → text_eq k j ≡ false
      → r.counter (r.sadd s k i) j ≡ r.counter s j
  pub counter-srem :
      (s : r.State) (k : Text) (i : ℕ) (j : Text)
      → text_eq k j ≡ false
      → r.counter (r.srem s k i) j ≡ r.counter s j
  pub smembers-set :
      (s : r.State) (k : Text) (v : V) (j : Text)
      → text_eq k j ≡ false
      → r.smembers (r.set s k v) j ≡ r.smembers s j
  pub smembers-del :
      (s : r.State) (k j : Text) → text_eq k j ≡ false → r.smembers (r.del s k) j ≡ r.smembers s j
  pub smembers-incr :
      (s : r.State) (k j : Text)
      → text_eq k j ≡ false
      → r.smembers (r.incr s k).1 j ≡ r.smembers s j
  pub smembers-sadd_ne :
      (s : r.State) (k : Text) (i : ℕ) (j : Text)
      → text_eq k j ≡ false
      → r.smembers (r.sadd s k i) j ≡ r.smembers s j
  pub smembers-srem_ne :
      (s : r.State) (k : Text) (i : ℕ) (j : Text)
      → text_eq k j ≡ false
      → r.smembers (r.srem s k i) j ≡ r.smembers s j
  pub contains-sadd :
      (s : r.State) (k : Text) (x i : ℕ)
      → contains i (r.smembers (r.sadd s k x) k) ≡ ((x == i) || contains i (r.smembers s k))
  pub contains-srem :
      (s : r.State) (k : Text) (x i : ℕ)
      → contains i (r.smembers (r.srem s k x) k) ≡ (not (x == i) && contains i (r.smembers s k))
  pub scard_lem : (s : r.State) (k : Text) → r.scard s k ≡ length (r.smembers s k)
  pub list_all-lpush :
      (s : r.State) (k : Text) (v : V) → r.list_all (r.lpush s k v) k ≡ v ∷ r.list_all s k
  pub list_all-ltrim :
      (s : r.State) (k : Text) (n : ℕ)
      → 0 < n
      → r.list_all (r.ltrim s k n) k ≡ take n (r.list_all s k)
