-- ===== src/Alerts/Monitor/Runs.antt =====
-- What the monitor reads off the run log: the newest healthy run, and the first one after a time.
use mathlib.Core.List.{Memᴰ}
use crypto_zalo_bot.Base.{
  ℕ, ◌≤◌, ◌<◌, ◌≡◌, refl, ◌⊎◌, inl, inr, Bool, true, false, Option, none, some, List, [], ◌∷◌,
  arith, subst,
}
use crypto_zalo_bot.Alerts.{AlertRunSummary}
use crypto_zalo_bot.Alerts.Monitor.{
  is_healthy_run, latest_step, latest_from, latest_healthy_at, first_step, first_from,
  first_healthy_after,
}

-- The run was healthy and is dated `t`.
pub record IsHealthyAt (t : ℕ) (run : AlertRunSummary) : Type 0 where
  pub healthy : is_healthy_run run ≡ true
  pub dated : run.started_at ≡ some t

-- Some run of the log was healthy and is dated `t`.
pub record HasHealthyAt (runs : List AlertRunSummary) (t : ℕ) : Type 0 where
  pub run : AlertRunSummary
  pub listed : Memᴰ run runs
  pub at : IsHealthyAt t run

HasHealthyAt-cons :
    (r : AlertRunSummary) (runs : List AlertRunSummary) (t : ℕ)
    → HasHealthyAt runs t
    → HasHealthyAt (r ∷ runs) t
HasHealthyAt-cons r runs t h = record { run = h.run; listed = Memᴰ.tail h.listed; at = h.at }

abbrev pub IsAtMost : ℕ → Option ℕ → Type 0
IsAtMost t none = ⊥
IsAtMost t (some l) = t ≤ l

-- `o` is the date of the newest healthy run, and `none` if there is none with a date.
pub record IsLatest (runs : List AlertRunSummary) (o : Option ℕ) : Type 0 where
  pub attained : (t : ℕ) → o ≡ some t → HasHealthyAt runs t
  pub greatest : (t : ℕ) → HasHealthyAt runs t → IsAtMost t o

-- One round keeps what was best, or takes the run's date.
latest_step-cases :
    (acc : Option ℕ) (b : Bool) (o : Option ℕ) (t : ℕ)
    → latest_step acc b o ≡ some t
    → (acc ≡ some t) ⊎ ((b ≡ true) × (o ≡ some t))
unfolding latest_step
latest_step-cases none true none t e = ground arith
latest_step-cases (some l) true none t e = ground arith
latest_step-cases none true (some at) t e = ground arith
latest_step-cases (some l) true (some at) t e = ground arith
latest_step-cases acc false o t e = ground arith

latest_step-keeps :
    (acc : Option ℕ) (b : Bool) (o : Option ℕ) (t : ℕ)
    → IsAtMost t acc
    → IsAtMost t (latest_step acc b o)
unfolding latest_step
latest_step-keeps none b o t h = elim h [ ]
latest_step-keeps (some l) true none t h = h
latest_step-keeps (some l) true (some at) t h = ground arith
latest_step-keeps (some l) false o t h = h

latest_step-takes : (acc : Option ℕ) (t : ℕ) → IsAtMost t (latest_step acc true (some t))
unfolding latest_step
latest_step-takes none t = omega arith
latest_step-takes (some l) t = ground arith

latest_from-attained :
    (runs : List AlertRunSummary) (acc : Option ℕ) (t : ℕ)
    → latest_from acc runs ≡ some t
    → (acc ≡ some t) ⊎ HasHealthyAt runs t
unfolding latest_from
latest_from-attained [] acc t e = inl e
latest_from-attained (r ∷ runs) acc t e = elim (latest_from-attained runs _ t e) [
  | inr h ↦ inr (HasHealthyAt-cons r runs t h)
  | inl h ↦ elim (latest_step-cases acc (is_healthy_run r) r.started_at t h) [
    | inl same ↦ inl same
    | inr (b, o) ↦
        inr (record { run = r; listed = Memᴰ.head refl; at = record { healthy = b; dated = o } })
  ]
]

latest_from-keeps :
    (runs : List AlertRunSummary) (acc : Option ℕ) (t : ℕ)
    → IsAtMost t acc
    → IsAtMost t (latest_from acc runs)
unfolding latest_from
latest_from-keeps [] acc t h = h
latest_from-keeps (r ∷ runs) acc t h = latest_from-keeps runs _ t (latest_step-keeps acc _ _ t h)

latest_from-greatest :
    (runs : List AlertRunSummary) (acc : Option ℕ) (t : ℕ) (run : AlertRunSummary)
    → Memᴰ run runs
    → IsHealthyAt t run
    → IsAtMost t (latest_from acc runs)
unfolding latest_from
latest_from-greatest [] acc t run m h = elim m [ ]
latest_from-greatest (r ∷ runs) acc t run (Memᴰ.head e) h =
    let h' = subst (IsHealthyAt t) e h in
    latest_from-keeps runs _ t (rw (h'.healthy, h'.dated) (latest_step-takes acc t))
latest_from-greatest (r ∷ runs) acc t run (Memᴰ.tail m) h = latest_from-greatest runs _ t run m h

-- The newest healthy run of the log, in whatever order the log is, and `none` exactly if no healthy
-- run has a date.
pub latest_healthy_at-IsLatest :
    (runs : List AlertRunSummary) → IsLatest runs (latest_healthy_at runs)
unfolding latest_healthy_at
latest_healthy_at-IsLatest runs = record {
  attained = λ t e. elim (latest_from-attained runs none t e) [ inl n ↦ absurd (cc n) | inr h ↦ h ];
  greatest = λ t h. latest_from-greatest runs none t h.run h.listed h.at;
}

abbrev pub IsAtLeast : ℕ → Option ℕ → Type 0
IsAtLeast t none = ⊥
IsAtLeast t (some f) = f ≤ t

-- `o` is the date of the first healthy run after `since`, and `none` if there is none.
pub record IsFirstAfter (since : ℕ) (runs : List AlertRunSummary) (o : Option ℕ) : Type 0 where
  pub attained : (t : ℕ) → o ≡ some t → (since < t) × HasHealthyAt runs t
  pub least : (t : ℕ) → since < t → HasHealthyAt runs t → IsAtLeast t o

first_step-cases :
    (since : ℕ) (acc : Option ℕ) (b : Bool) (o : Option ℕ) (t : ℕ)
    → first_step since acc b o ≡ some t
    → (acc ≡ some t) ⊎ ((since < t) × (b ≡ true) × (o ≡ some t))
unfolding first_step
first_step-cases since none true none t e = ground arith
first_step-cases since (some l) true none t e = ground arith
first_step-cases since none true (some at) t e = ground arith
first_step-cases since (some l) true (some at) t e = ground arith
first_step-cases since acc false o t e = ground arith

first_step-keeps :
    (since : ℕ) (acc : Option ℕ) (b : Bool) (o : Option ℕ) (t : ℕ)
    → IsAtLeast t acc
    → IsAtLeast t (first_step since acc b o)
unfolding first_step
first_step-keeps since none b o t h = elim h [ ]
first_step-keeps since (some l) true none t h = h
first_step-keeps since (some l) true (some at) t h = ground arith
first_step-keeps since (some l) false o t h = h

first_step-takes :
    (since : ℕ) (acc : Option ℕ) (t : ℕ)
    → since < t
    → IsAtLeast t (first_step since acc true (some t))
unfolding first_step
first_step-takes since none t h = ground arith
first_step-takes since (some l) t h = ground arith

first_from-attained :
    (runs : List AlertRunSummary) (since : ℕ) (acc : Option ℕ) (t : ℕ)
    → first_from since acc runs ≡ some t
    → (acc ≡ some t) ⊎ ((since < t) × HasHealthyAt runs t)
unfolding first_from
first_from-attained [] since acc t e = inl e
first_from-attained (r ∷ runs) since acc t e = elim (first_from-attained runs since _ t e) [
  | inr (lt, h) ↦ inr (lt, HasHealthyAt-cons r runs t h)
  | inl h ↦ elim (first_step-cases since acc (is_healthy_run r) r.started_at t h) [
    | inl same ↦ inl same
    | inr (lt, b, o) ↦
        inr
          (lt, record { run = r; listed = Memᴰ.head refl; at = record { healthy = b; dated = o } })
  ]
]

first_from-keeps :
    (runs : List AlertRunSummary) (since : ℕ) (acc : Option ℕ) (t : ℕ)
    → IsAtLeast t acc
    → IsAtLeast t (first_from since acc runs)
unfolding first_from
first_from-keeps [] since acc t h = h
first_from-keeps (r ∷ runs) since acc t h =
    first_from-keeps runs since _ t (first_step-keeps since acc _ _ t h)

first_from-least :
    (runs : List AlertRunSummary) (since : ℕ) (acc : Option ℕ) (t : ℕ) (run : AlertRunSummary)
    → since < t
    → Memᴰ run runs
    → IsHealthyAt t run
    → IsAtLeast t (first_from since acc runs)
unfolding first_from
first_from-least [] since acc t run lt m h = elim m [ ]
first_from-least (r ∷ runs) since acc t run lt (Memᴰ.head e) h =
    let h' = subst (IsHealthyAt t) e h in
    first_from-keeps runs since _ t (rw (h'.healthy, h'.dated) (first_step-takes since acc t lt))
first_from-least (r ∷ runs) since acc t run lt (Memᴰ.tail m) h =
    first_from-least runs since _ t run lt m h

-- The moment an outage that began at `since` ended: the date of the first healthy run after it, in
-- whatever order the log is, and `none` exactly if there is no such run.
pub first_healthy_after-IsFirstAfter :
    (runs : List AlertRunSummary) (since : ℕ)
    → IsFirstAfter since runs (first_healthy_after runs since)
unfolding first_healthy_after
first_healthy_after-IsFirstAfter runs since = record {
  attained =
      λ t e. elim (first_from-attained runs since none t e) [ inl n ↦ absurd (cc n) | inr h ↦ h ];
  least = λ t lt h. first_from-least runs since none t h.run lt h.listed h.at;
}
