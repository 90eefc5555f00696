-- ===== src/Base/Sorting.antt =====
-- A stable sort by a numeric key, as `sort((a, b) => a.key - b.key)` and `ORDER BY key` give.
use Prim.Native.Nat.{ℕ, ◌<◌}
use mathlib.Core.Path.{◌≡◌, refl}
use mathlib.Core.Bool.{Bool}
use mathlib.Core.Logic.{inl, inr}
use mathlib.Core.List.{List, [], ◌∷◌, ◌++◌}
use native.Mathlib.Omega.{arith}
use crypto_zalo_bot.Base.Tests.{leb, if◌then◌else◌, Bool-cases}
use crypto_zalo_bot.Base.Lists.{All, All-append, keep}

module _ {ℓ} {A : Type ℓ} (key : A → ℕ) where
  abbrev pub insert_by : A → List A → List A
  insert_by x [] = x ∷ []
  insert_by x (y ∷ ys) = if leb (key x) (key y) then x ∷ y ∷ ys else y ∷ insert_by x ys

  abbrev pub sort_by : List A → List A
  sort_by [] = []
  sort_by (x ∷ xs) = insert_by x (sort_by xs)

  -- Each key is below all the later ones.
  abbrev pub IsAscending : List A → Type 0
  IsAscending [] = Unit
  IsAscending (x ∷ xs) = All (λ y. key x < key y) xs × IsAscending xs

  insert_by-least : (x : A) (xs : List A) → All (λ y. key x < key y) xs → insert_by x xs ≡ x ∷ xs
  insert_by-least x [] h = refl
  insert_by-least x (y ∷ ys) h = ground arith

  -- A list that is in order is left as it is.
  pub sort_by-ascending : (xs : List A) → IsAscending xs → sort_by xs ≡ xs
  sort_by-ascending [] h = refl
  sort_by-ascending (x ∷ xs) h = rw (sort_by-ascending xs h.1) (insert_by-least x xs h.0)

  pub IsAscending-append :
      (xs : List A) (x : A)
      → IsAscending xs
      → All (λ y. key y < key x) xs
      → IsAscending (xs ++ x ∷ [])
  IsAscending-append [] x h b = (tt, tt)
  IsAscending-append (y ∷ ys) x h b =
      (All-append (λ z. key y < key z) ys (x ∷ []) h.0 (b.0, tt), IsAscending-append ys x h.1 b.1)

  All-keep {κ} : (P : A → Type κ) (p : A → Bool) (xs : List A) → All P xs → All P (keep p xs)
  All-keep P p [] h = tt
  All-keep P p (x ∷ xs) h = elim (Bool-cases (p x)) [
    | inl e ↦ rw e (h.0, All-keep P p xs h.1)
    | inr e ↦ rw e (All-keep P p xs h.1)
  ]

  pub IsAscending-keep : (p : A → Bool) (xs : List A) → IsAscending xs → IsAscending (keep p xs)
  IsAscending-keep p [] h = tt
  IsAscending-keep p (x ∷ xs) h = elim (Bool-cases (p x)) [
    | inl e ↦ rw e (All-keep (λ y. key x < key y) p xs h.0, IsAscending-keep p xs h.1)
    | inr e ↦ rw e (IsAscending-keep p xs h.1)
  ]

module _ {ℓ κ} {A : Type ℓ} (key : A → ℕ) (P : A → Type κ) where
  All-insert_by : (x : A) (xs : List A) → P x → All P xs → All P (insert_by key x xs)
  All-insert_by x [] p h = (p, tt)
  All-insert_by x (y ∷ ys) p h = elim (Bool-cases (leb (key x) (key y))) [
    | inl e ↦ rw e (p, h)
    | inr e ↦ rw e (h.0, All-insert_by x ys p h.1)
  ]

  pub All-sort_by : (xs : List A) → All P xs → All P (sort_by key xs)
  All-sort_by [] h = tt
  All-sort_by (x ∷ xs) h = All-insert_by x (sort_by key xs) h.0 (All-sort_by xs h.1)
