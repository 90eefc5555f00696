-- ===== src/Base/Dicts.antt =====
-- A `Map`, `Set` or plain object keyed by texts, in insertion order.
use crypto_zalo_bot.Base.Tests.{Bool-cases, if◌then◌else◌}
use crypto_zalo_bot.Base.Texts.{Text, text_eq, text_eq_iff, text_eq_refl}
use mathlib.Core.Path.{◌≡◌, refl, sym, subst}
use mathlib.Core.Bool.{true, Bool, false, ◌||◌}
use mathlib.Core.Logic.{◌≢◌, inl, inr}
use mathlib.Core.Option.{Option, none, some}
use mathlib.Core.List.{List, [], ◌∷◌}
use native.Mathlib.Omega.{arith}

abbrev pub Dict {ℓ} : Type ℓ → Type ℓ
Dict V = List (Text × V)

module _ {ℓ} {V : Type ℓ} where
  -- `d.get(k)`
  unfoldable pub lookup : Text → Dict V → Option V
  lookup k [] = none
  lookup k ((j, v) ∷ d) = if text_eq j k then some v else lookup k d

  -- `d.set(k, v)`
  unfoldable pub insert : Text → V → Dict V → Dict V
  insert k v [] = (k, v) ∷ []
  insert k v ((j, w) ∷ d) = if text_eq j k then (j, v) ∷ d else (j, w) ∷ insert k v d

  -- `new Map(entries)`: the last entry of a key wins.
  unfoldable pub insert_all : List (Text × V) → Dict V → Dict V
  insert_all [] d = d
  insert_all ((k, v) ∷ es) d = insert_all es (insert k v d)

  pub lookup-insert :
      (k j : Text) (v : V) (d : Dict V)
      → lookup j (insert k v d) ≡ (if text_eq k j then some v else lookup j d)
  unfolding lookup insert
  lookup-insert k j v [] = refl
  lookup-insert k j v ((i, w) ∷ d) =
      ground (arith, text_eq_iff k j, text_eq_iff i k, text_eq_iff i j, lookup-insert k j v d)

  pub lookup-insert_self : (k : Text) (v : V) (d : Dict V) → lookup k (insert k v d) ≡ some v
  lookup-insert_self k v d = rw (lookup-insert k k v d, text_eq_refl k) refl

  pub lookup-insert_ne :
      (k j : Text) (v : V) (d : Dict V) → k ≢ j → lookup j (insert k v d) ≡ lookup j d
  lookup-insert_ne k j v d h = rw (lookup-insert k j v d) (ground (arith, text_eq_iff k j))

-- `s.has(k)`
unfoldable pub member : Text → List Text → Bool
member k [] = false
member k (j ∷ s) = text_eq j k || member k s

-- `Array.from(new Set(xs))`: each text once, at its first place.
unfoldable pub dedupe_from : List Text → List Text → List Text
dedupe_from seen [] = []
dedupe_from seen (x ∷ xs) =
    let rest = dedupe_from (x ∷ seen) xs in
    let skip = dedupe_from seen xs in if member x seen then skip else x ∷ rest

unfoldable pub dedupe : List Text → List Text
unfolding dedupe_from
dedupe xs = dedupe_from [] xs

-- No text stands twice.
abbrev pub IsDistinct : List Text → Type 0
IsDistinct [] = Unit
IsDistinct (x ∷ xs) = (member x xs ≡ false) × IsDistinct xs

member-dedupe_from :
    (y : Text) (seen xs : List Text) → member y seen ≡ true → member y (dedupe_from seen xs) ≡ false
unfolding dedupe_from member
member-dedupe_from y seen [] h = refl
member-dedupe_from y seen (x ∷ xs) h = elim (Bool-cases (member x seen)) [
  | inl old ↦ rw old (member-dedupe_from y seen xs h)
  | inr new ↦ rw new (elim (Bool-cases (text_eq x y)) [
    | inl same ↦
        let equal : y ≡ x = sym ((text_eq_iff x y).0 same) in
        absurd (cc (new, subst (λ z. member z seen ≡ true) equal h))
    | inr other ↦ rw other (member-dedupe_from y (x ∷ seen) xs (rw other h))
  ])
]

dedupe_from-IsDistinct : (seen xs : List Text) → IsDistinct (dedupe_from seen xs)
unfolding dedupe_from
dedupe_from-IsDistinct seen [] = tt
dedupe_from-IsDistinct seen (x ∷ xs) = elim (Bool-cases (member x seen)) [
  | inl old ↦ rw old (dedupe_from-IsDistinct seen xs)
  | inr new ↦
      let own : member x (x ∷ seen) ≡ true = unfold member in rw (text_eq_refl x) refl in
      rw new (member-dedupe_from x (x ∷ seen) xs own, dedupe_from-IsDistinct (x ∷ seen) xs)
]

pub dedupe-IsDistinct : (xs : List Text) → IsDistinct (dedupe xs)
unfolding dedupe
dedupe-IsDistinct xs = dedupe_from-IsDistinct [] xs
