-- ===== src/Signals/Evaluator/Laws.antt =====
-- When a swing is strong, and that the parts of a result agree.
use crypto_zalo_bot.Base.{
  ℕ, ◌*◌, ◌≡◌, refl, ◌∙◌, Bool, true, false, not, ◌&&◌, ◌||◌, Option, none, some, ◌⊎◌, inl, inr, ap,
  List, is_some, if◌then◌else◌, Bool-cases,
}
use crypto_zalo_bot.Base.Number.{Number}
use crypto_zalo_bot.Signals.{PricePoint, SignalThresholds, SignalResult, Window, hour_ms}
use crypto_zalo_bot.Signals.Evaluator.{
  exceeds, is_one_day, judged, insufficient, direction_of, is_usable, is_history_covered,
  change_pct, price_near, evaluate_signal,
}

module _ (num : Number) where
  open num use {F}

  -- A change in either direction that reaches the threshold, less the 1e-9 that absorbs rounding.
  abbrev pub Reaches : Option F → F → Type 0
  Reaches move threshold =
      (change : F) × (move ≡ some change)
      × (num.le (num.sub threshold (num.lit 1 9)) (num.abs change) ≡ true)

  exceeds-Reaches :
      (move : Option F) (threshold : F) → exceeds num move threshold ≡ true → Reaches move threshold
  unfolding exceeds
  exceeds-Reaches none threshold h = absurd (cc h)
  exceeds-Reaches (some change) threshold h = (change, refl, h)

  -- The move of a result is the change over its window, and is as large as that window's threshold.
  abbrev pub IsBigMove : SignalThresholds F → SignalResult F → Type 0
  IsBigMove thresholds result =
      ((result.window ≡ some Window.one_day)
        × (result.move_pct ≡ result.change24h_pct)
        × Reaches result.move_pct thresholds.swing24h_pct)
      ⊎ ((result.window ≡ some Window.three_days)
          × (result.move_pct ≡ result.change72h_pct)
          × Reaches result.move_pct thresholds.swing72h_pct)

  -- The verdict, the direction, the move and the window are there together.
  abbrev pub IsWhole : SignalResult F → Type 0
  IsWhole result =
      (is_some result.verdict ≡ result.strong)
      × (is_some result.window ≡ result.strong)
      × (is_some result.move_pct ≡ result.strong)
      × (is_some result.direction ≡ result.strong)
      × ((result.strong && result.insufficient_data) ≡ false)

  judged-IsBigMove :
      (th : SignalThresholds F) (c24 c72 : Option F) (low high price : F)
      → (judged num th c24 c72 low high price).strong ≡ true
      → IsBigMove th (judged num th c24 c72 low high price)
  unfolding judged is_one_day
  judged-IsBigMove th c24 c72 low high price h =
      elim (Bool-cases (exceeds num c24 th.swing24h_pct)) [
        | inl day ↦ elim (Bool-cases (exceeds num c72 th.swing72h_pct)) [
          | inl three ↦ rw (day, three) (by_size _ day three)
          | inr calm ↦ rw (day, calm) (inl (refl, refl, exceeds-Reaches c24 th.swing24h_pct day))
        ]
        | inr calm ↦ elim (Bool-cases (exceeds num c72 th.swing72h_pct)) [
          | inl three ↦
              rw (calm, three) (inr (refl, refl, exceeds-Reaches c72 th.swing72h_pct three))
          | inr calmer ↦ absurd (cc (rw (calm, calmer) at h))
        ]
      ]
    where
      by_size :
          (b : Bool)
          → exceeds num c24 th.swing24h_pct ≡ true
          → exceeds num c72 th.swing72h_pct ≡ true
          → ((some (if b then Window.one_day else Window.three_days) ≡ some Window.one_day)
              × ((if b then c24 else c72) ≡ c24)
              × Reaches (if b then c24 else c72) th.swing24h_pct)
            ⊎ ((some (if b then Window.one_day else Window.three_days) ≡ some Window.three_days)
                × ((if b then c24 else c72) ≡ c72)
                × Reaches (if b then c24 else c72) th.swing72h_pct)
      by_size true d t = inl (refl, refl, exceeds-Reaches c24 th.swing24h_pct d)
      by_size false d t = inr (refl, refl, exceeds-Reaches c72 th.swing72h_pct t)

  -- A swing is called strong only on a change over its window whose size reaches that window's
  -- threshold less 1e-9, and that change is the one reported.
  pub evaluate_signal-IsBigMove :
      (points : List (PricePoint F)) (price : F) (time : ℕ) (thresholds : SignalThresholds F)
      → (evaluate_signal num points price time thresholds).strong ≡ true
      → IsBigMove thresholds (evaluate_signal num points price time thresholds)
  unfolding evaluate_signal insufficient
  evaluate_signal-IsBigMove points price time th h =
      let c24 = change_pct num (price_near num points (24 * hour_ms) time) price in
      let c72 = change_pct num (price_near num points (72 * hour_ms) time) price in
      elim (Bool-cases (is_usable num price)) [
        | inr dead ↦ absurd (cc (rw dead at h))
        | inl usable ↦
            elim (Bool-cases (
              not (is_history_covered num points time)
              || (not (is_some c24) && not (is_some c72)))) [
                | inl short ↦ absurd (cc (rw (usable, short) at h))
                | inr enough ↦
                    rw (usable, enough)
                      (judged-IsBigMove th c24 c72 _ _ price (rw (usable, enough) at h))
              ]
      ]

  direction_of-is_some : (m : Option F) → is_some (direction_of num m) ≡ is_some m
  unfolding direction_of
  direction_of-is_some none = refl
  direction_of-is_some (some m) = refl

  Reaches-is_some : (c : Option F) (t : F) → Reaches c t → is_some c ≡ true
  Reaches-is_some c t (change, e, _) = ap is_some e

  judged-IsWhole :
      (th : SignalThresholds F) (c24 c72 : Option F) (low high price : F)
      → IsWhole (judged num th c24 c72 low high price)
  unfolding judged is_one_day
  judged-IsWhole th c24 c72 low high price =
      elim (Bool-cases (judged num th c24 c72 low high price).strong) [
        | inr calm ↦ rw calm (refl, refl, refl, direction_of-is_some none, refl)
        | inl strong ↦
            let there : is_some (judged num th c24 c72 low high price).move_pct ≡ true =
              elim (judged-IsBigMove th c24 c72 low high price strong) [
                | inl (_, _, e) ↦ Reaches-is_some _ th.swing24h_pct e
                | inr (_, _, e) ↦ Reaches-is_some _ th.swing72h_pct e
              ] in
            let moved = rw strong at there in
            rw strong (refl, refl, moved, direction_of-is_some _ ∙ moved, refl)
      ]

  -- A result is whole, on every branch: the verdict, the window, the move and the direction are given
  -- exactly for a strong swing, and none is given where the history is too short.
  pub evaluate_signal-IsWhole :
      (points : List (PricePoint F)) (price : F) (time : ℕ) (thresholds : SignalThresholds F)
      → IsWhole (evaluate_signal num points price time thresholds)
  unfolding evaluate_signal insufficient
  evaluate_signal-IsWhole points price time th =
      let c24 = change_pct num (price_near num points (24 * hour_ms) time) price in
      let c72 = change_pct num (price_near num points (72 * hour_ms) time) price in
      elim (Bool-cases (is_usable num price)) [
        | inr dead ↦ rw dead (refl, refl, refl, refl, refl)
        | inl usable ↦
            elim (Bool-cases (
              not (is_history_covered num points time)
              || (not (is_some c24) && not (is_some c72)))) [
                | inl short ↦ rw (usable, short) (refl, refl, refl, refl, refl)
                | inr enough ↦ rw (usable, enough) (judged-IsWhole th c24 c72 _ _ price)
              ]
      ]
