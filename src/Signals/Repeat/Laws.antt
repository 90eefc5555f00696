-- ===== src/Signals/Repeat/Laws.antt =====
-- What a chat was told of a coin is not told again.
use crypto_zalo_bot.Base.{
  ℕ, ◌+◌, ◌-◌, ◌<◌, ◌≡◌, refl, sym, ◌∙◌, subst, Bool, true, false, ◌&&◌, some, List, [], ◌∷◌, ◌++◌,
  All, Text, text_eq, Dict, lookup, insert, lookup-insert, lookup-insert_self, leb, if◌then◌else◌,
  arith,
}
use crypto_zalo_bot.Base.Number.{Number}
use crypto_zalo_bot.Signals.{CoinReport, ChatSignalState, CoinSignal, repeat_window_ms}
use crypto_zalo_bot.Signals.Repeat.{
  same_direction, is_strong, is_cooling, has_grown, select_coins_to_alert, report_of, with_reports,
  kept_reports, record_sent,
}

left_out :
    {A : Type 0}
    → (x : A) (xs : List A) (b : Bool) → (cooling : Bool)
    → (if cooling then [] else (if b && false then x ∷ xs else xs)) ≡ (if cooling then [] else xs)
left_out x xs b true = refl
left_out x xs true false = refl
left_out x xs false false = refl

module _ (num : Number) where
  open num use {F}

  with_reports-other :
      (s : Text) (sent : List (CoinSignal F)) (time : ℕ) (coins : Dict (CoinReport F))
      → All (λ (x : CoinSignal F). text_eq x.symbol s ≡ false) sent
      → lookup s (with_reports num sent time coins) ≡ lookup s coins
  unfolding with_reports
  with_reports-other s [] time coins h = refl
  with_reports-other s (x ∷ sent) time coins h =
      with_reports-other s sent time (insert x.symbol (report_of num x time) coins) h.1
      ∙ lookup-insert x.symbol s (report_of num x time) coins
      ∙ rw h.0 refl

  with_reports-last :
      (before : List (CoinSignal F)) (signal : CoinSignal F) (after : List (CoinSignal F))
      (time : ℕ) (coins : Dict (CoinReport F))
      → All (λ (x : CoinSignal F). text_eq x.symbol signal.symbol ≡ false) after
      → lookup signal.symbol (with_reports num (before ++ signal ∷ after) time coins)
        ≡ some (report_of num signal time)
  unfolding with_reports
  with_reports-last [] signal after time coins h =
      with_reports-other signal.symbol after time
        (insert signal.symbol (report_of num signal time) coins) h
      ∙ lookup-insert_self signal.symbol (report_of num signal time) coins
  with_reports-last (x ∷ before) signal after time coins h =
      with_reports-last before signal after time (insert x.symbol (report_of num x time) coins) h

  -- A coin that a chat was just told of is not told again within the repeat window, unless its
  -- direction flips or its move grows by the extra points: the selection leaves it out.
  pub record_sent-silences :
      (state : ChatSignalState F) (before : List (CoinSignal F)) (signal : CoinSignal F)
      (after : List (CoinSignal F)) (time : ℕ) (later : ℕ) (next : CoinSignal F)
      (signals : List (CoinSignal F))
      → All (λ (x : CoinSignal F). text_eq x.symbol signal.symbol ≡ false) after
      → later < time + repeat_window_ms
      → next.symbol ≡ signal.symbol
      → same_direction signal.result.direction next.result.direction ≡ true
      → has_grown num next.result.move_pct signal.result.move_pct ≡ false
      → select_coins_to_alert num
          (next ∷ signals)
          (record_sent num state (before ++ signal ∷ after) time)
          later
        ≡ select_coins_to_alert num signals
            (record_sent num state (before ++ signal ∷ after) time)
            later
  unfolding select_coins_to_alert record_sent report_of
  record_sent-silences state before signal after time later next signals others soon same flat
        calm =
      let told : lookup next.symbol
            (with_reports num (before ++ signal ∷ after) time (kept_reports num state.coins time))
          ≡ some (report_of num signal time) =
        subst
          (λ k.
            lookup k
              (with_reports num (before ++ signal ∷ after) time (kept_reports num state.coins time))
            ≡ some (report_of num signal time))
          (sym same)
          (with_reports-last before signal after time (kept_reports num state.coins time) others) in
      let fresh : leb repeat_window_ms (later - time) ≡ false = ground arith in
      rw (told, fresh, flat, calm)
        (left_out _ _ (is_strong num next) (is_cooling (some time) later))
