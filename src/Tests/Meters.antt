-- ===== src/Tests/Meters.antt =====
-- The theorem on SpeechStatMeter.cpp for three samples.
use wav2letter.Base.{◌≡◌, [], ◌∷◌, ◌++◌}
use wav2letter.SpeechStats.{reset, add_stats, add_samples, to_array}
use wav2letter.SpeechStats.Merged.{to_array-add_stats}

to_array-add_stats_example :
    to_array
      (add_stats (add_samples ((50, 9) ∷ []) reset) (add_samples ((30, 4) ∷ (80, 7) ∷ []) reset))
    ≡ to_array (add_samples (((30, 4) ∷ (80, 7) ∷ []) ++ (50, 9) ∷ []) reset)
to_array-add_stats_example = to_array-add_stats ((30, 4) ∷ (80, 7) ∷ []) ((50, 9) ∷ [])
