-- ===== src/SpeechStats/Merged.antt =====
-- Meters of parts of the samples add up to the meter of all.
use wav2letter.Base.{ℕ, ◌≡◌, refl, ap, sym, ◌∙◌, List, [], ◌∷◌, ◌++◌, arith}
use wav2letter.SpeechStats.{SpeechStats, reset, add_sample, add_stats, add_samples, to_array}

same_fields :
    {a b : SpeechStats}
    → a.total_input_sz ≡ b.total_input_sz
    → a.total_target_sz ≡ b.total_target_sz
    → a.max_input_sz ≡ b.max_input_sz
    → a.max_target_sz ≡ b.max_target_sz
    → a.num_samples ≡ b.num_samples
    → a ≡ b
same_fields p q r s t = λ i. record {
  total_input_sz = p i;
  total_target_sz = q i;
  max_input_sz = r i;
  max_target_sz = s i;
  num_samples = t i;
}

add_stats-add_sample :
    (sample : ℕ × ℕ) (other stats : SpeechStats)
    → add_stats (add_sample sample other) stats ≡ add_sample sample (add_stats other stats)
unfolding add_stats add_sample
add_stats-add_sample (input_sz, target_sz) other stats =
    same_fields (omega arith) (omega arith) (omega arith) (omega arith) (omega arith)

add_stats-reset : (stats : SpeechStats) → add_stats reset stats ≡ stats
unfolding add_stats
add_stats-reset stats =
    same_fields (omega arith) (omega arith) (omega arith) (omega arith) (omega arith)

add_stats-add_samples :
    (samples : List (ℕ × ℕ)) (other stats : SpeechStats)
    → add_stats (add_samples samples other) stats ≡ add_samples samples (add_stats other stats)
unfolding add_samples
add_stats-add_samples [] other stats = refl
add_stats-add_samples (sample ∷ samples) other stats =
    add_stats-add_samples samples (add_sample sample other) stats
    ∙ ap (add_samples samples) (add_stats-add_sample sample other stats)

add_samples-append :
    (first second : List (ℕ × ℕ)) (stats : SpeechStats)
    → add_samples (first ++ second) stats ≡ add_samples second (add_samples first stats)
unfolding add_samples
add_samples-append [] second stats = refl
add_samples-append (sample ∷ first) second stats =
    add_samples-append first second (add_sample sample stats)

-- Adding the statistics of a second meter to those of a first one gives the totals, maxima and
-- number that one meter has after the samples of both.
pub to_array-add_stats :
    (first second : List (ℕ × ℕ))
    → to_array (add_stats (add_samples second reset) (add_samples first reset))
      ≡ to_array (add_samples (first ++ second) reset)
to_array-add_stats first second =
    ap to_array (
      add_stats-add_samples second reset (add_samples first reset)
      ∙ ap (add_samples second) (add_stats-reset (add_samples first reset)))
    ∙ ap to_array (sym (add_samples-append first second reset))
