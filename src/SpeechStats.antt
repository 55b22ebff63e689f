-- ===== src/SpeechStats.antt =====
-- src/runtime/SpeechStatMeter.cpp: totals and maxima of the sizes of samples.
-- A sample is the two sizes that the meter reads of its arrays.
pub mod Merged
use wav2letter.Base.{ℕ, ◌+◌, max, List, [], ◌∷◌}

pub record SpeechStats : Type 0 where
  pub total_input_sz : ℕ
  pub total_target_sz : ℕ
  pub max_input_sz : ℕ
  pub max_target_sz : ℕ
  pub num_samples : ℕ

abbrev pub reset : SpeechStats
reset = record {
  total_input_sz = 0;
  total_target_sz = 0;
  max_input_sz = 0;
  max_target_sz = 0;
  num_samples = 0;
}

-- `add(input, target)`
unfoldable pub add_sample : ℕ × ℕ → SpeechStats → SpeechStats
add_sample (input_sz, target_sz) stats = record {
  total_input_sz = stats.total_input_sz + input_sz;
  total_target_sz = stats.total_target_sz + target_sz;
  max_input_sz = max stats.max_input_sz input_sz;
  max_target_sz = max stats.max_target_sz target_sz;
  num_samples = stats.num_samples + 1;
}

-- `add(stats)`
unfoldable pub add_stats : SpeechStats → SpeechStats → SpeechStats
add_stats other stats = record {
  total_input_sz = stats.total_input_sz + other.total_input_sz;
  total_target_sz = stats.total_target_sz + other.total_target_sz;
  max_input_sz = max stats.max_input_sz other.max_input_sz;
  max_target_sz = max stats.max_target_sz other.max_target_sz;
  num_samples = stats.num_samples + other.num_samples;
}

-- A sequence of calls of `add`.
unfoldable pub add_samples : List (ℕ × ℕ) → SpeechStats → SpeechStats
add_samples [] stats = stats
add_samples (sample ∷ samples) stats = add_samples samples (add_sample sample stats)

-- `toArray`, which `value` returns.
unfoldable pub to_array : SpeechStats → List ℕ
to_array stats =
    stats.total_input_sz ∷ stats.total_target_sz ∷ stats.max_input_sz ∷ stats.max_target_sz
    ∷ stats.num_samples ∷ []
