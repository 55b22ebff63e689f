-- ===== src/SampleOrder.antt =====
-- src/data/Utils.cpp: the order of the samples, and the filter on their sizes.
-- The audio length is a `double`: its type is a parameter, with the comparisons and the bin, the
-- quotient by the bin size as an `int`. `std::sort` with a comparison is a parameter too.
pub mod Spiral
use wav2letter.Base.{
  ℕ, ◌/◌, ◌%◌, Bool, true, false, not, ◌||◌, List, [], ◌∷◌, keep_if, map, length, get_or, ltb, ◌==◌,
  if◌then◌else◌, nat_eq, list_eq, ◌=?◌,
}
use wav2letter.Text.{Bytes, codes}
use wav2letter.Batches.{iota}

-- `SpeechSampleMetaInfo`: `audiolength`, `reflength` and `index`.
pub record Sample (D : Type 0) : Type 0 where
  pub audio_length : D
  pub ref_length : ℕ
  pub index : ℕ

-- `less a b` is `a < b`, `bin_of a size` is `int(a / size)`, and the others compare with an integer.
pub record Durations (D : Type 0) : Type 0 where
  pub less : D → D → Bool
  pub bin_of : D → ℕ → ℕ
  pub less_than : D → ℕ → Bool
  pub greater_than : D → ℕ → Bool
  pub no_duration : D

module _ {D : Type 0} (d : Durations D) where
  -- The comparison of `input_spiral`.
  unfoldable pub input_spiral : ℕ → Sample D → Sample D → Bool
  input_spiral output_bin_size s1 s2 =
      let s1_y = s1.ref_length / output_bin_size in
      let s2_y = s2.ref_length / output_bin_size in
      if not (s1_y == s2_y)
      then ltb s1_y s2_y
      else if s1_y % 2 == 0
      then d.less s1.audio_length s2.audio_length
      else d.less s2.audio_length s1.audio_length

  -- The comparison of `output_spiral`.
  unfoldable pub output_spiral : ℕ → Sample D → Sample D → Bool
  output_spiral input_bin_size s1 s2 =
      let s1_x = d.bin_of s1.audio_length input_bin_size in
      let s2_x = d.bin_of s2.audio_length input_bin_size in
      if not (s1_x == s2_x)
      then ltb s1_x s2_x
      else if s1_x % 2 == 0
      then ltb s1.ref_length s2.ref_length
      else ltb s2.ref_length s1.ref_length

  unfoldable pub by_input : Sample D → Sample D → Bool
  by_input s1 s2 = d.less s1.audio_length s2.audio_length

  abbrev pub no_sample : Sample D
  no_sample = record { audio_length = d.no_duration; ref_length = 0; index = 0 }

  -- `sortSamples`: `sort` is `std::sort` of positions with a comparison of positions.
  unfoldable pub sort_samples :
      ((ℕ → ℕ → Bool) → List ℕ → List ℕ) → List (Sample D) → Bytes → ℕ → ℕ → List ℕ
  sort_samples sort samples data_order input_bin_size output_bin_size =
      let at = λ (i : ℕ). get_or samples i no_sample in
      let positions = iota (length samples) 0 in
      let sorted =
        (if data_order =? codes "input_spiral"
          then sort (λ i1 i2. input_spiral output_bin_size (at i1) (at i2)) positions
          else if data_order =? codes "output_spiral"
          then sort (λ i1 i2. output_spiral input_bin_size (at i1) (at i2)) positions
          else if data_order =? codes "input"
          then sort (λ i1 i2. by_input (at i1) (at i2)) positions
          else positions) in
      map (λ i. (at i).index) sorted

  -- `filterSamples`
  unfoldable pub filter_samples : List (Sample D) → ℕ → ℕ → ℕ → ℕ → List (Sample D)
  filter_samples samples min_input max_input min_target max_target =
      keep_if
        (λ s. not (
          d.less_than s.audio_length min_input
          || d.greater_than s.audio_length max_input
          || ltb s.ref_length min_target
          || ltb max_target s.ref_length))
        samples
