-- ===== src/Tests/Datasets.antt =====
-- The theorems on src/data/W2lDataset.cpp at seven samples, two ranks and batches of two.
use wav2letter.Base.{
  ℕ, ◌+◌, ◌<◌, ◌≤◌, ◌≡◌, [], ◌∷◌, length, lookup, nat_eq, Result, ok, arith, guard, ltb,
  out_of_range,
}
use wav2letter.Batches.{Packer, Dataset, n_global_batches, iota, get, size}
use wav2letter.Batches.Partition.{IsSized, read_until, read_until-iota}
use wav2letter.Batches.Prefetch.{IsCoherent}
use wav2letter.Batches.Get.{IsGotten, get_lem}

abbrev two_ranks : Packer
two_ranks = record { batch_size = 2; world_size = 2; world_rank = 1 }

two_ranks-IsSized : IsSized two_ranks
two_ranks-IsSized = record { batch_pos = omega arith; world_pos = omega arith }

read_until-iota_example :
    (covered : ℕ) × (read_until two_ranks 7 (n_global_batches two_ranks 7) ≡ iota covered 0)
    × (covered ≤ 7)
    × (7 < covered + 2)
read_until-iota_example = read_until-iota two_ranks 7 two_ranks-IsSized

abbrev three_batches : Dataset ℕ
three_batches = record {
  sample_batches = (0 ∷ 1 ∷ []) ∷ (2 ∷ []) ∷ (3 ∷ 4 ∷ 5 ∷ []) ∷ [];
  prefetch_cache = [];
}

abbrev check_index_bounds : ℕ → ℕ → Result (Unit {0})
check_index_bounds i n = guard (ltb i n) out_of_range

within : (i n : ℕ) → i < n → check_index_bounds i n ≡ ok tt
within i n h = ground arith

three_batches-IsCoherent : IsCoherent length three_batches
unfolding lookup
three_batches-IsCoherent i f h = cc

first_index : 0 < size three_batches
unfolding size
first_index = omega arith

get_lem_example :
    (f : ℕ) × (ds' : Dataset ℕ) × (get length check_index_bounds 1 three_batches 0 ≡ ok (f, ds'))
    × IsGotten length 1 three_batches 0 f ds'
get_lem_example =
    get_lem length check_index_bounds 1 three_batches 0 within (omega arith)
      three_batches-IsCoherent first_index
