-- ===== src/Batches.antt =====
-- src/data/W2lDataset.cpp: which samples each process reads in each iteration, and the prefetch cache.
-- The constructor's test makes the sizes positive and the rank smaller than the number of ranks.
pub mod Partition
pub mod Prefetch
pub mod Get
use wav2letter.Base.{
  ℕ, zero, suc, ◌+◌, ◌-◌, ◌*◌, ◌/◌, ◌%◌, min, Bool, true, false, not, ◌&&◌, ◌||◌, Option, none,
  some, List, [], ◌∷◌, ◌++◌, map, length, ltb, leb, ◌==◌, if◌then◌else◌, Result, ok, err, guard,
  ◌>>=◌, ◌>>◌, fatal, out_of_range, lookup, assign, nat_eq, get_elem?, keep_if,
}

-- `std::iota` over `n` values from `start` on.
unfoldable pub iota : ℕ → ℕ → List ℕ
iota zero start = []
iota (suc n) start = start ∷ iota n (suc start)

-- `RoundRobinBatchPacker`: `batchSize_`, `worldSize_` and `worldRank_`.
pub record Packer : Type 0 where
  pub batch_size : ℕ
  pub world_size : ℕ
  pub world_rank : ℕ

-- The test of the constructor of `W2lDataset`; its arguments are not negative here.
unfoldable pub new_packer : ℕ → ℕ → ℕ → Result Packer
new_packer batch_size world_rank world_size = do
  guard (not (ltb batch_size 1 || ltb world_size 1 || leb world_size world_rank)) fatal
  ok (record { batch_size = batch_size; world_size = world_size; world_rank = world_rank })

abbrev pub per_global_batch : Packer → ℕ
per_global_batch p = p.world_size * p.batch_size

unfoldable pub include_last : Packer → ℕ → Bool
include_last p n_samples = leb p.world_size (n_samples % per_global_batch p)

unfoldable pub n_global_batches : Packer → ℕ → ℕ
n_global_batches p n_samples =
    if include_last p n_samples
    then n_samples / per_global_batch p + 1
    else n_samples / per_global_batch p

-- The test for the last global batch, which may be smaller.
unfoldable pub is_last : Packer → ℕ → ℕ → Bool
is_last p n_samples g = include_last p n_samples && (g == n_global_batches p n_samples - 1)

-- The body of the loop for the global batch `g`: offset and number of samples.
unfoldable pub batch_range : Packer → ℕ → ℕ → ℕ × ℕ
batch_range p n_samples g =
    let offset = g * per_global_batch p in
    if is_last p n_samples g
    then (let n_cur = (n_samples - offset) / p.world_size in
        let remaining = (n_samples - offset) % p.world_size in
        (
          offset + n_cur * p.world_rank + min p.world_rank remaining,
          (if ltb p.world_rank remaining then n_cur + 1 else n_cur),
        ))
    else (offset + p.batch_size * p.world_rank, p.batch_size)

unfoldable pub batch : Packer → ℕ → ℕ → List ℕ
batch p n_samples g = iota (batch_range p n_samples g).1 (batch_range p n_samples g).0

-- `shuffle` is `std::shuffle` with the engine of the seed, or `none` for a negative seed.
unfoldable pub get_batches : Packer → ℕ → Option (List ℕ → List ℕ) → List (List ℕ)
get_batches p n_samples none = map (batch p n_samples) (iota (n_global_batches p n_samples) 0)
get_batches p n_samples (some shuffle) =
    map (batch p n_samples) (shuffle (iota (n_global_batches p n_samples) 0))

-- The state of `W2lDataset` that its calls change: `sampleBatches_` and `prefetchCache_`, which maps
-- an index to the data that a worker computes for it.
pub record Dataset {ℓ} (F : Type ℓ) : Type ℓ where
  pub sample_batches : List (List ℕ)
  pub prefetch_cache : List (ℕ × F)

module _ {ℓ} {F : Type ℓ} where
  unfoldable pub size : Dataset F → ℕ
  size ds = length ds.sample_batches

  -- `prefetchCache_.erase(idx)`, and the loop that erases what lies outside of a range.
  unfoldable pub keep_keys : (ℕ → Bool) → List (ℕ × F) → List (ℕ × F)
  keep_keys keep [] = []
  keep_keys keep ((i, f) ∷ cache) =
      let rest = keep_keys keep cache in if keep i then (i, f) ∷ rest else rest

  -- `shuffle(seed)`: the cache is dropped, and the batches are made anew.
  unfoldable pub shuffle : Packer → ℕ → Option (List ℕ → List ℕ) → Dataset F → Dataset F
  shuffle p sample_count seed ds = record {
    sample_batches = get_batches p sample_count seed;
    prefetch_cache = [];
  }

  module _ (feature_data : List ℕ → F) where
    -- `getFeatureData(idx)`: `feature_data` loads and featurizes the samples of a batch.
    unfoldable pub get_feature_data : Dataset F → ℕ → Result F
    get_feature_data ds idx = elim (get_elem? ds.sample_batches idx) [
      | none ↦ err out_of_range
      | some samples ↦ ok (feature_data samples)
    ]

    -- An index is enqueued unless it is in the cache.
    unfoldable pub enqueue : ℕ → Dataset F → Dataset F
    enqueue i ds = elim (lookup i ds.prefetch_cache) [
      | some f ↦ ds
      | none ↦ elim (get_feature_data ds i) [
        | err e ↦ ds
        | ok f ↦ record ds { prefetch_cache = assign i f ds.prefetch_cache }
      ]
    ]

    -- The last loop: `n` indices from `i` on.
    unfoldable pub prefetch : ℕ → ℕ → Dataset F → Dataset F
    prefetch zero i ds = ds
    prefetch (suc n) i ds = prefetch n (suc i) (enqueue i ds)

    -- `getFeatureDataAndPrefetch(idx)` behind the bounds check of `get`, with `nthread` threads.
    unfoldable pub get_and_prefetch : ℕ → Dataset F → ℕ → Result (F × Dataset F)
    get_and_prefetch nthread ds idx = do
      (feat, cache) ← elim (lookup idx ds.prefetch_cache) [
        | some f ↦ ok (f, keep_keys (λ i. not (i == idx)) ds.prefetch_cache)
        | none ↦ (do f ← get_feature_data ds idx; ok (f, ds.prefetch_cache))
      ]
      let kept = keep_keys (λ i. not (ltb i idx || ltb (idx + nthread) i)) cache
      let ds' = record ds { prefetch_cache = kept }
      ok (feat, prefetch (min (idx + 1 + nthread) (size ds) - (idx + 1)) (idx + 1) ds')

    -- `check_index_bounds` is that of the base class, of the library of the data sets: it gets the
    -- index and the size, and throws or returns.
    unfoldable pub get : (ℕ → ℕ → Result (Unit {0})) → ℕ → Dataset F → ℕ → Result (F × Dataset F)
    get check_index_bounds nthread ds idx = do
      check_index_bounds idx (size ds)
      (if ltb 0 nthread
          then get_and_prefetch nthread ds idx
          else (do feat ← get_feature_data ds idx; ok (feat, ds)))
