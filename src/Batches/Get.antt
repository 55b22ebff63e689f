-- ===== src/Batches/Get.antt =====
-- `get` returns the data of the batch whatever is cached, and leaves the next batches in the cache.
use native.Mathlib.Decide.{dec_lt, dec_le}
use wav2letter.Base.{
  ℕ, ◌+◌, ◌-◌, ◌<◌, ◌≤◌, min, ◌≡◌, ◌↔◌, refl, sym, subst, ◌∙◌, ◌⊎◌, inl, inr, Bool, not, ◌||◌, none,
  some, List, arith, Bool-cases, ltb, lt→ltb, Result, ok, lookup, nat_eq,
}
use wav2letter.Batches.{Dataset, size, keep_keys, get_feature_data, prefetch, get_and_prefetch, get}
use wav2letter.Batches.Prefetch.{
  lookup-keep_keys, IsCoherent, data_of-eq_ok, data_of-same, size-same, prefetch-IsPrefetched,
  fetched, IsFetched, fetched-IsFetched,
}

module _ {ℓ} {F : Type ℓ} (feature_data : List ℕ → F) where
  -- The range of indices that a call for `idx` leaves in the cache.
  abbrev pub IsNext : ℕ → ℕ → ℕ → ℕ → Type 0
  IsNext nthread count idx j = (idx < j) × (j ≤ idx + nthread) × (j < count)

  -- The result of a call for `idx` in the state `ds`.
  pub record IsGotten (nthread : ℕ) (ds : Dataset F) (idx : ℕ) (f : F) (ds' : Dataset F)
      : Type ℓ where
    pub value : get_feature_data feature_data ds idx ≡ ok f
    pub same : ds'.sample_batches ≡ ds.sample_batches
    pub coherent : IsCoherent feature_data ds'
    pub cached :
        (j : ℕ)
        → IsNext nthread (size ds) idx j ↔ ((g : F) × (lookup j ds'.prefetch_cache ≡ some g))

  in_range : ℕ → ℕ → ℕ → Bool
  in_range nthread idx i = not (ltb i idx || ltb (idx + nthread) i)

  abbrev kept : ℕ → ℕ → Dataset F → List (ℕ × F) → Dataset F
  kept nthread idx ds cache = record ds { prefetch_cache = keep_keys (in_range nthread idx) cache }

  abbrev left : ℕ → ℕ → Dataset F → List (ℕ × F) → Dataset F
  left nthread idx ds cache =
      prefetch feature_data (min (idx + 1 + nthread) (size ds) - (idx + 1)) (idx + 1)
        (kept nthread idx ds cache)

  get_and_prefetch-fetched :
      (nthread : ℕ) (ds : Dataset F) (idx : ℕ) (f : F) (cache : List (ℕ × F))
      → fetched feature_data ds idx ≡ ok (f, cache)
      → get_and_prefetch feature_data nthread ds idx ≡ ok (f, left nthread idx ds cache)
  unfolding get_and_prefetch fetched in_range
  get_and_prefetch-fetched nthread ds idx f cache e = rw (e) refl

  lookup-kept :
      (nthread idx j : ℕ) (cache : List (ℕ × F)) (g : F)
      → lookup j (keep_keys (in_range nthread idx) cache) ≡ some g
      → (lookup j cache ≡ some g) × (idx ≤ j) × (j ≤ idx + nthread)
  unfolding in_range
  lookup-kept nthread idx j cache g h =
      let e = lookup-keep_keys (in_range nthread idx) j cache in
      elim (Bool-cases (in_range nthread idx j)) [
        | inl inside ↦
            (sym (e ∙ rw inside refl) ∙ h, ground (arith, inside), ground (arith, inside))
        | inr outside ↦
            let empty : lookup j (keep_keys (in_range nthread idx) cache) ≡ none =
              e ∙ rw outside refl in
            absurd (cc)
      ]

  IsGotten-left :
      (nthread idx : ℕ) (ds : Dataset F) (f : F) (cache : List (ℕ × F))
      → IsCoherent feature_data ds
      → idx < size ds
      → IsFetched feature_data ds idx f cache
      → IsGotten nthread ds idx f (left nthread idx ds cache)
  IsGotten-left nthread idx ds f cache c h got =
      let start = kept nthread idx ds cache in
      let n = min (idx + 1 + nthread) (size ds) - (idx + 1) in
      let done = prefetch-IsPrefetched feature_data n (idx + 1) start in
      let start_coherent : IsCoherent feature_data start = λ i g l.
        data_of-same feature_data ds start i refl
        ∙ c i g (got.fewer i g (lookup-kept nthread idx i cache g l).0) in
      let end_coherent = done.coherent start_coherent in
      let count : size start ≡ size ds = size-same feature_data ds start refl in
      let count_left : size (left nthread idx ds cache) ≡ size ds =
        size-same feature_data start (left nthread idx ds cache) done.same ∙ count in
      record {
        value = got.value;
        same = done.same;
        coherent = end_coherent;
        cached = λ j. (
          λ next. done.cached j (omega arith) (omega arith) (rw count next.2),
          λ (g, l).
              let bound : j < size ds =
                rw (sym (count_left)) (data_of-eq_ok feature_data _ j g (end_coherent j g l)) in
              let old : (j < idx + 1) ⊎ (idx + 1 + n ≤ j)
                  → (lookup j cache ≡ some g) × (idx ≤ j) × (j ≤ idx + nthread) =
                λ out. lookup-kept nthread idx j cache g (sym (done.others j out) ∙ l) in
              elim (dec_lt idx j) [
                | yes above ↦ elim (dec_le j (idx + nthread)) [
                  | yes below ↦ (above, below, bound)
                  | no far ↦ absurd (let o = old (inr (omega arith)) in omega arith)
                ]
                | no under ↦
                    let o = old (inl (omega arith)) in
                    let here : j ≡ idx = omega arith in
                    absurd (
                      let e : lookup idx cache ≡ some g =
                        subst (λ k. lookup k cache ≡ some g) here o.0 in
                      let gone = got.gone in cc)
              ],
        );
      }

  -- If the bounds check lets the index through, at least one thread prefetches and the cache holds
  -- for its indices what `getFeatureData` computes, then `get` for an index in range returns the
  -- data of its batch, leaves the batches and the agreement of the cache as they are, and the
  -- indices in the cache afterwards are exactly the next ones, as many as threads, up to the end.
  pub get_lem :
      (check_index_bounds : ℕ → ℕ → Result (Unit {0})) (nthread : ℕ) (ds : Dataset F) (idx : ℕ)
      → ((i n : ℕ) → i < n → check_index_bounds i n ≡ ok tt)
      → 0 < nthread
      → IsCoherent feature_data ds
      → idx < size ds
      → (f : F) × (ds' : Dataset F) × (get feature_data check_index_bounds nthread ds idx
          ≡ ok (f, ds'))
        × IsGotten nthread ds idx f ds'
  unfolding get
  get_lem check_index_bounds nthread ds idx within threads c h =
      let (f, cache, e, got) = fetched-IsFetched feature_data ds idx c h in
      (
        f,
        left nthread idx ds cache,
        rw (within idx (size ds) h, lt→ltb 0 nthread threads)
            (get_and_prefetch-fetched nthread ds idx f cache e),
        IsGotten-left nthread idx ds f cache c h got,
      )
