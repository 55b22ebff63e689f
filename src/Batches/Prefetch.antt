-- ===== src/Batches/Prefetch.antt =====
-- The prefetch cache never changes what `get` returns, and holds the next batches after a call.
use native.Mathlib.Decide.{dec_lt}
use wav2letter.Base.{
  ℕ, zero, suc, ◌+◌, ◌<◌, ◌≤◌, ◌≡◌, refl, ap, sym, subst, ◌∙◌, ◌⊎◌, inl, inr, Bool, true, false,
  not, Option, none, some, List, [], ◌∷◌, length, get_elem?, arith, Bool-cases, Option-cases, ◌==◌,
  ==_iff, if◌then◌else◌, Result, ok, err, ◌>>=◌, out_of_range, lookup, assign, lookup-assign,
  nat_eq, Result-cases,
}
use wav2letter.Batches.{Dataset, size, keep_keys, get_feature_data, enqueue, prefetch}

module _ {ℓ} {F : Type ℓ} where
  pub lookup-keep_keys :
      (keep : ℕ → Bool) (j : ℕ) (m : List (ℕ × F))
      → lookup j (keep_keys keep m) ≡ (if keep j then lookup j m else none)
  unfolding lookup keep_keys
  lookup-keep_keys keep j [] = ground arith
  lookup-keep_keys keep j ((i, f) ∷ m) = ground (arith, lookup-keep_keys keep j m)

  module _ (feature_data : List ℕ → F) where
    abbrev pub data_of : Dataset F → ℕ → Result F
    data_of ds = get_feature_data feature_data ds

    -- What is cached for an index is what `getFeatureData` computes for it.
    abbrev pub IsCoherent : Dataset F → Type ℓ
    IsCoherent ds = (i : ℕ) (f : F) → lookup i ds.prefetch_cache ≡ some f → data_of ds i ≡ ok f

    get_elem?-lt {κ} :
        {A : Type κ} (xs : List A) (i : ℕ) → i < length xs → (a : A) × (get_elem? xs i ≡ some a)
    get_elem?-lt [] i h = absurd (omega arith)
    get_elem?-lt (x ∷ xs) zero h = (x, refl)
    get_elem?-lt (x ∷ xs) (suc i) h = get_elem?-lt xs i (omega arith)

    get_elem?-ge {κ} : {A : Type κ} (xs : List A) (i : ℕ) → length xs ≤ i → get_elem? xs i ≡ none
    get_elem?-ge [] i h = refl
    get_elem?-ge (x ∷ xs) zero h = absurd (omega arith)
    get_elem?-ge (x ∷ xs) (suc i) h = get_elem?-ge xs i (omega arith)

    pub data_of-lt : (ds : Dataset F) (i : ℕ) → i < size ds → (f : F) × (data_of ds i ≡ ok f)
    unfolding size get_feature_data
    data_of-lt ds i h =
        let (samples, e) = get_elem?-lt ds.sample_batches i h in
        (feature_data samples, rw (e, get_feature_data) refl)

    pub data_of-eq_ok : (ds : Dataset F) (i : ℕ) (f : F) → data_of ds i ≡ ok f → i < size ds
    unfolding size get_feature_data
    data_of-eq_ok ds i f h = elim (dec_lt i (length ds.sample_batches)) [
      | yes less ↦ less
      | no ge ↦
          let bad : data_of ds i ≡ err out_of_range =
            rw (get_elem?-ge ds.sample_batches i (omega arith), get_feature_data) refl in
          cc
    ]

    -- The data of an index depend on the batches alone.
    pub data_of-same :
        (ds ds' : Dataset F) (i : ℕ)
        → ds'.sample_batches ≡ ds.sample_batches
        → data_of ds' i ≡ data_of ds i
    unfolding get_feature_data
    data_of-same ds ds' i e = ground arith

    pub size-same :
        (ds ds' : Dataset F) → ds'.sample_batches ≡ ds.sample_batches → size ds' ≡ size ds
    unfolding size
    size-same ds ds' e = ap length e

    -- What one round of the loop does.
    record IsEnqueued (i : ℕ) (ds ds' : Dataset F) : Type ℓ where
      same : ds'.sample_batches ≡ ds.sample_batches
      coherent : IsCoherent ds → IsCoherent ds'
      others : (j : ℕ) → (i == j) ≡ false → lookup j ds'.prefetch_cache ≡ lookup j ds.prefetch_cache
      cached : i < size ds → (f : F) × (lookup i ds'.prefetch_cache ≡ some f)

    enqueue-IsEnqueued : (i : ℕ) (ds : Dataset F) → IsEnqueued i ds (enqueue feature_data i ds)
    enqueue-IsEnqueued i ds = elim (Option-cases (lookup i ds.prefetch_cache)) [
      | inr (f, e) ↦
          let stay : enqueue feature_data i ds ≡ ds = unfold enqueue in rw (e, enqueue) refl in
          rw stay
            (record { same = refl; coherent = λ c. c; others = λ j ne. refl; cached = λ h. (f, e) })
      | inl e ↦ elim (Result-cases (data_of ds i)) [
        | inr (x, bad) ↦
            let stay : enqueue feature_data i ds ≡ ds =
              unfold enqueue in rw (e, bad, enqueue) refl in
            rw stay (record {
              same = refl;
              coherent = λ c. c;
              others = λ j ne. refl;
              cached = λ h. let (f, good) = data_of-lt ds i h in absurd (cc);
            })
        | inl (f, good) ↦
            let grow : enqueue feature_data i ds
                ≡ record ds { prefetch_cache = assign i f ds.prefetch_cache } =
              unfold enqueue in rw (e, good, enqueue) refl in
            rw grow (record {
              same = refl;
              coherent = λ c j g h.
                  data_of-same ds (record ds { prefetch_cache = assign i f ds.prefetch_cache }) j
                    refl
                  ∙ elim (Bool-cases (i == j)) [
                    | inl e' ↦ ground (arith, e', h, good, lookup-assign i j f ds.prefetch_cache)
                    | inr e' ↦ c j g (sym (lookup-assign i j f ds.prefetch_cache ∙ rw e' refl) ∙ h)
                  ];
              others = λ j ne. lookup-assign i j f ds.prefetch_cache ∙ rw ne refl;
              cached = λ h. (f, ground (arith, lookup-assign i i f ds.prefetch_cache));
            })
      ]
    ]

    -- What the whole loop does, from `i` on.
    pub record IsPrefetched (n i : ℕ) (ds ds' : Dataset F) : Type ℓ where
      pub same : ds'.sample_batches ≡ ds.sample_batches
      pub coherent : IsCoherent ds → IsCoherent ds'
      pub others :
          (j : ℕ) → (j < i) ⊎ (i + n ≤ j) → lookup j ds'.prefetch_cache ≡ lookup j ds.prefetch_cache
      pub cached :
          (j : ℕ)
          → i ≤ j
          → j < i + n
          → j < size ds
          → (f : F) × (lookup j ds'.prefetch_cache ≡ some f)

    pub prefetch-IsPrefetched :
        (n i : ℕ) (ds : Dataset F) → IsPrefetched n i ds (prefetch feature_data n i ds)
    unfolding prefetch
    prefetch-IsPrefetched zero i ds = record {
      same = refl;
      coherent = λ c. c;
      others = λ j h. refl;
      cached = λ j lo hi h. absurd (omega arith);
    }
    prefetch-IsPrefetched (suc n) i ds =
        let ds₁ = enqueue feature_data i ds in
        let one = enqueue-IsEnqueued i ds in
        let rest = prefetch-IsPrefetched n (suc i) ds₁ in
        record {
          same = rest.same ∙ one.same;
          coherent = λ c. rest.coherent (one.coherent c);
          others = λ j h. rest.others j (omega arith) ∙ one.others j (ground (arith, h));
          cached = λ j lo hi h. elim (Bool-cases (i == j)) [
            | inl e ↦
                let same_index = (==_iff i j).0 e in
                let here = one.cached (rw same_index h) in
                (
                  here.0,
                  rest.others j (omega arith)
                      ∙ subst (λ k. lookup k ds₁.prefetch_cache ≡ some here.0) same_index here.1,
                )
            | inr e ↦ rest.cached j (ground arith) (omega arith) (rw (size-same ds ds₁ one.same) h)
          ];
        }

    -- The value that the call returns, and the cache that is left before the loops.
    unfoldable pub fetched : (ds : Dataset F) → ℕ → Result (F × List (ℕ × F))
    fetched ds idx = elim (lookup idx ds.prefetch_cache) [
      | some f ↦ ok (f, keep_keys (λ i. not (i == idx)) ds.prefetch_cache)
      | none ↦ (do f ← get_feature_data feature_data ds idx; ok (f, ds.prefetch_cache))
    ]

    -- A cache out of which only entries were taken, not that of `idx` left.
    pub record IsFetched (ds : Dataset F) (idx : ℕ) (f : F) (cache : List (ℕ × F)) : Type ℓ where
      pub value : data_of ds idx ≡ ok f
      pub gone : lookup idx cache ≡ none
      pub fewer : (j : ℕ) (g : F) → lookup j cache ≡ some g → lookup j ds.prefetch_cache ≡ some g

    pub fetched-IsFetched :
        (ds : Dataset F) (idx : ℕ)
        → IsCoherent ds
        → idx < size ds
        → (f : F) × (cache : List (ℕ × F)) × (fetched ds idx ≡ ok (f, cache))
          × IsFetched ds idx f cache
    unfolding fetched
    fetched-IsFetched ds idx c h = elim (Option-cases (lookup idx ds.prefetch_cache)) [
      | inr (f, e) ↦ (
        f,
        keep_keys (λ i. not (i == idx)) ds.prefetch_cache,
        rw (e, fetched) refl,
        record {
          value = c idx f e;
          gone =
              lookup-keep_keys (λ i. not (i == idx)) idx ds.prefetch_cache
              ∙ (let s : (idx == idx) ≡ true = ground arith in rw s refl);
          fewer = λ j g l.
              sym_if (not (j == idx)) _ g
                (sym (lookup-keep_keys (λ i. not (i == idx)) j ds.prefetch_cache) ∙ l);
        },
      )
      | inl e ↦
          let (f, good) = data_of-lt ds idx h in
          (
            f,
            ds.prefetch_cache,
            rw (e, good, fetched) refl,
            record { value = good; gone = e; fewer = λ j g l. l },
          )
    ]
      where
        sym_if : (b : Bool) (o : Option F) (g : F) → (if b then o else none) ≡ some g → o ≡ some g
        sym_if true o g e = e
        sym_if false o g e = cc
