-- ===== src/Words/Replabels.antt =====
-- Packing repetitions into labels loses nothing.
use native.Mathlib.Decide.{ℕ_discrete}
use wav2letter.Base.{
  ℕ, zero, suc, ◌+◌, ◌<◌, ◌≤◌, ◌≡◌, ◌≢◌, refl, ap, sym, ◌∙◌, ◌⊎◌, inl, inr, true, false, ◌&&◌, none,
  some, List, [], ◌∷◌, ◌++◌, replicate, get_or, ltb, arith, Bool-cases, ok, ℤ, pos, minus_one,
  lookup, assign, lookup-assign, nat_eq, list_eq, int_eq, ◌=?◌, int_beq_iff, All,
}
use wav2letter.Dictionary.{Dictionary, get_index}
use wav2letter.Words.{
  to_string, replabel_indices, flush, pack_loop, pack_replabels, emplace_all, unpack_loop,
  unpack_replabels,
}

module _ {A : Type 0} where
  pub replicate-append :
      (n : ℕ) (a : A) (xs : List A) → replicate n a ++ a ∷ xs ≡ replicate (suc n) a ++ xs
  replicate-append zero a xs = refl
  replicate-append (suc n) a xs = ap (λ t. a ∷ t) (replicate-append n a xs)

-- What the two loops need of the table and the map that they read.
record AreInverse (value_to_idx : List ℤ) (idx_to_value : List (ℤ × ℕ)) (max_reps : ℕ)
    : Type 0 where
  back :
      (r : ℕ) → 1 ≤ r → r ≤ max_reps → lookup (get_or value_to_idx r (pos 0)) idx_to_value ≡ some r

-- A token that is no repetition label and not the mark -1.
abbrev IsPlain : List (ℤ × ℕ) → ℤ → Type 0
IsPlain idx_to_value t = (lookup t idx_to_value ≡ none) × ((t =? minus_one) ≡ false)

module _ (vi : List ℤ) (iv : List (ℤ × ℕ)) (max_reps : ℕ)
    (inverse : AreInverse vi iv max_reps) where
  unpack_loop-plain :
      (prev t : ℤ) (ts : List ℤ)
      → lookup t iv ≡ none
      → unpack_loop iv prev (t ∷ ts) ≡ t ∷ unpack_loop iv t ts
  unfolding unpack_loop
  unpack_loop-plain prev t ts e = ground arith

  unpack_loop-flush :
      (prev : ℤ) (r : ℕ) (ts : List ℤ)
      → (prev =? minus_one) ≡ false
      → suc r ≤ max_reps
      → unpack_loop iv prev (flush vi (suc r) ++ ts)
        ≡ replicate (suc r) prev ++ unpack_loop iv minus_one ts
  unfolding unpack_loop flush
  unpack_loop-flush prev r ts e le =
      let at = inverse.back (suc r) (omega arith) le in rw (unpack_loop, at, e) refl

  pack_loop-same :
      (prev t : ℤ) (reps : ℕ) (ts : List ℤ)
      → (t =? prev && ltb reps max_reps) ≡ true
      → pack_loop vi max_reps prev reps (t ∷ ts) ≡ pack_loop vi max_reps prev (suc reps) ts
  unfolding pack_loop
  pack_loop-same prev t reps ts e = rw (e, pack_loop) refl

  pack_loop-new :
      (prev t : ℤ) (reps : ℕ) (ts : List ℤ)
      → (t =? prev && ltb reps max_reps) ≡ false
      → pack_loop vi max_reps prev reps (t ∷ ts) ≡ flush vi reps ++ t ∷ pack_loop vi max_reps t 0 ts
  unfolding pack_loop
  pack_loop-new prev t reps ts e = rw (e, pack_loop) refl

  -- `reps` copies of the last token wait to be written.
  unpack_loop-pack_loop :
      (ts : List ℤ) (prev : ℤ) (reps : ℕ)
      → All (IsPlain iv) ts
      → reps ≤ max_reps
      → ((prev =? minus_one) ≡ false) ⊎ (reps ≡ 0)
      → unpack_loop iv prev (pack_loop vi max_reps prev reps ts) ≡ replicate reps prev ++ ts
  unfolding flush
  unpack_loop-pack_loop [] prev zero plain le ready = unfold pack_loop flush unpack_loop in refl
  unpack_loop-pack_loop [] prev (suc r) plain le (inr e) = absurd (omega arith)
  unpack_loop-pack_loop [] prev (suc r) plain le (inl e) =
      unfold pack_loop unpack_loop in unpack_loop-flush prev r [] e le
  unpack_loop-pack_loop (t ∷ ts) prev reps plain le ready =
      elim (Bool-cases (t =? prev && ltb reps max_reps)) [
        | inl same ↦
            let eq : t ≡ prev = ground (arith, int_beq_iff t prev, same) in
            let less : reps < max_reps = ground (arith, same) in
            rw (pack_loop-same prev t reps ts same) (
              unpack_loop-pack_loop ts prev (suc reps) plain.1 (omega arith)
                (inl (rw eq at plain.0.1))
              ∙ (sym (replicate-append reps prev ts)
                  ∙ ap (λ x. replicate reps prev ++ x ∷ ts) (sym eq)))
        | inr new ↦
            rw (pack_loop-new prev t reps ts new)
              (after reps le ready (unpack_loop-pack_loop ts t 0 plain.1 (omega arith) (inr refl)))
      ]
    where
      rest : List ℤ
      rest = pack_loop vi max_reps t 0 ts

      after :
          (r : ℕ)
          → r ≤ max_reps
          → ((prev =? minus_one) ≡ false) ⊎ (r ≡ 0)
          → unpack_loop iv t rest ≡ ts
          → unpack_loop iv prev (flush vi r ++ t ∷ rest) ≡ replicate r prev ++ t ∷ ts
      after zero le' ready' ih =
          unfold flush in unpack_loop-plain prev t rest plain.0.0 ∙ ap (λ x. t ∷ x) ih
      after (suc r) le' (inr e) ih = absurd (omega arith)
      after (suc r) le' (inl e) ih =
          unpack_loop-flush prev r (t ∷ rest) e le'
          ∙ ap (λ x. replicate (suc r) prev ++ x)
              (unpack_loop-plain minus_one t rest plain.0.0 ∙ ap (λ x. t ∷ x) ih)

-- What the dictionary says of the labels: "1", "2", … have indices, all different, and no token of
-- the sequence is one of them or -1.
pub record HasReplabels (dict : Dictionary) (max_reps : ℕ) (tokens : List ℤ) : Type 0 where
  pub index : ℕ → ℤ
  pub known : (i : ℕ) → 1 ≤ i → i ≤ max_reps → get_index dict (to_string i) ≡ ok (index i)
  pub distinct : (i j : ℕ) → 1 ≤ i → i ≤ max_reps → 1 ≤ j → j ≤ max_reps → index i ≡ index j → i ≡ j
  pub plain : All (λ t. (t ≢ minus_one) × ((i : ℕ) → 1 ≤ i → i ≤ max_reps → t ≢ index i)) tokens

-- `index i, index (i + 1), …`
indices_from : (ℕ → ℤ) → ℕ → ℕ → List ℤ
indices_from index zero i = []
indices_from index (suc n) i = index i ∷ indices_from index n (suc i)

get_or-indices_from :
    (index : ℕ → ℤ) (n i k : ℕ) (d : ℤ)
    → k < n
    → get_or (indices_from index n i) k d ≡ index (i + k)
unfolding indices_from
get_or-indices_from index zero i k d h = absurd (omega arith)
get_or-indices_from index (suc n) i zero d h = let e : i ≡ i + 0 = omega arith in ap index e
get_or-indices_from index (suc n) i (suc k) d h =
    let e : suc i + k ≡ i + suc k = omega arith in
    get_or-indices_from index n (suc i) k d (omega arith) ∙ ap index e

-- After the loop of `emplace` an index that is not among the new ones is looked up as before, and
-- the new ones are mapped to their numbers if they are all different and not there yet.
lookup-emplace_all_old :
    (index : ℕ → ℤ) (n i : ℕ) (m : List (ℤ × ℕ)) (t : ℤ)
    → ((j : ℕ) → i ≤ j → j < i + n → t ≢ index j)
    → lookup t (emplace_all (indices_from index n i) i m) ≡ lookup t m
unfolding indices_from emplace_all
lookup-emplace_all_old index zero i m t h = refl
lookup-emplace_all_old index (suc n) i m t h =
    lookup-emplace_all_old index n (suc i) _ t (λ j lo hi. h j (omega arith) (omega arith))
    ∙ ground (
      arith,
      lookup-assign (index i) t i m,
      int_beq_iff (index i) t,
      h i (omega arith) (omega arith),
    )

emplace_all-fresh :
    (idx : ℤ) (indices : List ℤ) (i : ℕ) (m : List (ℤ × ℕ))
    → lookup idx m ≡ none
    → emplace_all (idx ∷ indices) i m ≡ emplace_all indices (suc i) (assign idx i m)
unfolding emplace_all
emplace_all-fresh idx indices i m e = rw e refl

lookup-emplace_all_new :
    (index : ℕ → ℤ) (n i : ℕ) (m : List (ℤ × ℕ)) (k : ℕ)
    → ((j l : ℕ) → i ≤ j → j < i + n → i ≤ l → l < i + n → index j ≡ index l → j ≡ l)
    → ((j : ℕ) → i ≤ j → j < i + n → lookup (index j) m ≡ none)
    → i ≤ k
    → k < i + n
    → lookup (index k) (emplace_all (indices_from index n i) i m) ≡ some k
unfolding indices_from
lookup-emplace_all_new index zero i m k inj fresh lo hi = absurd (omega arith)
lookup-emplace_all_new index (suc n) i m k inj fresh lo hi =
    let added =
      emplace_all-fresh (index i) (indices_from index n (suc i)) i m
        (fresh i (omega arith) (omega arith)) in
    elim (ℕ_discrete k i) [
      | yes here ↦
          rw (here, added)
            (lookup-emplace_all_old index n (suc i) _ (index i) (λ j lo' hi' e.
                absurd (
                  omega (arith, inj i j (omega arith) (omega arith) (omega arith) (omega arith) e)))
              ∙ ground
                  (arith, lookup-assign (index i) (index i) i m, int_beq_iff (index i) (index i)))
      | no there ↦ rw added (
          lookup-emplace_all_new index n (suc i) _ k
            (λ j l a b c d e. inj j l (omega arith) (omega arith) (omega arith) (omega arith) e)
            (λ j lo' hi'. step j lo' hi') (omega arith) (omega arith))
    ]
  where
    step : (j : ℕ) → suc i ≤ j → j < suc i + n → lookup (index j) (assign (index i) i m) ≡ none
    step j lo' hi' =
        let apart : index i ≢ index j = λ e.
          absurd
            (omega (arith, inj i j (omega arith) (omega arith) (omega arith) (omega arith) e)) in
        ground (
          arith,
          lookup-assign (index i) (index j) i m,
          int_beq_iff (index i) (index j),
          apart,
          fresh j (omega arith) (omega arith),
        )

replabel_indices-ok :
    (dict : Dictionary) (index : ℕ → ℤ) (n i : ℕ)
    → ((j : ℕ) → i ≤ j → j < i + n → get_index dict (to_string j) ≡ ok (index j))
    → replabel_indices dict n i ≡ ok (indices_from index n i)
unfolding replabel_indices indices_from
replabel_indices-ok dict index zero i known = refl
replabel_indices-ok dict index (suc n) i known =
    rw
      (
        known i (omega arith) (omega arith),
        replabel_indices-ok dict index n (suc i) (λ j lo hi. known j (omega arith) (omega arith)),
      )
      refl

module _ (dict : Dictionary) (n : ℕ) (tokens : List ℤ) (r : HasReplabels dict (suc n) tokens) where
  vi : List ℤ
  vi = pos 0 ∷ indices_from r.index (suc n) 1

  iv : List (ℤ × ℕ)
  iv = emplace_all (indices_from r.index (suc n) 1) 1 []

  vi-iv : AreInverse vi iv (suc n)
  unfolding vi iv
  vi-iv = record {
    back = elim [
      | zero ↦ λ lo hi. absurd (omega arith)
      | suc k ↦ λ lo hi. rw (get_or-indices_from r.index (suc n) 1 k (pos 0) (omega arith)) (
          let e : 1 + k ≡ suc k = omega arith in
          rw e (
            lookup-emplace_all_new r.index (suc n) 1 [] (suc k)
              (λ j l a b c d e. r.distinct j l a (omega arith) c (omega arith) e)
              (λ j a b. unfold lookup in refl) (omega arith) (omega arith)))
    ];
  }

  All-IsPlain :
      (ts : List ℤ)
      → All (λ t. (t ≢ minus_one) × ((i : ℕ) → 1 ≤ i → i ≤ suc n → t ≢ r.index i)) ts
      → All (IsPlain iv) ts
  unfolding iv
  All-IsPlain [] h = tt
  All-IsPlain (t ∷ ts) h = (
    (
      lookup-emplace_all_old r.index (suc n) 1 [] t (λ j lo hi. h.0.1 j lo (omega arith))
          ∙ unfold lookup in refl,
      ground (arith, int_beq_iff t minus_one, h.0.0),
    ),
    All-IsPlain ts h.1,
  )

-- Unpacking gives the tokens back, if the labels "1", "2", … have indices in the dictionary, all
-- different, and no token is one of them or -1. Neither call fails.
pub unpack_replabels-pack_replabels :
    (dict : Dictionary) (max_reps : ℕ) (tokens : List ℤ)
    → HasReplabels dict max_reps tokens
    → (packed : List ℤ) × (pack_replabels tokens dict max_reps ≡ ok packed)
      × (unpack_replabels packed dict max_reps ≡ ok tokens)
unfolding pack_replabels unpack_replabels
unpack_replabels-pack_replabels dict max_reps [] r = ([], refl, refl)
unpack_replabels-pack_replabels dict zero (t ∷ ts) r = (t ∷ ts, refl, refl)
unpack_replabels-pack_replabels dict (suc n) (t ∷ ts) r =
    let table = vi dict n (t ∷ ts) r in
    let inverse = vi-iv dict n (t ∷ ts) r in
    let plain = All-IsPlain dict n (t ∷ ts) r (t ∷ ts) r.plain in
    let indices =
      replabel_indices-ok dict r.index (suc n) 1 (λ j lo hi. r.known j lo (omega arith)) in
    let starts =
      pack_loop-new table (iv dict n (t ∷ ts) r) (suc n) inverse minus_one t 0 ts
        (ground (arith, plain.0.1)) in
    let packed = t ∷ pack_loop table (suc n) t 0 ts in
    let back =
      unpack_loop-pack_loop table (iv dict n (t ∷ ts) r) (suc n) inverse (t ∷ ts) minus_one 0 plain
        (omega arith) (inr refl) in
    (
      packed,
      rw indices (ap ok (unfold vi flush in starts)),
      rw indices (ap ok (unfold vi iv flush in (rw starts at back))),
    )
