-- ===== src/Dictionary/Stream.antt =====
-- Reading a dictionary from a stream.
use wav2letter.Base.{
  ℕ, zero, suc, ◌+◌, ◌<◌, ◌≤◌, ◌≡◌, refl, ◌∙◌, inl, inr, true, Option, none, some, List, [], ◌∷◌,
  arith, Bool-cases, Option-cases, ok, err, guard, invalid_argument, runtime_error, ℤ, pos, lookup,
  assign, lookup-assign, length-assign, int_eq, list_eq, nat_eq, All, >>=-eq-ok, Error,
  Result-cases,
}
use wav2letter.Text.{Bytes, split_on_whitespace, is_empty}
use wav2letter.Dictionary.{
  Dictionary, empty, is_some, add_entry_at, index_size, add_line, add_lines, create_from_stream,
  all_indices, all_entries, is_contiguous,
}
use wav2letter.Dictionary.Consistent.{
  count_from, count_from-le-length, count_from-lookup, IsConsistent, empty-IsConsistent,
  add_entry_at-fresh, add_entry_at-IsConsistent,
}

abbrev HasIndex : List (ℤ × Bytes) → Bytes × ℤ → Type 0
HasIndex m e = is_some (lookup e.1 m) ≡ true

-- The indices are 0, 1, … without a gap, and every entry has one of them.
pub record IsDense (d : Dictionary) : Type 0 where
  pub indices : (i : ℕ) → i < index_size d → is_some (lookup (pos i) d.idx2entry) ≡ true
  pub entries : All (HasIndex d.idx2entry) d.entry2idx

lookup-assign_mono :
    (i j : ℤ) (e : Bytes) (m : List (ℤ × Bytes))
    → is_some (lookup i m) ≡ true
    → is_some (lookup i (assign j e m)) ≡ true
lookup-assign_mono i j e m h = ground (arith, lookup-assign j i e m)

All-mono :
    (es : List (Bytes × ℤ)) (j : ℤ) (e : Bytes) (m : List (ℤ × Bytes))
    → All (HasIndex m) es
    → All (HasIndex (assign j e m)) es
All-mono [] j e m h = tt
All-mono (x ∷ es) j e m h = (lookup-assign_mono x.1 j e m h.0, All-mono es j e m h.1)

All-assign :
    (es : List (Bytes × ℤ)) (entry : Bytes) (idx : ℤ) (m : List (ℤ × Bytes))
    → All (HasIndex m) es
    → is_some (lookup idx m) ≡ true
    → All (HasIndex m) (assign entry idx es)
unfolding assign
All-assign [] entry idx m h e = (e, tt)
All-assign ((f, i) ∷ es) entry idx m h e = ground (arith, All-assign es entry idx m h.1)

is_some-some {ℓ} : {A : Type ℓ} (o : Option A) → is_some o ≡ true → (a : A) × (o ≡ some a)
is_some-some none h = cc
is_some-some (some a) h = (a, refl)

le-count_from :
    (j k : ℕ) (m : List (ℤ × Bytes))
    → ((i : ℕ) → k ≤ i → i < k + j → is_some (lookup (pos i) m) ≡ true)
    → j ≤ count_from k m
le-count_from zero k m all = omega arith
le-count_from (suc j) k m all =
    let here = is_some-some (lookup (pos k) m) (all k (omega arith) (omega arith)) in
    omega (
      arith,
      count_from-lookup k m here.0 here.1,
      le-count_from j (suc k) m (λ i lo hi. all i (omega arith) (omega arith)),
    )

module _ (entry : Bytes) (n : ℕ) (d d' : Dictionary) (c : IsDense d) (le : n ≤ index_size d) where
  add-IsDense_old :
      is_some (lookup (pos n) d.idx2entry) ≡ true
      → d'.entry2idx ≡ assign entry (pos n) d.entry2idx
      → d'.idx2entry ≡ d.idx2entry
      → IsDense d' × (n < index_size d')
  unfolding index_size
  add-IsDense_old old e₁ e₂ = (
    record {
      indices = λ i h. rw e₂ (c.indices i (rw e₂ at h));
      entries = rw (e₁, e₂) (All-assign d.entry2idx entry (pos n) d.idx2entry c.entries old);
    },
    rw e₂ (
        omega (
          arith,
          count_from-le-length 0 d.idx2entry,
          le-count_from (suc n) 0 d.idx2entry (λ i lo hi. ground (arith, c.indices i)),
        )),
  )

  add-IsDense_new :
      lookup (pos n) d.idx2entry ≡ none
      → d'.entry2idx ≡ assign entry (pos n) d.entry2idx
      → d'.idx2entry ≡ assign (pos n) entry d.idx2entry
      → IsDense d' × (n < index_size d')
  unfolding index_size
  add-IsDense_new new e₁ e₂ =
      let size = length-assign (pos n) entry d.idx2entry new in
      let here : is_some (lookup (pos n) (assign (pos n) entry d.idx2entry)) ≡ true =
        ground (arith, lookup-assign (pos n) (pos n) entry d.idx2entry) in
      (
        record {
          indices = λ i h. ground (
            arith,
            e₂,
            size,
            lookup-assign (pos n) (pos i) entry d.idx2entry,
            c.indices i,
            c.indices n,
          );
          entries =
              rw (e₁, e₂)
                (All-assign d.entry2idx entry (pos n) _
                  (All-mono d.entry2idx (pos n) entry d.idx2entry c.entries) here);
        },
        rw e₂ (omega (arith, size)),
      )

  add_entry_at-IsDense : add_entry_at entry (pos n) d ≡ ok d' → IsDense d' × (n < index_size d')
  add_entry_at-IsDense h =
      let f = add_entry_at-fresh entry (pos n) d d' h in
      elim (Option-cases (lookup (pos n) d.idx2entry)) [
        | inl new ↦ add-IsDense_new new f.1 (ground (arith, f.2))
        | inr (e, old) ↦ add-IsDense_old (ground arith) f.1 (ground (arith, f.2))
      ]

-- A dictionary that is being read: nothing but a repeated entry can go wrong.
abbrev IsLoaded : Dictionary → Type 0
IsLoaded d = IsDense d × IsConsistent d

add_line-IsLoaded :
    (tkns : List Bytes) (n : ℕ) (d d' : Dictionary)
    → IsLoaded d
    → n ≤ index_size d
    → add_line tkns (pos n) d ≡ ok d'
    → IsLoaded d'
unfolding add_line
add_line-IsLoaded [] n d d' c le h = ground arith
add_line-IsLoaded (t ∷ ts) n d d' c le h =
    let (d₁, e₁, e₂) = >>=-eq-ok (add_entry_at t (pos n) d) (add_line ts (pos n)) h in
    let (dense, less) = add_entry_at-IsDense t n d d₁ c.0 le e₁ in
    add_line-IsLoaded ts n d₁ d' (dense, add_entry_at-IsConsistent t (pos n) d d₁ c.1 e₁)
      (omega arith) e₂

add_lines-IsLoaded :
    (lines : List Bytes) (d d' : Dictionary) → IsLoaded d → add_lines lines d ≡ ok d' → IsLoaded d'
unfolding add_lines
add_lines-IsLoaded [] d d' c h = ground arith
add_lines-IsLoaded (l ∷ ls) d d' c h = elim (Bool-cases (is_empty l)) [
  | inl e ↦ add_lines-IsLoaded ls d d' c (rw e at h)
  | inr e ↦
      let (d₁, e₁, e₂) =
        >>=-eq-ok (add_line (split_on_whitespace l true) (pos (index_size d)) d) (add_lines ls)
          (rw e at h) in
      add_lines-IsLoaded ls d₁ d'
        (add_line-IsLoaded (split_on_whitespace l true) (index_size d) d d₁ c (omega arith) e₁) e₂
]

empty-IsLoaded : IsLoaded empty
unfolding index_size
empty-IsLoaded =
    (record { indices = λ i h. absurd (omega arith); entries = tt }, empty-IsConsistent)

all_indices-true :
    (n i : ℕ) (m : List (ℤ × Bytes))
    → ((j : ℕ) → i ≤ j → j < i + n → is_some (lookup (pos j) m) ≡ true)
    → all_indices n i m ≡ true
unfolding all_indices
all_indices-true zero i m h = refl
all_indices-true (suc n) i m h =
    rw
      (
        h i (omega arith) (omega arith),
        all_indices-true n (suc i) m (λ j lo hi. h j (omega arith) (omega arith)),
      )
      refl

all_entries-true :
    (es : List (Bytes × ℤ)) (m : List (ℤ × Bytes)) → All (HasIndex m) es → all_entries es m ≡ true
unfolding all_entries
all_entries-true [] m h = refl
all_entries-true ((e, i) ∷ es) m h = rw (h.0, all_entries-true es m h.1) refl

IsDense-is_contiguous : (d : Dictionary) → IsDense d → is_contiguous d ≡ true
unfolding is_contiguous
IsDense-is_contiguous d c =
    rw
      (
        all_indices-true (index_size d) 0 d.idx2entry (λ j lo hi. c.indices j (omega arith)),
        all_entries-true d.entry2idx d.idx2entry c.entries,
      )
      refl

-- A dictionary that is read from a stream has the indices 0, 1, … without a gap, every entry has
-- one of them, and its two maps agree.
pub create_from_stream-IsDense :
    (lines : List Bytes) {d : Dictionary}
    → create_from_stream true lines ≡ ok d
    → IsDense d × IsConsistent d
unfolding create_from_stream
create_from_stream-IsDense lines {d} h =
    let (d₁, e₁, e₂) = >>=-eq-ok (add_lines lines empty) _ h in
    let (_, _, same) = >>=-eq-ok (guard (is_contiguous d₁) runtime_error) _ e₂ in
    add_lines-IsLoaded lines empty d empty-IsLoaded (e₁ ∙ same)

add_line-err :
    (tkns : List Bytes) (idx : ℤ) (d : Dictionary) (x : Error)
    → add_line tkns idx d ≡ err x
    → x ≡ invalid_argument
unfolding add_line add_entry_at
add_line-err [] idx d x h = cc
add_line-err (t ∷ ts) idx d x h = elim (Option-cases (lookup t d.entry2idx)) [
  | inl e ↦ add_line-err ts idx _ x (rw e at h)
  | inr (i, e) ↦ ground arith
]

add_lines-err :
    (lines : List Bytes) (d : Dictionary) (x : Error)
    → add_lines lines d ≡ err x
    → x ≡ invalid_argument
unfolding add_lines
add_lines-err [] d x h = cc
add_lines-err (l ∷ ls) d x h = elim (Bool-cases (is_empty l)) [
  | inl e ↦ add_lines-err ls d x (rw e at h)
  | inr e ↦
      let step = add_line (split_on_whitespace l true) (pos (index_size d)) d in
      elim (Result-cases step) [
        | inl (d₁, ok₁) ↦ add_lines-err ls d₁ x (rw (e, ok₁) at h)
        | inr (y, err₁) ↦
            let same : err y ≡ err x = rw (e, err₁) at h in
            ground (arith, same, add_line-err _ (pos (index_size d)) d y err₁)
      ]
]

-- Reading a stream that is good fails only on a repeated entry: the test for gaps, with its
-- `runtime_error`, never fires.
pub create_from_stream-err :
    (lines : List Bytes) {x : Error}
    → create_from_stream true lines ≡ err x
    → (x ≡ invalid_argument) × (add_lines lines empty ≡ err x)
unfolding create_from_stream
create_from_stream-err lines {x} h = elim (Result-cases (add_lines lines empty)) [
  | inl (d, e) ↦
      let dense = add_lines-IsLoaded lines empty d empty-IsLoaded e in
      let same : ok d ≡ err x = rw (e, IsDense-is_contiguous d dense.0) at h in cc
  | inr (y, e) ↦
      let same : err y ≡ err x = rw e at h in
      (ground (arith, same, add_lines-err lines empty y e), e ∙ same)
]
