-- ===== src/Decoder/Proposed.antt =====
-- The loops and the acoustic scores of the proposals in LexiconDecoder.cpp and LexiconFreeDecoder.cpp of
-- src/libraries/decoder: no read leaves the emissions or the transitions.
use wav2letter.Base.{
  ℕ, zero, suc, ◌+◌, ◌*◌, ◌≤◌, ◌<◌, ◌≡◌, refl, sym, subst, inl, inr, true, some, List, [], ◌∷◌,
  ◌++◌, length, get_elem?, Result, ok, ℤ, pos, ltb, All, All-append, Bool-cases, if◌then◌else◌,
  ◌=?◌, int_eq, arith,
}
use wav2letter.Beam.Kept.{take-All, Permᴰ-sym}
use wav2letter.Beam.Stored.{All-Permᴰ}
use wav2letter.Decoder.Buffer.{read, index, count_from}
use wav2letter.Decoder.State.{State, Setup, is_asg}
use wav2letter.Decoder.Online.{top_tokens}
use wav2letter.Decoder.Proposals.{
  concat_map, concat_from, add_transition, emission_score, token_score,
}
use wav2letter.Decoder.Valid.{IsSound}

module _ {ℓ κ π} {A : Type ℓ} {B : Type κ} (Q : A → Type π) where
  pub concat_map-ok {ρ} :
      (P : B → Type ρ) (f : B → Result (List A)) (xs : List B)
      → ((x : B) → P x → (ys : List A) × (f x ≡ ok ys) × All Q ys)
      → All P xs
      → (zs : List A) × (concat_map f xs ≡ ok zs) × All Q zs
  unfolding concat_map
  concat_map-ok P f [] h all = ([], refl, tt)
  concat_map-ok P f (x ∷ xs) h all =
      let (ys, e, q) = h x all.0 in
      let (zs, e', q') = concat_map-ok P f xs h all.1 in
      (ys ++ zs, rw (e, e') refl, All-append Q ys zs q q')

  pub concat_from-ok :
      (f : ℕ → B → Result (List A)) (p : ℕ) (xs : List B)
      → ((i : ℕ) (x : B)
          → get_elem? xs i ≡ some x
          → (ys : List A) × (f (p + i) x ≡ ok ys) × All Q ys)
      → (zs : List A) × (concat_from f p xs ≡ ok zs) × All Q zs
  unfolding concat_from
  concat_from-ok f p [] h = ([], refl, tt)
  concat_from-ok f p (x ∷ xs) h =
      let (ys, e, q) = h 0 x refl in
      let here : f p x ≡ ok ys = subst (λ i. f i x ≡ ok ys) (omega arith) e in
      let (zs, e', q') = concat_from-ok f (suc p) xs (λ i y at.
        subst (λ j. (ys : List A) × (f j y ≡ ok ys) × All Q ys) (omega arith) (h (suc i) y at)) in
      (ys ++ zs, rw (here, e') refl, All-append Q ys zs q q')

pub read-ok {ℓ} : {A : Type ℓ} (xs : List A) (i : ℕ) → i < length xs → (x : A) × (read xs i ≡ ok x)
unfolding read
read-ok [] i lt = absurd (omega arith)
read-ok (x ∷ xs) zero lt = (x, refl)
read-ok (x ∷ xs) (suc i) lt = read-ok xs i (omega arith)

-- A cell of a row-major matrix.
pub in_matrix : (t n t_rows k : ℕ) → t < t_rows → k < n → t * n + k < t_rows * n
in_matrix t n t_rows k lt lt' = omega (arith, rows t_rows t n lt)
  where
    rows : (t_rows t n : ℕ) → t < t_rows → t * n + n ≤ t_rows * n
    rows zero t n lt = absurd (omega arith)
    rows (suc t_rows) zero n lt = omega arith
    rows (suc t_rows) (suc t) n lt = omega (arith, rows t_rows t n (omega arith))

-- A token that is an index below `n`.
abbrev pub IsToken : ℕ → ℤ → Type 0
IsToken n token = (k : ℕ) × (token ≡ pos k) × (k < n)

pub count_from-All : (i n m : ℕ) → i + n ≤ m → All (λ k. k < m) (count_from i n)
unfolding count_from
count_from-All i zero m le = tt
count_from-All i (suc n) m le = (omega arith, count_from-All (suc i) n m (omega arith))

module _ {ℓ κ μ ν} {S : Type ℓ} {L : Type κ} {X : Type μ} {M : Type ν} (d : Setup S L X M)
    (sound : IsSound d) where
  pub top_tokens-All :
      (emissions : List S) (t n : ℕ) → All (λ k. k < n) (top_tokens d emissions t n)
  unfolding top_tokens
  top_tokens-All emissions t n =
      let counted = count_from-All 0 n n (omega arith) in
      elim (Bool-cases (ltb d.opt.beam_size_token n)) [
        | inl e ↦ rw e (
            take-All (λ k. k < n) d.opt.beam_size_token _
              (All-Permᴰ (λ k. k < n) (Permᴰ-sym (sound.tokens_perm _ _ (count_from 0 n))) counted))
        | inr e ↦ rw e (take-All (λ k. k < n) n (count_from 0 n) counted)
      ]

  module _ (transitions emissions : List S) (n n_frames n_decoded : ℕ)
      (filled : length emissions ≡ n_frames * n)
      (square : is_asg d.opt.criterion_type ≡ true → length transitions ≡ n * n) where
    pub emission_score-ok :
        (t : ℕ) (token : ℤ) (prev : State S L X)
        → t < n_frames
        → IsToken n token
        → (s : S) × (emission_score d transitions emissions n n_decoded t token prev ≡ ok s)
    unfolding emission_score index
    emission_score-ok t token prev lt (k, e, below) =
        let (v, read_it) =
          read-ok emissions (t * n + k)
            (subst (λ m. t * n + k < m) (sym filled) (in_matrix t n n_frames k lt below)) in
        (d.numbers.plus prev.score v, rw (e, read_it) refl)

    add_transition-ok :
        (t : ℕ) (token prev_idx : ℤ) (score : S)
        → IsToken n token
        → IsToken n prev_idx
        → (s : S) × (add_transition d transitions emissions n n_decoded t token prev_idx score
            ≡ ok s)
    unfolding add_transition index
    add_transition-ok t token prev_idx score (k, e, below) (k', e', below') =
        elim (Bool-cases (ltb 0 (n_decoded + t))) [
          | inr first ↦ (score, rw first refl)
          | inl later ↦ elim (Bool-cases (is_asg d.opt.criterion_type)) [
            | inr other ↦ (score, rw (later, other) refl)
            | inl asg ↦
                let (v, read_it) = read-ok transitions (k * n + k') (
                  subst (λ m. k * n + k' < m) (sym (square asg))
                    (in_matrix k n n k' below below')) in
                (d.numbers.plus score v, rw (later, asg, e, e', read_it) refl)
          ]
        ]

    pub token_score-ok :
        (t : ℕ) (token : ℤ) (prev : State S L X)
        → t < n_frames
        → IsToken n token
        → IsToken n prev.token
        → (s : S) × (token_score d transitions emissions n n_decoded t token prev ≡ ok s)
    unfolding token_score
    token_score-ok t token prev lt is_token is_prev =
        let (s, e) = emission_score-ok t token prev lt is_token in
        let (s', e') = add_transition-ok t token prev.token s is_token is_prev in
        (if token =? d.sil then d.numbers.plus s' d.opt.sil_score else s', rw (e, e') refl)
