-- ===== src/Decoder/Rounds.antt =====
-- The rounds of LexiconSeq2SeqDecoder.cpp and LexiconFreeSeq2SeqDecoder.cpp in src/libraries/decoder:
-- what is asked of the acoustic model fits what is read of its answer.
use wav2letter.Base.{
  ℕ, zero, suc, ◌+◌, ◌≤◌, ◌<◌, ◌≡◌, refl, ap, subst, ◌∙◌, inl, inr, true, false, Option, none, some,
  List, [], ◌∷◌, ◌++◌, length, take, min, get_elem?, get_or, ltb, leb, ok, ℤ, minus_one, ◌=?◌,
  int_eq, All, All-append, Bool-cases, Option-cases, arith,
}
use wav2letter.Beam.Kept.{take-All, Permᴰ-sym}
use wav2letter.Beam.Stored.{All-Permᴰ}
use wav2letter.Decoder.Buffer.{read, count_from}
use wav2letter.Decoder.State.{Setup}
use wav2letter.Decoder.Frames.{Place, place}
use wav2letter.Decoder.Valid.{IsSound, IsProposal}
use wav2letter.Decoder.Proposed.{read-ok, count_from-All}
use wav2letter.Decoder.Seq2Seq.{
  AmUpdate, last_row, n_classes_of, SeqState, raw_tokens, raw_states, keep_complete, best_tokens,
  Expand, expand_one, expand_all, seq_propose,
}

module _ {ℓ α} {S : Type ℓ} {A : Type α} where
  -- The acoustic model answers for each hypothesis, with as many scores for each as there are tokens.
  pub record IsAmUpdate (n_classes : ℕ) (am_update : AmUpdate S A) : Type (ℓ ⊔ α) where
    pub rows :
        (ts : List ℤ) (ss : List (Option A)) (t : ℕ) → length (am_update ts ss t).0 ≡ length ts
    pub outs :
        (ts : List ℤ) (ss : List (Option A)) (t : ℕ) → length (am_update ts ss t).1 ≡ length ts
    pub classes :
        (ts : List ℤ) (ss : List (Option A)) (t : ℕ)
        → All (λ row. length row ≡ n_classes) (am_update ts ss t).0

last_row-length {ℓ} :
    {S : Type ℓ} (n : ℕ) (row : List S) (rows : List (List S))
    → length row ≡ n
    → All (λ r. length r ≡ n) rows
    → length (last_row row rows) ≡ n
last_row-length n row [] e all = e
last_row-length n row (next ∷ rows) e all = last_row-length n next rows all.0 all.1

read-All {ℓ π} :
    {A : Type ℓ} (P : A → Type π) (xs : List A) (i : ℕ)
    → i < length xs
    → All P xs
    → (x : A) × (read xs i ≡ ok x) × P x
unfolding read
read-All P [] i lt all = absurd (omega arith)
read-All P (x ∷ xs) zero lt all = (x, refl, all.0)
read-All P (x ∷ xs) (suc i) lt all = read-All P xs i (omega arith) all.1

module _ {ℓ κ μ α ν π} {S : Type ℓ} {L : Type κ} {X : Type μ} {A : Type α} {M : Type ν}
    (d : Setup S L (X × Option A) M) (sound : IsSound d) (eos : ℤ)
    (P : Place (X × Option A) → Type π)
    (R : Place (X × Option A) → Place (X × Option A) → Type π) where
  abbrev Proposal : List (SeqState d eos) → SeqState d eos → Type (ℓ ⊔ κ ⊔ μ ⊔ α ⊔ π)
  Proposal frame st = IsProposal P R frame st

  best_tokens-ok :
      (scores : List S) (n_classes : ℕ)
      → length scores ≡ n_classes
      → (ts : List ℕ) × (best_tokens d eos scores n_classes ≡ ok ts)
        × All (λ k. k < length scores) ts
  unfolding best_tokens
  best_tokens-ok scores n_classes e =
      let score : ℕ → S = λ l. get_or scores l d.numbers.zero_score in
      let k = min (length scores) d.opt.beam_size_token in
      let fits : leb k n_classes ≡ true = ground arith in
      let counted = count_from-All 0 n_classes (length scores) (omega arith) in
      elim (Bool-cases (ltb d.opt.beam_size_token (length scores))) [
        | inl big ↦ (
          take k (d.sorts.sort_tokens score d.opt.beam_size_token (count_from 0 n_classes)),
          rw (fits, big) refl,
          take-All (λ j. j < length scores) k _
              (All-Permᴰ (λ j. j < length scores)
                (Permᴰ-sym (sound.tokens_perm _ _ (count_from 0 n_classes))) counted),
        )
        | inr small ↦ (
          take k (count_from 0 n_classes),
          rw (fits, small) refl,
          take-All (λ j. j < length scores) k (count_from 0 n_classes) counted,
        )
      ]

  -- What a decoder has to do for a hypothesis, and that a complete one is kept.
  pub record IsExpanding (expand : Expand d eos) : Type (ℓ ⊔ κ ⊔ μ ⊔ α ⊔ ν ⊔ π) where
    pub keeps :
        (st : SeqState d eos)
        → P (place P R st)
        → (st.token =? eos) ≡ true
        → P ((st.lex.0, none), eos, minus_one) × R (place P R st) ((st.lex.0, none), eos, minus_one)
    pub expands :
        (cache : M) (frame : List (SeqState d eos)) (p : ℕ) (st : SeqState d eos) (am_state : A)
        (scores : List S) (tokens : List ℕ)
        → get_elem? frame p ≡ some st
        → P (place P R st)
        → (st.token =? eos) ≡ false
        → All (λ k. k < length scores) tokens
        → (ys : List (SeqState d eos)) × (expand cache p st (some am_state) scores tokens ≡ ok ys)
          × All (Proposal frame) ys

  module _ (expand : Expand d eos) (expanding : IsExpanding expand) where
    expand_one-ok :
        (cache : M) (frame : List (SeqState d eos)) (rows : List (List S)) (outs : List (Option A))
        (n_classes p v : ℕ) (st : SeqState d eos)
        → All (λ row. length row ≡ n_classes) rows
        → v < length rows
        → v < length outs
        → get_elem? frame p ≡ some st
        → P (place P R st)
        → (st.token =? eos) ≡ false
        → (ys : List (SeqState d eos)) × (expand_one d eos expand cache rows outs n_classes p v st
            ≡ ok ys)
          × All (Proposal frame) ys
    unfolding expand_one
    expand_one-ok cache frame rows outs n_classes p v st all lt lt' at here going =
        let (out, read_out) = read-ok outs v lt' in
        elim (Option-cases out) [
          | inl gone ↦
              let read_none : read outs v ≡ ok none = read_out ∙ ap ok gone in
              ([], rw read_none refl, tt)
          | inr (am_state, there) ↦
              let read_some : read outs v ≡ ok (some am_state) = read_out ∙ ap ok there in
              let (scores, read_scores, len) =
                read-All (λ row. length row ≡ n_classes) rows v lt all in
              let (tokens, chosen, below) = best_tokens-ok scores n_classes len in
              let (ys, done, proposals) =
                expanding.expands cache frame p st am_state scores tokens at here going below in
              (ys, rw (read_some, read_scores, chosen) done, proposals)
        ]

    expand_all_complete :
        (cache : M) (rows : List (List S)) (outs : List (Option A)) (n_classes p v : ℕ)
        (st : SeqState d eos) (sts rest : List (SeqState d eos))
        → (st.token =? eos) ≡ true
        → expand_all d eos expand cache rows outs n_classes (suc p) v sts ≡ ok rest
        → expand_all d eos expand cache rows outs n_classes p v (st ∷ sts)
          ≡ ok (keep_complete d eos p st ∷ rest)
    unfolding expand_all
    expand_all_complete cache rows outs n_classes p v st sts rest complete done =
        rw (complete, done) refl

    expand_all_going :
        (cache : M) (rows : List (List S)) (outs : List (Option A)) (n_classes p v : ℕ)
        (st : SeqState d eos) (sts ys rest : List (SeqState d eos))
        → (st.token =? eos) ≡ false
        → expand_one d eos expand cache rows outs n_classes p v st ≡ ok ys
        → expand_all d eos expand cache rows outs n_classes (suc p) (suc v) sts ≡ ok rest
        → expand_all d eos expand cache rows outs n_classes p v (st ∷ sts) ≡ ok (ys ++ rest)
    unfolding expand_all
    expand_all_going cache rows outs n_classes p v st sts ys rest going one done =
        rw (going, one, done) refl

    expand_all_ok :
        (cache : M) (frame : List (SeqState d eos)) (rows : List (List S)) (outs : List (Option A))
        (n_classes p v : ℕ) (sts : List (SeqState d eos))
        → All (λ row. length row ≡ n_classes) rows
        → v + length (raw_tokens d eos sts) ≤ length rows
        → v + length (raw_tokens d eos sts) ≤ length outs
        → ((i : ℕ) (st : SeqState d eos)
            → get_elem? sts i ≡ some st
            → get_elem? frame (p + i) ≡ some st)
        → All (λ st. P (place P R st)) sts
        → (ys : List (SeqState d eos)) × (expand_all d eos expand cache rows outs n_classes p v sts
            ≡ ok ys)
          × All (Proposal frame) ys
    unfolding expand_all raw_tokens keep_complete
    expand_all_ok cache frame rows outs n_classes p v [] all le le' at places = ([], refl, tt)
    expand_all_ok cache frame rows outs n_classes p v (st ∷ sts) all le le' at places =
        let here : get_elem? frame p ≡ some st =
          subst (λ i. get_elem? frame i ≡ some st) (omega arith) (at 0 st refl) in
        let later : (i : ℕ) (y : SeqState d eos)
            → get_elem? sts i ≡ some y
            → get_elem? frame (suc p + i) ≡ some y =
          λ i y e. subst (λ j. get_elem? frame j ≡ some y) (omega arith) (at (suc i) y e) in
        elim (Bool-cases (st.token =? eos)) [
          | inl complete ↦
              let (rest, done, proposals) =
                expand_all_ok cache frame rows outs n_classes (suc p) v sts all
                  (subst (λ n. v + n ≤ length rows) (rw complete refl) le)
                  (subst (λ n. v + n ≤ length outs) (rw complete refl) le') later places.1 in
              let (kept, step) = expanding.keeps st places.0 complete in
              (
                keep_complete d eos p st ∷ rest,
                expand_all_complete cache rows outs n_classes p v st sts rest complete done,
                ((kept, (p, refl, st, here, step)), proposals),
              )
          | inr going ↦
              let le1 : v + suc (length (raw_tokens d eos sts)) ≤ length rows =
                subst (λ n. v + n ≤ length rows) (rw going refl) le in
              let le2 : v + suc (length (raw_tokens d eos sts)) ≤ length outs =
                subst (λ n. v + n ≤ length outs) (rw going refl) le' in
              let (ys, one, first) =
                expand_one-ok cache frame rows outs n_classes p v st all (omega arith) (omega arith)
                  here places.0 going in
              let (rest, done, proposals) =
                expand_all_ok cache frame rows outs n_classes (suc p) (suc v) sts all (omega arith)
                  (omega arith) later places.1 in
              (
                ys ++ rest,
                expand_all_going cache rows outs n_classes p v st sts ys rest going one done,
                All-append (Proposal frame) ys rest first proposals,
              )
        ]

    n_classes_of-ok :
        (n : ℕ) (rows : List (List S))
        → 0 < length rows
        → All (λ row. length row ≡ n) rows
        → n_classes_of rows ≡ ok n
    unfolding n_classes_of
    n_classes_of-ok n [] lt all = absurd (omega arith)
    n_classes_of-ok n (row ∷ rows) lt all = ap ok (last_row-length n row rows all.0 all.1)

    pub seq_propose-ok :
        (am_update : AmUpdate S A) (n_classes t : ℕ) (cache : M) (frame : List (SeqState d eos))
        → IsAmUpdate n_classes am_update
        → 0 < length (raw_tokens d eos frame)
        → All (λ st. P (place P R st)) frame
        → (ys : List (SeqState d eos)) × (seq_propose d eos expand am_update t cache frame ≡ ok ys)
          × All (Proposal frame) ys
    unfolding seq_propose
    seq_propose-ok am_update n_classes t cache frame is_am some_raw places =
        let ts = raw_tokens d eos frame in
        let ss = raw_states d eos frame in
        let rows = is_am.rows ts ss t in
        let outs = is_am.outs ts ss t in
        let classes = is_am.classes ts ss t in
        let (ys, done, proposals) =
          expand_all_ok cache frame (am_update ts ss t).0 (am_update ts ss t).1 n_classes 0 0 frame
            classes (omega arith) (omega arith)
            (λ i st e. subst (λ j. get_elem? frame j ≡ some st) (omega arith) e) places in
        (
          ys,
          rw (n_classes_of-ok n_classes (am_update ts ss t).0 (omega arith) classes) done,
          proposals,
        )
