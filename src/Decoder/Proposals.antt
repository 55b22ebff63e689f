-- ===== src/Decoder/Proposals.antt =====
-- What the two decoders LexiconDecoder.cpp and LexiconFreeDecoder.cpp of src/libraries/decoder compute
-- in common while they propose: the loops over hypotheses and tokens, and the acoustic score.
use wav2letter.Base.{
  ℕ, suc, ◌+◌, ◌*◌, ◌&&◌, List, [], ◌∷◌, ◌++◌, ltb, if◌then◌else◌, Result, ok, ◌>>=◌, ℤ, ◌=?◌,
  int_eq,
}
use wav2letter.Decoder.Buffer.{read, index}
use wav2letter.Decoder.State.{is_asg, State, Setup}

module _ {ℓ} {A : Type ℓ} where
  -- What the rounds of a loop propose, one behind the other.
  unfoldable pub concat_map {κ} : {B : Type κ} → (B → Result (List A)) → List B → Result (List A)
  concat_map f [] = ok []
  concat_map f (x ∷ xs) = do ys ← f x; zs ← concat_map f xs; ok (ys ++ zs)

  -- The same for the elements of a vector with their positions, the first of which is `p`.
  unfoldable pub concat_from {κ} :
      {B : Type κ} → (ℕ → B → Result (List A)) → ℕ → List B → Result (List A)
  concat_from f p [] = ok []
  concat_from f p (x ∷ xs) = do ys ← f p x; zs ← concat_from f (suc p) xs; ok (ys ++ zs)

-- The acoustic part of a score, which both decoders compute.
module _ {ℓ κ μ ν} {S : Type ℓ} {L : Type κ} {X : Type μ} {M : Type ν} (d : Setup S L X M)
    (transitions emissions : List S) (n_tokens n_decoded : ℕ) where
  -- The transition to the token `n`, with the criterion ASG and not in the first frame.
  unfoldable pub add_transition : ℕ → ℤ → ℤ → S → Result S
  add_transition t n prev_idx score =
      if ltb 0 (n_decoded + t) && is_asg d.opt.criterion_type
      then (do
        row ← index n
        col ← index prev_idx
        transition ← read transitions (row * n_tokens + col)
        ok (d.numbers.plus score transition))
      else ok score

  unfoldable pub emission_score : ℕ → ℤ → State S L X → Result S
  emission_score t n prev = do
    col ← index n
    emission ← read emissions (t * n_tokens + col)
    ok (d.numbers.plus prev.score emission)

  unfoldable pub token_score : ℕ → ℤ → State S L X → Result S
  token_score t n prev = do
    score ← emission_score t n prev
    score ← add_transition t n prev.token score
    ok (if n =? d.sil then d.numbers.plus score d.opt.sil_score else score)
