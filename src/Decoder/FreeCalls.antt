-- ===== src/Decoder/FreeCalls.antt =====
-- Histories of a LexiconFreeDecoder of src/libraries/decoder: what holds after any sequence of its calls.
use wav2letter.Base.{
  ℕ, ◌+◌, ◌-◌, ◌*◌, ◌<◌, ◌≤◌, ◌≡◌, refl, sym, subst, inl, inr, true, some, List, [], ◌∷◌, length,
  get_elem?, Result, ok, ℤ, pos, minus_one, All, Bool-cases, ◌&&◌, ◌=?◌, int_eq, arith,
}
use wav2letter.Beam.{DecodeResult, look_back_limit}
use wav2letter.Decoder.State.{Setup, Decoder, is_asg, is_ctc}
use wav2letter.Decoder.Online.{top_tokens}
use wav2letter.Decoder.Frames.{Place}
use wav2letter.Decoder.Valid.{
  IsSound, IsValid, IsProposal, IsProposing, decode_begin-IsValid, decode_step-IsValid,
  decode_end-IsValid,
}
use wav2letter.Decoder.Chains.{IsDecoded, All-get_elem?, all_final_hypothesis-ok}
use wav2letter.Decoder.Best.{IsBest, best_hypothesis-ok}
use wav2letter.Decoder.Forgetful.{prune-IsPruned}
use wav2letter.Decoder.Proposed.{
  concat_map-ok, concat_from-ok, IsToken, top_tokens-All, token_score-ok,
}
use wav2letter.Decoder.Free.{
  FreeState, is_new_token, free_proposal, free_end_proposal, free_propose_end, free_token_proposal,
  free_hypothesis_proposals, free_propose_frame, free_step, free_finish, free_begin, free_prune,
  free_best_hypothesis, free_all_final_hypothesis,
}

module _ {ℓ κ ν} {S : Type ℓ} {L : Type κ} {M : Type ν} (d : Setup S L (Unit {0}) M) (blank : ℤ)
    (transitions : List S) (n_tokens : ℕ) where
  abbrev pub IsFreePlace : Place (Unit {0}) → Type 0
  IsFreePlace (lex, token, word) = IsToken n_tokens token × (word ≡ minus_one)

  -- Every token may follow every token.
  abbrev pub AnyMove : Place (Unit {0}) → Place (Unit {0}) → Type 0
  AnyMove from to = Unit

  -- The silence is a token, and with ASG the transitions are a square matrix over the tokens.
  pub record FreeFits : Type (ℓ ⊔ κ) where
    pub sound : IsSound d
    pub sil_token : IsToken n_tokens d.sil
    pub square : is_asg d.opt.criterion_type ≡ true → length transitions ≡ n_tokens * n_tokens

  abbrev pub FreeDecoder : Type (ℓ ⊔ κ ⊔ ν)
  FreeDecoder = Decoder S L (Unit {0}) M

  abbrev pub FreeValid : FreeDecoder → Type (ℓ ⊔ κ)
  FreeValid c = IsValid IsFreePlace AnyMove c

  -- The states that calls lead to, each call given as many emissions as its frames and tokens say.
  pub data FreeReachable : FreeDecoder → Type (ℓ ⊔ κ ⊔ ν) where
    begun : FreeReachable (free_begin d blank transitions)
    stepped :
        (c c' : FreeDecoder) (emissions : List S) (n_frames : ℕ)
        → FreeReachable c
        → length emissions ≡ n_frames * n_tokens
        → free_step d blank transitions emissions n_frames n_tokens c ≡ ok c'
        → FreeReachable c'
    finished :
        (c c' : FreeDecoder)
        → FreeReachable c
        → free_finish d blank transitions c ≡ ok c'
        → FreeReachable c'
    pruned :
        (c c' : FreeDecoder) (look_back : ℕ)
        → FreeReachable c
        → free_prune d blank transitions c look_back ≡ ok c'
        → FreeReachable c'

  abbrev Proposal : List (FreeState S L) → FreeState S L → Type (ℓ ⊔ κ)
  Proposal frame st = IsProposal IsFreePlace AnyMove frame st

  module _ (fits : FreeFits) where
    free_proposal-Proposal :
        (cache : M) (frame : List (FreeState S L)) (p k : ℕ) (prev : FreeState S L) (score : S)
        → get_elem? frame p ≡ some prev
        → k < n_tokens
        → Proposal frame (free_proposal d blank transitions cache p prev (pos k) score)
    unfolding free_proposal
    free_proposal-Proposal cache frame p k prev score at below =
        elim (Bool-cases (is_new_token d blank transitions (pos k) prev)) [
          | inl new ↦ rw new (((k, refl, below), refl), (p, refl, prev, at, tt))
          | inr old ↦ rw old (elim (Bool-cases (is_ctc d.opt.criterion_type && (pos k =? blank))) [
            | inl e ↦ rw e (((k, refl, below), refl), (p, refl, prev, at, tt))
            | inr e ↦ rw e (((k, refl, below), refl), (p, refl, prev, at, tt))
          ])
        ]

    free_propose_frame-IsProposing :
        (emissions : List S) (n_frames n_decoded : ℕ)
        → length emissions ≡ n_frames * n_tokens
        → IsProposing IsFreePlace AnyMove d fits.sound
            (free_propose_frame d blank transitions emissions n_tokens n_decoded)
            n_frames
    unfolding free_propose_frame free_hypothesis_proposals free_token_proposal
    free_propose_frame-IsProposing emissions n_frames n_decoded filled t cache frame lt places =
        concat_from-ok (Proposal frame)
          (free_hypothesis_proposals d blank transitions emissions n_tokens n_decoded t cache) 0
          frame
          (λ p prev at.
            concat_map-ok (Proposal frame) (λ k. k < n_tokens) _ (top_tokens d emissions t n_tokens)
              (λ k below. one_token (0 + p) p prev at k below (omega arith))
              (top_tokens-All d fits.sound emissions t n_tokens))
      where
        one_token :
            (q p : ℕ) (prev : FreeState S L)
            → get_elem? frame p ≡ some prev
            → (k : ℕ) → k < n_tokens
            → q ≡ p
            → (ys : List (FreeState S L)) × (free_token_proposal d blank transitions emissions
                  n_tokens n_decoded t cache q prev k
                ≡ ok ys)
              × All (Proposal frame) ys
        one_token q p prev at k below e =
            let here =
              All-get_elem? (λ st. IsFreePlace (st.lex, st.token, st.word)) frame p prev places
                at in
            let (score, scored) =
              token_score-ok d fits.sound transitions emissions n_tokens n_frames n_decoded filled
                fits.square t (pos k) prev lt (k, refl, below) here.0 in
            (
              free_proposal d blank transitions cache q prev (pos k) score ∷ [],
              rw scored refl,
              (
                subst
                    (λ i.
                      Proposal frame (free_proposal d blank transitions cache i prev (pos k) score))
                    (sym e) (free_proposal-Proposal cache frame p k prev score at below),
                tt,
              ),
            )

    free_propose_end-IsProposing :
        IsProposing IsFreePlace AnyMove d fits.sound (free_propose_end d blank transitions) 1
    unfolding free_propose_end free_end_proposal
    free_propose_end-IsProposing t cache frame lt places =
        concat_from-ok (Proposal frame) (free_end_proposal d blank transitions cache) 0 frame
          (λ p prev at.
            (_, refl, (((fits.sil_token, refl), (0 + p, refl, prev, from_zero p prev at, tt)), tt)))
      where
        from_zero :
            (p : ℕ) (prev : FreeState S L)
            → get_elem? frame p ≡ some prev
            → get_elem? frame (0 + p) ≡ some prev
        from_zero p prev at = subst (λ i. get_elem? frame i ≡ some prev) (omega arith) at

    same-ok : {A : Type (ℓ ⊔ κ ⊔ ν)} {r : Result A} {a b : A} → r ≡ ok a → r ≡ ok b → a ≡ b
    same-ok e e' = cc

    step-FreeValid :
        (c : FreeDecoder) (emissions : List S) (n_frames : ℕ)
        → length emissions ≡ n_frames * n_tokens
        → FreeValid c
        → (c' : FreeDecoder) × (free_step d blank transitions emissions n_frames n_tokens c ≡ ok c')
          × FreeValid c'
    unfolding free_step
    step-FreeValid c emissions n_frames filled valid =
        let (c', e, valid', _, _) =
          decode_step-IsValid IsFreePlace AnyMove d fits.sound _ n_frames c
            (free_propose_frame-IsProposing emissions n_frames c.n_decoded filled) valid in
        (c', e, valid')

    finish-FreeValid :
        (c : FreeDecoder)
        → FreeValid c
        → (c' : FreeDecoder) × (free_finish d blank transitions c ≡ ok c') × FreeValid c'
    unfolding free_finish
    finish-FreeValid c valid =
        let (c', e, valid', _, _) =
          decode_end-IsValid IsFreePlace AnyMove d fits.sound _ c free_propose_end-IsProposing
            valid in
        (c', e, valid')

    prune-FreeValid :
        (c : FreeDecoder) (look_back : ℕ)
        → FreeValid c
        → (c' : FreeDecoder) × (free_prune d blank transitions c look_back ≡ ok c') × FreeValid c'
    prune-FreeValid c look_back valid =
        let (c', e, _, valid') = prune-IsPruned IsFreePlace AnyMove d c look_back valid in
        (c', e, valid')

    pub FreeReachable-FreeValid : (c : FreeDecoder) → FreeReachable c → FreeValid c
    FreeReachable-FreeValid _ begun =
        decode_begin-IsValid IsFreePlace AnyMove d fits.sound (fits.sil_token, refl)
    FreeReachable-FreeValid _ (stepped c c' emissions n_frames before filled e) =
        let (c'', e', valid) =
          step-FreeValid c emissions n_frames filled (FreeReachable-FreeValid c before) in
        subst FreeValid (same-ok e' e) valid
    FreeReachable-FreeValid _ (finished c c' before e) =
        let (c'', e', valid) = finish-FreeValid c (FreeReachable-FreeValid c before) in
        subst FreeValid (same-ok e' e) valid
    FreeReachable-FreeValid _ (pruned c c' look_back before e) =
        let (c'', e', valid) = prune-FreeValid c look_back (FreeReachable-FreeValid c before) in
        subst FreeValid (same-ok e' e) valid

    -- After any history of the calls `decodeBegin`, `decodeStep`, `decodeEnd` and `prune` on the
    -- decoder without a lexicon, each of `decodeStep`, `decodeEnd`, `prune`, `getBestHypothesis`
    -- and `getAllFinalHypothesis` returns, the best hypothesis is empty or lacks at most a hundred
    -- frames more than was asked for, and each final one has a place for every frame. Conditions:
    -- there are emissions for each frame and token, the silence is a token, with ASG the
    -- transitions are a square matrix, the threshold is not negative, no score is a NaN, and for no
    -- score does the conversion to `float` of the score less the threshold give more than that
    -- score, and the sorts are permutations.
    pub free_calls_lem :
        (c : FreeDecoder) (emissions : List S) (n_frames look_back : ℕ)
        → FreeReachable c
        → length emissions ≡ n_frames * n_tokens
        → ((c' : FreeDecoder) × (free_step d blank transitions emissions n_frames n_tokens c
              ≡ ok c')
            × FreeReachable c')
          × ((c' : FreeDecoder) × (free_finish d blank transitions c ≡ ok c') × FreeReachable c')
          × ((c' : FreeDecoder) × (free_prune d blank transitions c look_back ≡ ok c')
              × FreeReachable c')
          × ((r : DecodeResult S) × (free_best_hypothesis d blank transitions c look_back ≡ ok r)
              × (k : ℕ) × (k ≤ look_back + look_back_limit)
              × IsBest IsFreePlace AnyMove d (c.n_decoded - c.n_pruned) k r)
          × ((rs : List (DecodeResult S)) × (free_all_final_hypothesis d blank transitions c
                ≡ ok rs)
              × All (IsDecoded IsFreePlace AnyMove (c.n_decoded - c.n_pruned)) rs)
    free_calls_lem c emissions n_frames look_back reachable filled =
        let valid = FreeReachable-FreeValid c reachable in
        let (c1, e1, _) = step-FreeValid c emissions n_frames filled valid in
        let (c2, e2, _) = finish-FreeValid c valid in
        let (c3, e3, _) = prune-FreeValid c look_back valid in
        (
          (c1, e1, stepped c c1 emissions n_frames reachable filled e1),
          (c2, e2, finished c c2 reachable e2),
          (c3, e3, pruned c c3 look_back reachable e3),
          best_hypothesis-ok IsFreePlace AnyMove d c look_back valid,
          all_final_hypothesis-ok IsFreePlace AnyMove d c valid,
        )
