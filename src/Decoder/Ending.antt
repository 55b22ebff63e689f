-- ===== src/Decoder/Ending.antt =====
-- decodeEnd of LexiconDecoder.cpp in src/libraries/decoder: whole words at the end.
use wav2letter.Base.{
  ℕ, ◌+◌, ◌-◌, ◌≡◌, refl, sym, ap, subst, inl, inr, true, false, minus_one, List, [], ◌∷◌, ok, ℤ,
  assign, lookup-assign_self, nat_eq, All, Bool-cases, arith,
}
use wav2letter.Decoder.Buffer.{or_empty, frame_at}
use wav2letter.Decoder.State.{State, Setup}
use wav2letter.Decoder.Online.{decode_end}
use wav2letter.Decoder.Valid.{store_frame-ok}
use wav2letter.Decoder.Proposed.{concat_from-ok}
use wav2letter.Decoder.Lexicon.{
  Lexicon, is_root, candidate, weighted, end_proposal, nice_ending, propose_end, finish,
}
use wav2letter.Decoder.Searching.{Fits}
use wav2letter.Decoder.Moves.{IsPlace, IsMove}
use wav2letter.Decoder.Calls.{LexDecoder, Reachable, Reachable-LexValid}

module _ {ℓ κ ν} {S : Type ℓ} {L : Type κ} {M : Type ν} (d : Setup S L (List ℤ) M)
    (x : Lexicon S) where
  is_root-eq : (path : List ℤ) → is_root path ≡ true → path ≡ []
  is_root-eq [] e = refl
  is_root-eq (i ∷ path) e = cc

  end_proposal-root :
      (cache : M) (p : ℕ) (prev : State S L (List ℤ))
      → (ys : List (State S L (List ℤ))) × (end_proposal d x cache true p prev ≡ ok ys)
        × All (λ st. st.lex ≡ []) ys
  unfolding end_proposal
  end_proposal-root cache p prev = elim (Bool-cases (is_root prev.lex)) [
    | inr inside ↦ ([], rw inside refl, tt)
    | inl root ↦
        let lm = d.lm.finish cache prev.lm_state in
        (
          candidate d x lm.0 prev.lex p (weighted d x prev.score lm.1) d.sil minus_one false ∷ [],
          rw root refl,
          (is_root-eq prev.lex root, tt),
        )
  ]

  propose_end-root :
      (t : ℕ) (cache : M) (frame : List (State S L (List ℤ)))
      → nice_ending d x frame ≡ true
      → (ys : List (State S L (List ℤ))) × (propose_end d x t cache frame ≡ ok ys)
        × All (λ st. st.lex ≡ []) ys
  unfolding propose_end
  propose_end-root t cache frame nice = rw nice (
      concat_from-ok (λ st. st.lex ≡ []) (end_proposal d x cache true) 0 frame
        (λ p prev at.
          subst
            (λ i.
              (ys : List (State S L (List ℤ))) × (end_proposal d x cache true i prev ≡ ok ys)
              × All (λ st. st.lex ≡ []) ys)
            (omega arith) (end_proposal-root cache p prev)))

  -- If after any history of calls a hypothesis of the last frame stands at the root of the lexicon,
  -- `decodeEnd` returns, and all hypotheses of its last frame stand at the root: none ends within a
  -- word. Conditions: the silence and with CTC the blank are tokens, with ASG the transitions are a
  -- square matrix, a hypothesis starts at the root, the threshold is not negative, no score is a
  -- NaN, and for no score does the conversion to `float` of the score less the threshold give more
  -- than that score, and the sorts are permutations.
  pub finish-nice_ending :
      (n_tokens : ℕ) (fits : Fits d x n_tokens) (c : LexDecoder d x n_tokens)
      → Reachable d x n_tokens c
      → nice_ending d x (frame_at (c.n_decoded - c.n_pruned) c.hyps) ≡ true
      → (c' : LexDecoder d x n_tokens) × (finish d x c ≡ ok c')
        × All (λ st. st.lex ≡ []) (frame_at (c'.n_decoded - c'.n_pruned) c'.hyps)
  unfolding finish decode_end frame_at
  finish-nice_ending n_tokens fits c reachable nice =
      let n = c.n_decoded - c.n_pruned in
      let pruned = (Reachable-LexValid d x n_tokens fits c reachable).pruned in
      let (ys, proposed, roots) = propose_end-root 0 c.cache (frame_at n c.hyps) nice in
      let (next, stored, all) =
        store_frame-ok (IsPlace d x n_tokens) (IsMove d x n_tokens) d fits.sound (λ st. st.lex ≡ [])
          true ys (λ st s e. e) roots in
      (
        record c { hyps = assign (n + 1) next c.hyps; n_decoded = c.n_decoded + 1 },
        rw (proposed, stored) refl,
        subst (λ i. All (λ st. st.lex ≡ []) (frame_at i (assign (n + 1) next c.hyps))) (omega arith)
            (subst (All (λ st. st.lex ≡ []))
              (sym (ap or_empty (lookup-assign_self (n + 1) next c.hyps))) all),
      )
