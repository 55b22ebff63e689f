-- ===== src/Decoder/Outputs.antt =====
-- decodeStep, getBestHypothesis and getAllFinalHypothesis of LexiconSeq2SeqDecoder.cpp and
-- LexiconFreeSeq2SeqDecoder.cpp in src/libraries/decoder, for any way to propose.
use wav2letter.Base.{
  ℕ, zero, suc, ◌+◌, ◌-◌, ◌≤◌, ◌<◌, ◌≡◌, refl, sym, ap, subst, ◌∙◌, inl, inr, true, false, Option,
  some, List, [], ◌∷◌, ◌++◌, reverse, length, replicate, ok, ℤ, minus_one, lookup, assign,
  lookup-assign_self, nat_eq, All, Bool-cases, arith,
}
use wav2letter.Beam.{Node, DecodeResult, get_hypothesis, get_all_hypothesis}
use wav2letter.Beam.Hypotheses.{words_of, tokens_of, read_off, get_hypothesis_lem}
use wav2letter.Decoder.Buffer.{Hyps, frame_at, find_frame, extend_buffer}
use wav2letter.Decoder.State.{Setup}
use wav2letter.Decoder.Online.{store_frame, first_hypothesis, update_lm_cache, ancestors}
use wav2letter.Decoder.Frames.{
  Place, place, Linked, starts, IsFrame, IsFrame-assign, frame_at-assign_ne, find_frame-found,
  frame_at-IsFrame, frame_at-found,
}
use wav2letter.Decoder.Valid.{IsSound, AreFrames, IsProposal, store_frame-ok, AreFrames-next}
use wav2letter.Decoder.Chains.{IsWalk, length-IsWalk, ancestors-IsWalk, chains-All}
use wav2letter.Decoder.Seq2Seq.{
  AmUpdate, SeqDecoder, is_empty, SeqState, raw_tokens, Expand, seq_propose, seq_frames,
  last_nonempty, seq_step, final_chains, seq_all_final, seq_best,
}
use wav2letter.Decoder.Keys.{length-keys}
use wav2letter.Decoder.Rounds.{IsAmUpdate, IsExpanding, seq_propose-ok}

module _ {ℓ μ α π} {S : Type ℓ} {X : Type μ} {A : Type α} (P : Place (X × Option A) → Type π)
    (R : Place (X × Option A) → Place (X × Option A) → Type π) where
  -- A result: the walk of a hypothesis of at most `max_output_length` tokens, with -1 before it.
  pub record IsOutput (max_output_length size : ℕ) (r : DecodeResult S) : Type (ℓ ⊔ μ ⊔ α ⊔ π) where
    pub n_steps : ℕ
    pub bounded : n_steps ≤ max_output_length
    pub last : Place (X × Option A)
    pub chain : List (Node S)
    pub walk : IsWalk P R n_steps last chain
    pub tokens : r.tokens ≡ replicate (size - n_steps) minus_one ++ reverse (tokens_of chain)
    pub words : r.words ≡ replicate (size - n_steps) minus_one ++ reverse (words_of chain)

module _ {ℓ κ μ α ν π} {S : Type ℓ} {L : Type κ} {X : Type μ} {A : Type α} {M : Type ν}
    (d : Setup S L (X × Option A) M) (sound : IsSound d) (eos : ℤ)
    (P : Place (X × Option A) → Type π) (R : Place (X × Option A) → Place (X × Option A) → Type π)
    (expand : Expand d eos) (expanding : IsExpanding d sound eos P R expand)
    (am_update : AmUpdate S A) (n_classes : ℕ) (is_am : IsAmUpdate n_classes am_update) where
  some_raw : (ts : List ℤ) → is_empty ts ≡ false → 0 < length ts
  some_raw [] e = cc
  some_raw (t ∷ ts) e = omega arith

  abbrev Frames : Hyps (SeqState d eos) → ℕ → Type (ℓ ⊔ κ ⊔ μ ⊔ α ⊔ π)
  Frames hyps n = AreFrames P R hyps n

  seq_frames-going :
      (n t : ℕ) (hyps : Hyps (SeqState d eos)) (cache : M) (frame ys next : List (SeqState d eos))
      (after : ℕ × Hyps (SeqState d eos) × M)
      → is_empty (raw_tokens d eos (frame_at t hyps)) ≡ false
      → frame_at t hyps ≡ frame
      → seq_propose d eos expand am_update t cache frame ≡ ok ys
      → store_frame d true ys ≡ ok next
      → seq_frames d eos expand am_update n
          (suc t)
          (assign (t + 1) next hyps)
          (update_lm_cache d cache next)
        ≡ ok after
      → seq_frames d eos expand am_update (suc n) t hyps cache ≡ ok after
  unfolding seq_frames
  seq_frames-going n t hyps cache frame ys next after going e proposed stored done =
      rw (going, e, proposed, stored) done

  seq_frames-ok :
      (n t : ℕ) (hyps : Hyps (SeqState d eos)) (cache : M)
      → Frames hyps t
      → (t' : ℕ) × (hyps' : Hyps (SeqState d eos)) × (cache' : M) × (seq_frames d eos expand
            am_update n t hyps cache
          ≡ ok (t', hyps', cache'))
        × (t' ≤ t + n)
        × (frame_at 0 hyps' ≡ frame_at 0 hyps)
        × Frames hyps' t'
  unfolding seq_frames
  seq_frames-ok zero t hyps cache frames = (t, hyps, cache, refl, omega arith, refl, frames)
  seq_frames-ok (suc n) t hyps cache frames =
      elim (Bool-cases (is_empty (raw_tokens d eos (frame_at t hyps)))) [
        | inl complete ↦ (t, hyps, cache, rw complete refl, omega arith, refl, frames)
        | inr going ↦
            let last = frames t (omega arith) in
            let raw =
              subst (λ frame. is_empty (raw_tokens d eos frame) ≡ false)
                (frame_at-IsFrame P R hyps t last) going in
            let (ys, proposed, all) =
              seq_propose-ok d sound eos P R expand expanding am_update n_classes t cache last.frame
                is_am (some_raw _ raw) last.places in
            let (next, stored, kept) =
              store_frame-ok P R d sound (IsProposal P R last.frame) true ys
                (λ st s proposal. proposal) all in
            let hyps1 = assign (t + 1) next hyps in
            let (t', hyps', cache', done, le, same, frames') =
              seq_frames-ok n (suc t) hyps1 (update_lm_cache d cache next)
                (λ i h. AreFrames-next P R d sound hyps t last next frames kept i (omega arith)) in
            (
              t',
              hyps',
              cache',
              seq_frames-going n t hyps cache last.frame ys next (t', hyps', cache') going
                  (frame_at-IsFrame P R hyps t last) proposed stored done,
              omega arith,
              same ∙ frame_at-assign_ne P R (t + 1) 0 next hyps (omega arith),
              frames',
            )
      ]

  last_nonempty-le :
      (t : ℕ) (hyps : Hyps (SeqState d eos)) → last_nonempty d eos expand am_update t hyps ≤ t
  unfolding last_nonempty
  last_nonempty-le zero hyps = omega arith
  last_nonempty-le (suc t) hyps = elim (Bool-cases (is_empty (frame_at (suc t) hyps))) [
    | inl e ↦ rw e (omega (arith, last_nonempty-le t hyps))
    | inr e ↦ rw e (omega arith)
  ]

  last_nonempty-some :
      (t : ℕ) (hyps : Hyps (SeqState d eos))
      → is_empty (frame_at 0 hyps) ≡ false
      → is_empty (frame_at (last_nonempty d eos expand am_update t hyps) hyps) ≡ false
  unfolding last_nonempty
  last_nonempty-some zero hyps some_first = some_first
  last_nonempty-some (suc t) hyps some_first =
      elim (Bool-cases (is_empty (frame_at (suc t) hyps))) [
        | inl e ↦ rw e (last_nonempty-some t hyps some_first)
        | inr e ↦ rw e e
      ]

  first_frame :
      (hyps : Hyps (SeqState d eos)) (start : L)
      → P (d.root, d.sil, minus_one)
      → Frames (assign 0 (first_hypothesis d start ∷ []) hyps) 0
  unfolding first_hypothesis
  first_frame hyps start here i le =
      subst (IsFrame P R (assign 0 (first_hypothesis d start ∷ []) hyps)) (omega arith) (record {
        frame = first_hypothesis d start ∷ [];
        found = lookup-assign_self 0 _ hyps;
        places = (here, tt);
        linked = (starts _ refl, tt);
      })

  pub get_hypothesis-IsOutput :
      (max_output_length size n : ℕ) (y : Place (X × Option A)) (chain : List (Node S))
      → n ≤ max_output_length
      → n ≤ size
      → IsWalk P R n y chain
      → (r : DecodeResult S) × (get_hypothesis d.numbers.zero_score chain size ≡ ok r)
        × IsOutput P R max_output_length size r
  get_hypothesis-IsOutput max_output_length size n y [] le le' walk =
      let e = length-IsWalk P R n y [] walk in absurd (omega arith)
  get_hypothesis-IsOutput max_output_length size n y (nd ∷ chain) le le' walk =
      let e : length (nd ∷ chain) ≡ n + 1 = length-IsWalk P R n y (nd ∷ chain) walk in
      let before : size + 1 - length (nd ∷ chain) ≡ size - n = omega arith in
      (
        read_off d.numbers.zero_score nd.score (nd ∷ chain) size,
        get_hypothesis_lem d.numbers.zero_score nd chain size (omega arith),
        record {
          n_steps = n;
          bounded = le;
          last = y;
          chain = nd ∷ chain;
          walk = walk;
          tokens = rw before refl;
          words = rw before refl;
        },
      )

  pub read_sentences-ok :
      (max_output_length size n : ℕ) (chains : List (List (Node S)))
      → n ≤ max_output_length
      → n ≤ size
      → All (λ chain. (y : Place (X × Option A)) × IsWalk P R n y chain) chains
      → (rs : List (DecodeResult S)) × (get_all_hypothesis d.numbers.zero_score chains size ≡ ok rs)
        × All (IsOutput P R max_output_length size) rs
  unfolding get_all_hypothesis
  read_sentences-ok max_output_length size n [] le le' walks = ([], refl, tt)
  read_sentences-ok max_output_length size n (chain ∷ chains) le le' walks =
      let (r, read, output) =
        get_hypothesis-IsOutput max_output_length size n walks.0.0 chain le le' walks.0.1 in
      let (rs, reads, outputs) = read_sentences-ok max_output_length size n chains le le' walks.1 in
      (r ∷ rs, rw (read, reads) refl, (output, outputs))

  -- The state that a call leaves: the final frame holds hypotheses of the frame `last`.
  pub record IsFinal (max_output_length : ℕ) (c : SeqDecoder S L (X × Option A) M)
      : Type (ℓ ⊔ κ ⊔ μ ⊔ α ⊔ π) where
    pub bounded : c.last ≤ max_output_length
    pub frames : Frames c.hyps c.last
    pub final : IsFrame P R c.hyps c.last
    pub found : lookup (max_output_length + 1) c.hyps ≡ some final.frame
    pub nonempty : is_empty final.frame ≡ false
    pub room : c.last ≤ length c.hyps

  pub seq_step-IsFinal :
      (max_output_length : ℕ) (c : SeqDecoder S L (X × Option A) M)
      → P (d.root, d.sil, minus_one)
      → (c' : SeqDecoder S L (X × Option A) M) × (seq_step d eos expand am_update max_output_length
            c
          ≡ ok c')
        × IsFinal max_output_length c'
  unfolding seq_step
  seq_step-IsFinal max_output_length c here =
      let (cache, start) = d.lm.start in
      let hyps =
        assign 0 (first_hypothesis d start ∷ []) (extend_buffer (max_output_length + 2) c.hyps) in
      let (t, hyps1, cache1, done, le, same, frames) =
        seq_frames-ok max_output_length 0 hyps cache (first_frame _ start here) in
      let last = last_nonempty d eos expand am_update t hyps1 in
      let last_le = last_nonempty-le t hyps1 in
      let final = frame_at last hyps1 in
      let first_some : is_empty (frame_at 0 hyps1) ≡ false = ap is_empty (
        same
        ∙ frame_at-found P R hyps 0 (first_hypothesis d start ∷ [])
            (lookup-assign_self 0 _ (extend_buffer (max_output_length + 2) c.hyps))) in
      let hyps2 = assign (max_output_length + 1) final hyps1 in
      let kept : Frames hyps2 last = λ i h.
        IsFrame-assign P R hyps1 i (max_output_length + 1) final (omega arith)
          (frames i (omega arith)) in
      let last_frame = kept last (omega arith) in
      let same_final : last_frame.frame ≡ final =
        sym (frame_at-IsFrame P R hyps2 last last_frame)
        ∙ frame_at-assign_ne P R (max_output_length + 1) last final hyps1 (omega arith) in
      (
        record { hyps = hyps2; last = last; cache = cache1 },
        rw done refl,
        record {
          bounded = omega arith;
          frames = kept;
          final = last_frame;
          found = lookup-assign_self (max_output_length + 1) final hyps1 ∙ ap some (sym same_final);
          nonempty = ap is_empty same_final ∙ last_nonempty-some t hyps1 first_some;
          room =
              length-keys last hyps2
                (λ j lt. let is_frame = kept j (omega arith) in (is_frame.frame, is_frame.found));
        },
      )

  seq_best-at :
      (max_output_length : ℕ) (c : SeqDecoder S L (X × Option A) M) (frame : List (SeqState d eos))
      (st : SeqState d eos) (sts : List (SeqState d eos)) (chain : List (Node S))
      (r : DecodeResult S)
      → find_frame (max_output_length + 1) c.hyps ≡ ok frame
      → frame ≡ st ∷ sts
      → ancestors c.hyps c.last st ≡ ok chain
      → get_hypothesis d.numbers.zero_score chain (length c.hyps) ≡ ok r
      → seq_best d eos max_output_length c ≡ ok r
  unfolding seq_best
  seq_best-at max_output_length c frame st sts chain r found e one read = rw (found, e, one) read

  -- What is read off the final hypotheses.
  pub seq_results-ok :
      (max_output_length : ℕ) (c : SeqDecoder S L (X × Option A) M)
      → IsFinal max_output_length c
      → ((rs : List (DecodeResult S)) × (seq_all_final d eos max_output_length c ≡ ok rs)
          × All (IsOutput P R max_output_length (length c.hyps)) rs)
        × ((r : DecodeResult S) × (seq_best d eos max_output_length c ≡ ok r)
            × IsOutput P R max_output_length (length c.hyps) r)
  unfolding seq_all_final final_chains
  seq_results-ok max_output_length c final =
      let last = final.final in
      let found = find_frame-found P R c.hyps (max_output_length + 1) last.frame final.found in
      let (st, sts, e) = some_state last.frame final.nonempty in
      let (chains, followed, walks) =
        chains-All P R c.hyps c.last last.frame final.frames last.places last.linked in
      let (rs, reads, outputs) =
        read_sentences-ok max_output_length (length c.hyps) c.last chains final.bounded final.room
          walks in
      let places = subst (All (λ x. P (place P R x))) e last.places in
      let linked = subst (All (Linked P R c.hyps c.last)) e last.linked in
      let (chain, one, walk) =
        ancestors-IsWalk P R c.hyps c.last st final.frames places.0 linked.0 in
      let (r, read, output) =
        get_hypothesis-IsOutput max_output_length (length c.hyps) c.last _ chain final.bounded
          final.room walk in
      (
        (rs, rw (found, followed) reads, outputs),
        (r, seq_best-at max_output_length c last.frame st sts chain r found e one read, output),
      )
    where
      some_state :
          (frame : List (SeqState d eos))
          → is_empty frame ≡ false
          → (st : SeqState d eos) × (sts : List (SeqState d eos)) × (frame ≡ st ∷ sts)
      some_state [] e = cc
      some_state (st ∷ sts) e = (st, sts, refl)
