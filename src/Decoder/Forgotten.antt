-- ===== src/Decoder/Forgotten.antt =====
-- What `prune` of LexiconDecoder.cpp and LexiconFreeDecoder.cpp in src/libraries/decoder does to the
-- results of getAllFinalHypothesis.
use wav2letter.Base.{
  map_result, ℕ, ◌+◌, ◌-◌, ◌≤◌, ◌<◌, ◌≡◌, ap, ◌∙◌, ◌⊎◌, some, List, [], map, ok, ℤ, lookup, nat_eq,
  arith,
}
use wav2letter.Beam.{Node, DecodeResult, look_back_limit, get_all_hypothesis}
use wav2letter.Decoder.Buffer.{Hyps}
use wav2letter.Decoder.State.{State, Setup, Decoder}
use wav2letter.Decoder.Online.{ancestors, last_frame, all_final_hypothesis, prune}
use wav2letter.Decoder.Lexicon.{Lexicon, get_all_final_hypothesis}
use wav2letter.Decoder.Frames.{Place, find_frame-found, frame_at-IsFrame}
use wav2letter.Decoder.Valid.{IsValid}
use wav2letter.Decoder.Pruned.{shape, ArePruned, IsPruned, unchanged, forgot}
use wav2letter.Decoder.Forgetful.{prune-IsPruned}
use wav2letter.Decoder.Tails.{AreTails, frame-AreFronts, read_fronts}

module _ {ℓ κ μ π ν} {S : Type ℓ} {L : Type κ} {X : Type μ} (P : Place X → Type π)
    (R : Place X → Place X → Type π) {M : Type ν} (d : Setup S L X M) where
  all_final_hypothesis-at :
      (c : Decoder S L X M) (n : ℕ) (frame : List (State S L X)) (chains : List (List (Node S)))
      (rs : List (DecodeResult S))
      → c.n_decoded - c.n_pruned ≡ n
      → lookup n c.hyps ≡ some frame
      → map_result (ancestors c.hyps n) frame ≡ ok chains
      → get_all_hypothesis d.numbers.zero_score chains n ≡ ok rs
      → all_final_hypothesis d c ≡ ok rs
  unfolding all_final_hypothesis last_frame
  all_final_hypothesis-at c n frame chains rs e found followed read =
      rw (e, find_frame-found P R c.hyps n frame found, followed) read

  -- Two states whose results differ by the first `start` frames.
  pub record DifferBy (start : ℕ) (c c' : Decoder S L X M) : Type ℓ where
    pub before : List (DecodeResult S)
    pub after : List (DecodeResult S)
    pub read_before : all_final_hypothesis d c ≡ ok before
    pub read_after : all_final_hypothesis d c' ≡ ok after
    pub are_tails : AreTails start before after

  forgot-DifferBy :
      (c : Decoder S L X M) (largest : S) (k start : ℕ) (hyps' : Hyps (State S L X))
      → IsValid P R c
      → start + k ≡ c.n_decoded - c.n_pruned
      → ArePruned d largest start k c.hyps hyps'
      → DifferBy start c (record c { hyps = hyps'; n_pruned = c.n_decoded - k })
  forgot-DifferBy c largest k start hyps' valid e pruned =
      let last = valid.frames (k + start) (omega arith) in
      let (cs, cs', found, found', are_fronts) =
        frame-AreFronts P R d largest start k c.hyps hyps' pruned
          (λ i le. valid.frames i (omega arith)) last.frame last.places last.linked in
      let (rs, rs', read, read', are_tails) =
        read_fronts d.numbers.zero_score k start cs cs' are_fronts in
      let c' : Decoder S L X M = record c { hyps = hyps'; n_pruned = c.n_decoded - k } in
      record {
        before = rs;
        after = rs';
        read_before =
            all_final_hypothesis-at c (k + start) last.frame cs rs (omega arith) last.found found
              read;
        read_after =
            all_final_hypothesis-at c' k (map (shape d largest k k) last.frame) cs' rs'
              (omega arith)
              (pruned k (omega arith)
                ∙ ap (λ frame. some (map (shape d largest k k) frame))
                    (frame_at-IsFrame P R c.hyps (k + start) last))
              found' read';
        are_tails = are_tails;
      }

  -- What `prune` leaves: the state of before, or one that has lost the first `start` frames, one at
  -- least, and that keeps at most a hundred more behind the first one than was asked for.
  pub data Forgets (look_back : ℕ) (c : Decoder S L X M)
      : Decoder S L X M → Type (ℓ ⊔ κ ⊔ μ ⊔ ν) where
    nothing : Forgets look_back c c
    frames :
        (start : ℕ) (c' : Decoder S L X M)
        → 0 < start
        → c'.n_decoded - c'.n_pruned + start ≡ c.n_decoded - c.n_pruned
        → c'.n_decoded - c'.n_pruned ≤ look_back + look_back_limit
        → DifferBy start c c'
        → Forgets look_back c c'

  pub prune-Forgets :
      (c : Decoder S L X M) (look_back : ℕ)
      → IsValid P R c
      → (c' : Decoder S L X M) × (prune d c look_back ≡ ok c')
        × IsValid P R c'
        × Forgets look_back c c'
  prune-Forgets c look_back valid =
      let (c', done, is_pruned, valid') = prune-IsPruned P R d c look_back valid in
      (c', done, valid', what c' is_pruned)
    where
      what : (c' : Decoder S L X M) → IsPruned d look_back c c' → Forgets look_back c c'
      what _ unchanged = nothing
      what _ (forgot largest k start hyps' bound positive e pruned) =
          let left : c.n_decoded - (c.n_decoded - k) ≡ k = omega arith in
          frames start _ positive (omega arith) (omega arith)
            (forgot-DifferBy c largest k start hyps' valid e pruned)

module _ {ℓ κ π ν} {S : Type ℓ} {L : Type κ} (P : Place (List ℤ) → Type π)
    (R : Place (List ℤ) → Place (List ℤ) → Type π) {M : Type ν} (d : Setup S L (List ℤ) M)
    (x : Lexicon S) where
  -- What `getAllFinalHypothesis` returns before and after: nothing, if no frame is left behind the
  -- first one, and else the results of before without their first `start` places.
  pub record AreFinal (start : ℕ) (c c' : Decoder S L (List ℤ) M) : Type ℓ where
    pub before : List (DecodeResult S)
    pub after : List (DecodeResult S)
    pub read_before : get_all_final_hypothesis d x c ≡ ok before
    pub read_after : get_all_final_hypothesis d x c' ≡ ok after
    pub related :
        ((c'.n_decoded - c'.n_pruned ≡ 0) × (after ≡ []))
        ⊎ ((0 < c'.n_decoded - c'.n_pruned) × AreTails start before after)
