-- ===== src/Decoder/Valid.antt =====
-- The calls decodeBegin, decodeStep and decodeEnd of LexiconDecoder.cpp and LexiconFreeDecoder.cpp of
-- src/libraries/decoder keep the invariant and do not fault, if what they propose does.
use mathlib.Core.List.{Permᴰ}
use wav2letter.Base.{
  ℕ, zero, suc, ◌+◌, ◌-◌, ◌≤◌, ◌<◌, ◌≡◌, refl, subst, ◌⊎◌, inl, inr, Bool, true, false, List, [],
  ◌∷◌, ok, minus_one, lookup, assign, nat_eq, All, All-map, arith,
}
use wav2letter.Beam.Kept.{KeepsBest, ArePermutations, stored_lem}
use wav2letter.Decoder.Buffer.{Hyps, extend_buffer}
use wav2letter.Decoder.State.{State, Setup, Decoder}
use wav2letter.Decoder.Online.{
  states, store_frame, first_hypothesis, decode_begin, Propose, decode_frames, decode_step,
  decode_end, update_lm_cache,
}
use wav2letter.Decoder.Frames.{
  Place, place, ComesFrom, starts, IsFrame, IsFrame-assign, IsFrame-next, IsFrame-extend_buffer,
  frame_at-IsFrame,
}

-- What the source uses of the parameters: the threshold is not negative and no score is a NaN, also
-- its conversion to `float` keeps the best score within it, and the sorts are permutations.
pub record IsSound {ℓ κ μ ν} {S : Type ℓ} {L : Type κ} {X : Type μ} {M : Type ν} (d : Setup S L X M)
    : Type (ℓ ⊔ κ ⊔ μ) where
  pub keeps_best : KeepsBest d.numbers.scores (states d) d.opt.beam_threshold
  pub perms :
      ArePermutations d.numbers.scores
        (states d)
        d.sorts.sort
        d.sorts.nth_element
        d.sorts.partial_sort
  pub tokens_perm : (e : ℕ → S) (n : ℕ) (xs : List ℕ) → Permᴰ (d.sorts.sort_tokens e n xs) xs

module _ {ℓ κ μ π} {S : Type ℓ} {L : Type κ} {X : Type μ} (P : Place X → Type π)
    (R : Place X → Place X → Type π) where
  -- The state between the calls.
  pub record IsValid {ν} {M : Type ν} (c : Decoder S L X M) : Type (ℓ ⊔ κ ⊔ μ ⊔ π) where
    pub pruned : c.n_pruned ≤ c.n_decoded
    pub frames : (i : ℕ) → i ≤ c.n_decoded - c.n_pruned → IsFrame P R c.hyps i

  abbrev pub AreFrames : Hyps (State S L X) → ℕ → Type (ℓ ⊔ κ ⊔ μ ⊔ π)
  AreFrames hyps n = (i : ℕ) → i ≤ n → IsFrame P R hyps i

  -- A proposal for the frame behind `frame`.
  abbrev pub IsProposal : List (State S L X) → State S L X → Type (ℓ ⊔ κ ⊔ μ ⊔ π)
  IsProposal frame st = P (place P R st) × ComesFrom P R frame st

  module _ {ν} {M : Type ν} (d : Setup S L X M) (sound : IsSound d) where
    -- For the first `n` frames of a call the proposals are made without a fault.
    abbrev pub IsProposing : Propose d → ℕ → Type (ℓ ⊔ κ ⊔ μ ⊔ ν ⊔ π)
    IsProposing propose n =
        (t : ℕ) (cache : M) (frame : List (State S L X))
        → t < n
        → All (λ st. P (place P R st)) frame
        → (xs : List (State S L X)) × (propose t cache frame ≡ ok xs) × All (IsProposal frame) xs

    pub store_frame-ok {ρ} :
        (Q : State S L X → Type ρ) (return_sorted : Bool) (xs : List (State S L X))
        → ((st : State S L X) (s : S) → Q st → Q (record st { score = s }))
        → All Q xs
        → (next : List (State S L X)) × (store_frame d return_sorted xs ≡ ok next) × All Q next
    unfolding store_frame states
    store_frame-ok Q return_sorted xs rescored all =
        stored_lem d.numbers.scores (states d) Q rescored d.sorts.sort d.sorts.nth_element
          d.sorts.partial_sort d.opt.log_add d.opt.beam_threshold d.opt.beam_size return_sorted xs
          sound.keeps_best sound.perms all

    store_frame-All :
        (return_sorted : Bool) (frame xs : List (State S L X))
        → All (IsProposal frame) xs
        → (next : List (State S L X)) × (store_frame d return_sorted xs ≡ ok next)
          × All (IsProposal frame) next
    store_frame-All return_sorted frame xs all =
        store_frame-ok (IsProposal frame) return_sorted xs (λ st s proposal. proposal) all

    pub AreFrames-next :
        (hyps : Hyps (State S L X)) (n : ℕ) (last : IsFrame P R hyps n) (next : List (State S L X))
        → AreFrames hyps n
        → All (IsProposal last.frame) next
        → AreFrames (assign (n + 1) next hyps) (n + 1)
    AreFrames-next hyps n last next frames all i le = elim (last_or_before i (n + 1) le) [
      | inl e ↦
          let places = All-map next (λ st proposal. proposal.0) all in
          let from : All (ComesFrom P R last.frame) next =
            All-map next (λ st proposal. proposal.1) all in
          subst (IsFrame P R (assign (n + 1) next hyps)) (omega arith)
            (IsFrame-next P R hyps n last next places from)
      | inr lt ↦ IsFrame-assign P R hyps i (n + 1) next lt (frames i (omega arith))
    ]
      where
        last_or_before : (i n : ℕ) → i ≤ n → (i ≡ n) ⊎ (i < n)
        last_or_before i n le = omega arith

    decode_frames-ok :
        (propose : Propose d) (n t start : ℕ) (hyps : Hyps (State S L X)) (cache : M) (total : ℕ)
        → IsProposing propose total
        → t + n ≤ total
        → AreFrames hyps (start + t)
        → (hyps' : Hyps (State S L X)) × (cache' : M) × (decode_frames d propose n t start
              (hyps, cache)
            ≡ ok (hyps', cache'))
          × AreFrames hyps' (start + t + n)
    unfolding decode_frames
    decode_frames-ok propose zero t start hyps cache total proposing le frames =
        (hyps, cache, refl, λ i lt. frames i (omega arith))
    decode_frames-ok propose (suc n) t start hyps cache total proposing le frames =
        let last = frames (start + t) (omega arith) in
        let (xs, proposed, all) = proposing t cache last.frame (omega arith) last.places in
        let (next, stored, kept) = store_frame-All false last.frame xs all in
        let (hyps', cache', done, frames') =
          decode_frames-ok propose n (suc t) start (assign (start + t + 1) next hyps)
            (update_lm_cache d cache next) total proposing (omega arith)
            (λ i lt. AreFrames-next hyps (start + t) last next frames kept i (omega arith)) in
        (
          hyps',
          cache',
          rw (frame_at-IsFrame P R hyps (start + t) last, proposed, stored) done,
          λ i lt. frames' i (omega arith),
        )

    -- `decodeStep`, and the number of frames after it.
    pub decode_step-IsValid :
        (propose : Propose d) (t_frames : ℕ) (c : Decoder S L X M)
        → IsProposing propose t_frames
        → IsValid c
        → (c' : Decoder S L X M) × (decode_step d propose t_frames c ≡ ok c')
          × IsValid c'
          × (c'.n_decoded ≡ c.n_decoded + t_frames)
          × (c'.n_pruned ≡ c.n_pruned)
    unfolding decode_step
    decode_step-IsValid propose t_frames c proposing valid =
        let start = c.n_decoded - c.n_pruned in
        let (hyps', cache', done, frames') =
          decode_frames-ok propose t_frames 0 start (extend_buffer (start + t_frames + 2) c.hyps)
            c.cache t_frames proposing (omega arith)
            (λ i lt.
              IsFrame-extend_buffer P R (start + t_frames + 2) i c.hyps
                (valid.frames i (omega arith))) in
        let pruned = valid.pruned in
        (
          record c { hyps = hyps'; cache = cache'; n_decoded = c.n_decoded + t_frames },
          rw done refl,
          record { pruned = omega arith; frames = λ i lt. frames' i (omega arith) },
          refl,
          refl,
        )

    pub decode_end-IsValid :
        (propose : Propose d) (c : Decoder S L X M)
        → IsProposing propose 1
        → IsValid c
        → (c' : Decoder S L X M) × (decode_end d propose c ≡ ok c')
          × IsValid c'
          × (c'.n_decoded ≡ c.n_decoded + 1)
          × (c'.n_pruned ≡ c.n_pruned)
    unfolding decode_end
    decode_end-IsValid propose c proposing valid =
        let n = c.n_decoded - c.n_pruned in
        let last = valid.frames n (omega arith) in
        let (xs, proposed, all) = proposing 0 c.cache last.frame (omega arith) last.places in
        let (next, stored, kept) = store_frame-All true last.frame xs all in
        let pruned = valid.pruned in
        (
          record c { hyps = assign (n + 1) next c.hyps; n_decoded = c.n_decoded + 1 },
          rw (frame_at-IsFrame P R c.hyps n last, proposed, stored) refl,
          record {
            pruned = omega arith;
            frames = λ i lt. AreFrames-next c.hyps n last next valid.frames kept i (omega arith);
          },
          refl,
          refl,
        )

    pub decode_begin-IsValid : P (d.root, d.sil, minus_one) → IsValid (decode_begin d)
    unfolding decode_begin first_hypothesis lookup
    decode_begin-IsValid first = record {
      pruned = omega arith;
      frames = λ i lt. subst (IsFrame P R (decode_begin d).hyps) (omega arith) (record {
        frame = first_hypothesis d d.lm.start.1 ∷ [];
        found = refl;
        places = (first, tt);
        linked = (starts _ refl, tt);
      });
    }
