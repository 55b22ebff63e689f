-- ===== src/Decoder/Buffer.antt =====
-- The buffer `hyp_` of src/libraries/decoder/LexiconDecoder.h, one vector of hypotheses for each
-- frame under the number of the frame, and the reads of arrays.
use wav2letter.Base.{
  ℕ, zero, suc, ◌+◌, ◌-◌, Option, none, some, List, [], ◌∷◌, length, get_elem?, Result, ok, err,
  fatal, ℤ, pos, negsuc, lookup, assign, nat_eq,
}

abbrev pub Hyps {ℓ} : Type ℓ → Type ℓ
Hyps A = List (ℕ × List A)

module _ {ℓ} {A : Type ℓ} where
  -- `hyp_[i]`, read: a missing key gives the empty vector.
  abbrev pub or_empty : Option (List A) → List A
  or_empty none = []
  or_empty (some frame) = frame

  unfoldable pub frame_at : ℕ → Hyps A → List A
  frame_at i hyps = or_empty (lookup i hyps)

  -- `hyp_.find(i)->second`: the end iterator is followed where the key is missing.
  unfoldable pub find_frame : ℕ → Hyps A → Result (List A)
  find_frame i hyps = elim (lookup i hyps) [ none ↦ err fatal | some frame ↦ ok frame ]

  -- `emplace(i, ...)` of an empty vector keeps what a present key has.
  unfoldable pub emplace : ℕ → Hyps A → Hyps A
  emplace i hyps = elim (lookup i hyps) [ none ↦ assign i [] hyps | some frame ↦ hyps ]

  unfoldable pub emplace_from : ℕ → ℕ → Hyps A → Hyps A
  emplace_from zero i hyps = hyps
  emplace_from (suc n) i hyps = emplace_from n (suc i) (emplace i hyps)

  unfoldable pub extend_buffer : ℕ → Hyps A → Hyps A
  extend_buffer size hyps = emplace_from (size - length hyps) (length hyps) hyps

  -- The swaps of `pruneAndNormalize`, from frame `i` on.
  unfoldable pub move_frames : ℕ → ℕ → ℕ → Hyps A → Hyps A
  move_frames zero i start hyps = hyps
  move_frames (suc n) i start hyps =
      move_frames n (suc i) start
        (assign (i + start) (frame_at i hyps) (assign i (frame_at (i + start) hyps) hyps))

-- `std::iota`
unfoldable pub count_from : ℕ → ℕ → List ℕ
count_from i zero = []
count_from i (suc n) = i ∷ count_from (suc i) n

-- An element of a vector; an index outside of it is a fault.
unfoldable pub read {ℓ} : {A : Type ℓ} → List A → ℕ → Result A
read xs i = elim (get_elem? xs i) [ none ↦ err fatal | some x ↦ ok x ]

-- A token as an index. No array is read at a negative one.
unfoldable pub index : ℤ → Result ℕ
index (pos n) = ok n
index (negsuc n) = err fatal
