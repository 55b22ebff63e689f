-- ===== src/Decoder/State.antt =====
-- The state of LexiconDecoder and LexiconFreeDecoder of src/libraries/decoder, and what they are
-- built from. A parent pointer is the position of the parent in the vector of the frame before.
-- `X` is the place in the lexicon. The language model of src/libraries/lm/LM.h is an interface:
-- `score` and `finish` read its cache, which `start` and `updateCache` set. `float` and `double`
-- are one type of scores.
use wav2letter.Base.{ℕ, Bool, true, false, Option, List, ℤ}
use wav2letter.Beam.{Scores, Node}
use wav2letter.Decoder.Buffer.{Hyps}

pub data CriterionType : Type 0 where
  asg ctc s2s : CriterionType

abbrev pub is_asg : CriterionType → Bool
is_asg asg = true
is_asg ctc = false
is_asg s2s = false

abbrev pub is_ctc : CriterionType → Bool
is_ctc asg = false
is_ctc ctc = true
is_ctc s2s = false

pub record DecoderOptions {ℓ} (S : Type ℓ) : Type ℓ where
  pub beam_size : ℕ
  pub beam_size_token : ℕ
  pub beam_threshold : S
  pub lm_weight : S
  pub word_score : S
  pub unk_score : S
  pub sil_score : S
  pub eos_score : S
  pub log_add : Bool
  pub criterion_type : CriterionType

-- The arithmetic of the scores; `greater` is `>`.
pub record Numbers {ℓ} (S : Type ℓ) : Type ℓ where
  pub scores : Scores S
  pub zero_score : S
  pub plus : S → S → S
  pub times : S → S → S
  pub greater : S → S → Bool

-- `LM`: `M` is its cache. `same_state` tells whether `compare` returns 0.
pub record Lm {ℓ κ ν} (S : Type ℓ) (L : Type κ) (M : Type ν) : Type (ℓ ⊔ κ ⊔ ν) where
  pub start : M × L
  pub score : M → L → ℤ → L × S
  pub finish : M → L → L × S
  pub update_cache : M → List L → M
  pub same_state : L → L → Bool

-- A hypothesis of the beam: `LexiconDecoderState` and `LexiconFreeDecoderState`.
pub record State {ℓ κ μ} (S : Type ℓ) (L : Type κ) (X : Type μ) : Type (ℓ ⊔ κ ⊔ μ) where
  pub lm_state : L
  pub lex : X
  pub parent : Option ℕ
  pub score : S
  pub token : ℤ
  pub word : ℤ
  pub prev_blank : Bool

-- `std::sort`, `std::nth_element` and `std::partial_sort` with the comparisons of the source;
-- `sort_tokens` is the partial sort of the tokens of a frame by their emissions.
pub record Sorts {ℓ κ} (S : Type ℓ) (St : Type κ) : Type (ℓ ⊔ κ) where
  pub sort : List St → List St
  pub nth_element : ℕ → List St → List St
  pub partial_sort : ℕ → List St → List St
  pub sort_tokens : (ℕ → S) → ℕ → List ℕ → List ℕ

-- The members of a decoder that do not change, and in what the two classes differ: the place at
-- which a hypothesis starts, when two are one, and `isComplete`.
pub record Setup {ℓ κ μ ν} (S : Type ℓ) (L : Type κ) (X : Type μ) (M : Type ν)
    : Type (ℓ ⊔ κ ⊔ μ ⊔ ν) where
  pub numbers : Numbers S
  pub lm : Lm S L M
  pub opt : DecoderOptions S
  pub sil : ℤ
  pub sorts : Sorts S (State S L X)
  pub root : X
  pub same : State S L X → State S L X → Bool
  pub is_complete : List (Node S) → Bool

-- `hyp_`, `nDecodedFrames_`, `nPrunedFrames_`, and the cache of the language model.
pub record Decoder {ℓ κ μ ν} (S : Type ℓ) (L : Type κ) (X : Type μ) (M : Type ν)
    : Type (ℓ ⊔ κ ⊔ μ ⊔ ν) where
  pub hyps : Hyps (State S L X)
  pub n_decoded : ℕ
  pub n_pruned : ℕ
  pub cache : M
