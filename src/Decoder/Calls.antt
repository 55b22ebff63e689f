-- ===== src/Decoder/Calls.antt =====
-- Histories of a LexiconDecoder of src/libraries/decoder: what holds after any sequence of the calls
-- decodeBegin, decodeStep, decodeEnd and prune, also of online decoding, where they alternate.
use mathlib.Core.List.{reverse_aux}
use wav2letter.Base.{
  ℕ, ◌+◌, ◌-◌, ◌*◌, ◌≡◌, refl, sym, subst, inl, inr, some, List, [], ◌∷◌, length, Result, ok, ℤ,
  All, All-map, Bool-cases, ltb, arith,
}
use wav2letter.Beam.{Node, DecodeResult}
use wav2letter.Beam.Hypotheses.{words_of, tokens_of}
use wav2letter.Decoder.State.{Setup, Decoder}
use wav2letter.Decoder.Online.{decode_begin, prune}
use wav2letter.Decoder.Frames.{Place}
use wav2letter.Decoder.Valid.{
  IsValid, decode_begin-IsValid, decode_step-IsValid, decode_end-IsValid,
}
use wav2letter.Decoder.Chains.{IsWalk, begins, goes, IsDecoded, all_final_hypothesis-ok}
use wav2letter.Decoder.Best.{best_hypothesis-ok}
use wav2letter.Decoder.Forgetful.{prune-IsPruned}
use wav2letter.Decoder.Proposed.{IsToken}
use wav2letter.Decoder.Lexicon.{
  Lexicon, node_at, step, finish, decode, get_best_hypothesis, get_all_final_hypothesis,
}
use wav2letter.Decoder.Moves.{IsWord, IsPlace, IsMove}
use wav2letter.Decoder.Searching.{Fits, propose_frame-IsProposing, propose_end-IsProposing}

module _ {ℓ} {A : Type ℓ} where
  All-reverse_aux {κ} :
      (P : A → Type κ) (xs done : List A) → All P xs → All P done → All P (reverse_aux xs done)
  All-reverse_aux P [] done all all' = all'
  All-reverse_aux P (x ∷ xs) done all all' = All-reverse_aux P xs (x ∷ done) all.1 (all.0, all')

  length-reversed : (xs done : List A) → length (reverse_aux xs done) ≡ length xs + length done
  length-reversed [] done = omega arith
  length-reversed (x ∷ xs) done = omega (arith, length-reversed xs (x ∷ done))

module _ {ℓ κ ν} {S : Type ℓ} {L : Type κ} {M : Type ν} (d : Setup S L (List ℤ) M) (x : Lexicon S)
    (n_tokens : ℕ) where
  abbrev pub LexDecoder : Type (ℓ ⊔ κ ⊔ ν)
  LexDecoder = Decoder S L (List ℤ) M

  -- The states that calls lead to, each call given as many emissions as its frames and tokens say.
  pub data Reachable : LexDecoder → Type (ℓ ⊔ κ ⊔ ν) where
    begun : Reachable (decode_begin d)
    stepped :
        (c c' : LexDecoder) (emissions : List S) (n_frames : ℕ)
        → Reachable c
        → length emissions ≡ n_frames * n_tokens
        → step d x emissions n_frames n_tokens c ≡ ok c'
        → Reachable c'
    finished : (c c' : LexDecoder) → Reachable c → finish d x c ≡ ok c' → Reachable c'
    pruned :
        (c c' : LexDecoder) (look_back : ℕ)
        → Reachable c
        → prune d c look_back ≡ ok c'
        → Reachable c'

  abbrev pub LexValid : LexDecoder → Type (ℓ ⊔ κ)
  LexValid c = IsValid (IsPlace d x n_tokens) (IsMove d x n_tokens) c

  -- A result for `n` frames behind the first one: a walk of the search, with a token for each
  -- frame, and words of the lexicon.
  pub record IsTranscript (n : ℕ) (r : DecodeResult S) : Type ℓ where
    pub walk : IsDecoded (IsPlace d x n_tokens) (IsMove d x n_tokens) n r
    pub length_tokens : length r.tokens ≡ n + 1
    pub all_tokens : All (IsToken n_tokens) r.tokens
    pub all_words : All (IsWord d x n_tokens) r.words

  module _ (fits : Fits d x n_tokens) where
    same-ok : {A : Type (ℓ ⊔ κ ⊔ ν)} {r : Result A} {a b : A} → r ≡ ok a → r ≡ ok b → a ≡ b
    same-ok e e' = cc

    step-LexValid :
        (c : LexDecoder) (emissions : List S) (n_frames : ℕ)
        → length emissions ≡ n_frames * n_tokens
        → LexValid c
        → (c' : LexDecoder) × (step d x emissions n_frames n_tokens c ≡ ok c')
          × LexValid c'
          × (c'.n_decoded ≡ c.n_decoded + n_frames)
          × (c'.n_pruned ≡ c.n_pruned)
    unfolding step
    step-LexValid c emissions n_frames filled valid =
        decode_step-IsValid (IsPlace d x n_tokens) (IsMove d x n_tokens) d fits.sound _ n_frames c
          (propose_frame-IsProposing d x n_tokens fits emissions n_frames c.n_decoded filled) valid

    finish-LexValid :
        (c : LexDecoder)
        → LexValid c
        → (c' : LexDecoder) × (finish d x c ≡ ok c')
          × LexValid c'
          × (c'.n_decoded ≡ c.n_decoded + 1)
          × (c'.n_pruned ≡ c.n_pruned)
    unfolding finish
    finish-LexValid c valid =
        decode_end-IsValid (IsPlace d x n_tokens) (IsMove d x n_tokens) d fits.sound _ c
          (propose_end-IsProposing d x n_tokens fits) valid

    prune-LexValid :
        (c : LexDecoder) (look_back : ℕ)
        → LexValid c
        → (c' : LexDecoder) × (prune d c look_back ≡ ok c') × LexValid c'
    prune-LexValid c look_back valid =
        let (c', e, _, valid') =
          prune-IsPruned (IsPlace d x n_tokens) (IsMove d x n_tokens) d c look_back valid in
        (c', e, valid')

    -- The buffer is well formed after every history.
    pub Reachable-LexValid : (c : LexDecoder) → Reachable c → LexValid c
    unfolding node_at
    Reachable-LexValid _ begun =
        decode_begin-IsValid (IsPlace d x n_tokens) (IsMove d x n_tokens) d fits.sound (
          fits.sil_token,
          inl refl,
          x.trie,
          subst (λ path. node_at path x.trie ≡ some x.trie) (sym fits.root_path) refl,
        )
    Reachable-LexValid _ (stepped c c' emissions n_frames before filled e) =
        let (c'', e', valid, _, _) =
          step-LexValid c emissions n_frames filled (Reachable-LexValid c before) in
        subst LexValid (same-ok e' e) valid
    Reachable-LexValid _ (finished c c' before e) =
        let (c'', e', valid, _, _) = finish-LexValid c (Reachable-LexValid c before) in
        subst LexValid (same-ok e' e) valid
    Reachable-LexValid _ (pruned c c' look_back before e) =
        let (c'', e', valid) = prune-LexValid c look_back (Reachable-LexValid c before) in
        subst LexValid (same-ok e' e) valid

    -- After any history of the calls `decodeBegin`, `decodeStep`, `decodeEnd` and `prune` on the
    -- decoder with a lexicon, each of `decodeStep`, `decodeEnd`, `prune` and `getBestHypothesis`
    -- returns: no parent pointer dangles, and nothing is read outside of an array. Conditions:
    -- there are emissions for each frame and token, the silence and with CTC the blank are tokens,
    -- with ASG the transitions are a square matrix, a hypothesis starts at the root, the threshold
    -- is not negative, no score is a NaN, and for no score does the conversion to `float` of the
    -- score less the threshold give more than that score, and the sorts are permutations.
    pub calls_lem :
        (c : LexDecoder) (emissions : List S) (n_frames look_back : ℕ)
        → Reachable c
        → length emissions ≡ n_frames * n_tokens
        → ((c' : LexDecoder) × (step d x emissions n_frames n_tokens c ≡ ok c') × Reachable c')
          × ((c' : LexDecoder) × (finish d x c ≡ ok c') × Reachable c')
          × ((c' : LexDecoder) × (prune d c look_back ≡ ok c') × Reachable c')
          × ((r : DecodeResult S) × (get_best_hypothesis d x c look_back ≡ ok r))
    unfolding get_best_hypothesis
    calls_lem c emissions n_frames look_back reachable filled =
        let valid = Reachable-LexValid c reachable in
        let (c1, e1, _, _, _) = step-LexValid c emissions n_frames filled valid in
        let (c2, e2, _, _, _) = finish-LexValid c valid in
        let (c3, e3, _) = prune-LexValid c look_back valid in
        let (r, e, _, _, _) =
          best_hypothesis-ok (IsPlace d x n_tokens) (IsMove d x n_tokens) d c look_back valid in
        (
          (c1, e1, stepped c c1 emissions n_frames reachable filled e1),
          (c2, e2, finished c c2 reachable e2),
          (c3, e3, pruned c c3 look_back reachable e3),
          elim (Bool-cases (ltb (c.n_decoded - c.n_pruned - look_back) 1)) [
            | inl early ↦
                (record { score = d.numbers.zero_score; words = []; tokens = [] }, rw early refl)
            | inr late ↦ (r, rw late e)
          ],
        )

    -- The tokens and the words of a walk are those of its places.
    walk-All :
        (n : ℕ) (y : Place (List ℤ)) (chain : List (Node S))
        → IsWalk (IsPlace d x n_tokens) (IsMove d x n_tokens) n y chain
        → (length (tokens_of chain) ≡ n + 1)
          × All (IsToken n_tokens) (tokens_of chain)
          × All (IsWord d x n_tokens) (words_of chain)
    walk-All _ _ _ (begins y nd e e' place) = (
      omega arith,
      (subst (IsToken n_tokens) (sym e) place.0, tt),
      (subst (IsWord d x n_tokens) (sym e') place.1, tt),
    )
    walk-All _ _ _ (goes n y z nd chain e e' place move walk) =
        let (len, tokens, words) = walk-All n y chain walk in
        (
          omega arith,
          (subst (IsToken n_tokens) (sym e) place.0, tokens),
          (subst (IsWord d x n_tokens) (sym e') place.1, words),
        )

    IsDecoded-IsTranscript :
        (n : ℕ) (r : DecodeResult S)
        → IsDecoded (IsPlace d x n_tokens) (IsMove d x n_tokens) n r
        → IsTranscript n r
    IsDecoded-IsTranscript n r decoded =
        let (len, tokens, words) = walk-All n decoded.last decoded.chain decoded.walk in
        record {
          walk = decoded;
          length_tokens =
              subst (λ ts. length ts ≡ n + 1) (sym decoded.tokens)
                (omega (arith, length-reversed (tokens_of decoded.chain) []));
          all_tokens =
              subst (All (IsToken n_tokens)) (sym decoded.tokens)
                (All-reverse_aux (IsToken n_tokens) (tokens_of decoded.chain) [] tokens tt);
          all_words =
              subst (All (IsWord d x n_tokens)) (sym decoded.words)
                (All-reverse_aux (IsWord d x n_tokens) (words_of decoded.chain) [] words tt);
        }

    -- results
    pub get_all_final_hypothesis_lem :
        (c : LexDecoder)
        → Reachable c
        → (rs : List (DecodeResult S)) × (get_all_final_hypothesis d x c ≡ ok rs)
          × All (IsTranscript (c.n_decoded - c.n_pruned)) rs
    unfolding get_all_final_hypothesis
    get_all_final_hypothesis_lem c reachable =
        let n = c.n_decoded - c.n_pruned in
        let (rs, e, all) =
          all_final_hypothesis-ok (IsPlace d x n_tokens) (IsMove d x n_tokens) d c
            (Reachable-LexValid c reachable) in
        elim (Bool-cases (ltb n 1)) [
          | inl early ↦ ([], rw early refl, tt)
          | inr late ↦ (rs, rw late e, All-map rs (IsDecoded-IsTranscript n) all)
        ]

    -- `decode` of the decoder with a lexicon returns for any number of frames: nothing is read
    -- outside of the emissions, the transitions or the buffer, and no null pointer is followed.
    -- Each result has a token for each frame and for both ends, all its tokens are indices and all
    -- its words are -1, the unknown word or labels of the lexicon, and it is a walk of the search
    -- through the trie. Conditions: there are emissions for each frame and token, the silence and
    -- with CTC the blank are tokens, with ASG the transitions are a square matrix, a hypothesis
    -- starts at the root, the threshold is not negative, no score is a NaN, and for no score does
    -- the conversion to `float` of the score less the threshold give more than that score, and the
    -- sorts are permutations.
    pub decode_lem :
        (emissions : List S) (n_frames : ℕ)
        → length emissions ≡ n_frames * n_tokens
        → (rs : List (DecodeResult S)) × (decode d x emissions n_frames n_tokens ≡ ok rs)
          × All (IsTranscript (n_frames + 1)) rs
    unfolding decode decode_begin
    decode_lem emissions n_frames filled =
        let (c, e, valid, decoded, pruned_none) =
          step-LexValid (decode_begin d) emissions n_frames filled
            (Reachable-LexValid (decode_begin d) begun) in
        let (c', e', valid', decoded', pruned_none') = finish-LexValid c valid in
        let (rs, read, all) =
          get_all_final_hypothesis_lem c'
            (finished c c' (stepped (decode_begin d) c emissions n_frames begun filled e) e') in
        (rs, rw (e, e') read, subst (λ n. All (IsTranscript n) rs) (omega arith) all)
