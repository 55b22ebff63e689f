-- ===== src/Decoder/Online.antt =====
-- The members that LexiconDecoder.cpp and LexiconFreeDecoder.cpp of src/libraries/decoder have in
-- common, and pruneAndNormalize and updateLMCache of Utils.h.
use wav2letter.Base.{
  map_result, ℕ, zero, suc, ◌+◌, ◌-◌, ◌*◌, Bool, true, false, none, some, List, [], ◌∷◌, length,
  get_elem?, get_or, take, map, ltb, if◌then◌else◌, Result, ok, err, fatal, ◌>>=◌, minus_one,
  assign, nat_eq,
}
use wav2letter.Beam.{
  States, candidates_reset, add_proposals, candidates_store, Node, DecodeResult, get_hypothesis,
  get_all_hypothesis, find_best_ancestor,
}
use wav2letter.Decoder.Buffer.{Hyps, frame_at, find_frame, extend_buffer, count_from, move_frames}
use wav2letter.Decoder.State.{State, Setup, Decoder}

module _ {ℓ κ μ} {S : Type ℓ} {L : Type κ} {X : Type μ} where
  abbrev pub node : State S L X → Node S
  node st = record { score = st.score; word = st.word; token = st.token }

  -- A hypothesis of frame `i` and those that its parent pointers lead to. No pointer of the first
  -- frame, and none past the end of the frame before, may be followed.
  unfoldable pub ancestors : Hyps (State S L X) → ℕ → State S L X → Result (List (Node S))
  ancestors hyps zero st = elim st.parent [ none ↦ ok (node st ∷ []) | some p ↦ err fatal ]
  ancestors hyps (suc i) st = elim st.parent [
    | none ↦ ok (node st ∷ [])
    | some p ↦ elim (get_elem? (frame_at i hyps) p) [
      | none ↦ err fatal
      | some prev ↦ (do rest ← ancestors hyps i prev; ok (node st ∷ rest))
    ]
  ]

module _ {ℓ κ μ ν} {S : Type ℓ} {L : Type κ} {X : Type μ} {M : Type ν} (d : Setup S L X M) where
  unfoldable pub states : States S (State S L X)
  states = record {
    score = λ st. st.score;
    with_score = λ s st. record st { score = s };
    same = d.same;
  }

  -- The candidates of a frame, added in the order of the proposals and stored.
  unfoldable pub store_frame : Bool → List (State S L X) → Result (List (State S L X))
  store_frame return_sorted proposals =
      let f = d.numbers.scores in
      candidates_store f states d.sorts.sort d.sorts.nth_element d.sorts.partial_sort d.opt.log_add
        d.opt.beam_threshold d.opt.beam_size return_sorted
        (add_proposals f states d.opt.beam_threshold proposals (candidates_reset f states))

  unfoldable pub first_hypothesis : L → State S L X
  first_hypothesis start = record {
    lm_state = start;
    lex = d.root;
    parent = none;
    score = d.numbers.zero_score;
    token = d.sil;
    word = minus_one;
    prev_blank = false;
  }

  unfoldable pub decode_begin : Decoder S L X M
  decode_begin =
      let (cache, start) = d.lm.start in
      record {
        hyps = (0, first_hypothesis start ∷ []) ∷ [];
        n_decoded = 0;
        n_pruned = 0;
        cache = cache;
      }

  unfoldable pub update_lm_cache : M → List (State S L X) → M
  update_lm_cache cache frame = d.lm.update_cache cache (map (λ st. st.lm_state) frame)

  -- The tokens of a frame that are tried, from its emissions in the row `t`.
  unfoldable pub top_tokens : List S → ℕ → ℕ → List ℕ
  top_tokens emissions t n =
      let emission : ℕ → S = λ l. get_or emissions (t * n + l) d.numbers.zero_score in
      let idx = count_from 0 n in
      if ltb d.opt.beam_size_token n
      then take d.opt.beam_size_token (d.sorts.sort_tokens emission d.opt.beam_size_token idx)
      else take n idx

  abbrev pub Propose : Type (ℓ ⊔ κ ⊔ μ ⊔ ν)
  Propose = ℕ → M → List (State S L X) → Result (List (State S L X))

  -- The frames of `decodeStep` from `t` on, behind the `start` frames of the buffer.
  unfoldable pub decode_frames :
      Propose → ℕ → ℕ → ℕ → Hyps (State S L X) × M → Result (Hyps (State S L X) × M)
  decode_frames propose zero t start (hyps, cache) = ok (hyps, cache)
  decode_frames propose (suc n) t start (hyps, cache) = do
    proposals ← propose t cache (frame_at (start + t) hyps)
    next ← store_frame false proposals
    decode_frames propose n (suc t) start
        (assign (start + t + 1) next hyps, update_lm_cache cache next)

  unfoldable pub decode_step : Propose → ℕ → Decoder S L X M → Result (Decoder S L X M)
  decode_step propose t_frames c =
      let start = c.n_decoded - c.n_pruned in
      do
        after ←
            decode_frames propose t_frames 0 start
              (extend_buffer (start + t_frames + 2) c.hyps, c.cache)
        ok (record c { hyps = after.0; cache = after.1; n_decoded = c.n_decoded + t_frames })

  unfoldable pub decode_end : Propose → Decoder S L X M → Result (Decoder S L X M)
  decode_end propose c =
      let frame = c.n_decoded - c.n_pruned in
      do
        proposals ← propose 0 c.cache (frame_at frame c.hyps)
        next ← store_frame true proposals
        ok (record c { hyps = assign (frame + 1) next c.hyps; n_decoded = c.n_decoded + 1 })

  unfoldable pub n_hypothesis : Decoder S L X M → Result ℕ
  n_hypothesis c = do frame ← find_frame (c.n_decoded - c.n_pruned) c.hyps; ok (length frame)

  unfoldable pub n_decoded_frames_in_buffer : Decoder S L X M → ℕ
  n_decoded_frames_in_buffer c = c.n_decoded - c.n_pruned + 1

  -- The last frame, each hypothesis with its ancestors.
  unfoldable pub last_frame : Decoder S L X M → Result (List (List (Node S)))
  last_frame c = do
    frame ← find_frame (c.n_decoded - c.n_pruned) c.hyps
    map_result (ancestors c.hyps (c.n_decoded - c.n_pruned)) frame

  -- `findBestAncestor` of the last frame: the ancestor, and the new `lookBack`.
  unfoldable pub best_ancestor : Decoder S L X M → ℕ → Result (List (Node S) × ℕ)
  best_ancestor c look_back = do
    hyps ← last_frame c
    ok (find_best_ancestor d.numbers.zero_score d.numbers.greater d.is_complete hyps look_back)

  -- `pruneAndNormalize`, its second and third part.
  abbrev pub detach : State S L X → State S L X
  detach st = record st { parent = none }

  unfoldable pub without_parents : List (State S L X) → List (State S L X)
  without_parents frame = map detach frame

  abbrev pub lower : S → State S L X → State S L X
  lower largest st = record st { score = d.numbers.scores.minus st.score largest }

  unfoldable pub largest_score : S → List (State S L X) → S
  largest_score largest [] = largest
  largest_score largest (st ∷ sts) =
      largest_score (if d.numbers.greater st.score largest then st.score else largest) sts

  unfoldable pub normalize : List (State S L X) → Result (List (State S L X))
  normalize [] = err fatal
  normalize (st ∷ sts) = ok (map (lower (largest_score st.score sts)) (st ∷ sts))

  unfoldable pub prune_and_normalize : Hyps (State S L X) → ℕ → ℕ → Result (Hyps (State S L X))
  prune_and_normalize hyps start look_back =
      let moved = move_frames (look_back + 1) 0 start hyps in
      let cut = assign 0 (without_parents (frame_at 0 moved)) moved in
      do last ← normalize (frame_at look_back cut); ok (assign look_back last cut)

  unfoldable pub prune_behind : Decoder S L X M → ℕ → Result (Decoder S L X M)
  prune_behind c look_back =
      let start = c.n_decoded - c.n_pruned - look_back in
      if ltb start 1 then ok c else (do
        hyps ← prune_and_normalize c.hyps start look_back
        ok (record c { hyps = hyps; n_pruned = c.n_decoded - look_back }))

  unfoldable pub prune : Decoder S L X M → ℕ → Result (Decoder S L X M)
  prune c look_back = if ltb (c.n_decoded - c.n_pruned - look_back) 1 then ok c else (do
    best ← best_ancestor c look_back
    elim best.0 [ [] ↦ ok c | node ∷ chain ↦ prune_behind c best.1 ])

  unfoldable pub best_hypothesis : Decoder S L X M → ℕ → Result (DecodeResult S)
  best_hypothesis c look_back = do
    best ← best_ancestor c look_back
    get_hypothesis d.numbers.zero_score best.0 (c.n_decoded - c.n_pruned - best.1)

  unfoldable pub all_final_hypothesis : Decoder S L X M → Result (List (DecodeResult S))
  all_final_hypothesis c = do
    hyps ← last_frame c
    get_all_hypothesis d.numbers.zero_score hyps (c.n_decoded - c.n_pruned)
