-- ===== src/Beam.antt =====
-- src/libraries/decoder/Utils.h and Utils.cpp, and the candidate buffer that each beam-search decoder
-- keeps (candidatesReset, candidatesAdd, mergeCandidates and candidatesStore of LexiconDecoder.cpp).
-- The scores are a type with the operations that the source uses on floating-point numbers;
-- `std::sort`, `std::nth_element` and `std::partial_sort` are parameters of the operations.
-- A hypothesis and those that its parent pointers lead to are a list, the hypothesis first.
pub mod Pruning
pub mod Merging
pub mod Top
pub mod Stored
pub mod Hypotheses
pub mod Ancestors
pub mod Kept
use wav2letter.Base.{
  map_result, ℕ, zero, suc, ◌+◌, ◌-◌, min, Bool, true, false, not, ◌&&◌, ◌||◌, Option, none, some,
  List, [], ◌∷◌, ◌++◌, length, take, replicate, set, map, keep_if, ltb, leb, ◌==◌, if◌then◌else◌,
  Result, ok, err, guard, ◌>>=◌, ◌>>◌, fatal, ℤ, minus_one, is_negative,
}

-- `ge a b` is `a >= b`; `minus` is the subtraction, `narrow` the conversion from `double` to `float`
-- of an argument; `lowest` is `kNegativeInfinity`; `log_sum` is the logarithm of the sum of the two
-- exponentials, which `mergeStates` computes from the greater and the smaller score.
pub record Scores {ℓ} (S : Type ℓ) : Type ℓ where
  pub ge : S → S → Bool
  pub minus : S → S → S
  pub narrow : S → S
  pub lowest : S
  pub log_sum : S → S → S

-- What the decoders differ in: the states that they make, and when two of them are one hypothesis.
pub record States {ℓ κ} (S : Type ℓ) (St : Type κ) : Type (ℓ ⊔ κ) where
  pub score : St → S
  pub with_score : S → St → St
  pub same : St → St → Bool

module _ {ℓ κ} {S : Type ℓ} {St : Type κ} (f : Scores S) (states : States S St) where
  -- `isValidCandidate`: the best score after the call, and the result.
  unfoldable pub is_valid_candidate : S → S → S → S × Bool
  is_valid_candidate best_score score beam_threshold =
      let best = (if f.ge score best_score then score else best_score) in
      (best, f.ge score (f.minus best beam_threshold))

  -- `candidatesBestScore_` and `candidates_`.
  pub record Candidates : Type (ℓ ⊔ κ) where
    pub best_score : S
    pub candidates : List St

  unfoldable pub candidates_reset : Candidates
  candidates_reset = record { best_score = f.lowest; candidates = [] }

  unfoldable pub candidates_add : S → St → Candidates → Candidates
  candidates_add beam_threshold st c =
      let (best, valid) = is_valid_candidate c.best_score (states.score st) beam_threshold in
      record {
        best_score = best;
        candidates = if valid then c.candidates ++ st ∷ [] else c.candidates;
      }

  -- The proposals of a frame, in the order of the calls of `candidatesAdd`.
  unfoldable pub add_proposals : S → List St → Candidates → Candidates
  add_proposals beam_threshold [] c = c
  add_proposals beam_threshold (st ∷ sts) c =
      add_proposals beam_threshold sts (candidates_add beam_threshold st c)

  unfoldable pub prune_candidates : List St → S → List St
  prune_candidates candidates threshold =
      keep_if (λ st. f.ge (states.score st) (f.narrow threshold)) candidates

  unfoldable pub merge_states : Bool → St → St → St
  merge_states log_add old_node new_node =
      let max_score =
        (if f.ge (states.score old_node) (states.score new_node)
          then states.score old_node
          else states.score new_node) in
      let min_score =
        (if f.ge (states.score old_node) (states.score new_node)
          then states.score new_node
          else states.score old_node) in
      if log_add
      then states.with_score (f.log_sum max_score min_score) old_node
      else states.with_score max_score old_node

  -- The loop of `mergeCandidates` over the sorted candidates: `last` is the last one kept.
  unfoldable pub merge_loop : Bool → St → List St → List St
  merge_loop log_add last [] = last ∷ []
  merge_loop log_add last (st ∷ sts) =
      let merged = merge_loop log_add (merge_states log_add last st) sts in
      let kept = merge_loop log_add st sts in if states.same st last then merged else last ∷ kept

  -- `resize(1)` of no candidate makes a null pointer, which is followed at once: `fatal`.
  unfoldable pub merge_candidates : (List St → List St) → Bool → List St → Result (List St)
  merge_candidates sort log_add candidates = elim (sort candidates) [
    | [] ↦ err fatal
    | st ∷ sts ↦ ok (merge_loop log_add st sts)
  ]

  -- Each of the two sorts brings as many of the best candidates to the front as its number says.
  unfoldable pub store_top_candidates :
      (ℕ → List St → List St) → (ℕ → List St → List St) → ℕ → Bool → List St → List St
  store_top_candidates nth_element partial_sort beam_size return_sorted candidates =
      let final_size = min (length candidates) beam_size in
      if not return_sorted && ltb beam_size (length candidates)
      then take final_size (nth_element final_size candidates)
      else if return_sorted
      then take final_size (partial_sort final_size candidates)
      else take final_size candidates

  unfoldable pub candidates_store :
      (List St → List St)
      → (ℕ → List St → List St)
      → (ℕ → List St → List St)
      → Bool
      → S
      → ℕ
      → Bool
      → Candidates
      → Result (List St)
  candidates_store sort nth_element partial_sort log_add beam_threshold beam_size return_sorted c =
      elim c.candidates [
        | [] ↦ ok []
        | st ∷ sts ↦ (do
          merged ←
              merge_candidates sort log_add
                (prune_candidates (st ∷ sts) (f.minus c.best_score beam_threshold))
          ok (store_top_candidates nth_element partial_sort beam_size return_sorted merged))
      ]

-- What the functions on hypotheses read of a state; `is_complete` is that of the decoder.
pub record Node {ℓ} (S : Type ℓ) : Type ℓ where
  pub score : S
  pub word : ℤ
  pub token : ℤ

pub record DecodeResult {ℓ} (S : Type ℓ) : Type ℓ where
  pub score : S
  pub words : List ℤ
  pub tokens : List ℤ

abbrev pub look_back_limit : ℕ
look_back_limit = 100

module _ {ℓ} {S : Type ℓ} (zero_score : S) where
  -- The loop of `getHypothesis` from its round `i` on; a write before the front is undefined
  -- behaviour, `fatal`.
  unfoldable pub fill : ℕ → ℕ → List (Node S) → DecodeResult S → Result (DecodeResult S)
  fill final_frame i [] res = ok res
  fill final_frame i (node ∷ ancestors) res = do
    guard (leb i final_frame) fatal
    fill final_frame (suc i) ancestors (record res {
      words = set res.words (final_frame - i) node.word;
      tokens = set res.tokens (final_frame - i) node.token;
    })

  unfoldable pub get_hypothesis : List (Node S) → ℕ → Result (DecodeResult S)
  get_hypothesis [] final_frame = ok (record { score = zero_score; words = []; tokens = [] })
  get_hypothesis (node ∷ ancestors) final_frame = fill final_frame 0 (node ∷ ancestors) (record {
    score = node.score;
    words = replicate (final_frame + 1) minus_one;
    tokens = replicate (final_frame + 1) minus_one;
  })

  unfoldable pub get_all_hypothesis : List (List (Node S)) → ℕ → Result (List (DecodeResult S))
  get_all_hypothesis final_hyps final_frame =
      map_result (λ node. get_hypothesis node final_frame) final_hyps

  module _ (greater : S → S → Bool) (is_complete : List (Node S) → Bool) where
    -- The first loop of `findBestAncestor`: the first of the hypotheses with the best score.
    unfoldable pub best_loop : S → List (Node S) → List (List (Node S)) → List (Node S)
    best_loop best_score best [] = best
    best_loop best_score best ([] ∷ hyps) = best_loop best_score best hyps
    best_loop best_score best ((node ∷ ancestors) ∷ hyps) =
        let better = best_loop node.score (node ∷ ancestors) hyps in
        let same = best_loop best_score best hyps in
        if greater node.score best_score then better else same

    -- `n` steps back, or fewer up to the start: the node and the number of steps.
    unfoldable pub step_back : ℕ → ℕ → List (Node S) → List (Node S) × ℕ
    step_back zero n chain = (chain, n)
    step_back (suc k) n [] = ([], n)
    step_back (suc k) n (node ∷ ancestors) = step_back k (suc n) ancestors

    -- The last loop: back to a complete word, for at most `limit` steps.
    unfoldable pub find_complete : ℕ → ℕ → List (Node S) → List (Node S) × ℕ
    find_complete limit n [] = ([], n)
    find_complete limit n (node ∷ ancestors) =
        let more = find_complete limit (suc n) ancestors in
        if is_complete (node ∷ ancestors)
        then (node ∷ ancestors, n)
        else if suc n == limit
        then (ancestors, suc n)
        else more

    -- `findBestAncestor`: the node, and the new `lookBack`.
    unfoldable pub find_best_ancestor : List (List (Node S)) → ℕ → List (Node S) × ℕ
    find_best_ancestor [] look_back = ([], look_back)
    find_best_ancestor ([] ∷ hyps) look_back = ([], look_back)
    find_best_ancestor ((node ∷ ancestors) ∷ hyps) look_back =
        let best = best_loop node.score (node ∷ ancestors) hyps in
        let (start, n) = step_back look_back 0 best in
        find_complete (look_back + look_back_limit) n start
