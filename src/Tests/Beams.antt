-- ===== src/Tests/Beams.antt =====
-- The theorems on src/libraries/decoder/Utils.h at numbers as scores.
use wav2letter.Base.{
  ℕ, ◌-◌, ◌≡◌, ◌⊎◌, refl, inl, inr, Bool, true, false, not, ◌||◌, List, [], ◌∷◌, All, All-map, max,
  leb, ltb, ok, arith, pos, minus_one, is_negative,
}
use wav2letter.Beam.{
  Scores, States, Node, prune_candidates, candidates_store, get_hypothesis, find_best_ancestor,
}
use wav2letter.Beam.Pruning.{AreOrdered, all_added, prune_candidates-add_proposals}
use wav2letter.Beam.Merging.{AreStates, AreGrouped}
use wav2letter.Beam.Top.{AreDescending, AreSelections, AreTop}
use wav2letter.Beam.Stored.{IsSort, IsMerged, candidates_store_lem}
use wav2letter.Beam.Hypotheses.{read_off, get_hypothesis_lem}
use wav2letter.Beam.Ancestors.{IsBehind, IsTop, IsStrict, find_best_ancestor_lem}
use wav2letter.Tests.Sorting.{
  sort_by, AreInOrder, sort_by-perm, take-AreInOrder, take_before_drop, sort_by-AreInOrder,
}

abbrev numbers : Scores ℕ
numbers = record {
  ge = λ a b. leb b a;
  minus = λ a b. a - b;
  narrow = λ a. a;
  lowest = 0;
  log_sum = λ a b. max a b;
}

numbers-AreOrdered : AreOrdered numbers
numbers-AreOrdered = record {
  ge_refl = λ a. ground arith;
  ge_trans = λ a b c h k. ground arith;
  ge_total = λ a b h. ground arith;
  minus_mono = λ a b t h. ground arith;
  ge_lowest = λ a. ground arith;
}

abbrev same_bool : Bool → Bool → Bool
same_bool true b = b
same_bool false b = not b

-- A state is one of two hypotheses, and its score.
abbrev states : States ℕ (Bool × ℕ)
states = record {
  score = λ st. st.1;
  with_score = λ s st. (st.0, s);
  same = λ a b. same_bool a.0 b.0;
}

same_bool_refl : (a : Bool) → same_bool a a ≡ true
same_bool_refl true = refl
same_bool_refl false = refl

same_bool_sym : (a b : Bool) → same_bool a b ≡ true → same_bool b a ≡ true
same_bool_sym true true h = refl
same_bool_sym true false h = h
same_bool_sym false true h = h
same_bool_sym false false h = refl

same_bool_trans :
    (a b c : Bool) → same_bool a b ≡ true → same_bool b c ≡ true → same_bool a c ≡ true
same_bool_trans true true c h k = k
same_bool_trans true false c h k = absurd (cc)
same_bool_trans false true c h k = absurd (cc)
same_bool_trans false false c h k = k

states-AreStates : AreStates numbers states
states-AreStates = record {
  same_refl = λ a. same_bool_refl a.0;
  same_sym = λ a b h. same_bool_sym a.0 b.0 h;
  same_trans = λ a b c h k. same_bool_trans a.0 b.0 c.0 h k;
  same_score = λ a s. same_bool_refl a.0;
  score_set = λ a s. refl;
}

abbrev proposals : List (Bool × ℕ)
proposals = (true, 9) ∷ (false, 7) ∷ (true, 8) ∷ (false, 2) ∷ []

prune_candidates-add_proposals_example :
    let c = all_added numbers states numbers-AreOrdered 3 ((true, 5) ∷ proposals) in
    (prune_candidates numbers states c.candidates (c.best_score - 3)
      ≡ prune_candidates numbers states ((true, 5) ∷ proposals) (c.best_score - 3))
    × All (λ st. leb st.1 c.best_score ≡ true) ((true, 5) ∷ proposals)
prune_candidates-add_proposals_example =
    prune_candidates-add_proposals numbers states numbers-AreOrdered 3 ((true, 5) ∷ proposals) refl

-- The first hypothesis before the other one.
abbrev grouping : Bool × ℕ → Bool × ℕ → Bool
grouping a b = a.0 || not b.0

grouping_total : (x y : Bool × ℕ) → grouping x y ≡ false → grouping y x ≡ true
grouping_total (true, s) (b, t) h = absurd (cc)
grouping_total (false, s) (true, t) h = refl
grouping_total (false, s) (false, t) h = refl

grouping_trans :
    (x y z : Bool × ℕ) → grouping x y ≡ true → grouping y z ≡ true → grouping x z ≡ true
grouping_trans (true, s) y z h k = refl
grouping_trans (false, s) (true, t) z h k = absurd (cc)
grouping_trans (false, s) (false, t) z h k = k

grouping-other : (t : ℕ) (z : Bool × ℕ) → grouping (false, t) z ≡ true → same_bool z.0 true ≡ false
grouping-other t (true, u) h = absurd (cc)
grouping-other t (false, u) h = refl

AreInOrder-AreGrouped :
    (xs : List (Bool × ℕ)) → AreInOrder grouping xs → AreGrouped numbers states xs
AreInOrder-AreGrouped [] h = tt
AreInOrder-AreGrouped (x ∷ []) h = tt
AreInOrder-AreGrouped (x ∷ y ∷ xs) h =
    (beside x y xs h.0.0 h.1.0, AreInOrder-AreGrouped (y ∷ xs) h.1)
  where
    beside :
        (x y : Bool × ℕ) (xs : List (Bool × ℕ))
        → grouping x y ≡ true
        → All (λ z. grouping y z ≡ true) xs
        → (states.same y x ≡ true) ⊎ All (λ z. states.same z x ≡ false) (y ∷ xs)
    beside (true, s) (true, t) xs h all = inl refl
    beside (true, s) (false, t) xs h all = inr (refl, All-map xs (grouping-other t) all)
    beside (false, s) (true, t) xs h all = absurd (cc)
    beside (false, s) (false, t) xs h all = inl refl

sort_by-IsSort : IsSort numbers states (sort_by grouping)
sort_by-IsSort = record {
  grouped = λ xs.
      AreInOrder-AreGrouped (sort_by grouping xs)
        (sort_by-AreInOrder grouping grouping_total grouping_trans xs);
  perm = sort_by-perm grouping;
}

abbrev descending : Bool × ℕ → Bool × ℕ → Bool
descending a b = leb b.1 a.1

descending_sorted : (xs : List (Bool × ℕ)) → AreInOrder descending (sort_by descending xs)
descending_sorted =
    sort_by-AreInOrder descending (λ x y h. ground arith) (λ x y z h k. ground arith)

abbrev select : ℕ → List (Bool × ℕ) → List (Bool × ℕ)
select n xs = sort_by descending xs

AreInOrder-AreDescending :
    (xs : List (Bool × ℕ)) → AreInOrder descending xs → AreDescending numbers states xs
AreInOrder-AreDescending [] h = tt
AreInOrder-AreDescending (x ∷ xs) h = (h.0, AreInOrder-AreDescending xs h.1)

select-AreSelections : AreSelections numbers states select select
select-AreSelections = record {
  nth_perm = λ n xs le. sort_by-perm descending xs;
  nth_above = λ n xs le. take_before_drop descending n _ (descending_sorted xs);
  partial_perm = λ n xs le. sort_by-perm descending xs;
  partial_above = λ n xs le. take_before_drop descending n _ (descending_sorted xs);
  partial_sorted =
      λ n xs le. AreInOrder-AreDescending _ (take-AreInOrder descending n _ (descending_sorted xs));
}

candidates_store_lem_example :
    let c = all_added numbers states numbers-AreOrdered 3 proposals in
    (merged stored : List (Bool × ℕ)) × (candidates_store numbers states
        (sort_by grouping)
        select
        select
        false
        3
        1
        false
        c
      ≡ ok stored)
    × IsMerged numbers states (prune_candidates numbers states proposals (c.best_score - 3)) merged
    × AreTop numbers states 1 false merged stored
candidates_store_lem_example =
    candidates_store_lem numbers states numbers-AreOrdered states-AreStates (sort_by grouping)
      select select 3 1 false (true, 9) ((false, 7) ∷ (true, 8) ∷ (false, 2) ∷ []) sort_by-IsSort
      select-AreSelections (λ a. ground arith) refl

abbrev last_node : Node ℕ
last_node = record { score = 9; word = pos 4; token = pos 1 }

abbrev first_node : Node ℕ
first_node = record { score = 0; word = minus_one; token = pos 0 }

get_hypothesis_lem_example :
    get_hypothesis 0 (last_node ∷ first_node ∷ []) 2
    ≡ ok (read_off 0 9 (last_node ∷ first_node ∷ []) 2)
get_hypothesis_lem_example = get_hypothesis_lem 0 last_node (first_node ∷ []) 2 (omega arith)

abbrev two_chains : List (List (Node ℕ))
two_chains = (first_node ∷ first_node ∷ []) ∷ (last_node ∷ first_node ∷ []) ∷ []

abbrev speaks : List (Node ℕ) → Bool
speaks [] = false
speaks (nd ∷ chain) = not (is_negative nd.word)

greater-IsStrict : IsStrict 0 (λ a b. ltb b a) speaks
greater-IsStrict = record { trans = λ a b c h k. ground arith; over = λ a b c h k. ground arith }

find_best_ancestor_lem_example :
    let (end, n) = find_best_ancestor 0 (λ a b. ltb b a) speaks two_chains 1 in
    (best : List (Node ℕ)) × IsTop 0 (λ a b. ltb b a) speaks best two_chains
    × IsBehind 0 (λ a b. ltb b a) speaks 1 best end n
find_best_ancestor_lem_example =
    find_best_ancestor_lem 0 (λ a b. ltb b a) speaks greater-IsStrict first_node (first_node ∷ [])
      ((last_node ∷ first_node ∷ []) ∷ []) 1
