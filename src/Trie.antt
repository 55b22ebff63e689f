-- ===== src/Trie.antt =====
-- src/libraries/decoder/Trie.h and Trie.cpp: the lexicon trie of the decoder.
-- A node is a value: the pointers of the source form a tree, and each child belongs to one parent.
-- An insertion that throws has made nodes before, so it returns the trie beside its result.
-- The type of the scores, their comparison and `TrieLogAdd` on them are parameters of `smear`.
pub mod Contents
pub mod Smear
use wav2letter.Base.{
  ℕ, zero, suc, Bool, true, false, ◌||◌, Option, none, some, List, [], ◌∷◌, ◌++◌, length, ltb, leb,
  if◌then◌else◌, Result, ok, err, out_of_range, ℤ, pos, negsuc, is_negative, ◌=?◌, int_eq,
}

abbrev pub trie_max_label : ℕ
trie_max_label = 6

pub data SmearingMode : Type 0 where
  none_mode max_mode logadd_mode : SmearingMode

mutual
  -- `children`, `idx`, `labels`, `scores` and `maxScore`.
  pub data TrieNode {ℓ} (S : Type ℓ) : Type ℓ where
    node : Children S → ℤ → List ℤ → List S → S → TrieNode S

  -- The map of the children: an index at most once, in the order in which an iteration meets them.
  pub data Children {ℓ} (S : Type ℓ) : Type ℓ where
    no_child : Children S
    child : ℤ → TrieNode S → Children S → Children S

-- `idx >= maxChildren_` for the number of children of the trie.
unfoldable pub is_at_least : ℤ → ℕ → Bool
is_at_least (pos n) bound = leb bound n
is_at_least (negsuc n) bound = false

unfoldable pub is_invalid : ℕ → ℤ → Bool
is_invalid max_children idx = is_negative idx || is_at_least idx max_children

module _ {ℓ} {S : Type ℓ} where
  unfoldable pub children : TrieNode S → Children S
  children (node cs idx ls ss m) = cs

  unfoldable pub labels : TrieNode S → List ℤ
  labels (node cs idx ls ss m) = ls

  unfoldable pub scores : TrieNode S → List S
  scores (node cs idx ls ss m) = ss

  unfoldable pub max_score : TrieNode S → S
  max_score (node cs idx ls ss m) = m

  unfoldable pub find_child : ℤ → Children S → Option (TrieNode S)
  find_child i no_child = none
  find_child i (child j n cs) = let rest = find_child i cs in if j =? i then some n else rest

  unfoldable pub set_child : ℤ → TrieNode S → Children S → Children S
  set_child i n no_child = child i n no_child
  set_child i n (child j n' cs) =
      let rest = set_child i n cs in if j =? i then child i n cs else child j n' rest

  unfoldable pub with_children : TrieNode S → Children S → TrieNode S
  with_children (node cs idx ls ss m) cs' = node cs' idx ls ss m

  -- The constructor of `TrieNode`; `zero_score` is the 0 of the scores.
  unfoldable pub new_node : S → ℤ → TrieNode S
  new_node zero_score idx = node no_child idx [] [] zero_score

  unfoldable pub child_or_new : S → ℤ → Option (TrieNode S) → TrieNode S
  child_or_new zero_score idx none = new_node zero_score idx
  child_or_new zero_score idx (some next) = next

  -- The end of `insert`: more than `kTrieMaxLabel` labels are dropped with a message.
  unfoldable pub add_label : ℤ → S → TrieNode S → TrieNode S
  add_label label score (node cs idx ls ss m) =
      if ltb (length ls) trie_max_label
      then node cs idx (ls ++ label ∷ []) (ss ++ score ∷ []) m
      else node cs idx ls ss m

  -- `insert`: the trie after the call, and the node that it returns or the exception.
  unfoldable pub insert : S → ℕ → List ℤ → ℤ → S → TrieNode S → TrieNode S × Result (TrieNode S)
  insert zero_score max_children [] label score n =
      (add_label label score n, ok (add_label label score n))
  insert zero_score max_children (idx ∷ indices) label score n =
      let start = child_or_new zero_score idx (find_child idx (children n)) in
      let (next, result) = insert zero_score max_children indices label score start in
      if is_invalid max_children idx
      then (n, err out_of_range)
      else (with_children n (set_child idx next (children n)), result)

  -- `search`: the null pointer is `none`.
  unfoldable pub search : ℕ → List ℤ → TrieNode S → Result (Option (TrieNode S))
  search max_children [] n = ok (some n)
  search max_children (idx ∷ indices) n =
      if is_invalid max_children idx then err out_of_range else elim (find_child idx (children n)) [
        | none ↦ ok none
        | some next ↦ search max_children indices next
      ]

  module _ (log_add : S → S → S) (less : S → S → Bool) (minus_infinity : S) where
    -- What a child's score does to its parent's.
    unfoldable pub smear_step : SmearingMode → S → S → S
    smear_step none_mode parent child_score = parent
    smear_step logadd_mode parent child_score = log_add parent child_score
    smear_step max_mode parent child_score = if less parent child_score then child_score else parent

    -- The first loop of `smearNode`.
    unfoldable pub add_scores : S → List S → S
    add_scores acc [] = acc
    add_scores acc (score ∷ rest) = add_scores (log_add acc score) rest

    unfoldable mutual
      pub smear_node : SmearingMode → TrieNode S → TrieNode S
      smear_node mode (node cs idx ls ss m) =
          let (cs', m') = smear_children mode cs (add_scores minus_infinity ss) in
          node cs' idx ls ss m'

      -- The second loop: the smeared children, and the parent's score.
      pub smear_children : SmearingMode → Children S → S → Children S × S
      smear_children mode no_child acc = (no_child, acc)
      smear_children mode (child i n cs) acc =
          let n' = smear_node mode n in
          let (cs', m') = smear_children mode cs (smear_step mode acc (max_score n')) in
          (child i n' cs', m')

    unfoldable pub smear : SmearingMode → TrieNode S → TrieNode S
    smear none_mode n = n
    smear max_mode n = smear_node max_mode n
    smear logadd_mode n = smear_node logadd_mode n
