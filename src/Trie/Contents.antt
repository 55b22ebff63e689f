-- ===== src/Trie/Contents.antt =====
-- The trie as a map from spellings to the labels of the words that are spelt so.
use wav2letter.Base.{
  ℕ, ◌≡◌, refl, ap, sym, ◌∙◌, true, false, none, some, List, [], ◌∷◌, ◌++◌, length, All, ltb,
  if◌then◌else◌, ok, err, out_of_range, ℤ, ◌=?◌, =?_refl, int_eq, list_eq, Bool-cases, Option-cases,
  inl, inr, arith,
}
use wav2letter.Trie.{
  trie_max_label, TrieNode, node, Children, no_child, child, is_invalid, children, labels,
  find_child, set_child, with_children, new_node, child_or_new, add_label, insert, search,
}

-- All indices are in the range that `insert` and `search` test.
abbrev pub IsValid : ℕ → List ℤ → Type 0
IsValid max_children indices = All (λ i. is_invalid max_children i ≡ false) indices

-- The labels after one more: at most `kTrieMaxLabel`.
abbrev pub add_capped {κ} : {A : Type κ} → A → List A → List A
add_capped x xs = if ltb (length xs) trie_max_label then xs ++ x ∷ [] else xs

module _ {ℓ} {S : Type ℓ} where
  pub find_child-set_child :
      (i j : ℤ) (n : TrieNode S) (cs : Children S)
      → find_child j (set_child i n cs) ≡ (if i =? j then some n else find_child j cs)
  unfolding find_child set_child
  find_child-set_child i j n no_child = refl
  find_child-set_child i j n (child k n' cs) = ground (
    arith,
    (int_eq.beq_iff i j).0,
    (int_eq.beq_iff i j).1,
    (int_eq.beq_iff k i).0,
    (int_eq.beq_iff k i).1,
    (int_eq.beq_iff k j).0,
    (int_eq.beq_iff k j).1,
    find_child-set_child i j n cs,
  )

  -- The words of a spelling: the labels with their scores, none where there is no node.
  unfoldable pub labels_at : TrieNode S → List ℤ → List ℤ
  labels_at n [] = labels n
  labels_at n (idx ∷ indices) = elim (find_child idx (children n)) [
    | none ↦ []
    | some next ↦ labels_at next indices
  ]

  labels_at-none :
      (n : TrieNode S) (idx : ℤ) (indices : List ℤ)
      → find_child idx (children n) ≡ none
      → labels_at n (idx ∷ indices) ≡ []
  unfolding labels_at
  labels_at-none n idx indices e = rw (e, labels_at) refl

  labels_at-some :
      (n next : TrieNode S) (idx : ℤ) (indices : List ℤ)
      → find_child idx (children n) ≡ some next
      → labels_at n (idx ∷ indices) ≡ labels_at next indices
  unfolding labels_at
  labels_at-some n next idx indices e = rw (e, labels_at) refl

  labels_at-new_node : (z : S) (i : ℤ) (indices : List ℤ) → labels_at (new_node z i) indices ≡ []
  unfolding labels_at new_node labels children find_child
  labels_at-new_node z i [] = refl
  labels_at-new_node z i (j ∷ indices) = refl

  labels_at-nil_same : (n n' : TrieNode S) → labels n' ≡ labels n → labels_at n' [] ≡ labels_at n []
  unfolding labels_at
  labels_at-nil_same n n' e = e

  children-with_children : (n : TrieNode S) (cs : Children S) → children (with_children n cs) ≡ cs
  unfolding children with_children
  children-with_children (node cs' i ls ss m) cs = refl

  insert-nil :
      (z : S) (bound : ℕ) (label : ℤ) (score : S) (n : TrieNode S)
      → insert z bound [] label score n ≡ (add_label label score n, ok (add_label label score n))
  unfolding insert
  insert-nil z bound label score n = refl

  insert-cons :
      (z : S) (bound : ℕ) (idx : ℤ) (indices : List ℤ) (label : ℤ) (score : S) (n : TrieNode S)
      → is_invalid bound idx ≡ false
      → let start = child_or_new z idx (find_child idx (children n)) in
        let (next, result) = insert z bound indices label score start in
        insert z bound (idx ∷ indices) label score n
        ≡ (with_children n (set_child idx next (children n)), result)
  unfolding insert
  insert-cons z bound idx indices label score n e = rw e refl

  labels_at-same :
      (n n' : TrieNode S) (j : ℤ) (other : List ℤ)
      → find_child j (children n') ≡ find_child j (children n)
      → labels_at n' (j ∷ other) ≡ labels_at n (j ∷ other)
  unfolding labels_at
  labels_at-same n n' j other e = rw (e, labels_at) refl

  labels_at-child_or_new :
      (z : S) (i : ℤ) (n : TrieNode S) (indices : List ℤ)
      → labels_at (child_or_new z i (find_child i (children n))) indices ≡ labels_at n (i ∷ indices)
  unfolding child_or_new
  labels_at-child_or_new z i n indices = elim (Option-cases (find_child i (children n))) [
    | inl e ↦ rw e (labels_at-new_node z i indices ∙ sym (labels_at-none n i indices e))
    | inr (next, e) ↦ rw e (sym (labels_at-some n next i indices e))
  ]

  labels_at-add_label :
      (label : ℤ) (score : S) (n : TrieNode S) (other : List ℤ)
      → labels_at (add_label label score n) other
        ≡ (if [] =? other then add_capped label (labels_at n []) else labels_at n other)
  unfolding add_label labels_at labels
  labels_at-add_label label score (node cs i ls ss m) [] = ground arith
  labels_at-add_label label score (node cs i ls ss m) (j ∷ other) =
      labels_at-same (node cs i ls ss m) (add_label label score (node cs i ls ss m)) j other
        (ap (find_child j) (unfold children in ground arith))

  labels-add_label :
      (label : ℤ) (score : S) (n : TrieNode S)
      → labels (add_label label score n) ≡ add_capped label (labels_at n [])
  unfolding add_label labels_at labels
  labels-add_label label score (node cs i ls ss m) = ground arith

  labels-with_children : (n : TrieNode S) (cs : Children S) → labels (with_children n cs) ≡ labels n
  unfolding labels with_children
  labels-with_children (node cs' i ls ss m) cs = refl

  find_child-with_children :
      (n next : TrieNode S) (i j : ℤ)
      → find_child j (children (with_children n (set_child i next (children n))))
        ≡ (if i =? j then some next else find_child j (children n))
  find_child-with_children n next i j =
      ap (find_child j) (children-with_children n _) ∙ find_child-set_child i j next (children n)

  -- As a map from spellings to labels, the trie after an insertion with indices that are all in
  -- range is the map of before with the label added at that spelling, unless six labels stand there
  -- already; every other spelling keeps its labels.
  pub labels_at-insert :
      (z : S) (bound : ℕ) (indices : List ℤ) (label : ℤ) (score : S) (n : TrieNode S)
      → IsValid bound indices
      → (other : List ℤ)
      → labels_at (insert z bound indices label score n).0 other
        ≡ (if indices =? other then add_capped label (labels_at n indices) else labels_at n other)
  labels_at-insert z bound [] label score n v other =
      ap (λ r. labels_at r.0 other) (insert-nil z bound label score n)
      ∙ labels_at-add_label label score n other
  labels_at-insert z bound (i ∷ indices) label score n v [] =
      ap (λ r. labels_at r.0 []) (insert-cons z bound i indices label score n v.0)
      ∙ labels_at-nil_same n _ (labels-with_children n _)
  labels_at-insert z bound (i ∷ indices) label score n v (j ∷ other) =
      let start = child_or_new z i (find_child i (children n)) in
      let next = (insert z bound indices label score start).0 in
      let n' = with_children n (set_child i next (children n)) in
      let e = find_child-with_children n next i j in
      ap (λ r. labels_at r.0 (j ∷ other)) (insert-cons z bound i indices label score n v.0)
      ∙ elim (Bool-cases (i =? j)) [
        | inl here ↦
            let same_index = (int_eq.beq_iff i j).0 here in
            labels_at-some n' next j other (e ∙ rw here refl)
            ∙ labels_at-insert z bound indices label score start v.1 other
            ∙ rw
                (
                  labels_at-child_or_new z i n indices,
                  labels_at-child_or_new z i n other,
                  here,
                  same_index,
                )
                refl
        | inr there ↦ labels_at-same n n' j other (e ∙ rw there refl) ∙ rw there refl
      ]

  search-nil : (bound : ℕ) (n : TrieNode S) → search bound [] n ≡ ok (some n)
  unfolding search
  search-nil bound n = refl

  search-some :
      (bound : ℕ) (i : ℤ) (indices : List ℤ) (n next : TrieNode S)
      → is_invalid bound i ≡ false
      → find_child i (children n) ≡ some next
      → search bound (i ∷ indices) n ≡ search bound indices next
  unfolding search
  search-some bound i indices n next valid e = rw (valid, e, search) refl

  -- If all indices are in range, `insert` throws nothing, and `search` for the same indices finds
  -- in the new trie the node that `insert` returned, which has the old labels of the spelling and
  -- the new one up to the limit of six.
  pub search-insert :
      (z : S) (bound : ℕ) (indices : List ℤ) (label : ℤ) (score : S) (n : TrieNode S)
      → IsValid bound indices
      → (found : TrieNode S) × ((insert z bound indices label score n).1 ≡ ok found)
        × (search bound indices (insert z bound indices label score n).0 ≡ ok (some found))
        × (labels found ≡ add_capped label (labels_at n indices))
  search-insert z bound [] label score n v =
      rw (insert-nil z bound label score n)
        (add_label label score n, refl, search-nil bound _, labels-add_label label score n)
  search-insert z bound (i ∷ indices) label score n v =
      let start = child_or_new z i (find_child i (children n)) in
      let next = (insert z bound indices label score start).0 in
      let (found, returned, reached, same) = search-insert z bound indices label score start v.1 in
      let there = find_child-with_children n next i i ∙ rw (=?_refl i) refl in
      rw (insert-cons z bound i indices label score n v.0) (
        found,
        returned,
        search-some bound i indices _ next v.0 there ∙ reached,
        same ∙ rw (labels_at-child_or_new z i n indices) refl,
      )

  insert-bad :
      (z : S) (bound : ℕ) (i : ℤ) (indices : List ℤ) (label : ℤ) (score : S) (n : TrieNode S)
      → is_invalid bound i ≡ true
      → insert z bound (i ∷ indices) label score n ≡ (n, err out_of_range)
  unfolding insert
  insert-bad z bound i indices label score n e = rw e refl

  -- An insertion whose first index out of range stands behind valid ones throws `out_of_range`, and
  -- the nodes that it made before that change the labels of no spelling.
  pub insert-invalid :
      (z : S) (bound : ℕ) (good rest : List ℤ) (bad label : ℤ) (score : S) (n : TrieNode S)
      → IsValid bound good
      → is_invalid bound bad ≡ true
      → ((insert z bound (good ++ bad ∷ rest) label score n).1 ≡ err out_of_range)
        × ((other : List ℤ)
            → labels_at (insert z bound (good ++ bad ∷ rest) label score n).0 other
              ≡ labels_at n other)
  insert-invalid z bound [] rest bad label score n v e =
      rw (insert-bad z bound bad rest label score n e) (refl, λ other. refl)
  insert-invalid z bound (i ∷ good) rest bad label score n v e =
      let start = child_or_new z i (find_child i (children n)) in
      let next = (insert z bound (good ++ bad ∷ rest) label score start).0 in
      let n' = with_children n (set_child i next (children n)) in
      let (thrown, same) = insert-invalid z bound good rest bad label score start v.1 e in
      rw (insert-cons z bound i (good ++ bad ∷ rest) label score n v.0) (
        thrown,
        kept n n' (labels_at-nil_same n n' (labels-with_children n _)) (λ j other.
            elim (Bool-cases (i =? j)) [
              | inl here ↦
                  let e' = find_child-with_children n next i j in
                  labels_at-some n' next j other (e' ∙ rw here refl)
                  ∙ same other
                  ∙ labels_at-child_or_new z i n other
                  ∙ ap (λ k. labels_at n (k ∷ other)) ((int_eq.beq_iff i j).0 here)
              | inr there ↦
                  labels_at-same n n' j other (find_child-with_children n next i j ∙ rw there refl)
            ]),
      )
    where
      kept :
          (n n' : TrieNode S)
          → labels_at n' [] ≡ labels_at n []
          → ((j : ℤ) (other : List ℤ) → labels_at n' (j ∷ other) ≡ labels_at n (j ∷ other))
          → (other : List ℤ) → labels_at n' other ≡ labels_at n other
      kept n n' a b [] = a
      kept n n' a b (j ∷ other) = b j other
