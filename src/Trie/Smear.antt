-- ===== src/Trie/Smear.antt =====
-- Smearing: what it keeps of a trie, and what the score of a node is in the mode `MAX`.
use wav2letter.Base.{◌≡◌, refl, ap, ◌∙◌, ◌⊎◌, inl, inr, Bool, true, false, List, ℤ, Bool-cases}
use wav2letter.Trie.{
  SmearingMode, none_mode, max_mode, logadd_mode, TrieNode, node, Children, no_child, child, scores,
  max_score, smear_step, add_scores, smear_node, smear_children, smear,
}

mutual
  -- A node of the trie below another one, or the node itself.
  pub data IsIn {ℓ} {S : Type ℓ} (x : TrieNode S) : TrieNode S → Type ℓ where
    itself : IsIn x x
    deeper :
        (cs : Children S) (i : ℤ) (ls : List ℤ) (ss : List S) (m : S)
        → IsInChildren x cs
        → IsIn x (node cs i ls ss m)

  pub data IsInChildren {ℓ} {S : Type ℓ} (x : TrieNode S) : Children S → Type ℓ where
    first : (i : ℤ) (n : TrieNode S) (cs : Children S) → IsIn x n → IsInChildren x (child i n cs)
    later :
        (i : ℤ) (n : TrieNode S) (cs : Children S)
        → IsInChildren x cs
        → IsInChildren x (child i n cs)

module _ {ℓ} {S : Type ℓ} (blank : S) where
  -- The trie with `maxScore` set to one number in all nodes.
  abbrev mutual
    pub clear : TrieNode S → TrieNode S
    clear (node cs i ls ss m) = node (clear_children cs) i ls ss blank

    pub clear_children : Children S → Children S
    clear_children no_child = no_child
    clear_children (child i n cs) = child i (clear n) (clear_children cs)

module _ {ℓ} {S : Type ℓ} (log_add : S → S → S) (less : S → S → Bool) (minus_infinity : S) where
  -- The score of the words that end in a node.
  abbrev pub own_score : TrieNode S → S
  own_score n = add_scores log_add less minus_infinity minus_infinity (scores n)

  -- The comparison behaves as on floats that are no NaN.
  abbrev pub IsOrder : Type ℓ
  IsOrder =
      ((a : S) → less a a ≡ false)
      × ((a b c : S) → less b a ≡ false → less c b ≡ false → less c a ≡ false)
      × ((a b : S) → less a b ≡ true → less b a ≡ false)

  abbrev smeared : TrieNode S → S
  smeared n = max_score (smear_node log_add less minus_infinity max_mode n)

  abbrev smeared_rest : Children S → S → S
  smeared_rest cs acc = (smear_children log_add less minus_infinity max_mode cs acc).1

  module _ (order : IsOrder) where
    smear_step-ge :
        (a c : S)
        → let r = smear_step log_add less minus_infinity max_mode a c in
          (less r a ≡ false) × (less r c ≡ false) × ((r ≡ a) ⊎ (r ≡ c))
    unfolding smear_step
    smear_step-ge a c = elim (Bool-cases (less a c)) [
      | inl e ↦ rw e (order.2 a c e, order.0 c, inr refl)
      | inr e ↦ rw e (order.0 a, e, inl refl)
    ]

    smeared_rest-ge : (cs : Children S) (acc : S) → less (smeared_rest cs acc) acc ≡ false
    unfolding smear_node smear_children
    smeared_rest-ge no_child acc = order.0 acc
    smeared_rest-ge (child i n cs) acc =
        let next = smear_step log_add less minus_infinity max_mode acc (smeared n) in
        order.1 acc next _ (smear_step-ge acc (smeared n)).0 (smeared_rest-ge cs next)

    mutual
      unfolding smear_node smear_children max_score scores

      smeared-ge : (n x : TrieNode S) → IsIn x n → less (smeared n) (own_score x) ≡ false
      smeared-ge (node cs i ls ss m) x itself = smeared_rest-ge cs _
      smeared-ge (node cs i ls ss m) x (deeper _ _ _ _ _ h) = smeared_rest-bound cs _ x h

      smeared_rest-bound :
          (cs : Children S) (acc : S) (x : TrieNode S)
          → IsInChildren x cs
          → less (smeared_rest cs acc) (own_score x) ≡ false
      smeared_rest-bound no_child acc x h = elim h [ ]
      smeared_rest-bound (child i n cs) acc x (first _ _ _ h) =
          let next = smear_step log_add less minus_infinity max_mode acc (smeared n) in
          order.1 _ (smeared n) _ (smeared-ge n x h)
            (order.1 _ next _ (smear_step-ge acc (smeared n)).1 (smeared_rest-ge cs next))
      smeared_rest-bound (child i n cs) acc x (later _ _ _ h) = smeared_rest-bound cs _ x h

    mutual
      unfolding smear_node smear_children max_score scores

      smeared-attained : (n : TrieNode S) → (x : TrieNode S) × IsIn x n × (smeared n ≡ own_score x)
      smeared-attained (node cs i ls ss m) =
          elim (smeared_rest-attained cs (own_score (node cs i ls ss m))) [
            | inl e ↦ (node cs i ls ss m, itself, e)
            | inr (x, h, e) ↦ (x, deeper cs i ls ss m h, e)
          ]

      smeared_rest-attained :
          (cs : Children S) (acc : S)
          → (smeared_rest cs acc ≡ acc)
            ⊎ ((x : TrieNode S) × IsInChildren x cs × (smeared_rest cs acc ≡ own_score x))
      smeared_rest-attained no_child acc = inl refl
      smeared_rest-attained (child i n cs) acc =
          let next = smear_step log_add less minus_infinity max_mode acc (smeared n) in
          elim (smeared_rest-attained cs next) [
            | inr (x, h, e) ↦ inr (x, later i n cs h, e)
            | inl e ↦ elim (smear_step-ge acc (smeared n)).2 [
              | inl e' ↦ inl (e ∙ e')
              | inr e' ↦
                  let (x, h, e'') = smeared-attained n in inr (x, first i n cs h, e ∙ e' ∙ e'')
            ]
          ]

  -- After `smear` in the mode `MAX` the score of the root is at least the own score of every node
  -- in the trie, the sum by `TrieLogAdd` of the scores of its labels, and equal to that of one of
  -- them. Condition: the comparison behaves as on floats that are no NaN.
  pub smear-max :
      IsOrder
      → (n : TrieNode S)
      → ((x : TrieNode S)
          → IsIn x n
          → less (max_score (smear log_add less minus_infinity max_mode n)) (own_score x) ≡ false)
        × ((x : TrieNode S) × IsIn x n
            × (max_score (smear log_add less minus_infinity max_mode n) ≡ own_score x))
  unfolding smear
  smear-max order n = (smeared-ge order n, smeared-attained order n)

  module _ (mode : SmearingMode) (blank : S) where
    mutual
      unfolding smear_node smear_children

      clear-smear_node :
          (n : TrieNode S)
          → clear blank (smear_node log_add less minus_infinity mode n) ≡ clear blank n
      clear-smear_node (node cs i ls ss m) =
          ap (λ cs'. node cs' i ls ss blank) (clear-smear_children cs _)

      clear-smear_children :
          (cs : Children S) (acc : S)
          → clear_children blank (smear_children log_add less minus_infinity mode cs acc).0
            ≡ clear_children blank cs
      clear-smear_children no_child acc = refl
      clear-smear_children (child i n cs) acc =
          rw (clear-smear_node n, clear-smear_children cs _) refl

  -- `smear` changes nothing but the `maxScore` of the nodes: in each mode the tries before and
  -- after are equal once one number stands there in all nodes.
  pub clear-smear :
      (mode : SmearingMode) (blank : S) (n : TrieNode S)
      → clear blank (smear log_add less minus_infinity mode n) ≡ clear blank n
  unfolding smear
  clear-smear none_mode blank n = refl
  clear-smear max_mode blank n = clear-smear_node max_mode blank n
  clear-smear logadd_mode blank n = clear-smear_node logadd_mode blank n
