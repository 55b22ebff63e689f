-- ===== src/Decoder/Forgetful.antt =====
-- `prune` of LexiconDecoder.cpp and LexiconFreeDecoder.cpp in src/libraries/decoder keeps the state
-- valid, and says which frames are left.
use wav2letter.Base.{
  ℕ, zero, suc, ◌+◌, ◌-◌, ◌≤◌, ◌<◌, ◌≡◌, refl, sym, ap, subst, ◌∙◌, inl, inr, none, some, List, [],
  ◌∷◌, map, get_elem?, ok, ◌>>=◌, lookup, nat_eq, ltb, ◌==◌, Bool-cases, arith,
}
use wav2letter.Beam.{Node, look_back_limit, find_best_ancestor}
use wav2letter.Decoder.Buffer.{Hyps, frame_at}
use wav2letter.Decoder.State.{State, Setup, Decoder}
use wav2letter.Decoder.Online.{last_frame, best_ancestor, prune_behind, prune}
use wav2letter.Decoder.Frames.{
  Place, place, ComesFrom, Linked, starts, follows, frame_at-IsFrame, frame_at-found,
  find_frame-found,
}
use wav2letter.Decoder.Valid.{IsValid, AreFrames}
use wav2letter.Decoder.Best.{IsAncestor, ancestor, best_ancestor-ok}
use wav2letter.Decoder.Pruned.{
  get_elem?-map, All-of_map, shape, ArePruned, IsPruned, unchanged, forgot,
  prune_and_normalize-ArePruned,
}

module _ {ℓ κ μ π ν} {S : Type ℓ} {L : Type κ} {X : Type μ} (P : Place X → Type π)
    (R : Place X → Place X → Type π) {M : Type ν} (d : Setup S L X M) where
  pub place-shape :
      (largest : S) (k j : ℕ) (st : State S L X) → place P R (shape d largest k j st) ≡ place P R st
  place-shape largest k zero st = elim (Bool-cases (0 == k)) [
    | inl e ↦ rw e refl
    | inr e ↦ rw e refl
  ]
  place-shape largest k (suc j) st = elim (Bool-cases (suc j == k)) [
    | inl e ↦ rw e refl
    | inr e ↦ rw e refl
  ]

  pub parent-shape_first :
      (largest : S) (k : ℕ) (st : State S L X) → (shape d largest k zero st).parent ≡ none
  parent-shape_first largest k st = elim (Bool-cases (0 == k)) [
    | inl e ↦ rw e refl
    | inr e ↦ rw e refl
  ]

  pub parent-shape :
      (largest : S) (k j : ℕ) (st : State S L X) → (shape d largest k (suc j) st).parent ≡ st.parent
  parent-shape largest k j st = elim (Bool-cases (suc j == k)) [
    | inl e ↦ rw e refl
    | inr e ↦ rw e refl
  ]

  module _ (largest : S) (start k : ℕ) (hyps hyps' : Hyps (State S L X))
      (pruned : ArePruned d largest start k hyps hyps') where
    pub frame_at-pruned :
        (j : ℕ) → j ≤ k → frame_at j hyps' ≡ map (shape d largest k j) (frame_at (j + start) hyps)
    frame_at-pruned j le = frame_at-found P R hyps' j _ (pruned j le)

    -- Parents are kept behind the first frame.
    pub ComesFrom-shape :
        (j : ℕ) (st : State S L X)
        → j ≤ k
        → ComesFrom P R (frame_at (j + start) hyps) st
        → ComesFrom P R (frame_at j hyps') (shape d largest k (suc j) st)
    ComesFrom-shape j st le (p, parent, prev, at, step) = (
      p,
      parent-shape largest k j st ∙ parent,
      shape d largest k j prev,
      subst (λ frame. get_elem? frame p ≡ some (shape d largest k j prev))
          (sym (frame_at-pruned j le)) (get_elem?-map (shape d largest k j) _ p prev at),
      subst (λ x. R x (place P R (shape d largest k (suc j) st)))
          (sym (place-shape largest k j prev))
          (subst (R (place P R prev)) (sym (place-shape largest k (suc j) st)) step),
    )

    from_before :
        (i : ℕ) (st : State S L X) → Linked P R hyps (suc i) st → ComesFrom P R (frame_at i hyps) st
    from_before i st (follows _ _ from) = from

    Linked-shape :
        (j : ℕ) (st : State S L X)
        → j ≤ k
        → Linked P R hyps (j + start) st
        → Linked P R hyps' j (shape d largest k j st)
    Linked-shape zero st le linked = starts _ (parent-shape_first largest k st)
    Linked-shape (suc j) st le linked = follows j _ (
        ComesFrom-shape j st (omega arith)
          (from_before (j + start) st (subst (λ i. Linked P R hyps i st) (omega arith) linked)))

    pub AreFrames-pruned : AreFrames P R hyps (k + start) → AreFrames P R hyps' k
    AreFrames-pruned frames j le =
        let old = frames (j + start) (omega arith) in
        record {
          frame = map (shape d largest k j) old.frame;
          found =
              pruned j le
              ∙ ap (λ xs. some (map (shape d largest k j) xs))
                  (frame_at-IsFrame P R hyps (j + start) old);
          places =
              All-of_map (shape d largest k j) (λ st. P (place P R st)) (λ st. P (place P R st))
                old.frame (λ st p. subst P (sym (place-shape largest k j st)) p) old.places;
          linked =
              All-of_map (shape d largest k j) (Linked P R hyps (j + start)) (Linked P R hyps' j)
                old.frame (λ st linked. Linked-shape j st le linked) old.linked;
        }

  best_ancestor-empty :
      (c : Decoder S L X M) (look_back : ℕ)
      → lookup (c.n_decoded - c.n_pruned) c.hyps ≡ some []
      → best_ancestor d c look_back ≡ ok ([], look_back)
  unfolding best_ancestor last_frame find_best_ancestor
  best_ancestor-empty c look_back e =
      rw (find_frame-found P R c.hyps (c.n_decoded - c.n_pruned) [] e) refl

  -- The ancestor belongs to a hypothesis of the last frame.
  some_hypothesis :
      (c : Decoder S L X M) (look_back k : ℕ) (nd : Node S) (chain : List (Node S))
      (frame : List (State S L X))
      → lookup (c.n_decoded - c.n_pruned) c.hyps ≡ some frame
      → best_ancestor d c look_back ≡ ok (nd ∷ chain, k)
      → (st : State S L X) × (sts : List (State S L X)) × (frame ≡ st ∷ sts)
  some_hypothesis c look_back k nd chain [] e found =
      let empty = best_ancestor-empty c look_back e in cc
  some_hypothesis c look_back k nd chain (st ∷ sts) e found = (st, sts, refl)

  prune_behind-IsPruned :
      (c : Decoder S L X M) (look_back k : ℕ) (st : State S L X) (sts : List (State S L X))
      → IsValid P R c
      → k ≤ look_back + look_back_limit
      → k ≤ c.n_decoded - c.n_pruned
      → frame_at (c.n_decoded - c.n_pruned) c.hyps ≡ st ∷ sts
      → (c' : Decoder S L X M) × (prune_behind d c k ≡ ok c')
        × IsPruned d look_back c c'
        × IsValid P R c'
  unfolding prune_behind
  prune_behind-IsPruned c look_back k st sts valid bound le e =
      let n = c.n_decoded - c.n_pruned in
      elim (Bool-cases (ltb (n - k) 1)) [
        | inl early ↦ (c, rw early refl, unchanged, valid)
        | inr late ↦
            let positive : 0 < n - k = ground arith in
            let (largest, hyps', done, pruned) =
              prune_and_normalize-ArePruned d c.hyps (n - k) k st sts positive
                (subst (λ i. frame_at i c.hyps ≡ st ∷ sts) (omega arith) e) in
            let frames =
              AreFrames-pruned largest (n - k) k c.hyps hyps' pruned
                (λ i h. valid.frames i (omega arith)) in
            (
              record c { hyps = hyps'; n_pruned = c.n_decoded - k },
              rw (late, done) refl,
              forgot largest k (n - k) hyps' bound positive (omega arith) pruned,
              record { pruned = omega arith; frames = λ i h. frames i (omega arith) },
            )
      ]

  -- `prune` in a valid state succeeds; the state after it is valid, and it is the one of before or
  -- one without the frames before the last ones.
  pub prune-IsPruned :
      (c : Decoder S L X M) (look_back : ℕ)
      → IsValid P R c
      → (c' : Decoder S L X M) × (prune d c look_back ≡ ok c')
        × IsPruned d look_back c c'
        × IsValid P R c'
  unfolding prune
  prune-IsPruned c look_back valid =
      let n = c.n_decoded - c.n_pruned in
      let last = valid.frames n (omega arith) in
      elim (Bool-cases (ltb (n - look_back) 1)) [
        | inl early ↦ (c, rw early refl, unchanged, valid)
        | inr late ↦ rw late (behind (best_ancestor-ok P R d c look_back valid))
      ]
    where
      behind :
          (best : List (Node S)) × (k : ℕ) × (best_ancestor d c look_back ≡ ok (best, k))
            × (k ≤ look_back + look_back_limit)
            × IsAncestor P R d (c.n_decoded - c.n_pruned) k best
          → (c' : Decoder S L X M) × ((do
            best ← best_ancestor d c look_back
            elim best.0 [ [] ↦ ok c | node ∷ chain ↦ prune_behind d c best.1 ])
              ≡ ok c')
            × IsPruned d look_back c c'
            × IsValid P R c'
      behind ([], k, found, bound, none_left) = (c, rw found refl, unchanged, valid)
      behind (nd ∷ chain, k, found, bound, ancestor y _ le walk) =
          let last = valid.frames (c.n_decoded - c.n_pruned) (omega arith) in
          let (st, sts, e) = some_hypothesis c look_back k nd chain last.frame last.found found in
          let (c', done, is_pruned, valid') =
            prune_behind-IsPruned c look_back k st sts valid bound le
              (frame_at-IsFrame P R c.hyps (c.n_decoded - c.n_pruned) last ∙ e) in
          (c', rw found done, is_pruned, valid')
