-- ===== src/Decoder/Frames.antt =====
-- The invariant of the decoders LexiconDecoder.cpp and LexiconFreeDecoder.cpp of
-- src/libraries/decoder on their buffer: every frame that was decoded and not pruned is there, the
-- parent pointers of its hypotheses lead into the frame before, and from the parent to the child
-- there is a step of the search. `R` says what a step is, and `P` which places a hypothesis may
-- have: its node of the lexicon, its token and its word.
use wav2letter.Base.{
  ℕ, zero, suc, ◌+◌, ◌-◌, ◌<◌, ◌≡◌, ◌≢◌, refl, sym, ap, subst, ◌∙◌, inl, inr, none, some, List, [],
  ◌∷◌, length, get_elem?, ok, ℤ, lookup, assign, lookup-assign, lookup-assign_self, nat_eq, ==_iff,
  ◌==◌, All, Bool-cases, Option-cases, if◌then◌else◌, arith,
}
use wav2letter.Decoder.Buffer.{
  Hyps, or_empty, frame_at, find_frame, emplace, emplace_from, extend_buffer,
}
use wav2letter.Decoder.State.{State}

module _ {ℓ} {A : Type ℓ} where
  pub lookup-assign_ne :
      (k j : ℕ) (v : A) (m : List (ℕ × A)) → k ≢ j → lookup j (assign k v m) ≡ lookup j m
  lookup-assign_ne k j v m ne = elim (Bool-cases (k == j)) [
    | inl e ↦ absurd (ne ((==_iff k j).0 e))
    | inr e ↦ lookup-assign k j v m ∙ ap (λ b. if b then some v else lookup j m) e
  ]

abbrev pub Place {μ} : Type μ → Type μ
Place X = X × ℤ × ℤ

module _ {ℓ κ μ π} {S : Type ℓ} {L : Type κ} {X : Type μ} (P : Place X → Type π)
    (R : Place X → Place X → Type π) where
  abbrev pub place : State S L X → Place X
  place st = (st.lex, st.token, st.word)

  -- The parent of a hypothesis is one of `frame`, and it is a step from there.
  abbrev pub ComesFrom : List (State S L X) → State S L X → Type (ℓ ⊔ κ ⊔ μ ⊔ π)
  ComesFrom frame st =
      (p : ℕ) × (st.parent ≡ some p)
      × (prev : State S L X) × (get_elem? frame p ≡ some prev)
      × R (place prev) (place st)

  pub data Linked (hyps : Hyps (State S L X)) : ℕ → State S L X → Type (ℓ ⊔ κ ⊔ μ ⊔ π) where
    starts : (st : State S L X) → st.parent ≡ none → Linked hyps zero st
    follows : (i : ℕ) (st : State S L X) → ComesFrom (frame_at i hyps) st → Linked hyps (suc i) st

  pub record IsFrame (hyps : Hyps (State S L X)) (i : ℕ) : Type (ℓ ⊔ κ ⊔ μ ⊔ π) where
    pub frame : List (State S L X)
    pub found : lookup i hyps ≡ some frame
    pub places : All (λ st. P (place st)) frame
    pub linked : All (Linked hyps i) frame

  pub frame_at-found :
      (hyps : Hyps (State S L X)) (i : ℕ) (frame : List (State S L X))
      → lookup i hyps ≡ some frame
      → frame_at i hyps ≡ frame
  unfolding frame_at
  frame_at-found hyps i frame e = rw e refl

  pub frame_at-assign_ne :
      (k j : ℕ) (frame : List (State S L X)) (hyps : Hyps (State S L X))
      → k ≢ j
      → frame_at j (assign k frame hyps) ≡ frame_at j hyps
  unfolding frame_at
  frame_at-assign_ne k j frame hyps ne = ap or_empty (lookup-assign_ne k j frame hyps ne)

  pub find_frame-found :
      (hyps : Hyps (State S L X)) (i : ℕ) (frame : List (State S L X))
      → lookup i hyps ≡ some frame
      → find_frame i hyps ≡ ok frame
  unfolding find_frame
  find_frame-found hyps i frame e = rw (e, find_frame) refl

  Linked-mono :
      (hyps hyps' : Hyps (State S L X)) (i : ℕ) (st : State S L X)
      → ((j : ℕ) → j < i → frame_at j hyps' ≡ frame_at j hyps)
      → Linked hyps i st
      → Linked hyps' i st
  Linked-mono hyps hyps' _ _ same (starts st e) = starts st e
  Linked-mono hyps hyps' _ _ same (follows i st from) =
      follows i st (subst (λ frame. ComesFrom frame st) (sym (same i (omega arith))) from)

  Linked-mono_All :
      (hyps hyps' : Hyps (State S L X)) (i : ℕ) (sts : List (State S L X))
      → ((j : ℕ) → j < i → frame_at j hyps' ≡ frame_at j hyps)
      → All (Linked hyps i) sts
      → All (Linked hyps' i) sts
  Linked-mono_All hyps hyps' i [] same all = tt
  Linked-mono_All hyps hyps' i (st ∷ sts) same all =
      (Linked-mono hyps hyps' i st same all.0, Linked-mono_All hyps hyps' i sts same all.1)

  -- A frame stays one if the buffer keeps it and those before it.
  IsFrame-mono :
      (hyps hyps' : Hyps (State S L X)) (i : ℕ)
      → ((frame : List (State S L X)) → lookup i hyps ≡ some frame → lookup i hyps' ≡ some frame)
      → ((j : ℕ) → j < i → frame_at j hyps' ≡ frame_at j hyps)
      → IsFrame hyps i
      → IsFrame hyps' i
  IsFrame-mono hyps hyps' i kept same is_frame = record {
    frame = is_frame.frame;
    found = kept is_frame.frame is_frame.found;
    places = is_frame.places;
    linked = Linked-mono_All hyps hyps' i is_frame.frame same is_frame.linked;
  }

  pub IsFrame-assign :
      (hyps : Hyps (State S L X)) (i k : ℕ) (next : List (State S L X))
      → i < k
      → IsFrame hyps i
      → IsFrame (assign k next hyps) i
  IsFrame-assign hyps i k next lt is_frame =
      IsFrame-mono hyps (assign k next hyps) i
        (λ frame e. lookup-assign_ne k i next hyps (omega arith) ∙ e)
        (λ j le. frame_at-assign_ne k j next hyps (omega arith)) is_frame

  follows_All :
      (hyps : Hyps (State S L X)) (i : ℕ) (frame sts : List (State S L X))
      → frame_at i hyps ≡ frame
      → All (ComesFrom frame) sts
      → All (Linked hyps (suc i)) sts
  follows_All hyps i frame [] e all = tt
  follows_All hyps i frame (st ∷ sts) e all = (
    follows i st (subst (λ xs. ComesFrom xs st) (sym e) all.0),
    follows_All hyps i frame sts e all.1,
  )

  -- A new frame behind the last one.
  pub IsFrame-next :
      (hyps : Hyps (State S L X)) (i : ℕ) (last : IsFrame hyps i) (next : List (State S L X))
      → All (λ st. P (place st)) next
      → All (ComesFrom last.frame) next
      → IsFrame (assign (i + 1) next hyps) (suc i)
  IsFrame-next hyps i last next places from = record {
    frame = next;
    found =
        subst (λ k. lookup k (assign (i + 1) next hyps) ≡ some next) (omega arith)
          (lookup-assign_self (i + 1) next hyps);
    places = places;
    linked =
        follows_All (assign (i + 1) next hyps) i last.frame next
          (frame_at-found (assign (i + 1) next hyps) i last.frame
            (lookup-assign_ne (i + 1) i next hyps (omega arith) ∙ last.found))
          from;
  }

  -- Growing the buffer keeps what is in it.
  lookup-emplace :
      (k j : ℕ) (hyps : Hyps (State S L X)) (frame : List (State S L X))
      → lookup j hyps ≡ some frame
      → lookup j (emplace k hyps) ≡ some frame
  unfolding emplace
  lookup-emplace k j hyps frame e = elim (Option-cases (lookup k hyps)) [
    | inl missing ↦
        let ne : k ≢ j =
          λ same. (let bad = subst (λ i. lookup i hyps ≡ none) same missing in absurd (cc)) in
        rw (missing, emplace) (lookup-assign_ne k j [] hyps ne ∙ e)
    | inr (old, there) ↦ rw (there, emplace) e
  ]

  lookup-emplace_from :
      (n k j : ℕ) (hyps : Hyps (State S L X)) (frame : List (State S L X))
      → lookup j hyps ≡ some frame
      → lookup j (emplace_from n k hyps) ≡ some frame
  unfolding emplace_from
  lookup-emplace_from zero k j hyps frame e = e
  lookup-emplace_from (suc n) k j hyps frame e =
      lookup-emplace_from n (suc k) j (emplace k hyps) frame (lookup-emplace k j hyps frame e)

  frame_at-emplace :
      (k j : ℕ) (hyps : Hyps (State S L X)) → frame_at j (emplace k hyps) ≡ frame_at j hyps
  unfolding emplace frame_at
  frame_at-emplace k j hyps = elim (Option-cases (lookup k hyps)) [
    | inr (old, there) ↦ rw (there, emplace) refl
    | inl missing ↦
        rw (missing, emplace)
          (elim (Bool-cases (k == j)) [
            | inl e ↦
                let gone = subst (λ i. lookup i hyps ≡ none) ((==_iff k j).0 e) missing in
                rw (lookup-assign k j [] hyps, e, gone) refl
            | inr e ↦ rw (lookup-assign k j [] hyps, e) refl
          ])
  ]

  frame_at-emplace_from :
      (n k j : ℕ) (hyps : Hyps (State S L X)) → frame_at j (emplace_from n k hyps) ≡ frame_at j hyps
  unfolding emplace_from
  frame_at-emplace_from zero k j hyps = refl
  frame_at-emplace_from (suc n) k j hyps =
      frame_at-emplace_from n (suc k) j (emplace k hyps) ∙ frame_at-emplace k j hyps

  pub IsFrame-extend_buffer :
      (size i : ℕ) (hyps : Hyps (State S L X))
      → IsFrame hyps i
      → IsFrame (extend_buffer size hyps) i
  unfolding extend_buffer
  IsFrame-extend_buffer size i hyps is_frame =
      IsFrame-mono hyps (extend_buffer size hyps) i
        (λ frame e. lookup-emplace_from (size - length hyps) (length hyps) i hyps frame e)
        (λ j lt. frame_at-emplace_from (size - length hyps) (length hyps) j hyps) is_frame

  pub frame_at-IsFrame :
      (hyps : Hyps (State S L X)) (i : ℕ) (is_frame : IsFrame hyps i)
      → frame_at i hyps ≡ is_frame.frame
  frame_at-IsFrame hyps i is_frame = frame_at-found hyps i is_frame.frame is_frame.found
