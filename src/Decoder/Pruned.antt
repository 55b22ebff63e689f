-- ===== src/Decoder/Pruned.antt =====
-- `prune` of LexiconDecoder.cpp and LexiconFreeDecoder.cpp with pruneAndNormalize of Utils.h, in
-- src/libraries/decoder: the frames that are left behind the swaps are the last ones, and the state
-- stays valid.
use wav2letter.Base.{
  ℕ, zero, suc, ◌+◌, ◌-◌, ◌≤◌, ◌<◌, ◌≡◌, ◌≢◌, refl, sym, ap, subst, ◌∙◌, ◌⊎◌, inl, inr, true, false,
  some, List, [], ◌∷◌, map, get_elem?, ok, lookup, assign, lookup-assign_self, nat_eq, ◌==◌, All,
  if◌then◌else◌, arith,
}
use wav2letter.Beam.{look_back_limit}
use wav2letter.Decoder.Buffer.{Hyps, or_empty, frame_at, move_frames}
use wav2letter.Decoder.State.{State, Setup, Decoder}
use wav2letter.Decoder.Online.{
  detach, without_parents, lower, largest_score, normalize, prune_and_normalize,
}
use wav2letter.Decoder.Frames.{lookup-assign_ne}

module _ {ℓ} {A : Type ℓ} where
  at_first :
      (hyps : Hyps A) (i start : ℕ)
      → 0 < start
      → lookup i (assign (i + start) (frame_at i hyps) (assign i (frame_at (i + start) hyps) hyps))
        ≡ some (frame_at (i + start) hyps)
  at_first hyps i start positive =
      lookup-assign_ne (i + start) i _ _ (omega arith) ∙ lookup-assign_self i _ hyps

  at_other :
      (hyps : Hyps A) (i start j : ℕ)
      → i ≢ j
      → i + start ≢ j
      → lookup j (assign (i + start) (frame_at i hyps) (assign i (frame_at (i + start) hyps) hyps))
        ≡ lookup j hyps
  at_other hyps i start j ne ne' =
      lookup-assign_ne (i + start) j _ _ ne' ∙ lookup-assign_ne i j _ hyps ne

  -- The swaps do not come back to an earlier frame.
  lookup-move_frames_before :
      (m i start j : ℕ) (hyps : Hyps A)
      → j < i
      → lookup j (move_frames m i start hyps) ≡ lookup j hyps
  unfolding move_frames
  lookup-move_frames_before zero i start j hyps lt = refl
  lookup-move_frames_before (suc m) i start j hyps lt =
      lookup-move_frames_before m (suc i) start j _ (omega arith)
      ∙ at_other hyps i start j (omega arith) (omega arith)

  -- Behind the swaps each frame is the one that was `start` further on, also where the frames that
  -- are swapped overlap.
  pub lookup-move_frames :
      (m i start j : ℕ) (hyps : Hyps A)
      → 0 < start
      → i ≤ j
      → j < i + m
      → lookup j (move_frames m i start hyps) ≡ some (frame_at (j + start) hyps)
  unfolding move_frames frame_at
  lookup-move_frames zero i start j hyps positive le lt = absurd (omega arith)
  lookup-move_frames (suc m) i start j hyps positive le lt = elim (first_or_later i j le) [
    | inl e ↦
        lookup-move_frames_before m (suc i) start j _ (omega arith)
        ∙ subst
            (λ k.
              lookup k
                (assign (i + start) (frame_at i hyps) (assign i (frame_at (i + start) hyps) hyps))
              ≡ some (frame_at (k + start) hyps))
            e (at_first hyps i start positive)
    | inr later ↦
        lookup-move_frames m (suc i) start j _ positive later (omega arith)
        ∙ ap (λ o. some (or_empty o))
            (at_other hyps i start (j + start) (omega arith) (omega arith))
  ]
    where
      first_or_later : (i j : ℕ) → i ≤ j → (i ≡ j) ⊎ (suc i ≤ j)
      first_or_later i j le = omega arith

module _ {ℓ κ} {A : Type ℓ} {B : Type κ} where
  pub get_elem?-map :
      (g : A → B) (xs : List A) (i : ℕ) (x : A)
      → get_elem? xs i ≡ some x
      → get_elem? (map g xs) i ≡ some (g x)
  get_elem?-map g [] i x e = cc
  get_elem?-map g (y ∷ ys) zero x e = ap (λ z. some (g z)) (ground arith)
  get_elem?-map g (y ∷ ys) (suc i) x e = get_elem?-map g ys i x e

  pub All-of_map {π ρ} :
      (g : A → B) (P : A → Type π) (Q : B → Type ρ) (xs : List A)
      → ((x : A) → P x → Q (g x))
      → All P xs
      → All Q (map g xs)
  All-of_map g P Q [] h all = tt
  All-of_map g P Q (x ∷ xs) h all = (h x all.0, All-of_map g P Q xs h all.1)

module _ {ℓ} {A : Type ℓ} where
  map-same : (g : A → A) (xs : List A) → ((x : A) → g x ≡ x) → map g xs ≡ xs
  map-same g [] same = refl
  map-same g (x ∷ xs) same = rw (same x, map-same g xs same) refl

  map-ext : (g h : A → A) (xs : List A) → ((x : A) → g x ≡ h x) → map g xs ≡ map h xs
  map-ext g h [] same = refl
  map-ext g h (x ∷ xs) same = rw (same x, map-ext g h xs same) refl

  map-map : (g h : A → A) (xs : List A) → map g (map h xs) ≡ map (λ x. g (h x)) xs
  map-map g h [] = refl
  map-map g h (x ∷ xs) = ap (λ ys. g (h x) ∷ ys) (map-map g h xs)

module _ {ℓ κ μ ν} {S : Type ℓ} {L : Type κ} {X : Type μ} {M : Type ν} (d : Setup S L X M) where
  -- What becomes of a hypothesis that ends up in frame `j`: in the first frame it has no parent, and
  -- in the last one, `k`, the largest score is subtracted.
  abbrev pub cut : ℕ → State S L X → State S L X
  cut zero st = detach d st
  cut (suc j) st = st

  abbrev pub shape : S → ℕ → ℕ → State S L X → State S L X
  shape largest k j st = if j == k then lower d largest (cut j st) else cut j st

  -- The frames of the pruned buffer.
  abbrev pub ArePruned : S → ℕ → ℕ → Hyps (State S L X) → Hyps (State S L X) → Type (ℓ ⊔ κ ⊔ μ)
  ArePruned largest start k hyps hyps' =
      (j : ℕ) → j ≤ k → lookup j hyps' ≡ some (map (shape largest k j) (frame_at (j + start) hyps))

  cut_frame :
      (start k j : ℕ) (hyps : Hyps (State S L X))
      → 0 < start
      → j ≤ k
      → let moved = move_frames (k + 1) 0 start hyps in
        lookup j (assign 0 (without_parents d (frame_at 0 moved)) moved)
        ≡ some (map (cut j) (frame_at (j + start) hyps))
  unfolding without_parents frame_at
  cut_frame start k zero hyps positive le =
      let moved = move_frames (k + 1) 0 start hyps in
      lookup-assign_self 0 _ moved
      ∙ ap (λ o. some (map (detach d) (or_empty o)))
          (lookup-move_frames (k + 1) 0 start 0 hyps positive (omega arith) (omega arith))
  cut_frame start k (suc j) hyps positive le =
      let moved = move_frames (k + 1) 0 start hyps in
      lookup-assign_ne 0 (suc j) _ moved (omega arith)
      ∙ lookup-move_frames (k + 1) 0 start (suc j) hyps positive (omega arith) (omega arith)
      ∙ ap some (sym (map-same (cut (suc j)) (frame_at (suc j + start) hyps) (λ st. refl)))

  normalize-cons :
      (frame : List (State S L X)) (st : State S L X) (sts : List (State S L X))
      → frame ≡ st ∷ sts
      → (largest : S) × (normalize d frame ≡ ok (map (lower d largest) frame))
  unfolding normalize
  normalize-cons frame st sts e = (largest_score d st.score sts, rw e refl)

  shape_last :
      (largest : S) (k : ℕ) (frame : List (State S L X))
      → map (lower d largest) (map (cut k) frame) ≡ map (shape largest k k) frame
  shape_last largest k frame =
      map-map (lower d largest) (cut k) frame
      ∙ map-ext _ (shape largest k k) frame
          (λ st. (let same : (k == k) ≡ true = ground arith in rw same refl))

  shape_other :
      (largest : S) (k j : ℕ) (frame : List (State S L X))
      → j ≢ k
      → map (cut j) frame ≡ map (shape largest k j) frame
  shape_other largest k j frame ne =
      map-ext (cut j) (shape largest k j) frame
        (λ st. (let other : (j == k) ≡ false = ground arith in rw other refl))

  -- `pruneAndNormalize` of a buffer whose last frame has a hypothesis.
  pub prune_and_normalize-ArePruned :
      (hyps : Hyps (State S L X)) (start k : ℕ) (st : State S L X) (sts : List (State S L X))
      → 0 < start
      → frame_at (k + start) hyps ≡ st ∷ sts
      → (largest : S) × (hyps' : Hyps (State S L X)) × (prune_and_normalize d hyps start k
          ≡ ok hyps')
        × ArePruned largest start k hyps hyps'
  unfolding prune_and_normalize frame_at
  prune_and_normalize-ArePruned hyps start k st sts positive e =
      let moved = move_frames (k + 1) 0 start hyps in
      let done = assign 0 (without_parents d (frame_at 0 moved)) moved in
      let frames : (j : ℕ)
          → j ≤ k
          → lookup j done ≡ some (map (cut j) (frame_at (j + start) hyps)) =
        λ j le. cut_frame start k j hyps positive le in
      let last : frame_at k done ≡ map (cut k) (frame_at (k + start) hyps) =
        ap or_empty (frames k (omega arith)) in
      let (largest, normalized) =
        normalize-cons (frame_at k done) (cut k st) (map (cut k) sts) (last ∙ ap (map (cut k)) e) in
      (
        largest,
        assign k (map (lower d largest) (frame_at k done)) done,
        rw normalized refl,
        λ j le. (elim (last_or_other j) [
          | inl same ↦
              subst
                (λ i.
                  lookup i (assign k (map (lower d largest) (frame_at k done)) done)
                  ≡ some (map (shape largest k i) (frame_at (i + start) hyps)))
                (sym same)
                (lookup-assign_self k _ done
                  ∙ ap some (ap (map (lower d largest)) last ∙ shape_last largest k _))
          | inr other ↦
              lookup-assign_ne k j _ done (omega arith)
              ∙ frames j le
              ∙ ap some (shape_other largest k j _ other)
        ]),
      )
    where
      last_or_other : (j : ℕ) → (j ≡ k) ⊎ (j ≢ k)
      last_or_other j = omega arith

  -- What a call of `prune` may do: nothing, or it forgets the frames before the last `k` and one.
  pub data IsPruned (look_back : ℕ) (c : Decoder S L X M)
      : Decoder S L X M → Type (ℓ ⊔ κ ⊔ μ ⊔ ν) where
    unchanged : IsPruned look_back c c
    forgot :
        (largest : S) (k start : ℕ) (hyps : Hyps (State S L X))
        → k ≤ look_back + look_back_limit
        → 0 < start
        → start + k ≡ c.n_decoded - c.n_pruned
        → ArePruned largest start k c.hyps hyps
        → IsPruned look_back c (record c { hyps = hyps; n_pruned = c.n_decoded - k })
