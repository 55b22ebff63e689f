-- ===== src/Text/Tokens.antt =====
-- Splitting a join gives the parts back: for one character, and for white space.
use wav2letter.Base.{
  ℕ, zero, suc, ◌+◌, ◌<◌, ◌≡◌, ◌≢◌, refl, ap, sym, ◌∙◌, Bool, true, false, ◌&&◌, List, [], ◌∷◌,
  ◌++◌, append-nil, length, take, drop, All, arith, Bool-cases, Option-cases, length-append, ◌==◌,
  if◌then◌else◌, inl, inr,
}
use wav2letter.Text.{
  Bytes, is_space, find_if, last_piece, split_loop, split_impl, split_char, join, append_all,
  is_any_of, split_on_any_of, split_on_whitespace, is_empty,
}
use wav2letter.Text.Find.{Lacks, find_if-append, find_if-none, find_if-some, Lacks-find_if}
use wav2letter.Text.Split.{split_loop-none, split_loop-some}

take-append : (p rest : Bytes) → take (length p) (p ++ rest) ≡ p
take-append [] rest = refl
take-append (c ∷ p) rest = ap (λ t. c ∷ t) (take-append p rest)

drop-append : (p rest : Bytes) (c : ℕ) → drop (length p + 1) (p ++ c ∷ rest) ≡ rest
drop-append [] rest c = refl
drop-append (d ∷ p) rest c =
    let step : suc (length p) + 1 ≡ suc (length p + 1) = omega arith in
    rw step (drop-append p rest c)

-- A part that a split returns: no delimiter in it, and not empty where empty parts are dropped.
abbrev pub IsPart : (ℕ → Bool) → Bool → Bytes → Type 0
IsPart p ignore_empty s = Lacks p s × ((ignore_empty && is_empty s) ≡ false)

module _ (p : ℕ → Bool) (ignore_empty : Bool) (c : ℕ) (delim : p c ≡ true) where
  split_loop-join :
      (fuel : ℕ) (part : Bytes) (parts : List Bytes)
      → length (join (c ∷ []) (part ∷ parts)) < fuel
      → All (IsPart p ignore_empty) (part ∷ parts)
      → split_loop fuel (find_if p) 1 ignore_empty (join (c ∷ []) (part ∷ parts)) ≡ part ∷ parts
  unfolding join append_all last_piece
  split_loop-join zero part parts less ok = absurd (omega arith)
  split_loop-join (suc fuel) part [] less ok =
      rw
        (
          append-nil part,
          split_loop-none (find_if p) 1 fuel ignore_empty part (find_if-none p part ok.0.0),
        )
        (ground (arith, ok.0.1))
  split_loop-join (suc fuel) part (next ∷ parts) less ok =
      let rest = next ++ append_all (c ∷ []) parts in
      rw
        (
          split_loop-some (find_if p) 1 fuel ignore_empty (part ++ c ∷ rest) (length part)
              (find_if-append p part rest c ok.0.0 delim),
          take-append part (c ∷ rest),
          drop-append part rest c,
          split_loop-join fuel next parts (omega (arith, length-append part (c ∷ rest))) ok.1,
        )
        (keep part ok.0.1)
    where
      keep :
          (s : Bytes)
          → (ignore_empty && is_empty s) ≡ false
          → (if ignore_empty && length s == 0 then next ∷ parts else s ∷ next ∷ parts)
            ≡ s ∷ next ∷ parts
      keep [] e = ground arith
      keep (x ∷ s) e = ground arith

-- Splitting a join on the joining character gives the parts back, if there is a part and none holds
-- the character.
pub split_char-join :
    (c : ℕ) (parts : List Bytes)
    → parts ≢ []
    → All (Lacks (λ x. x == c)) parts
    → split_char c (join (c ∷ []) parts) false ≡ parts
unfolding split_char split_impl
split_char-join c [] some_part lack = absurd (some_part refl)
split_char-join c (part ∷ parts) some_part lack =
    split_loop-join (λ x. x == c) false c (ground arith) _ part parts (omega arith)
      (all_parts (part ∷ parts) lack)
  where
    all_parts :
        (ps : List Bytes) → All (Lacks (λ x. x == c)) ps → All (IsPart (λ x. x == c) false) ps
    all_parts [] h = tt
    all_parts (q ∷ ps) h = ((h.0, refl), all_parts ps h.1)

-- A word: not empty, and without white space.
abbrev pub IsWord : Bytes → Type 0
IsWord s = Lacks is_space s × (is_empty s ≡ false)

is_any_of-is_space : (c : ℕ) → is_any_of (9 ∷ 10 ∷ 11 ∷ 12 ∷ 13 ∷ 32 ∷ []) c ≡ is_space c
unfolding is_space
is_any_of-is_space c = ground arith

Lacks-space : (s : Bytes) → Lacks is_space s → Lacks (is_any_of (9 ∷ 10 ∷ 11 ∷ 12 ∷ 13 ∷ 32 ∷ [])) s
Lacks-space [] h = tt
Lacks-space (c ∷ s) h = (is_any_of-is_space c ∙ h.0, Lacks-space s h.1)

space-Lacks : (s : Bytes) → Lacks (is_any_of (9 ∷ 10 ∷ 11 ∷ 12 ∷ 13 ∷ 32 ∷ [])) s → Lacks is_space s
space-Lacks [] h = tt
space-Lacks (c ∷ s) h = (sym (is_any_of-is_space c) ∙ h.0, space-Lacks s h.1)

-- Words that are written with one blank between them are read back by `splitOnWhitespace` with
-- `ignoreEmpty`, the empty list of words too.
pub split_on_whitespace-join :
    (ws : List Bytes) → All IsWord ws → split_on_whitespace (join (32 ∷ []) ws) true ≡ ws
unfolding split_on_whitespace split_on_any_of split_impl
split_on_whitespace-join [] h = unfold split_loop join find_if last_piece in refl
split_on_whitespace-join (w ∷ ws) h =
    split_loop-join _ true 32 refl _ w ws (omega arith) (all_parts (w ∷ ws) h)
  where
    all_parts :
        (ps : List Bytes)
        → All IsWord ps
        → All (IsPart (is_any_of (9 ∷ 10 ∷ 11 ∷ 12 ∷ 13 ∷ 32 ∷ [])) true) ps
    all_parts [] h = tt
    all_parts (q ∷ ps) h = ((Lacks-space q h.0.0, h.0.1), all_parts ps h.1)

length-drop-lt : (s : Bytes) (j : ℕ) → j < length s → length (drop (j + 1) s) < length s
length-drop-lt [] j h = absurd (omega arith)
length-drop-lt (c ∷ s) zero h = omega arith
length-drop-lt (c ∷ s) (suc j) h =
    let step : suc j + 1 ≡ suc (j + 1) = omega arith in
    rw step (omega (arith, length-drop-lt s j (omega arith)))

take-not-empty : (s : Bytes) (j : ℕ) → j < length s → (j == 0) ≡ false → is_empty (take j s) ≡ false
take-not-empty [] j h e = absurd (omega arith)
take-not-empty (c ∷ s) zero h e = cc
take-not-empty (c ∷ s) (suc j) h e = refl

split_loop-IsWord :
    (p : ℕ → Bool) (fuel : ℕ) (s : Bytes)
    → All (IsPart p true) (split_loop fuel (find_if p) 1 true s)
split_loop-IsWord p zero s = unfold split_loop in tt
split_loop-IsWord p (suc fuel) s = elim (Option-cases (find_if p s)) [
  | inl e ↦ rw (split_loop-none (find_if p) 1 fuel true s e) (last s (Lacks-find_if p s e))
  | inr (j, e) ↦
      let more = drop (j + 1) s in
      let found = find_if-some p s j e in
      rw (split_loop-some (find_if p) 1 fuel true s j e) (elim (Bool-cases (j == 0)) [
        | inl z ↦ rw z (split_loop-IsWord p fuel more)
        | inr z ↦
            rw z (
              (found.0, take-not-empty s j (within s j found.1.2) z),
              split_loop-IsWord p fuel more,
            )
      ])
]
  where
    last : (t : Bytes) → Lacks p t → All (IsPart p true) (last_piece true t)
    last [] l = unfold last_piece in tt
    last (c ∷ t) l = unfold last_piece in ((l, refl), tt)

    within : (t : Bytes) (j : ℕ) {c : ℕ} {r : Bytes} → drop j t ≡ c ∷ r → j < length t
    within [] zero h = cc
    within [] (suc j) h = cc
    within (c ∷ t) zero h = omega arith
    within (c ∷ t) (suc j) h = omega (arith, within t j h)

words-IsWord :
    (ws : List Bytes)
    → All (IsPart (is_any_of (9 ∷ 10 ∷ 11 ∷ 12 ∷ 13 ∷ 32 ∷ [])) true) ws
    → All IsWord ws
words-IsWord [] h = tt
words-IsWord (w ∷ ws) h = ((space-Lacks w h.0.0, h.0.1), words-IsWord ws h.1)

-- Every token of `splitOnWhitespace` with `ignoreEmpty` is a word: not empty, and without white
-- space.
pub split_on_whitespace-IsWord : (s : Bytes) → All IsWord (split_on_whitespace s true)
unfolding split_on_whitespace split_on_any_of split_impl
split_on_whitespace-IsWord s = words-IsWord _ (split_loop-IsWord _ (suc (length s)) s)
