-- ===== src/Text/Split.antt =====
-- `split`, `join` and `replaceAll` against one another.
use wav2letter.Base.{
  ℕ, zero, suc, ◌+◌, ◌<◌, ◌≡◌, ◌≢◌, refl, ap, sym, ◌∙◌, Bool, false, ◌&&◌, Option, none, some, List,
  [], ◌∷◌, ◌++◌, append-nil, length, take, drop, take-append-drop, arith, Option-cases,
  length-append, ◌==◌, ok, if◌then◌else◌, inl, inr,
}
use wav2letter.Text.{
  Bytes, find_if, find, last_piece, split_loop, split_impl, split_char, split, join, append_all,
  replace_loop, replace_all,
}
use wav2letter.Text.Find.{find_if-some, find-some}

append_all-join : (d : Bytes) (ps : List Bytes) → ps ≢ [] → append_all d ps ≡ d ++ join d ps
unfolding join append_all
append_all-join d [] h = absurd (h refl)
append_all-join d (p ∷ ps) h = refl

module _ (found : Bytes → Option ℕ) (n fuel : ℕ) (ignore_empty : Bool) (rest : Bytes) where
  pub split_loop-none :
      found rest ≡ none
      → split_loop (suc fuel) found n ignore_empty rest ≡ last_piece ignore_empty rest
  unfolding split_loop
  split_loop-none e = rw (e, split_loop)

  pub split_loop-some :
      (j : ℕ)
      → found rest ≡ some j
      → split_loop (suc fuel) found n ignore_empty rest ≡ (
          if ignore_empty && j == 0
          then split_loop fuel found n ignore_empty (drop (j + n) rest)
          else take j rest ∷ split_loop fuel found n ignore_empty (drop (j + n) rest))
  unfolding split_loop
  split_loop-some j e = rw (e, split_loop)

-- A search that is right about where the delimiter `d` stands.
abbrev IsFinder : Bytes → (Bytes → Option ℕ) → Type 0
IsFinder d found = (s : Bytes) (j : ℕ) → found s ≡ some j → drop j s ≡ d ++ drop (j + length d) s

module _ (d : Bytes) (found : Bytes → Option ℕ) (finds : IsFinder d found)
    (pos : 0 < length d) where
  shorter : (s : Bytes) (j : ℕ) → found s ≡ some j → length (drop (j + length d) s) < length s
  shorter s j h = omega (
    arith,
    ap length (finds s j h),
    ap length (take-append-drop j s),
    length-append d (drop (j + length d) s),
    length-append (take j s) (drop j s),
  )

  split_loop-ne-nil :
      (fuel : ℕ) (rest : Bytes) → 0 < fuel → split_loop fuel found (length d) false rest ≢ []
  unfolding split_loop last_piece
  split_loop-ne-nil zero rest h = absurd (omega arith)
  split_loop-ne-nil (suc fuel) rest h = ground arith

  join-split_loop :
      (fuel : ℕ) (rest : Bytes)
      → length rest < fuel
      → join d (split_loop fuel found (length d) false rest) ≡ rest
  unfolding last_piece join
  join-split_loop zero rest h = absurd (omega arith)
  join-split_loop (suc fuel) rest h = elim (Option-cases (found rest)) [
    | inl e ↦ rw (split_loop-none found (length d) fuel false rest e) (append-nil rest)
    | inr (j, e) ↦
        let more = drop (j + length d) rest in
        let less : length more < fuel = omega (arith, shorter rest j e) in
        rw (split_loop-some found (length d) fuel false rest j e) (
          ap (λ t. take j rest ++ t)
            (append_all-join d _ (split_loop-ne-nil fuel more (omega arith))
              ∙ ap (λ t. d ++ t) (join-split_loop fuel more less)
              ∙ sym (finds rest j e))
          ∙ take-append-drop j rest)
  ]

-- Both searches find the delimiter.
char_finds : (c : ℕ) → IsFinder (c ∷ []) (find_if (λ x. x == c))
char_finds c s j h =
    let at = find_if-some (λ x. x == c) s j h in
    let step : j + 1 ≡ suc j = omega arith in
    let same : at.1.0 ≡ c = ground (arith, at.1.1) in
    rw step (at.1.2 ∙ ap (λ x. x ∷ drop (suc j) s) same)

string_finds : (d : Bytes) → IsFinder d (find d)
string_finds d s j h = find-some d s j h

-- Joining the parts of a split on one character gives the text back.
pub join-split_char : (c : ℕ) (s : Bytes) → join (c ∷ []) (split_char c s false) ≡ s
unfolding split_char split_impl
join-split_char c s =
    join-split_loop (c ∷ []) _ (char_finds c) (omega arith) (suc (length s)) s (omega arith)

-- Splitting on a delimiter that is not empty succeeds, and joining the parts with the delimiter
-- gives the text back.
pub join-split :
    (d s : Bytes)
    → d ≢ []
    → (parts : List Bytes) × (split d s false ≡ ok parts) × (join d parts ≡ s)
unfolding split split_impl
join-split [] s h = absurd (h refl)
join-split (c ∷ ds) s h = (
  _,
  refl,
  join-split_loop (c ∷ ds) _ (string_finds (c ∷ ds)) (omega arith) (suc (length s)) s (omega arith),
)

module _ (d repl : Bytes) (pos : 0 < length d) where
  replace_loop-none :
      (fuel : ℕ) (rest : Bytes) → find d rest ≡ none → replace_loop (suc fuel) d repl rest ≡ rest
  unfolding replace_loop
  replace_loop-none fuel rest e = rw (e, replace_loop)

  replace_loop-some :
      (fuel : ℕ) (rest : Bytes) (j : ℕ)
      → find d rest ≡ some j
      → replace_loop (suc fuel) d repl rest
        ≡ take j rest ++ (repl ++ replace_loop fuel d repl (drop (j + length d) rest))
  unfolding replace_loop
  replace_loop-some fuel rest j e = rw (e, replace_loop)

  replace_loop-join :
      (fuel : ℕ) (rest : Bytes)
      → length rest < fuel
      → replace_loop fuel d repl rest ≡ join repl (split_loop fuel (find d) (length d) false rest)
  unfolding last_piece join
  replace_loop-join zero rest h = absurd (omega arith)
  replace_loop-join (suc fuel) rest h = elim (Option-cases (find d rest)) [
    | inl e ↦
        rw (replace_loop-none fuel rest e, split_loop-none (find d) (length d) fuel false rest e)
          (sym (append-nil rest))
    | inr (j, e) ↦
        let more = drop (j + length d) rest in
        let less : length more < fuel =
          omega (arith, shorter d (find d) (string_finds d) pos rest j e) in
        rw
          (replace_loop-some fuel rest j e, split_loop-some (find d) (length d) fuel false rest j e)
          (ap (λ t. take j rest ++ t)
            (ap (λ t. repl ++ t) (replace_loop-join fuel more less)
              ∙ sym (
                  append_all-join repl _
                    (split_loop-ne-nil d (find d) (string_finds d) pos fuel more (omega arith)))))
  ]

-- Where the split of a text on `from` succeeds, `replaceAll` puts `repl` between its parts.
pub replace_all-join-split :
    (str from repl : Bytes) (parts : List Bytes)
    → split from str false ≡ ok parts
    → replace_all str from repl ≡ join repl parts
unfolding split split_impl replace_all
replace_all-join-split str [] repl parts h = cc
replace_all-join-split str (c ∷ from) repl parts h =
    replace_loop-join (c ∷ from) repl (omega arith) (suc (length str)) str (omega arith)
    ∙ ap (join repl) (ok_inj h)
  where
    ok_inj : {x y : List Bytes} → ok x ≡ ok y → x ≡ y
    ok_inj e = cc
