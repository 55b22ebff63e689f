-- ===== src/Text/Find.antt =====
-- Where the searches of `Text` stop.
use wav2letter.Base.{
  ℕ, zero, suc, ◌+◌, ◌≡◌, refl, Bool, true, false, none, some, [], ◌∷◌, ◌++◌, length, take, drop,
  All, arith, ◌↔◌,
}
use wav2letter.Text.{Bytes, find_if, is_prefix, find, starts_with}

-- The bytes of `s` all fail the test.
abbrev pub Lacks : (ℕ → Bool) → Bytes → Type 0
Lacks p = All (λ c. p c ≡ false)

pub find_if-append :
    (p : ℕ → Bool) (s rest : Bytes) (c : ℕ)
    → Lacks p s
    → p c ≡ true
    → find_if p (s ++ c ∷ rest) ≡ some (length s)
unfolding find_if
find_if-append p [] rest c h e = rw e
find_if-append p (d ∷ s) rest c h e = rw (h.0, find_if-append p s rest c h.1 e)

pub find_if-none : (p : ℕ → Bool) (s : Bytes) → Lacks p s → find_if p s ≡ none
unfolding find_if
find_if-none p [] h = refl
find_if-none p (d ∷ s) h = ground (arith, find_if-none p s h.1)

pub Lacks-find_if : (p : ℕ → Bool) (s : Bytes) → find_if p s ≡ none → Lacks p s
unfolding find_if
Lacks-find_if p [] h = tt
Lacks-find_if p (d ∷ s) h = ground (arith, Lacks-find_if p s)

-- What stands before the byte that is found fails the test, and the byte passes it.
pub find_if-some :
    (p : ℕ → Bool) (s : Bytes) (j : ℕ)
    → find_if p s ≡ some j
    → Lacks p (take j s) × ((c : ℕ) × (p c ≡ true) × (drop j s ≡ c ∷ drop (suc j) s))
unfolding find_if
find_if-some p [] j h = cc
find_if-some p (d ∷ s) zero h = ground (arith)
find_if-some p (d ∷ s) (suc j) h = ground (arith, find_if-some p s j)

pub is_prefix-eq_append : (pat s : Bytes) → is_prefix pat s ≡ true → s ≡ pat ++ drop (length pat) s
unfolding is_prefix
is_prefix-eq_append [] s h = refl
is_prefix-eq_append (c ∷ pat) [] h = cc
is_prefix-eq_append (c ∷ pat) (d ∷ s) h = ground (arith, is_prefix-eq_append pat s)

pub is_prefix-append : (pat s : Bytes) → is_prefix pat (pat ++ s) ≡ true
unfolding is_prefix
is_prefix-append [] s = refl
is_prefix-append (c ∷ pat) s = ground (arith, is_prefix-append pat s)

-- The pattern stands where `find` says.
pub find-some :
    (pat s : Bytes) (j : ℕ) → find pat s ≡ some j → drop j s ≡ pat ++ drop (j + length pat) s
unfolding find
find-some pat [] zero h = ground (arith, is_prefix-eq_append pat [])
find-some pat [] (suc j) h = ground arith
find-some pat (c ∷ s) zero h = ground (arith, is_prefix-eq_append pat (c ∷ s))
find-some pat (c ∷ s) (suc j) h =
    let step : suc j + length pat ≡ suc (j + length pat) = omega arith in
    rw step (ground (arith, find-some pat s j))

pub starts_with-append : (pat rest : Bytes) → starts_with (pat ++ rest) pat ≡ true
unfolding starts_with find is_prefix
starts_with-append [] [] = refl
starts_with-append [] (c ∷ rest) = refl
starts_with-append (c ∷ pat) rest = ground (arith, is_prefix-append (c ∷ pat) rest)

-- `startsWith` holds exactly when the input is the pattern followed by something.
pub starts_with_iff :
    (input pat : Bytes) → (starts_with input pat ≡ true) ↔ ((rest : Bytes) × (input ≡ pat ++ rest))
unfolding starts_with
starts_with_iff input pat = (there, λ (rest, e). rw e (starts_with-append pat rest))
  where
    there : starts_with input pat ≡ true → (rest : Bytes) × (input ≡ pat ++ rest)
    there h = (drop (length pat) input, ground (arith, find-some pat input 0))
