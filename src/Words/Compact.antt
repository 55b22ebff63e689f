-- ===== src/Words/Compact.antt =====
-- `validateIdx` overwrites its vector from the front and returns what passes the test, in order.
use wav2letter.Base.{
  ℕ, suc, ◌+◌, ◌≡◌, refl, ap, sym, ◌∙◌, inl, inr, Bool, not, ◌&&◌, List, [], ◌∷◌, ◌++◌,
  append_assoc, append-nil, length, get_or, set, take, keep_if, keep_if-true, keep_if-false, arith,
  Bool-cases, if◌then◌else◌, ℤ, minus_one, is_negative, int_eq, ◌=?◌, length-append,
}
use wav2letter.Words.{validate_loop, validate_idx}

-- What `validateIdx` keeps.
abbrev pub is_valid : ℤ → ℤ → Bool
is_valid unk x = not (is_negative x) && not (x =? unk)

get_or-append : (xs ys : List ℤ) (y d : ℤ) → get_or (xs ++ y ∷ ys) (length xs) d ≡ y
get_or-append [] ys y d = refl
get_or-append (x ∷ xs) ys y d = get_or-append xs ys y d

set-append : (xs ys : List ℤ) (y v : ℤ) → set (xs ++ y ∷ ys) (length xs) v ≡ xs ++ v ∷ ys
set-append [] ys y v = refl
set-append (x ∷ xs) ys y v = ap (λ t. x ∷ t) (set-append xs ys y v)

take-append : (xs ys : List ℤ) → take (length xs) (xs ++ ys) ≡ xs
take-append [] ys = refl
take-append (x ∷ xs) ys = ap (λ t. x ∷ t) (take-append xs ys)

validate_loop_step :
    (n i new_size : ℕ) (unk x : ℤ) (input : List ℤ)
    → get_or input i minus_one ≡ x
    → validate_loop (suc n) i new_size unk input ≡ (
        if is_valid unk x
        then validate_loop n (suc i) (suc new_size) unk (set input new_size x)
        else validate_loop n (suc i) new_size unk input)
unfolding validate_loop
validate_loop_step n i new_size unk x input e = rw e refl

-- Writing the value just read over the first stale one, or over itself.
set-kept :
    (kept stale rest : List ℤ) (x : ℤ)
    → (stale' : List ℤ) × (set (kept ++ (stale ++ x ∷ rest)) (length kept) x
        ≡ (kept ++ x ∷ []) ++ (stale' ++ rest))
      × (length stale' ≡ length stale)
set-kept kept [] rest x =
    ([], set-append kept rest x x ∙ sym (append_assoc kept (x ∷ []) rest), refl)
set-kept kept (y ∷ stale) rest x = (
  stale ++ x ∷ [],
  set-append kept (stale ++ x ∷ rest) y x ∙ simp append_assoc,
  omega (arith, length-append stale (x ∷ [])),
)

-- The vector is what was kept, then stale values, then what is still to be read.
validate_loop-keep_if :
    (unk : ℤ) (rest kept stale : List ℤ) (i new_size : ℕ) (input : List ℤ)
    → i ≡ length kept + length stale
    → new_size ≡ length kept
    → input ≡ kept ++ (stale ++ rest)
    → validate_loop (length rest) i new_size unk input ≡ kept ++ keep_if (is_valid unk) rest
validate_loop-keep_if unk [] kept stale i new_size input ei en e =
    unfold validate_loop in rw (en, e, append-nil kept) (take-append kept (stale ++ []))
validate_loop-keep_if unk (x ∷ rest) kept stale i new_size input ei en e =
    let read : get_or input i minus_one ≡ x =
      rw (e, ei, ← length-append kept stale, ← append_assoc kept stale (x ∷ rest))
        (get_or-append (kept ++ stale) rest x minus_one) in
    validate_loop_step (length rest) i new_size unk x input read
    ∙ elim (Bool-cases (is_valid unk x)) [
      | inl keep ↦
          let (stale', written, size) = set-kept kept stale rest x in
          rw (keep, keep_if-true (is_valid unk) x rest keep)
            (validate_loop-keep_if unk rest (kept ++ x ∷ []) stale' (suc i) (suc new_size) _
                (omega (arith, length-append kept (x ∷ [])))
                (omega (arith, length-append kept (x ∷ []))) (rw (e, en) written)
              ∙ append_assoc kept (x ∷ []) _)
      | inr lose ↦
          rw (lose, keep_if-false (is_valid unk) x rest lose)
            (validate_loop-keep_if unk rest kept (stale ++ x ∷ []) (suc i) new_size input
              (omega (arith, length-append stale (x ∷ []))) en
              (e ∙ ap (λ t. kept ++ t) (sym (append_assoc stale (x ∷ []) rest))))
    ]

-- `validateIdx` returns the indices that are not negative and not `unkIdx`, in their order.
pub validate_idx-keep_if :
    (input : List ℤ) (unk : ℤ) → validate_idx input unk ≡ keep_if (is_valid unk) input
unfolding validate_idx
validate_idx-keep_if input unk =
    validate_loop-keep_if unk input [] [] 0 0 input (omega arith) refl refl
