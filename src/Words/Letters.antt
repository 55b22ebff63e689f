-- ===== src/Words/Letters.antt =====
-- `splitWrd` cuts a word into its UTF-8 letters.
use wav2letter.Base.{
  take-append-drop, length-drop, ℕ, zero, suc, ◌<◌, ◌≤◌, ◌≡◌, ◌↔◌, ◌≢◌, refl, ap, sym, subst, ◌∙◌,
  ◌⊎◌, inl, inr, Bool, true, false, ◌&&◌, ◌==◌, if◌then◌else◌, Option, none, some, List, [], ◌∷◌,
  ◌++◌, length, take, drop, All, arith, Bool-cases, Option-cases, ltb, ok, err, ◌>>=◌, >>=-eq-ok,
  length-append, runtime_error,
}
use wav2letter.Text.{Bytes}
use wav2letter.Words.{token_bytes, split_wrd_loop, split_wrd}

-- What the loop takes for a letter.
abbrev IsToken : Bytes → Type 0
IsToken [] = ⊥
IsToken (c ∷ s) = token_bytes c ≡ some (length (c ∷ s))

-- The first bytes of the letters of one to four bytes in UTF-8.
abbrev pub IsLead : ℕ → ℕ → Type 0
IsLead c n =
    ((c < 128) × (n ≡ 1))
    ⊎ ((192 ≤ c) × (c < 224) × (n ≡ 2))
    ⊎ ((224 ≤ c) × (c < 240) × (n ≡ 3))
    ⊎ ((240 ≤ c) × (c < 248) × (n ≡ 4))

-- A letter: as many bytes as its first byte announces.
abbrev pub IsLetter : Bytes → Type 0
IsLetter [] = ⊥
IsLetter (c ∷ s) = IsLead c (length (c ∷ s))

abbrev pub AreBytes : Bytes → Type 0
AreBytes = All (λ c. c < 256)

lead : ℕ → Option ℕ
lead c =
    if ltb c 128
    then some 1
    else if ltb c 192
    then none
    else if ltb c 224
    then some 2
    else if ltb c 240
    then some 3
    else if ltb c 248
    then some 4
    else none

same_option : Option ℕ → Option ℕ → Bool
same_option none none = true
same_option none (some b) = false
same_option (some a) none = false
same_option (some a) (some b) = a == b

same_option_sound : (x y : Option ℕ) → same_option x y ≡ true → x ≡ y
unfolding same_option
same_option_sound none none h = refl
same_option_sound none (some b) h = absurd (cc)
same_option_sound (some a) none h = absurd (cc)
same_option_sound (some a) (some b) h = ap some (ground arith)

agrees : ℕ → Bool
agrees c = same_option (token_bytes c) (lead c)

-- Every byte is tried.
agree_up_to : ℕ → Bool
agree_up_to zero = true
agree_up_to (suc c) = agree_up_to c && agrees c

agree_up_to-agrees : (k c : ℕ) → agree_up_to k ≡ true → c < k → agrees c ≡ true
unfolding agree_up_to
agree_up_to-agrees zero c tried lt = absurd (omega arith)
agree_up_to-agrees (suc k) c tried lt = elim (last_or_earlier k c lt) [
  | inl last ↦ rw last (both (agree_up_to k) (agrees k) tried).1
  | inr earlier ↦ agree_up_to-agrees k c (both (agree_up_to k) (agrees k) tried).0 earlier
]
  where
    last_or_earlier : (k c : ℕ) → c < suc k → (c ≡ k) ⊎ (c < k)
    last_or_earlier k c lt = omega arith

    both : (a b : Bool) → (a && b) ≡ true → (a ≡ true) × (b ≡ true)
    both true b h = (refl, h)
    both false b h = absurd (cc)

all_agree : agree_up_to 256 ≡ true
unfolding agree_up_to agrees same_option token_bytes lead
all_agree = refl

token_bytes-lead : (c : ℕ) → c < 256 → token_bytes c ≡ lead c
unfolding agrees
token_bytes-lead c lt =
    same_option_sound (token_bytes c) (lead c) (agree_up_to-agrees 256 c all_agree lt)

lead-IsLead : (c n : ℕ) → lead c ≡ some n → IsLead c n
unfolding lead
lead-IsLead c n h = ground arith

IsLead-lead : (c n : ℕ) → IsLead c n → (c < 256) × (lead c ≡ some n)
unfolding lead
IsLead-lead c n h = ground arith

IsLetter-IsToken : (ls : List Bytes) → All IsLetter ls → All IsToken ls
IsLetter-IsToken [] h = tt
IsLetter-IsToken ([] ∷ ls) h = absurd h.0
IsLetter-IsToken ((c ∷ s) ∷ ls) h =
    let (lt, e) = IsLead-lead c (length (c ∷ s)) h.0 in
    (token_bytes-lead c lt ∙ e, IsLetter-IsToken ls h.1)

abbrev pub concat : List Bytes → Bytes
concat [] = []
concat (s ∷ ss) = s ++ concat ss

token_bytes_pos : (c : ℕ) → token_bytes c ≢ some 0
unfolding token_bytes
token_bytes_pos c h = ground arith

take-append : (xs ys : Bytes) → take (length xs) (xs ++ ys) ≡ xs
take-append [] ys = refl
take-append (x ∷ xs) ys = ap (λ t. x ∷ t) (take-append xs ys)

drop-append : (xs ys : Bytes) → drop (length xs) (xs ++ ys) ≡ ys
drop-append [] ys = refl
drop-append (x ∷ xs) ys = drop-append xs ys

module _ (fuel c n : ℕ) (rest : Bytes) (announced : token_bytes c ≡ some n) where
  split_wrd_loop-some :
      n ≤ length (c ∷ rest)
      → split_wrd_loop (suc fuel) (c ∷ rest)
        ≡ (split_wrd_loop fuel (drop n (c ∷ rest)) >>= λ tokens. ok (take n (c ∷ rest) ∷ tokens))
  unfolding split_wrd_loop
  split_wrd_loop-some le =
      let fits : ltb (length (c ∷ rest)) n ≡ false = ground arith in
      rw (announced, split_wrd_loop) (rw fits refl)

  split_wrd_loop-short :
      length (c ∷ rest) < n → split_wrd_loop (suc fuel) (c ∷ rest) ≡ err runtime_error
  unfolding split_wrd_loop
  split_wrd_loop-short less =
      let short : ltb (length (c ∷ rest)) n ≡ true = ground arith in
      rw (announced, split_wrd_loop) (rw short refl)

split_wrd_loop-none :
    (fuel c : ℕ) (rest : Bytes)
    → token_bytes c ≡ none
    → split_wrd_loop (suc fuel) (c ∷ rest) ≡ err runtime_error
unfolding split_wrd_loop
split_wrd_loop-none fuel c rest e = rw (e, split_wrd_loop) refl

split_wrd_loop-concat :
    (letters : List Bytes) (fuel : ℕ)
    → All IsToken letters
    → length (concat letters) ≤ fuel
    → split_wrd_loop fuel (concat letters) ≡ ok letters
split_wrd_loop-concat [] zero h le = unfold split_wrd_loop in refl
split_wrd_loop-concat [] (suc fuel) h le = unfold split_wrd_loop in refl
split_wrd_loop-concat ([] ∷ ls) fuel h le = absurd h.0
split_wrd_loop-concat ((c ∷ s) ∷ ls) zero h le = absurd (omega arith)
split_wrd_loop-concat ((c ∷ s) ∷ ls) (suc fuel) h le =
    let size = length-append s (concat ls) in
    rw
      (
        split_wrd_loop-some fuel c (length (c ∷ s)) (s ++ concat ls) h.0 (omega (arith, size)),
        drop-append (c ∷ s) (concat ls),
        take-append (c ∷ s) (concat ls),
        split_wrd_loop-concat ls fuel h.1 (omega (arith, size)),
      )
      refl

take-IsToken :
    (n c : ℕ) (rest : Bytes)
    → token_bytes c ≡ some n
    → n ≤ length (c ∷ rest)
    → IsToken (take n (c ∷ rest))
take-IsToken zero c rest e le = absurd (token_bytes_pos c e)
take-IsToken (suc n) c rest e le = e ∙ ap some (sym (size n rest (omega arith)))
  where
    size : (n : ℕ) (t : Bytes) → n ≤ length t → length (c ∷ take n t) ≡ suc n
    size zero t h = refl
    size (suc n) [] h = absurd (omega arith)
    size (suc n) (x ∷ t) h = ap suc (size n t (omega arith))

split_wrd_loop-letters :
    (fuel : ℕ) (rest : Bytes) (letters : List Bytes)
    → length rest ≤ fuel
    → split_wrd_loop fuel rest ≡ ok letters
    → (concat letters ≡ rest) × All IsToken letters
split_wrd_loop-letters zero [] letters le h =
    let e : [] ≡ letters = unfold split_wrd_loop in (cc h) in rw (← e) (refl, tt)
split_wrd_loop-letters zero (c ∷ rest) letters le h = absurd (omega arith)
split_wrd_loop-letters (suc fuel) [] letters le h =
    let e : [] ≡ letters = unfold split_wrd_loop in (cc h) in rw (← e) (refl, tt)
split_wrd_loop-letters (suc fuel) (c ∷ rest) letters le h = elim (Option-cases (token_bytes c)) [
  | inl e ↦ let bad = split_wrd_loop-none fuel c rest e in cc
  | inr (n, e) ↦ elim (Bool-cases (ltb (length (c ∷ rest)) n)) [
    | inl short ↦ let bad = split_wrd_loop-short fuel c n rest e (ground arith) in cc
    | inr fits ↦
        let le_n : n ≤ length (c ∷ rest) = ground arith in
        let (ls, ok_ls, same) =
          >>=-eq-ok (split_wrd_loop fuel (drop n (c ∷ rest))) _
            (sym (split_wrd_loop-some fuel c n rest e le_n) ∙ h) in
        let size = length-drop n (c ∷ rest) le_n in
        let pos_n : n ≢ 0 = λ z. token_bytes_pos c (rw z at e) in
        let ih = split_wrd_loop-letters fuel (drop n (c ∷ rest)) ls (omega arith) ok_ls in
        let e' : take n (c ∷ rest) ∷ ls ≡ letters = cc in
        rw (← e') (
          ap (λ t. take n (c ∷ rest) ++ t) ih.0 ∙ take-append-drop n (c ∷ rest),
          (take-IsToken n c rest e le_n, ih.1),
        )
  ]
]

append-AreBytes : (xs ys : Bytes) → AreBytes (xs ++ ys) → AreBytes ys
append-AreBytes [] ys h = h
append-AreBytes (x ∷ xs) ys h = append-AreBytes xs ys h.1

IsToken-IsLetter : (ls : List Bytes) → All IsToken ls → AreBytes (concat ls) → All IsLetter ls
IsToken-IsLetter [] h bytes = tt
IsToken-IsLetter ([] ∷ ls) h bytes = absurd h.0
IsToken-IsLetter ((c ∷ s) ∷ ls) h bytes = (
  lead-IsLead c (length (c ∷ s)) (sym (token_bytes-lead c bytes.0) ∙ h.0),
  IsToken-IsLetter ls h.1 (append-AreBytes (c ∷ s) (concat ls) bytes),
)

-- For a word of bytes, `splitWrd` returns these tokens exactly when the tokens spell the word and
-- each of them is a letter: one byte below 128, or two, three or four bytes of which the first lies
-- in 192 to 223, 224 to 239 or 240 to 247.
pub split_wrd_iff :
    (word : Bytes) (letters : List Bytes)
    → AreBytes word
    → (split_wrd word ≡ ok letters) ↔ ((concat letters ≡ word) × All IsLetter letters)
unfolding split_wrd
split_wrd_iff word letters bytes = (
  λ h.
      let (spelt, tokens) = split_wrd_loop-letters (length word) word letters (omega arith) h in
      (spelt, IsToken-IsLetter letters tokens (subst AreBytes (sym spelt) bytes)),
  λ (e, h). rw (← e) (
      split_wrd_loop-concat letters (length (concat letters)) (IsLetter-IsToken letters h)
        (omega arith)),
)
