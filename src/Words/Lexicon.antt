-- ===== src/Words/Lexicon.antt =====
-- What `loadWords` reads from a lexicon file, and the word dictionary that is made of it.
use wav2letter.Base.{
  ℕ, ◌+◌, ◌<◌, ◌≤◌, ◌≡◌, ◌≢◌, refl, ap, sym, ◌∙◌, inl, inr, true, Option, none, some, List, [], ◌∷◌,
  ◌++◌, append_assoc, append-nil, length, arith, Bool-cases, Option-cases, if◌then◌else◌, ok,
  >>=-eq-ok, lookup, assign, lookup-assign, length-assign-le, list_eq, nat_eq, list_beq_iff, ◌=?◌,
  ◌==◌,
}
use wav2letter.Text.{Bytes, split_on_whitespace}
use wav2letter.Words.{LexiconMap, unk_token, add_spelling, load_line, load_loop, load_words}

-- The spellings that the lines give for a word, in their order.
abbrev pub spellings_of : Bytes → List Bytes → List (List Bytes)
spellings_of w [] = []
spellings_of w (word ∷ spelling) = if word =? w then spelling ∷ [] else []

abbrev pub spellings : Bytes → List Bytes → List (List Bytes)
spellings w [] = []
spellings w (line ∷ lines) = spellings_of w (split_on_whitespace line true) ++ spellings w lines

-- An entry of the lexicon with more spellings behind its own.
abbrev pub extend : Option (List (List Bytes)) → List (List Bytes) → Option (List (List Bytes))
extend none [] = none
extend none (s ∷ ss) = some (s ∷ ss)
extend (some old) ss = some (old ++ ss)

extend-append :
    (o : Option (List (List Bytes))) (a b : List (List Bytes))
    → extend (extend o a) b ≡ extend o (a ++ b)
extend-append none [] b = refl
extend-append none (s ∷ ss) b = refl
extend-append (some old) a b = ap some (append_assoc old a b)

extend-nil : (o : Option (List (List Bytes))) → extend o [] ≡ o
extend-nil none = refl
extend-nil (some old) = ap some (append-nil old)

-- What `add_spelling` writes.
added : Option (List (List Bytes)) → List Bytes → List (List Bytes)
added none spelling = spelling ∷ []
added (some old) spelling = old ++ spelling ∷ []

add_spelling-eq_assign :
    (word : Bytes) (spelling : List Bytes) (lexicon : LexiconMap)
    → add_spelling word spelling lexicon
      ≡ assign word (added (lookup word lexicon) spelling) lexicon
unfolding add_spelling added
add_spelling-eq_assign word spelling lexicon = elim (Option-cases (lookup word lexicon)) [
  | inl e ↦ ground arith
  | inr (old, e) ↦ ground arith
]

extend-added :
    (o : Option (List (List Bytes))) (spelling : List Bytes)
    → some (added o spelling) ≡ extend o (spelling ∷ [])
unfolding added
extend-added none spelling = refl
extend-added (some old) spelling = refl

lookup-add_spelling :
    (w word : Bytes) (spelling : List Bytes) (lexicon : LexiconMap)
    → lookup w (add_spelling word spelling lexicon)
      ≡ extend (lookup w lexicon) (if word =? w then spelling ∷ [] else [])
lookup-add_spelling w word spelling lexicon =
    rw (add_spelling-eq_assign word spelling lexicon, lookup-assign)
      (elim (Bool-cases (word =? w)) [
        | inl e ↦
            let same = (list_beq_iff word w).0 e in
            rw (e, same) (extend-added (lookup w lexicon) spelling)
        | inr e ↦ rw e (sym (extend-nil (lookup w lexicon)))
      ])

lookup-load_line :
    (fields : List Bytes) (w : Bytes) (lexicon lexicon' : LexiconMap)
    → load_line fields lexicon ≡ ok lexicon'
    → lookup w lexicon' ≡ extend (lookup w lexicon) (spellings_of w fields)
unfolding load_line
lookup-load_line [] w lexicon lexicon' h = cc
lookup-load_line (word ∷ []) w lexicon lexicon' h = cc
lookup-load_line (word ∷ token ∷ tokens) w lexicon lexicon' h =
    let e : add_spelling word (token ∷ tokens) lexicon ≡ lexicon' = cc in
    rw (← e) (lookup-add_spelling w word (token ∷ tokens) lexicon)

lookup-load_loop :
    (lines : List Bytes) (w : Bytes) (lexicon lexicon' : LexiconMap)
    → load_loop none lines lexicon ≡ ok lexicon'
    → lookup w lexicon' ≡ extend (lookup w lexicon) (spellings w lines)
unfolding load_loop
lookup-load_loop [] w lexicon lexicon' h =
    let e : lexicon ≡ lexicon' = cc in rw (← e) (sym (extend-nil (lookup w lexicon)))
lookup-load_loop (line ∷ lines) w lexicon lexicon' h =
    let fields = split_on_whitespace line true in
    let (next, e₁, e₂) = >>=-eq-ok (load_line fields lexicon) (load_loop none lines) h in
    lookup-load_loop lines w next lexicon' e₂
    ∙ rw (lookup-load_line fields w lexicon next e₁)
        (extend-append (lookup w lexicon) (spellings_of w fields) (spellings w lines))

lookup-nil : (w : Bytes) → lookup {V = List (List Bytes)} w [] ≡ none
unfolding lookup
lookup-nil w = refl

-- If a file is open and its lines are read without a limit and without an error, the lexicon maps
-- each word to all spellings that the lines give for it, in their order, and has no entry for a
-- word without one; only the unknown word always has an entry, with no spelling, also where the
-- file spells it.
pub load_words_lem :
    (lines : List Bytes) (lexicon : LexiconMap)
    → load_words (some lines) none ≡ ok lexicon
    → (lookup unk_token lexicon ≡ some [])
      × ((w : Bytes) → w ≢ unk_token → lookup w lexicon ≡ extend none (spellings w lines))
unfolding load_words
load_words_lem lines lexicon h =
    let (read, e₁, e₂) = >>=-eq-ok (load_loop none lines []) _ h in
    let e : assign unk_token [] read ≡ lexicon = cc in
    (
      rw (← e) (
          ground
            (arith, lookup-assign unk_token unk_token [] read, list_beq_iff unk_token unk_token)),
      λ w ne. rw (← e) (
          ground (
            arith,
            lookup-assign unk_token w [] read,
            list_beq_iff unk_token w,
            lookup-load_loop lines w [] read e₁,
            lookup-nil w,
          )),
    )

length-add_spelling :
    (word : Bytes) (spelling : List Bytes) (lexicon : LexiconMap)
    → length (add_spelling word spelling lexicon) ≤ length lexicon + 1
length-add_spelling word spelling lexicon =
    rw (add_spelling-eq_assign word spelling lexicon)
      (length-assign-le word (added (lookup word lexicon) spelling) lexicon)

length-load_line :
    (fields : List Bytes) (lexicon lexicon' : LexiconMap)
    → load_line fields lexicon ≡ ok lexicon'
    → length lexicon' ≤ length lexicon + 1
unfolding load_line
length-load_line [] lexicon lexicon' h = cc
length-load_line (word ∷ []) lexicon lexicon' h = cc
length-load_line (word ∷ token ∷ tokens) lexicon lexicon' h =
    let e : add_spelling word (token ∷ tokens) lexicon ≡ lexicon' = cc in
    rw (← e) (length-add_spelling word (token ∷ tokens) lexicon)

length-load_loop :
    (max_words : ℕ) (lines : List Bytes) (lexicon lexicon' : LexiconMap)
    → length lexicon ≤ max_words
    → load_loop (some max_words) lines lexicon ≡ ok lexicon'
    → length lexicon' ≤ max_words
unfolding load_loop
length-load_loop max_words [] lexicon lexicon' le h = let e : lexicon ≡ lexicon' = cc in rw (← e) le
length-load_loop max_words (line ∷ lines) lexicon lexicon' le h =
    elim (Bool-cases (max_words == length lexicon)) [
      | inl full ↦ let e : lexicon ≡ lexicon' = ground arith in rw (← e) le
      | inr room ↦
          let (next, e₁, e₂) =
            >>=-eq-ok (load_line (split_on_whitespace line true) lexicon)
              (load_loop (some max_words) lines) (rw (room, load_loop) at h) in
          let grown = length-load_line (split_on_whitespace line true) lexicon next e₁ in
          let less : length lexicon < max_words = ground arith in
          length-load_loop max_words lines next lexicon' (omega arith) e₂
    ]

-- With a limit the lexicon that is read has at most that many words and the unknown word.
pub length-load_words :
    (lines : List Bytes) (max_words : ℕ) (lexicon : LexiconMap)
    → load_words (some lines) (some max_words) ≡ ok lexicon
    → length lexicon ≤ max_words + 1
unfolding load_words
length-load_words lines max_words lexicon h =
    let (read, e₁, e₂) = >>=-eq-ok (load_loop (some max_words) lines []) _ h in
    let e : assign unk_token [] read ≡ lexicon = cc in
    rw (← e) (
      omega (
        arith,
        length-assign-le unk_token [] read,
        length-load_loop max_words lines [] read (omega arith) e₁,
      ))
