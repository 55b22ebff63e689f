-- ===== src/Labels/Targets.antt =====
-- The target of a transcription spells its words.
use native.Mathlib.Omega.{mod_fact}
use wav2letter.Base.{
  ℕ, zero, suc, ◌%◌, ◌<◌, ◌≡◌, refl, ap, sym, ◌∙◌, subst, ◌⊎◌, inl, inr, Bool, true, false, not,
  ◌&&◌, Option, none, some, List, [], ◌∷◌, ◌++◌, append_assoc, append-nil, length, get_elem?, All,
  if◌then◌else◌, ok, lookup, list_eq, list_beq_iff, nat_eq, ◌=?◌, =?_refl, arith, Bool-cases,
}
use wav2letter.Text.{Bytes, is_empty, is_prefix}
use wav2letter.Text.Find.{is_prefix-append}
use wav2letter.Dictionary.{Dictionary}
use wav2letter.Words.{LexiconMap}
use wav2letter.Labels.{
  Flags, has_none, pop_back, back, choose_spelling, wrd2target, ends_with, back_ends_with,
  add_target, add_targets, is_back_token, words2target, tkn2wrd_loop, tkn2wrd,
}

module _ {ℓ} {A : Type ℓ} where
  back-append : (xs : List A) (y : A) (ys : List A) → back (xs ++ y ∷ ys) ≡ back (y ∷ ys)
  unfolding back
  back-append [] y ys = refl
  back-append (x ∷ []) y ys = refl
  back-append (x ∷ x' ∷ xs) y ys = back-append (x' ∷ xs) y ys

  pop_back-append : (xs : List A) (y : A) → pop_back (xs ++ y ∷ []) ≡ xs
  unfolding pop_back
  pop_back-append [] y = refl
  pop_back-append (x ∷ []) y = refl
  pop_back-append (x ∷ x' ∷ xs) y = ap (λ t. x ∷ t) (pop_back-append (x' ∷ xs) y)

  back-All {κ} :
      (P : A → Type κ) (x : A) (xs : List A)
      → All P (x ∷ xs)
      → (y : A) × (back (x ∷ xs) ≡ some y) × P y
  unfolding back
  back-All P x [] h = (x, refl, h.0)
  back-All P x (x' ∷ xs) h = back-All P x' xs h.1

  get_elem?-All {κ} :
      (P : A → Type κ) (xs : List A) (i : ℕ)
      → i < length xs
      → All P xs
      → (y : A) × (get_elem? xs i ≡ some y) × P y
  get_elem?-All P [] i h all = absurd (omega arith)
  get_elem?-All P (x ∷ xs) zero h all = (x, refl, all.0)
  get_elem?-All P (x ∷ xs) (suc i) h all = get_elem?-All P xs i (omega arith) all.1

-- A token that neither begins nor ends with the separator.
abbrev pub IsPlain : Bytes → Bytes → Type 0
IsPlain separator token = (is_prefix separator token ≡ false) × (ends_with token separator ≡ false)

abbrev pub concat : List Bytes → Bytes
concat [] = []
concat (s ∷ tokens) = s ++ concat tokens

-- Tokens that spell a word.
pub record IsSpelt (separator word : Bytes) (tokens : List Bytes) : Type 0 where
  pub joined : concat tokens ≡ word
  pub some_token : has_none tokens ≡ false
  pub plain : All (IsPlain separator) tokens

-- A word of the lexicon, all of whose spellings spell it.
pub record IsKnown (separator : Bytes) (lexicon : LexiconMap) (word : Bytes) : Type 0 where
  pub spellings : List (List Bytes)
  pub entry : lookup word lexicon ≡ some spellings
  pub some_spelling : has_none spellings ≡ false
  pub spelt : All (IsSpelt separator word) spellings
  pub some_byte : is_empty word ≡ false

choose_spelling-All {κ} :
    (P : List Bytes → Type κ) (draw : Option ℕ) (spellings : List (List Bytes))
    → has_none spellings ≡ false
    → All P spellings
    → (t : List Bytes) × (choose_spelling draw spellings ≡ ok t) × P t
unfolding choose_spelling
choose_spelling-All P draw [] h all = cc
choose_spelling-All P draw (a ∷ []) h all = (a, refl, all.0)
choose_spelling-All P none (a ∷ b ∷ more) h all = (a, refl, all.0)
choose_spelling-All P (some r) (a ∷ b ∷ more) h all =
    let n = length (a ∷ b ∷ more) in
    let (t, e, p) = get_elem?-All P (a ∷ b ∷ more) (r % n) (mod_fact r (suc (length more))) all in
    (t, rw (e, choose_spelling) refl, p)

wrd2target-IsSpelt :
    (separator : Bytes) (draw : Option ℕ) (word : Bytes) (lexicon : LexiconMap) (dict : Dictionary)
    (fallback2ltr skip_unk : Bool)
    → IsKnown separator lexicon word
    → (t : List Bytes) × (wrd2target draw word lexicon dict fallback2ltr skip_unk ≡ ok t)
      × IsSpelt separator word t
unfolding wrd2target
wrd2target-IsSpelt separator draw word lexicon dict fallback2ltr skip_unk k =
    let (t, e, spelt) =
      choose_spelling-All (IsSpelt separator word) draw k.spellings k.some_spelling k.spelt in
    (t, rw (k.entry, wrd2target) e, spelt)

module _ (separator : Bytes) (some_separator : is_empty separator ≡ false) where
  -- Each word spelt, and the separator behind it.
  data AreSpelt : List Bytes → List Bytes → Type 0 where
    no_word : AreSpelt [] []
    one_word :
        (word : Bytes) (words : List Bytes) (t rest : List Bytes)
        → is_empty word ≡ false
        → IsSpelt separator word t
        → AreSpelt words rest
        → AreSpelt (word ∷ words) (t ++ separator ∷ rest)

  add_target-IsSpelt :
      (word : Bytes) (t res : List Bytes)
      → IsSpelt separator word t
      → add_target separator t res ≡ res ++ t ++ separator ∷ []
  unfolding add_target
  add_target-IsSpelt word [] res spelt = absurd (let bad = spelt.some_token in cc)
  add_target-IsSpelt word (token ∷ tokens) res spelt =
      let (s, last, plain) = back-All (IsPlain separator) token tokens spelt.plain in
      let at_end = back-append res token tokens ∙ last in
      let no_separator : back_ends_with separator (res ++ token ∷ tokens) ≡ false =
        rw (at_end, back_ends_with) plain.1 in
      rw
        (
          some_separator,
          spelt.plain.0.0,
          no_drop (not (has_none res)) (pop_back res) res,
          no_separator,
        )
        refl
    where
      no_drop : (b : Bool) (xs ys : List Bytes) → (if b && true && false then xs else ys) ≡ ys
      no_drop true xs ys = refl
      no_drop false xs ys = refl

  IsPlain-ne : (token : Bytes) → IsPlain separator token → (token =? separator) ≡ false
  IsPlain-ne token plain = elim (Bool-cases (token =? separator)) [
    | inr ne ↦ ne
    | inl e ↦
        let same : token ≡ separator = (list_beq_iff token separator).0 e in
        let whole : is_prefix separator token ≡ true = rw same (
          subst (λ s. is_prefix separator s ≡ true) (append-nil separator)
            (is_prefix-append separator [])) in
        absurd (let no = plain.0 in cc)
  ]

  tkn2wrd_loop-tokens :
      (current : Bytes) (tokens rest : List Bytes)
      → All (IsPlain separator) tokens
      → tkn2wrd_loop separator current (tokens ++ rest)
        ≡ tkn2wrd_loop separator (current ++ concat tokens) rest
  unfolding tkn2wrd_loop
  tkn2wrd_loop-tokens current [] rest plain = rw (append-nil current) refl
  tkn2wrd_loop-tokens current (token ∷ tokens) rest plain = rw (IsPlain-ne token plain.0) (
      tkn2wrd_loop-tokens (current ++ token) tokens rest plain.1
      ∙ ap (λ c. tkn2wrd_loop separator c rest) (append_assoc current token (concat tokens)))

  tkn2wrd_loop-AreSpelt :
      (words tokens : List Bytes) → AreSpelt words tokens → tkn2wrd_loop separator [] tokens ≡ words
  unfolding tkn2wrd_loop
  tkn2wrd_loop-AreSpelt _ _ no_word = refl
  tkn2wrd_loop-AreSpelt _ _ (one_word word words t rest some_byte spelt spelts) =
      tkn2wrd_loop-tokens [] t (separator ∷ rest) spelt.plain
      ∙ rw (=?_refl separator, spelt.joined, some_byte)
          (ap (λ ws. word ∷ ws) (tkn2wrd_loop-AreSpelt words rest spelts))

  -- A separator at the end changes nothing.
  tkn2wrd_loop-separator :
      (current : Bytes) (tokens : List Bytes)
      → tkn2wrd_loop separator current (tokens ++ separator ∷ [])
        ≡ tkn2wrd_loop separator current tokens
  unfolding tkn2wrd_loop
  tkn2wrd_loop-separator current [] = rw (=?_refl separator) refl
  tkn2wrd_loop-separator current (token ∷ tokens) =
      rw (tkn2wrd_loop-separator [] tokens, tkn2wrd_loop-separator (current ++ token) tokens) refl

  AreSpelt-cases :
      (words tokens : List Bytes)
      → AreSpelt words tokens
      → (tokens ≡ []) ⊎ ((front : List Bytes) × (tokens ≡ front ++ separator ∷ []))
  AreSpelt-cases _ _ no_word = inl refl
  AreSpelt-cases _ _ (one_word word words t rest some_byte spelt spelts) =
      inr (elim (AreSpelt-cases words rest spelts) [
        | inl e ↦ (t, ap (λ r. t ++ separator ∷ r) e)
        | inr (front, e) ↦ (
          t ++ separator ∷ front,
          ap (λ r. t ++ separator ∷ r) e
              ∙ sym (append_assoc t (separator ∷ front) (separator ∷ [])),
        )
      ])

  add_targets-AreSpelt :
      (flags : Flags) (draw : ℕ → Option ℕ) (i : ℕ) (words : List Bytes) (lexicon : LexiconMap)
      (dict : Dictionary) (fallback2ltr skip_unk : Bool) (res : List Bytes)
      → flags.wordseparator ≡ separator
      → All (IsKnown separator lexicon) words
      → (tail : List Bytes) × (add_targets flags draw i words lexicon dict fallback2ltr skip_unk res
          ≡ ok (res ++ tail))
        × AreSpelt words tail
  unfolding add_targets
  add_targets-AreSpelt flags draw i [] lexicon dict fallback2ltr skip_unk res e known =
      ([], ap ok (sym (append-nil res)), no_word)
  add_targets-AreSpelt flags draw i (word ∷ words) lexicon dict fallback2ltr skip_unk res e known =
      let (t, found, spelt) =
        wrd2target-IsSpelt separator (draw i) word lexicon dict fallback2ltr skip_unk known.0 in
      let (tail, added, spelts) =
        add_targets-AreSpelt flags draw (suc i) words lexicon dict fallback2ltr skip_unk
          (res ++ t ++ separator ∷ []) e known.1 in
      (
        t ++ separator ∷ tail,
        rw (found, e, add_target-IsSpelt word t res spelt)
            (added
              ∙ ap ok (
                  append_assoc (res ++ t) (separator ∷ []) tail
                  ∙ append_assoc res t (separator ∷ tail))),
        one_word word words t tail known.0.some_byte spelt spelts,
      )

finish :
    (separator : Bytes) (front : List Bytes)
    → (if is_back_token separator (front ++ separator ∷ [])
        then pop_back (front ++ separator ∷ [])
        else front ++ separator ∷ [])
      ≡ front
unfolding back
finish separator front =
    let at_end : is_back_token separator (front ++ separator ∷ []) ≡ true =
      rw (back-append front separator [], is_back_token) (=?_refl separator) in
    rw at_end (pop_back-append front separator)

-- If the word separator is not empty, and every word is not empty and has in the lexicon at least
-- one spelling, whose tokens in each case spell the word and neither begin nor end with the
-- separator, then `wrd2Target` returns tokens for the words, whichever spellings are drawn, and
-- `tkn2Wrd` reads the words back from them.
pub tkn2wrd-words2target :
    (flags : Flags) (draw : ℕ → Option ℕ) (words : List Bytes) (lexicon : LexiconMap)
    (dict : Dictionary) (fallback2ltr skip_unk : Bool)
    → is_empty flags.wordseparator ≡ false
    → All (IsKnown flags.wordseparator lexicon) words
    → (tokens : List Bytes) × (words2target flags draw words lexicon dict fallback2ltr skip_unk
        ≡ ok tokens)
      × (tkn2wrd flags tokens ≡ words)
unfolding words2target tkn2wrd back
tkn2wrd-words2target flags draw words lexicon dict fallback2ltr skip_unk some_separator known =
    let separator = flags.wordseparator in
    let (tail, added, spelts) =
      add_targets-AreSpelt separator some_separator flags draw 0 words lexicon dict fallback2ltr
        skip_unk [] refl known in
    let spell = tkn2wrd_loop-AreSpelt separator some_separator words tail spelts in
    elim (AreSpelt-cases separator some_separator words tail spelts) [
      | inl e ↦ ([], rw (added, e) refl, subst (λ ts. tkn2wrd_loop separator [] ts ≡ words) e spell)
      | inr (front, e) ↦ (
        front,
        rw (added, e) (ap ok (finish separator front)),
        sym (tkn2wrd_loop-separator separator some_separator [] front)
            ∙ subst (λ ts. tkn2wrd_loop separator [] ts ≡ words) e spell,
      )
    ]
