-- ===== src/Labels.antt =====
-- src/common/Transforms.h and the target and decoder helpers of src/common/Utils.cpp: from words to
-- target tokens, and from token indices back to letters and words.
-- The flags that the functions read are a record; a random draw is an argument.
pub mod Targets
pub mod Runs
use wav2letter.Base.{
  ◌+◌, ◌*◌, replicate, set, get_or, guard, ◌>>◌, ◌==◌, runtime_error, ℕ, zero, suc, ◌-◌, ◌%◌, Bool,
  true, false, not, ◌&&◌, ◌||◌, Option, none, some, List, [], ◌∷◌, ◌++◌, length, drop, get_elem?,
  ltb, leb, if◌then◌else◌, Result, ok, err, ◌>>=◌, fatal, invalid_argument, ℤ, minus_one, lookup,
  map_result, keep_if, nat_eq, list_eq, int_eq, ◌=?◌,
}
use wav2letter.Text.{split_on_whitespace, Bytes, codes, is_empty, is_prefix, append_all}
use wav2letter.Dictionary.{Dictionary, contains, get_index, get_entry}
use wav2letter.Words.{LexiconMap, split_wrd, unpack_replabels, validate_idx}

-- `FLAGS_criterion`, with the names that the code compares it with.
pub data Criterion : Type 0 where
  ctc asg seq2seq other : Criterion

pub record Flags : Type 0 where
  pub eostoken : Bool
  pub replabel : ℕ
  pub surround : Bytes
  pub usewordpiece : Bool
  pub wordseparator : Bytes
  pub criterion : Criterion

abbrev pub eos_token : Bytes
eos_token = codes "$"

abbrev pub blank_token : Bytes
blank_token = codes "#"

abbrev pub sil_token : Bytes
sil_token = codes "|"

module _ {ℓ} {A : Type ℓ} where
  abbrev pub has_none : List A → Bool
  has_none [] = true
  has_none (x ∷ xs) = false

  -- `pop_back`; the callers test that there is an element.
  unfoldable pub pop_back : List A → List A
  pop_back [] = []
  pop_back (x ∷ []) = []
  pop_back (x ∷ y ∷ xs) = x ∷ pop_back (y ∷ xs)

  unfoldable pub back : List A → Option A
  back [] = none
  back (x ∷ []) = some x
  back (x ∷ y ∷ xs) = back (y ∷ xs)

-- `std::unique`: an element equal to the last one kept is dropped.
unfoldable pub unique_loop : ℤ → List ℤ → List ℤ
unique_loop kept [] = []
unique_loop kept (x ∷ xs) =
    let same = unique_loop kept xs in
    let new = unique_loop x xs in if kept =? x then same else x ∷ new

unfoldable pub uniq : List ℤ → List ℤ
uniq [] = []
uniq (x ∷ xs) = x ∷ unique_loop x xs

abbrev pub is_back : ℤ → List ℤ → Bool
is_back idx labels = elim (back labels) [ none ↦ false | some x ↦ x =? idx ]

abbrev pub is_front : ℤ → List ℤ → Bool
is_front idx [] = false
is_front idx (x ∷ xs) = x =? idx

-- The loop that removes the end markers; one round for each label is enough.
unfoldable pub drop_trailing : ℕ → ℤ → List ℤ → List ℤ
drop_trailing zero idx labels = labels
drop_trailing (suc fuel) idx labels =
    let rest = drop_trailing fuel idx (pop_back labels) in
    if is_back idx labels then rest else labels

-- `trimLabels`
unfoldable pub trim_labels : ℤ → List ℤ → List ℤ
trim_labels idx labels =
    let shorter = (if is_back idx labels then pop_back labels else labels) in
    if is_front idx shorter then drop 1 shorter else shorter

-- `if (FLAGS_…) trimLabels(dict.getIndex(token));`
unfoldable pub trim_token : Bool → Bytes → Dictionary → List ℤ → Result (List ℤ)
trim_token false token dict labels = ok labels
trim_token true token dict labels = do idx ← get_index dict token; ok (trim_labels idx labels)

unfoldable pub drop_eos : Bool → Dictionary → List ℤ → Result (List ℤ)
drop_eos false dict labels = ok labels
drop_eos true dict labels = do
  idx ← get_index dict eos_token
  ok (drop_trailing (length labels) idx labels)

unfoldable pub remap_labels : Flags → List ℤ → Dictionary → Result (List ℤ)
remap_labels flags labels dict = do
  without_eos ← drop_eos flags.eostoken dict labels
  unpacked ←
      (if ltb 0 flags.replabel
        then unpack_replabels without_eos dict flags.replabel
        else ok without_eos)
  without_sil ← trim_token (contains dict sil_token) sil_token dict unpacked
  trim_token (not (is_empty flags.surround)) flags.surround dict without_sil

-- The letters of an unknown word that are tokens.
unfoldable pub known_letters : Bool → Dictionary → List Bytes → Result (List Bytes)
known_letters skip_unk dict [] = ok []
known_letters skip_unk dict (tkn ∷ tokens) =
    if contains dict tkn
    then (do more ← known_letters skip_unk dict tokens; ok (tkn ∷ more))
    else if skip_unk
    then known_letters skip_unk dict tokens
    else err invalid_argument

-- The spelling of a word in the lexicon. `draw` is the outcome of the random draws: `none` for a
-- draw that does not sample, else the second number. `[0]` of no spelling at all is undefined
-- behaviour, which stands as the error `fatal`.
unfoldable pub choose_spelling : Option ℕ → List (List Bytes) → Result (List Bytes)
choose_spelling draw [] = err fatal
choose_spelling draw (first ∷ []) = ok first
choose_spelling none (first ∷ second ∷ more) = ok first
choose_spelling (some r) (first ∷ second ∷ more) =
    elim (get_elem? (first ∷ second ∷ more) (r % length (first ∷ second ∷ more))) [
      | none ↦ err fatal
      | some spelling ↦ ok spelling
    ]

-- `wrd2Target` of one word.
unfoldable pub wrd2target :
    Option ℕ → Bytes → LexiconMap → Dictionary → Bool → Bool → Result (List Bytes)
wrd2target draw word lexicon dict fallback2ltr skip_unk = elim (lookup word lexicon) [
  | some spellings ↦ choose_spelling draw spellings
  | none ↦
      if fallback2ltr
      then (do tokens ← split_wrd word; known_letters skip_unk dict tokens)
      else if skip_unk
      then ok []
      else err invalid_argument
]

-- `s.length() >= t.length() && s.compare(s.length() - t.length(), t.length(), t) == 0`
unfoldable pub ends_with : Bytes → Bytes → Bool
ends_with s t = leb (length t) (length s) && (drop (length s - length t) s =? t)

abbrev pub back_ends_with : Bytes → List Bytes → Bool
back_ends_with t tokens = elim (back tokens) [ none ↦ false | some s ↦ ends_with s t ]

-- One round of the loop of `wrd2Target` over words: `t` is the target of the word.
unfoldable pub add_target : Bytes → List Bytes → List Bytes → List Bytes
add_target separator [] res = res
add_target separator (token ∷ tokens) res =
    let start =
      (if not (has_none res) && not (is_empty separator) && is_prefix separator token
        then pop_back res
        else res) in
    let longer = start ++ token ∷ tokens in
    if not (is_empty separator) && not (back_ends_with separator longer)
    then longer ++ separator ∷ []
    else longer

unfoldable pub add_targets :
    Flags
    → (ℕ → Option ℕ)
    → ℕ
    → List Bytes
    → LexiconMap
    → Dictionary
    → Bool
    → Bool
    → List Bytes
    → Result (List Bytes)
add_targets flags draw i [] lexicon dict fallback2ltr skip_unk res = ok res
add_targets flags draw i (word ∷ words) lexicon dict fallback2ltr skip_unk res = do
  t ← wrd2target (draw i) word lexicon dict fallback2ltr skip_unk
  add_targets flags draw (suc i) words lexicon dict fallback2ltr skip_unk
      (add_target flags.wordseparator t res)

abbrev pub is_back_token : Bytes → List Bytes → Bool
is_back_token t tokens = elim (back tokens) [ none ↦ false | some s ↦ s =? t ]

-- `wrd2Target` of the words of a transcription; `draw i` is the draw for the word `i`.
unfoldable pub words2target :
    Flags
    → (ℕ → Option ℕ)
    → List Bytes
    → LexiconMap
    → Dictionary
    → Bool
    → Bool
    → Result (List Bytes)
words2target flags draw words lexicon dict fallback2ltr skip_unk = do
  res ← add_targets flags draw 0 words lexicon dict fallback2ltr skip_unk []
  ok (if is_back_token flags.wordseparator res then pop_back res else res)

unfoldable pub token_letters : Flags → Dictionary → List ℤ → Result (List Bytes)
token_letters flags d [] = ok []
token_letters flags d (id ∷ labels) = do
  token ← get_entry d id
  letters ← (if flags.usewordpiece then split_wrd token else ok (token ∷ []))
  more ← token_letters flags d labels
  ok (letters ++ more)

-- The separators at the ends are dropped.
unfoldable pub trim_separators : Bytes → List Bytes → List Bytes
trim_separators separator [] = []
trim_separators separator (token ∷ tokens) =
    if is_empty separator
    then token ∷ tokens
    else (let start = (if token =? separator then tokens else token ∷ tokens) in
        if is_back_token separator start then pop_back start else start)

unfoldable pub tkn_idx2ltr : Flags → List ℤ → Dictionary → Result (List Bytes)
tkn_idx2ltr flags labels d = do
  result ← token_letters flags d labels
  ok (trim_separators flags.wordseparator result)

unfoldable pub tkn2wrd_loop : Bytes → Bytes → List Bytes → List Bytes
tkn2wrd_loop separator current [] = if is_empty current then [] else current ∷ []
tkn2wrd_loop separator current (tkn ∷ input) =
    let fresh = tkn2wrd_loop separator [] input in
    let longer = tkn2wrd_loop separator (current ++ tkn) input in
    if tkn =? separator then (if is_empty current then fresh else current ∷ fresh) else longer

unfoldable pub tkn2wrd : Flags → List Bytes → List Bytes
tkn2wrd flags input = tkn2wrd_loop flags.wordseparator [] input

unfoldable pub wrd_idx2wrd : List ℤ → Dictionary → Result (List Bytes)
wrd_idx2wrd input word_dict = map_result (get_entry word_dict) input

-- `if (FLAGS_criterion == kSeq2SeqCriterion) …`
unfoldable pub drop_last_eos : Criterion → Dictionary → List ℤ → Result (List ℤ)
drop_last_eos seq2seq dict tokens = do
  idx ← get_index dict eos_token
  ok (if is_back idx tokens then pop_back tokens else tokens)
drop_last_eos ctc dict tokens = ok tokens
drop_last_eos asg dict tokens = ok tokens
drop_last_eos other dict tokens = ok tokens

unfoldable pub tkn_target2ltr : Flags → List ℤ → Dictionary → Result (List Bytes)
tkn_target2ltr flags [] dict = ok []
tkn_target2ltr flags (token ∷ tokens) dict = do
  start ← drop_last_eos flags.criterion dict (token ∷ tokens)
  remapped ← remap_labels flags start dict
  tkn_idx2ltr flags remapped dict

-- The path of the acoustic model without repetitions and blanks.
unfoldable pub collapse : Criterion → Dictionary → List ℤ → Result (List ℤ)
collapse ctc dict tokens = do
  blank ← get_index dict blank_token
  ok (keep_if (λ t. not (t =? blank)) (uniq tokens))
collapse asg dict tokens = ok (uniq tokens)
collapse seq2seq dict tokens = ok tokens
collapse other dict tokens = ok tokens

unfoldable pub tkn_prediction2ltr : Flags → List ℤ → Dictionary → Result (List Bytes)
tkn_prediction2ltr flags [] dict = ok []
tkn_prediction2ltr flags (token ∷ tokens) dict = do
  collapsed ← collapse flags.criterion dict (token ∷ tokens)
  remapped ← remap_labels flags (validate_idx collapsed minus_one) dict
  tkn_idx2ltr flags remapped dict

-- `loadTarget`: `good` is the state of the opened file, `lines` what `getline` reads from it.
unfoldable pub target_tokens : List Bytes → List Bytes
target_tokens [] = []
target_tokens (line ∷ lines) = split_on_whitespace line true ++ target_tokens lines

unfoldable pub load_target : Bool → List Bytes → Result (List Bytes)
load_target good lines = do guard good runtime_error; ok (target_tokens lines)

-- The three loops of `transpose2d`, each with the number of rounds that are left; `value` is what a new
-- vector holds.
module _ {ℓ} {T : Type ℓ} (value : T) (input : List T) (in_row in_col : ℕ) where
  unfoldable pub transpose_rows : ℕ → ℕ → ℕ → ℕ → List T → List T
  transpose_rows start c zero r out = out
  transpose_rows start c (suc n) r out =
      transpose_rows start c n (suc r)
        (set out (start + c * in_row + r) (get_or input (start + r * in_col + c) value))

  unfoldable pub transpose_cols : ℕ → ℕ → ℕ → List T → List T
  transpose_cols start zero c out = out
  transpose_cols start (suc n) c out =
      transpose_cols start n (suc c) (transpose_rows start c in_row 0 out)

  unfoldable pub transpose_batches : ℕ → ℕ → List T → List T
  transpose_batches zero b out = out
  transpose_batches (suc n) b out =
      transpose_batches n (suc b) (transpose_cols (b * in_row * in_col) in_col 0 out)

  unfoldable pub transpose2d : ℕ → Result (List T)
  transpose2d in_batch = do
    guard (length input == in_row * in_col * in_batch) invalid_argument
    ok (transpose_batches in_batch 0 (replicate (length input) value))
