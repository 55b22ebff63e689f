-- ===== src/Words.antt =====
-- src/libraries/common/WordUtils.cpp: lexicons, UTF-8 letters and repetition labels.
-- Indices are C++ `int`s; a negative `maxReps` behaves like 0 and a negative `maxWords` is `none`.
pub mod Letters
pub mod Replabels
pub mod Compact
pub mod Lexicon
use Prim.Native.Nat.{bit_and}
use wav2letter.Base.{
  ℕ, zero, suc, ◌+◌, ◌/◌, ◌%◌, Bool, true, false, not, ◌&&◌, Option, none, some, List, [], ◌∷◌,
  ◌++◌, length, take, drop, replicate, get_or, set, ltb, ◌==◌, if◌then◌else◌, Result, ok, err,
  guard, ◌>>=◌, ◌>>◌, invalid_argument, runtime_error, ℤ, pos, negsuc, minus_one, is_negative,
  lookup, assign, map_result, nat_eq, list_eq, int_eq, ◌=?◌,
}
use wav2letter.Text.{Bytes, codes, split_on_whitespace}
use wav2letter.Dictionary.{Dictionary, empty, is_some, add_entry, get_index, set_default_index}

-- `LexiconMap`: the spellings of each word.
abbrev pub LexiconMap : Type 0
LexiconMap = List (Bytes × List (List Bytes))

abbrev pub unk_token : Bytes
unk_token = codes "<unk>"

unfoldable pub add_words : LexiconMap → Dictionary → Result Dictionary
add_words [] dict = ok dict
add_words (it ∷ lexicon) dict = add_entry it.0 dict >>= add_words lexicon

unfoldable pub create_word_dict : LexiconMap → Result Dictionary
create_word_dict lexicon = do
  dict ← add_words lexicon empty
  unk ← get_index dict unk_token
  ok (set_default_index unk dict)

-- `if (lexicon.find(word) == lexicon.end()) lexicon[word] = {}; lexicon[word].push_back(spelling);`
unfoldable pub add_spelling : Bytes → List Bytes → LexiconMap → LexiconMap
add_spelling word spelling lexicon = elim (lookup word lexicon) [
  | none ↦ assign word (spelling ∷ []) lexicon
  | some spellings ↦ assign word (spellings ++ spelling ∷ []) lexicon
]

-- The fields of a line are a word and a spelling of at least one token.
unfoldable pub load_line : List Bytes → LexiconMap → Result LexiconMap
load_line [] lexicon = err runtime_error
load_line (word ∷ []) lexicon = err runtime_error
load_line (word ∷ token ∷ tokens) lexicon = ok (add_spelling word (token ∷ tokens) lexicon)

abbrev pub is_full : Option ℕ → LexiconMap → Bool
is_full none lexicon = false
is_full (some max_words) lexicon = max_words == length lexicon

unfoldable pub load_loop : Option ℕ → List Bytes → LexiconMap → Result LexiconMap
load_loop max_words [] lexicon = ok lexicon
load_loop max_words (line ∷ lines) lexicon = elim (is_full max_words lexicon) [
  | true ↦ ok lexicon
  | false ↦ load_line (split_on_whitespace line true) lexicon >>= load_loop max_words lines
]

-- The lines that `getline` reads from the file, or `none` for a file that cannot be opened.
unfoldable pub load_words : Option (List Bytes) → Option ℕ → Result LexiconMap
load_words none max_words = err invalid_argument
load_words (some lines) max_words = do
  lexicon ← load_loop max_words lines []
  ok (assign unk_token [] lexicon)

-- `curTknBytes`, with `none` for -1.
unfoldable pub token_bytes : ℕ → Option ℕ
token_bytes c =
    if bit_and c 0x80 == 0
    then some 1
    else if bit_and c 0xE0 == 0xC0
    then some 2
    else if bit_and c 0xF0 == 0xE0
    then some 3
    else if bit_and c 0xF8 == 0xF0
    then some 4
    else none

-- The loop of `splitWrd` over the bytes from position `i` on; running out of fuel would lose them.
unfoldable pub split_wrd_loop : ℕ → Bytes → Result (List Bytes)
split_wrd_loop zero rest = ok []
split_wrd_loop (suc fuel) [] = ok []
split_wrd_loop (suc fuel) (c ∷ rest) = elim (token_bytes c) [
  | none ↦ err runtime_error
  | some n ↦
      let more = split_wrd_loop fuel (drop n (c ∷ rest)) in
      if ltb (length (c ∷ rest)) n
      then err runtime_error
      else (do tokens ← more; ok (take n (c ∷ rest) ∷ tokens))
]

unfoldable pub split_wrd : Bytes → Result (List Bytes)
split_wrd word = split_wrd_loop (length word) word

-- The loop of `validateIdx`, in place: `n` rounds are left, `i` is the next position to read and
-- `new_size` the next one to write.
unfoldable pub validate_loop : ℕ → ℕ → ℕ → ℤ → List ℤ → List ℤ
validate_loop zero i new_size unk input = take new_size input
validate_loop (suc n) i new_size unk input =
    let x = get_or input i minus_one in
    let kept = validate_loop n (suc i) (suc new_size) unk (set input new_size x) in
    let dropped = validate_loop n (suc i) new_size unk input in
    if not (is_negative x) && not (x =? unk) then kept else dropped

unfoldable pub validate_idx : List ℤ → ℤ → List ℤ
validate_idx input unk = validate_loop (length input) 0 0 unk input

-- `std::to_string` of a number.
unfoldable pub digits : ℕ → ℕ → Bytes → Bytes
digits zero n out = out
digits (suc fuel) n out =
    let more = digits fuel (n / 10) ((b'0' + n % 10) ∷ out) in
    if ltb n 10 then (b'0' + n) ∷ out else more

unfoldable pub to_string : ℕ → Bytes
unfolding digits
to_string n = digits (suc n) n []

-- `replabelValueToIdx[i], …` for `n` values from `i` on.
unfoldable pub replabel_indices : Dictionary → ℕ → ℕ → Result (List ℤ)
replabel_indices dict zero i = ok []
replabel_indices dict (suc n) i = do
  idx ← get_index dict (to_string i)
  more ← replabel_indices dict n (suc i)
  ok (idx ∷ more)

-- `if (numReps > 0) result.push_back(replabelValueToIdx[numReps]);`
unfoldable pub flush : List ℤ → ℕ → List ℤ
flush value_to_idx zero = []
flush value_to_idx (suc reps) = get_or value_to_idx (suc reps) (pos 0) ∷ []

unfoldable pub pack_loop : List ℤ → ℕ → ℤ → ℕ → List ℤ → List ℤ
pack_loop value_to_idx max_reps prev reps [] = flush value_to_idx reps
pack_loop value_to_idx max_reps prev reps (token ∷ tokens) =
    elim (token =? prev && ltb reps max_reps) [
      | true ↦ pack_loop value_to_idx max_reps prev (suc reps) tokens
      | false ↦ flush value_to_idx reps ++ token ∷ pack_loop value_to_idx max_reps token 0 tokens
    ]

unfoldable pub pack_replabels : List ℤ → Dictionary → ℕ → Result (List ℤ)
pack_replabels [] dict max_reps = ok []
pack_replabels (token ∷ tokens) dict zero = ok (token ∷ tokens)
pack_replabels (token ∷ tokens) dict (suc n) = do
  indices ← replabel_indices dict (suc n) 1
  ok (pack_loop (pos 0 ∷ indices) (suc n) minus_one 0 (token ∷ tokens))

-- `replabelIdxToValue.emplace(idx, i)`, which keeps an older value.
unfoldable pub emplace_all : List ℤ → ℕ → List (ℤ × ℕ) → List (ℤ × ℕ)
emplace_all [] i m = m
emplace_all (idx ∷ indices) i m =
    emplace_all indices (suc i) (if is_some (lookup idx m) then m else assign idx i m)

unfoldable pub unpack_loop : List (ℤ × ℕ) → ℤ → List ℤ → List ℤ
unpack_loop idx_to_value prev [] = []
unpack_loop idx_to_value prev (token ∷ tokens) = elim (lookup token idx_to_value) [
  | none ↦ token ∷ unpack_loop idx_to_value token tokens
  | some value ↦ elim (prev =? minus_one) [
    | true ↦ unpack_loop idx_to_value prev tokens
    | false ↦ replicate value prev ++ unpack_loop idx_to_value minus_one tokens
  ]
]

unfoldable pub unpack_replabels : List ℤ → Dictionary → ℕ → Result (List ℤ)
unpack_replabels [] dict max_reps = ok []
unpack_replabels (token ∷ tokens) dict zero = ok (token ∷ tokens)
unpack_replabels (token ∷ tokens) dict (suc n) = do
  indices ← replabel_indices dict (suc n) 1
  ok (unpack_loop (emplace_all indices 1 []) minus_one (token ∷ tokens))

unfoldable pub tkn2idx : List Bytes → Dictionary → ℕ → Result (List ℤ)
tkn2idx spelling token_dict max_reps = do
  ret ← map_result (get_index token_dict) spelling
  pack_replabels ret token_dict max_reps
