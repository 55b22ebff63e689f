-- ===== src/Text.antt =====
-- src/libraries/common/Utils.cpp and Utils-inl.h: the string helpers. A string is its list of bytes.
pub mod Find
pub mod Split
pub mod Tokens
pub mod Trim
use Prim.Native.Char.{code}
use Prim.Native.String.{String}
use wav2letter.Base.{
  guard, ◌>>◌, runtime_error, ℕ, zero, suc, ◌+◌, ◌-◌, Bool, true, false, not, ◌&&◌, ◌||◌, Option,
  none, some, List, [], ◌∷◌, ◌++◌, length, take, drop, ltb, ◌==◌, if◌then◌else◌, list_beq, Result,
  ok, err, invalid_argument,
}

abbrev pub Bytes : Type 0
Bytes = List ℕ

-- The bytes of an ASCII literal.
abbrev pub codes : String → Bytes
codes String.[] = []
codes (String.◌∷◌ c s) = code c ∷ codes s

-- `kSpaceChars`: "\t\n\v\f\r "
unfoldable pub is_space : ℕ → Bool
is_space c = c == 9 || c == 10 || c == 11 || c == 12 || c == 13 || c == 32

-- `find_first_of` over a class of bytes, from the start of what is given.
unfoldable pub find_if : (ℕ → Bool) → Bytes → Option ℕ
find_if p [] = none
find_if p (c ∷ s) = elim (p c) [
  | true ↦ some 0
  | false ↦ elim (find_if p s) [ none ↦ none | some i ↦ some (suc i) ]
]

-- `find_last_of` over a class of bytes.
unfoldable pub find_last_if : (ℕ → Bool) → Bytes → Option ℕ
find_last_if p [] = none
find_last_if p (c ∷ s) = elim (find_last_if p s) [
  | some i ↦ some (suc i)
  | none ↦ if p c then some 0 else none
]

unfoldable pub is_prefix : Bytes → Bytes → Bool
is_prefix [] s = true
is_prefix (c ∷ p) [] = false
is_prefix (c ∷ p) (d ∷ s) = c == d && is_prefix p s

-- `std::string::find` of a string.
unfoldable pub find : Bytes → Bytes → Option ℕ
find pat [] = if is_prefix pat [] then some 0 else none
find pat (c ∷ s) = elim (is_prefix pat (c ∷ s)) [
  | true ↦ some 0
  | false ↦ elim (find pat s) [ none ↦ none | some i ↦ some (suc i) ]
]

abbrev pub not_space : ℕ → Bool
not_space c = not (is_space c)

unfoldable pub trim : Bytes → Bytes
trim str = elim (find_if not_space str) [
  | none ↦ []
  | some i ↦ elim (find_last_if not_space str) [
    | none ↦ []
    | some j ↦ if ltb j i then [] else take (j - i + 1) (drop i str)
  ]
]

unfoldable pub starts_with : Bytes → Bytes → Bool
starts_with input pattern = elim (find pattern input) [ none ↦ false | some i ↦ i == 0 ]

abbrev pub is_empty : Bytes → Bool
is_empty [] = true
is_empty (c ∷ s) = false

-- The piece behind the last delimiter.
unfoldable pub last_piece : Bool → Bytes → List Bytes
last_piece ignore_empty rest = if ignore_empty && is_empty rest then [] else rest ∷ []

-- The loop of `splitImpl`. `rest` is the input from position `i` on, and `found` looks for the next
-- delimiter in it; running out of fuel would lose the rest of the input.
unfoldable pub split_loop : ℕ → (Bytes → Option ℕ) → ℕ → Bool → Bytes → List Bytes
split_loop zero found delim_size ignore_empty rest = []
split_loop (suc fuel) found delim_size ignore_empty rest = elim (found rest) [
  | none ↦ last_piece ignore_empty rest
  | some j ↦
      let more = split_loop fuel found delim_size ignore_empty (drop (j + delim_size) rest) in
      if ignore_empty && j == 0 then more else take j rest ∷ more
]

unfoldable pub split_impl : (Bytes → Option ℕ) → ℕ → Bytes → Bool → List Bytes
split_impl found delim_size input ignore_empty =
    split_loop (suc (length input)) found delim_size ignore_empty input

unfoldable pub split_char : ℕ → Bytes → Bool → List Bytes
split_char delim input ignore_empty = split_impl (find_if (λ c. c == delim)) 1 input ignore_empty

unfoldable pub split : Bytes → Bytes → Bool → Result (List Bytes)
split [] input ignore_empty = err invalid_argument
split (d ∷ ds) input ignore_empty =
    ok (split_impl (find (d ∷ ds)) (length (d ∷ ds)) input ignore_empty)

abbrev pub is_any_of : Bytes → ℕ → Bool
is_any_of [] c = false
is_any_of (d ∷ delim) c = c == d || is_any_of delim c

unfoldable pub split_on_any_of : Bytes → Bytes → Bool → List Bytes
split_on_any_of delim input ignore_empty =
    split_impl (find_if (is_any_of delim)) 1 input ignore_empty

-- `splitOnAnyOf(kSpaceChars, input, ignoreEmpty)`
unfoldable pub split_on_whitespace : Bytes → Bool → List Bytes
split_on_whitespace input ignore_empty =
    split_on_any_of (9 ∷ 10 ∷ 11 ∷ 12 ∷ 13 ∷ 32 ∷ []) input ignore_empty

-- The loop of `join` over the strings behind the first one.
unfoldable pub append_all : Bytes → List Bytes → Bytes
append_all delim [] = []
append_all delim (s ∷ vec) = delim ++ (s ++ append_all delim vec)

unfoldable pub join : Bytes → List Bytes → Bytes
unfolding append_all
join delim [] = []
join delim (s ∷ vec) = s ++ append_all delim vec

-- The loop of `replaceAll` over the text from `pos` on.
unfoldable pub replace_loop : ℕ → Bytes → Bytes → Bytes → Bytes
replace_loop zero from repl rest = []
replace_loop (suc fuel) from repl rest = elim (find from rest) [
  | none ↦ rest
  | some j ↦ take j rest ++ (repl ++ replace_loop fuel from repl (drop (j + length from) rest))
]

unfoldable pub replace_all : Bytes → Bytes → Bytes → Bytes
replace_all str [] repl = str
replace_all str (c ∷ from) repl = replace_loop (suc (length str)) (c ∷ from) repl str

-- `sep` is '/': the branch for Windows is not compiled here.
unfoldable pub last_is : ℕ → Bytes → Bool
last_is sep [] = false
last_is sep (c ∷ []) = c == sep
last_is sep (c ∷ d ∷ s) = last_is sep (d ∷ s)

unfoldable pub paths_concat : Bytes → Bytes → Bytes
paths_concat p1 p2 =
    if not (is_empty p1) && not (last_is b'/' p1)
    then trim p1 ++ (b'/' ∷ trim p2)
    else trim p1 ++ trim p2

-- `getFileContent`: `good` is the state of the opened file, `lines` what `getline` reads from it.
unfoldable pub get_file_content : Bool → List Bytes → Result (List Bytes)
get_file_content good lines = do guard good runtime_error; ok lines
