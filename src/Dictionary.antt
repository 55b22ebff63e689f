-- ===== src/Dictionary.antt =====
-- src/libraries/common/Dictionary.h and Dictionary.cpp: entries and their indices.
pub mod Consistent
pub mod Stream
use wav2letter.Base.{
  ℕ, zero, suc, ◌+◌, ◌<◌, ◌≡◌, refl, Bool, true, false, not, ◌&&◌, Option, none, some, List, [],
  ◌∷◌, length, if◌then◌else◌, Result, ok, err, guard, ◌>>=◌, ◌>>◌, invalid_argument, runtime_error,
  ℤ, pos, negsuc, minus_one, is_negative, lookup, assign, map_result, nat_eq, list_eq, int_eq,
}
use wav2letter.Text.{Bytes, split_on_whitespace, is_empty}

-- `entry2idx_`, `idx2entry_` and `defaultIndex_`.
pub record Dictionary : Type 0 where
  pub entry2idx : List (Bytes × ℤ)
  pub idx2entry : List (ℤ × Bytes)
  pub default_index : ℤ

abbrev pub empty : Dictionary
empty = record { entry2idx = []; idx2entry = []; default_index = minus_one }

abbrev pub is_some {ℓ} : {A : Type ℓ} → Option A → Bool
is_some none = false
is_some (some a) = true

unfoldable pub contains : Dictionary → Bytes → Bool
contains d entry = is_some (lookup entry d.entry2idx)

-- `addEntry(entry, idx)`
unfoldable pub add_entry_at : Bytes → ℤ → Dictionary → Result Dictionary
add_entry_at entry idx d = do
  guard (not (is_some (lookup entry d.entry2idx))) invalid_argument
  ok (record d {
    entry2idx = assign entry idx d.entry2idx;
    idx2entry =
        if is_some (lookup idx d.idx2entry) then d.idx2entry else assign idx entry d.idx2entry;
  })

-- `while (idx2entry_.find(idx) != idx2entry_.end()) ++idx;`
unfoldable pub first_free : ℕ → ℕ → List (ℤ × Bytes) → ℕ
first_free zero idx m = idx
first_free (suc fuel) idx m = elim (lookup (pos idx) m) [
  | none ↦ idx
  | some entry ↦ first_free fuel (suc idx) m
]

unfoldable pub entry_size : Dictionary → ℕ
entry_size d = length d.entry2idx

unfoldable pub index_size : Dictionary → ℕ
index_size d = length d.idx2entry

-- `addEntry(entry)`: at most `index_size` indices are taken, so the loop ends within the fuel.
unfoldable pub add_entry : Bytes → Dictionary → Result Dictionary
add_entry entry d = do
  guard (not (is_some (lookup entry d.entry2idx))) invalid_argument
  add_entry_at entry (pos (first_free (suc (index_size d)) (index_size d) d.idx2entry)) d

unfoldable pub get_entry : Dictionary → ℤ → Result Bytes
get_entry d idx = elim (lookup idx d.idx2entry) [
  | none ↦ err invalid_argument
  | some entry ↦ ok entry
]

unfoldable pub set_default_index : ℤ → Dictionary → Dictionary
set_default_index idx d = record d { default_index = idx }

unfoldable pub get_index : Dictionary → Bytes → Result ℤ
get_index d entry = elim (lookup entry d.entry2idx) [
  | none ↦ if is_negative d.default_index then err invalid_argument else ok d.default_index
  | some idx ↦ ok idx
]

-- The two loops of `isContiguous`.
unfoldable pub all_indices : ℕ → ℕ → List (ℤ × Bytes) → Bool
all_indices zero i m = true
all_indices (suc n) i m = is_some (lookup (pos i) m) && all_indices n (suc i) m

unfoldable pub all_entries : List (Bytes × ℤ) → List (ℤ × Bytes) → Bool
all_entries [] m = true
all_entries ((entry, idx) ∷ es) m = is_some (lookup idx m) && all_entries es m

unfoldable pub is_contiguous : Dictionary → Bool
is_contiguous d = all_indices (index_size d) 0 d.idx2entry && all_entries d.entry2idx d.idx2entry

unfoldable pub map_entries_to_indices : Dictionary → List Bytes → Result (List ℤ)
map_entries_to_indices d entries = map_result (get_index d) entries

unfoldable pub map_indices_to_entries : Dictionary → List ℤ → Result (List Bytes)
map_indices_to_entries d indices = map_result (get_entry d) indices

-- All tokens of one line get the same index.
unfoldable pub add_line : List Bytes → ℤ → Dictionary → Result Dictionary
add_line [] idx d = ok d
add_line (tkn ∷ tkns) idx d = add_entry_at tkn idx d >>= add_line tkns idx

-- The loop over the lines of the stream; an empty line is skipped.
unfoldable pub add_lines : List Bytes → Dictionary → Result Dictionary
add_lines [] d = ok d
add_lines (line ∷ lines) d =
    (if is_empty line
      then ok d
      else add_line (split_on_whitespace line true) (pos (index_size d)) d)
    >>= add_lines lines

-- `good` is the state of the stream, `lines` what `getline` reads from it.
unfoldable pub create_from_stream : Bool → List Bytes → Result Dictionary
create_from_stream good lines = do
  guard good runtime_error
  d ← add_lines lines empty
  guard (is_contiguous d) runtime_error
  ok d
