-- ===== src/Tests/Lexicons.antt =====
-- The theorems on dictionaries, lexicons and labels at small ones.
use wav2letter.Base.{
  ℕ, ◌≤◌, ◌≡◌, ◌≢◌, ◌↔◌, refl, subst, true, false, not, none, some, List, [], ◌∷◌, All, keep_if, ok,
  err, invalid_argument, ℤ, pos, minus_one, ◌=?◌, int_eq, list_eq, nat_eq, lookup, assign, arith,
}
use wav2letter.Text.{
  Bytes, codes, is_prefix, split_on_whitespace, split_on_any_of, split_impl, split_loop, find_if,
  last_piece,
}
use wav2letter.Dictionary.{
  Dictionary, empty, contains, add_entry, get_entry, get_index, add_lines, add_line, add_entry_at,
  create_from_stream, is_contiguous, index_size, first_free, all_indices, all_entries,
}
use wav2letter.Dictionary.Consistent.{
  IsConsistent, empty-IsConsistent, add_entry-IsConsistent, add_entry_lem,
}
use wav2letter.Dictionary.Stream.{IsDense, create_from_stream-IsDense, create_from_stream-err}
use wav2letter.Words.{
  LexiconMap, unk_token, load_words, split_wrd, validate_idx, pack_replabels, unpack_replabels,
  to_string, digits, load_loop, load_line, add_spelling,
}
use wav2letter.Words.Letters.{IsLetter, concat, split_wrd_iff}
use wav2letter.Words.Replabels.{HasReplabels, unpack_replabels-pack_replabels}
use wav2letter.Words.Compact.{is_valid, validate_idx-keep_if}
use wav2letter.Words.Lexicon.{extend, spellings, load_words_lem}
use wav2letter.Labels.{
  Flags, other, asg, ctc, blank_token, collapse, words2target, tkn2wrd, ends_with,
}
use wav2letter.Labels.Targets.{IsKnown, tkn2wrd-words2target}
use wav2letter.Labels.Runs.{expand, run_labels, collapse-expand}

-- The dictionary of "a", "b", and of the blank "#".
abbrev letters : Dictionary
letters = record {
  entry2idx = (codes "a", pos 0) ∷ (codes "b", pos 1) ∷ (codes "#", pos 2) ∷ [];
  idx2entry = (pos 0, codes "a") ∷ (pos 1, codes "b") ∷ (pos 2, codes "#") ∷ [];
  default_index = minus_one;
}

abbrev letter_lines : List Bytes
letter_lines = codes "a" ∷ codes "b" ∷ codes "#" ∷ []

letters_read : create_from_stream true letter_lines ≡ ok letters
unfolding create_from_stream add_lines add_line add_entry_at is_contiguous index_size all_indices
    all_entries lookup split_on_whitespace split_on_any_of split_impl split_loop find_if last_piece
    assign
letters_read = refl

create_from_stream-IsDense_example : IsDense letters × IsConsistent letters
create_from_stream-IsDense_example = create_from_stream-IsDense letter_lines letters_read

abbrev repeated_lines : List Bytes
repeated_lines = codes "a" ∷ codes "b" ∷ codes "a" ∷ []

repeated_read : create_from_stream true repeated_lines ≡ err invalid_argument
unfolding create_from_stream add_lines add_line add_entry_at is_contiguous index_size all_indices
    all_entries lookup split_on_whitespace split_on_any_of split_impl split_loop find_if last_piece
    assign
repeated_read = refl

create_from_stream-err_example :
    (invalid_argument ≡ invalid_argument) × (add_lines repeated_lines empty ≡ err invalid_argument)
create_from_stream-err_example = create_from_stream-err repeated_lines repeated_read

letters-IsConsistent : IsConsistent letters
letters-IsConsistent = (create_from_stream-IsDense letter_lines letters_read).1

fresh_entry : contains letters (codes "c") ≡ false
unfolding contains lookup
fresh_entry = refl

add_entry_lem_example :
    (idx : ℤ) × (d' : Dictionary) × (add_entry (codes "c") letters ≡ ok d')
    × (get_entry letters idx ≡ err invalid_argument)
    × (get_index d' (codes "c") ≡ ok idx)
    × (get_entry d' idx ≡ ok (codes "c"))
    × ((other : Bytes) → other ≢ codes "c" → get_index d' other ≡ get_index letters other)
add_entry_lem_example = add_entry_lem (codes "c") letters fresh_entry

abbrev one_letter : Dictionary
one_letter = record {
  entry2idx = (codes "a", pos 0) ∷ [];
  idx2entry = (pos 0, codes "a") ∷ [];
  default_index = minus_one;
}

one_letter_added : add_entry (codes "a") empty ≡ ok one_letter
unfolding add_entry add_entry_at first_free index_size lookup assign
one_letter_added = refl

add_entry-IsConsistent_example : IsConsistent one_letter
add_entry-IsConsistent_example =
    add_entry-IsConsistent (codes "a") empty one_letter empty-IsConsistent one_letter_added

second_entry : get_entry letters (pos 1) ≡ ok (codes "b")
unfolding get_entry lookup
second_entry = refl

split_wrd_iff_example :
    (split_wrd (0xC3 ∷ 0xA9 ∷ 97 ∷ []) ≡ ok ((0xC3 ∷ 0xA9 ∷ []) ∷ (97 ∷ []) ∷ [])) ↔ (
      (concat ((0xC3 ∷ 0xA9 ∷ []) ∷ (97 ∷ []) ∷ []) ≡ 0xC3 ∷ 0xA9 ∷ 97 ∷ [])
      × All IsLetter ((0xC3 ∷ 0xA9 ∷ []) ∷ (97 ∷ []) ∷ []))
split_wrd_iff_example =
    split_wrd_iff (0xC3 ∷ 0xA9 ∷ 97 ∷ []) ((0xC3 ∷ 0xA9 ∷ []) ∷ (97 ∷ []) ∷ [])
      (omega arith, (omega arith, (omega arith, tt)))

abbrev some_indices : List ℤ
some_indices = pos 3 ∷ minus_one ∷ pos 0 ∷ pos 4 ∷ []

validate_idx-keep_if_example :
    validate_idx some_indices (pos 0) ≡ keep_if (is_valid (pos 0)) some_indices
validate_idx-keep_if_example = validate_idx-keep_if some_indices (pos 0)

abbrev lexicon_lines : List Bytes
lexicon_lines = codes "ab a b" ∷ codes "ba b a" ∷ []

abbrev two_words : LexiconMap
two_words =
    (codes "ab", (codes "a" ∷ codes "b" ∷ []) ∷ [])
    ∷ (codes "ba", (codes "b" ∷ codes "a" ∷ []) ∷ [])
    ∷ (unk_token, [])
    ∷ []

two_words_read : load_words (some lexicon_lines) none ≡ ok two_words
unfolding load_words load_loop load_line add_spelling lookup split_on_whitespace split_on_any_of
    split_impl split_loop find_if last_piece assign
two_words_read = refl

load_words_lem_example :
    (lookup unk_token two_words ≡ some [])
    × ((w : Bytes) → w ≢ unk_token → lookup w two_words ≡ extend none (spellings w lexicon_lines))
load_words_lem_example = load_words_lem lexicon_lines two_words two_words_read

abbrev first_word : LexiconMap
first_word = (codes "ab", (codes "a" ∷ codes "b" ∷ []) ∷ []) ∷ (unk_token, []) ∷ []

first_word_read : load_words (some lexicon_lines) (some 1) ≡ ok first_word
unfolding load_words load_loop load_line add_spelling lookup split_on_whitespace split_on_any_of
    split_impl split_loop find_if last_piece assign
first_word_read = refl

-- The dictionary of a token and of the label "1".
abbrev rep_dict : Dictionary
rep_dict = record {
  entry2idx = (codes "a", pos 0) ∷ (codes "1", pos 1) ∷ [];
  idx2entry = (pos 0, codes "a") ∷ (pos 1, codes "1") ∷ [];
  default_index = minus_one;
}

label_one : get_index rep_dict (to_string 1) ≡ ok (pos 1)
unfolding get_index lookup to_string digits
label_one = refl

rep_dict_known : (i : ℕ) → 1 ≤ i → i ≤ 1 → get_index rep_dict (to_string i) ≡ ok (pos 1)
rep_dict_known i lo hi =
    let e : 1 ≡ i = omega arith in
    subst (λ k. get_index rep_dict (to_string k) ≡ ok (pos 1)) e label_one

rep_dict-HasReplabels : HasReplabels rep_dict 1 (pos 0 ∷ pos 0 ∷ [])
rep_dict-HasReplabels = record {
  index = λ i. pos 1;
  known = rep_dict_known;
  distinct = λ i j li hi lj hj e. omega arith;
  plain = ((λ e. cc, λ i lo hi e. cc), ((λ e. cc, λ i lo hi e. cc), tt));
}

unpack_replabels-pack_replabels_example :
    (packed : List ℤ) × (pack_replabels (pos 0 ∷ pos 0 ∷ []) rep_dict 1 ≡ ok packed)
    × (unpack_replabels packed rep_dict 1 ≡ ok (pos 0 ∷ pos 0 ∷ []))
unpack_replabels-pack_replabels_example =
    unpack_replabels-pack_replabels rep_dict 1 (pos 0 ∷ pos 0 ∷ []) rep_dict-HasReplabels

abbrev flags : Flags
flags = record {
  eostoken = false;
  replabel = 0;
  surround = [];
  usewordpiece = false;
  wordseparator = codes "|";
  criterion = other;
}

abbrev letter : ℕ → Bytes
letter c = c ∷ []

ab-IsKnown : IsKnown (codes "|") two_words (codes "ab")
unfolding lookup is_prefix ends_with
ab-IsKnown = record {
  spellings = (codes "a" ∷ codes "b" ∷ []) ∷ [];
  entry = refl;
  some_spelling = refl;
  spelt =
      (record { joined = refl; some_token = refl; plain = ((refl, refl), ((refl, refl), tt)) }, tt);
  some_byte = refl;
}

tkn2wrd-words2target_example :
    (tokens : List Bytes) × (words2target flags
        (λ i. none)
        (codes "ab" ∷ codes "ab" ∷ [])
        two_words
        letters
        false
        false
      ≡ ok tokens)
    × (tkn2wrd flags tokens ≡ codes "ab" ∷ codes "ab" ∷ [])
tkn2wrd-words2target_example =
    tkn2wrd-words2target flags (λ i. none) (codes "ab" ∷ codes "ab" ∷ []) two_words letters false
      false refl (ab-IsKnown, (ab-IsKnown, tt))

abbrev runs : List (ℤ × ℕ)
runs = (pos 0, 2) ∷ (pos 2, 0) ∷ (pos 0, 1) ∷ []

blank_index : get_index letters blank_token ≡ ok (pos 2)
unfolding get_index lookup
blank_index = refl

collapse-expand_example :
    (collapse asg letters (expand runs) ≡ ok (run_labels runs))
    × (collapse ctc letters (expand runs) ≡ ok (keep_if (λ t. not (t =? pos 2)) (run_labels runs)))
collapse-expand_example = collapse-expand letters (pos 2) runs blank_index (refl, (refl, tt))
