-- ===== src/Tests/Tries.antt =====
-- The theorems on src/libraries/decoder/Trie.cpp at small tries, with numbers as scores.
use wav2letter.Base.{
  ℕ, ◌≡◌, refl, true, false, List, [], ◌∷◌, ◌++◌, ok, err, out_of_range, ℤ, pos, negsuc, some, ltb,
  max, arith, if◌then◌else◌, ◌=?◌, int_eq, list_eq,
}
use wav2letter.Trie.{
  TrieNode, new_node, insert, search, labels, max_score, smear, max_mode, is_invalid, is_at_least,
}
use wav2letter.Trie.Contents.{
  IsValid, add_capped, labels_at, labels_at-insert, search-insert, insert-invalid,
}
use wav2letter.Trie.Smear.{IsIn, IsOrder, own_score, smear-max, clear, clear-smear}

abbrev root : TrieNode ℕ
root = new_node 0 (negsuc 0)

abbrev cat : List ℤ
cat = pos 2 ∷ pos 0 ∷ pos 3 ∷ []

abbrev car : List ℤ
car = pos 2 ∷ pos 0 ∷ pos 1 ∷ []

cat-IsValid : IsValid 5 cat
unfolding is_invalid is_at_least
cat-IsValid = (refl, (refl, (refl, tt)))

car-IsValid : IsValid 5 car
unfolding is_invalid is_at_least
car-IsValid = (refl, (refl, (refl, tt)))

abbrev one_word : TrieNode ℕ
one_word = (insert 0 5 cat (pos 7) 40 root).0

labels_at-insert_example :
    labels_at (insert 0 5 car (pos 8) 50 one_word).0 cat
    ≡ (if car =? cat then add_capped (pos 8) (labels_at one_word car) else labels_at one_word cat)
labels_at-insert_example = labels_at-insert 0 5 car (pos 8) 50 one_word car-IsValid cat

search-insert_example :
    (found : TrieNode ℕ) × ((insert 0 5 car (pos 8) 50 one_word).1 ≡ ok found)
    × (search 5 car (insert 0 5 car (pos 8) 50 one_word).0 ≡ ok (some found))
    × (labels found ≡ add_capped (pos 8) (labels_at one_word car))
search-insert_example = search-insert 0 5 car (pos 8) 50 one_word car-IsValid

abbrev ca : List ℤ
ca = pos 2 ∷ pos 0 ∷ []

ca-IsValid : IsValid 5 ca
unfolding is_invalid is_at_least
ca-IsValid = (refl, (refl, tt))

five_is_invalid : is_invalid 5 (pos 5) ≡ true
unfolding is_invalid is_at_least
five_is_invalid = refl

insert-invalid_example :
    ((insert 0 5 (ca ++ pos 5 ∷ []) (pos 8) 50 one_word).1 ≡ err out_of_range)
    × ((other : List ℤ)
        → labels_at (insert 0 5 (ca ++ pos 5 ∷ []) (pos 8) 50 one_word).0 other
          ≡ labels_at one_word other)
insert-invalid_example =
    insert-invalid 0 5 ca [] (pos 5) (pos 8) 50 one_word ca-IsValid five_is_invalid

number_order : IsOrder max ltb 0
number_order = (λ a. ground arith, λ a b c h k. ground arith, λ a b h. ground arith)

smear-max_example :
    ((x : TrieNode ℕ)
      → IsIn x one_word
      → ltb (max_score (smear max ltb 0 max_mode one_word)) (own_score max ltb 0 x) ≡ false)
    × ((x : TrieNode ℕ) × IsIn x one_word
        × (max_score (smear max ltb 0 max_mode one_word) ≡ own_score max ltb 0 x))
smear-max_example = smear-max max ltb 0 number_order one_word

clear-smear_example : clear 7 (smear max ltb 0 max_mode one_word) ≡ clear 7 one_word
clear-smear_example = clear-smear max ltb 0 max_mode 7 one_word
