-- ===== src/Tests/Strings.antt =====
-- The theorems on src/libraries/common/Utils.cpp at concrete strings.
use wav2letter.Base.{◌≡◌, ◌≢◌, refl, true, false, List, [], ◌∷◌, ◌++◌, All, ok, ◌==◌}
use wav2letter.Text.{
  Bytes, codes, trim, split, split_char, split_on_whitespace, join, replace_all, find, is_prefix,
  split_impl, split_loop, last_piece, is_space,
}
use wav2letter.Text.Find.{Lacks}
use wav2letter.Text.Split.{join-split, replace_all-join-split}
use wav2letter.Text.Tokens.{IsWord, split_char-join, split_on_whitespace-join}
use wav2letter.Text.Trim.{AllSpace, IsTight, trim_lem}

trim_lem_example :
    (pre post : Bytes) × (codes " ab c  " ≡ pre ++ (trim (codes " ab c  ") ++ post))
    × AllSpace pre
    × AllSpace post
    × IsTight (trim (codes " ab c  "))
trim_lem_example = trim_lem (codes " ab c  ")

not_empty : codes ", " ≢ []
not_empty e = cc

join-split_example :
    (parts : List Bytes) × (split (codes ", ") (codes "a, b, ") false ≡ ok parts)
    × (join (codes ", ") parts ≡ codes "a, b, ")
join-split_example = join-split (codes ", ") (codes "a, b, ") not_empty

abbrev pieces : List Bytes
pieces = codes "a" ∷ codes "b" ∷ [] ∷ []

split-pieces : split (codes "--") (codes "a--b--") false ≡ ok pieces
unfolding split split_impl split_loop find is_prefix last_piece
split-pieces = refl

replace_all-join-split_example :
    replace_all (codes "a--b--") (codes "--") (codes "+") ≡ join (codes "+") pieces
replace_all-join-split_example =
    replace_all-join-split (codes "a--b--") (codes "--") (codes "+") pieces split-pieces

some_piece : pieces ≢ []
some_piece e = cc

plain_pieces : All (Lacks (λ x. x == 44)) pieces
plain_pieces = ((refl, tt), ((refl, tt), (tt, tt)))

split_char-join_example : split_char 44 (join (44 ∷ []) pieces) false ≡ pieces
split_char-join_example = split_char-join 44 pieces some_piece plain_pieces

abbrev two_words : List Bytes
two_words = codes "hi" ∷ codes "you" ∷ []

two_words-IsWord : All IsWord two_words
unfolding is_space
two_words-IsWord = (((refl, (refl, tt)), refl), (((refl, (refl, (refl, tt))), refl), tt))

split_on_whitespace-join_example : split_on_whitespace (join (32 ∷ []) two_words) true ≡ two_words
split_on_whitespace-join_example = split_on_whitespace-join two_words two_words-IsWord
