-- ===== src/Decoder/Moves.antt =====
-- The search that LexiconDecoder.cpp in src/libraries/decoder makes through the lexicon, as a relation:
-- how the place of a hypothesis, its node, token and word, follows from that of its parent.
use mathlib.Core.List.{Memᴰ}
use wav2letter.Base.{
  ℕ, ◌≡◌, ◌⊎◌, refl, inl, inr, true, some, List, [], ◌∷◌, ◌++◌, ℤ, minus_one, Option-cases, arith,
}
use wav2letter.Trie.{TrieNode, children, labels, find_child}
use wav2letter.Decoder.State.{Setup, is_ctc}
use wav2letter.Decoder.Frames.{Place}
use wav2letter.Decoder.Proposed.{IsToken}
use wav2letter.Decoder.Lexicon.{Lexicon, node_at}

module _ {ℓ} {S : Type ℓ} where
  pub node_at-child :
      (path : List ℤ) (i : ℤ) (n nd next : TrieNode S)
      → node_at path n ≡ some nd
      → find_child i (children nd) ≡ some next
      → node_at (path ++ i ∷ []) n ≡ some next
  unfolding node_at
  node_at-child [] i n nd next e found =
      let same : n ≡ nd = ground arith in
      let here : find_child i (children n) ≡ some next = rw same found in rw (here, node_at) refl
  node_at-child (j ∷ path) i n nd next e found = elim (Option-cases (find_child j (children n))) [
    | inl missing ↦ (let gone = rw (missing, node_at) at e in cc)
    | inr (n', here) ↦
        rw (here, node_at) (node_at-child path i n' nd next (rw (here, node_at) at e) found)
  ]

module _ {ℓ κ ν} {S : Type ℓ} {L : Type κ} {M : Type ν} (d : Setup S L (List ℤ) M) (x : Lexicon S)
    (n_tokens : ℕ) where
  -- -1, the unknown word, or a label of the lexicon: with a spelling that leads to it.
  abbrev pub IsWord : ℤ → Type ℓ
  IsWord word =
      (word ≡ minus_one)
      ⊎ ((word ≡ x.unk)
          ⊎ ((path : List ℤ) × (nd : TrieNode S) × (node_at path x.trie ≡ some nd)
              × Memᴰ word (labels nd)))

  -- The token is an index, the word one that may be emitted, and the pointer into the lexicon leads
  -- to a node.
  abbrev pub IsPlace : Place (List ℤ) → Type ℓ
  IsPlace (path, token, word) =
      IsToken n_tokens token × IsWord word × (nd : TrieNode S) × (node_at path x.trie ≡ some nd)

  -- One frame of the search: the node stays, with the same token, with the blank of CTC, or with
  -- the silence of the end; or a token leads to a child, and either the word goes on, or a label of
  -- the child is emitted and the search goes back to the root, or, where the child has none, the
  -- unknown word.
  pub data IsMove : Place (List ℤ) → Place (List ℤ) → Type ℓ where
    stays : (path : List ℤ) (token word : ℤ) → IsMove (path, token, word) (path, token, minus_one)
    blanks :
        (path : List ℤ) (token word : ℤ)
        → is_ctc d.opt.criterion_type ≡ true
        → IsMove (path, token, word) (path, x.blank, minus_one)
    ends : (path : List ℤ) (token word : ℤ) → IsMove (path, token, word) (path, d.sil, minus_one)
    descends :
        (path : List ℤ) (token word next : ℤ) (nd : TrieNode S)
        → node_at (path ++ next ∷ []) x.trie ≡ some nd
        → IsMove (path, token, word) (path ++ next ∷ [], next, minus_one)
    completes :
        (path : List ℤ) (token word next label : ℤ) (nd : TrieNode S)
        → node_at (path ++ next ∷ []) x.trie ≡ some nd
        → Memᴰ label (labels nd)
        → IsMove (path, token, word) ([], next, label)
    unknowns :
        (path : List ℤ) (token word next : ℤ) (nd : TrieNode S)
        → node_at (path ++ next ∷ []) x.trie ≡ some nd
        → labels nd ≡ []
        → d.numbers.greater d.opt.unk_score d.numbers.scores.lowest ≡ true
        → IsMove (path, token, word) ([], next, x.unk)
