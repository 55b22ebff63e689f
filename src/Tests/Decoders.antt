-- ===== src/Tests/Decoders.antt =====
-- The theorems on LexiconDecoder and LexiconFreeDecoder of src/libraries/decoder at a lexicon of one
-- word, with numbers as scores.
use mathlib.Core.List.{Permᴰ}
use wav2letter.Base.{
  ℕ, ◌+◌, ◌-◌, ◌*◌, ◌≤◌, ◌≡◌, refl, false, List, [], ◌∷◌, All, max, leb, ltb, ok, ◌==◌, lookup,
  nat_eq, ℤ, pos, minus_one, arith,
}
use wav2letter.Beam.{DecodeResult, look_back_limit}
use wav2letter.Beam.Kept.{KeepsBest}
use wav2letter.Trie.{node, no_child, child}
use wav2letter.Decoder.Buffer.{frame_at}
use wav2letter.Decoder.State.{ctc, asg, DecoderOptions, Numbers, Lm, State, Sorts, Setup, Decoder}
use wav2letter.Decoder.Online.{states, first_hypothesis, decode_begin, prune}
use wav2letter.Decoder.Valid.{IsSound}
use wav2letter.Decoder.Lexicon.{
  Lexicon, setup, step, finish, nice_ending, get_best_hypothesis, decode,
}
use wav2letter.Decoder.Searching.{Fits}
use wav2letter.Decoder.Calls.{LexDecoder, Reachable, begun, IsTranscript, calls_lem, decode_lem}
use wav2letter.Decoder.Chains.{IsDecoded}
use wav2letter.Decoder.Best.{IsBest}
use wav2letter.Decoder.Free.{
  free_setup, free_step, free_finish, free_begin, free_prune, free_best_hypothesis,
  free_all_final_hypothesis,
}
use wav2letter.Decoder.FreeCalls.{IsFreePlace, AnyMove, FreeFits, FreeReachable, free_calls_lem}
use wav2letter.Decoder.Ending.{finish-nice_ending}

abbrev pub numbers : Numbers ℕ
numbers = record {
  scores = record {
    ge = λ a b. leb b a;
    minus = λ a b. a - b;
    narrow = λ a. a;
    lowest = 0;
    log_sum = λ a b. max a b;
  };
  zero_score = 0;
  plus = λ a b. a + b;
  times = λ a b. a * b;
  greater = λ a b. ltb b a;
}

-- The state of the language model counts the words.
abbrev pub counting_lm : Lm ℕ ℕ (Unit {0})
counting_lm = record {
  start = (tt, 0);
  score = λ cache count word. (count + 1, 2);
  finish = λ cache count. (count, 1);
  update_cache = λ cache counts. cache;
  same_state = λ a b. a == b;
}

abbrev pub options : DecoderOptions ℕ
options = record {
  beam_size = 10;
  beam_size_token = 10;
  beam_threshold = 100;
  lm_weight = 1;
  word_score = 1;
  unk_score = 0;
  sil_score = 0;
  eos_score = 0;
  log_add = false;
  criterion_type = ctc;
}

-- Tokens 0 and 1 spell the word 5; 2 is the silence and 3 the blank.
abbrev pub one_word : Lexicon ℕ
one_word = record {
  trie =
      node
        (child (pos 0)
          (node (child (pos 1) (node no_child (pos 1) (pos 5 ∷ []) (3 ∷ []) 3) no_child) (pos 0) []
            [] 3)
          no_child)
        minus_one [] [] 3;
  blank = pos 3;
  unk = pos 6;
  transitions = [];
  is_lm_token = false;
}

module _ {X : Type 0} where
  abbrev pub same_sorts : Sorts ℕ (State ℕ ℕ X)
  same_sorts = record {
    sort = λ xs. xs;
    nth_element = λ n xs. xs;
    partial_sort = λ n xs. xs;
    sort_tokens = λ e n xs. xs;
  }

abbrev one_word_setup : Setup ℕ ℕ (List ℤ) (Unit {0})
one_word_setup = setup numbers counting_lm options (pos 2) same_sorts

module _ {X : Type 0} (d : Setup ℕ ℕ X (Unit {0})) where
  pub keeps_best : KeepsBest numbers.scores (states d) 100
  keeps_best = record {
    ge_lowest = λ a. ground arith;
    ge_minus = λ a. ground arith;
    ge_narrow = λ a. ground arith;
  }

pub same_order {ℓ} : {A : Type ℓ} (xs : List A) → Permᴰ xs xs
same_order [] = Permᴰ.nil
same_order (x ∷ xs) = Permᴰ.cons refl (same_order xs)

one_word_setup-IsSound : IsSound one_word_setup
one_word_setup-IsSound = record {
  keeps_best = keeps_best one_word_setup;
  perms = record {
    sort_perm = same_order;
    nth_perm = λ n. same_order;
    partial_perm = λ n. same_order;
  };
  tokens_perm = λ e n. same_order;
}

one_word-Fits : Fits one_word_setup one_word 4
one_word-Fits = record {
  sound = one_word_setup-IsSound;
  root_path = refl;
  sil_token = (2, refl, omega arith);
  blank_token = λ e. (3, refl, omega arith);
  square = λ e. cc;
}

-- Two frames, for the tokens 0 and 1.
abbrev two_frames : List ℕ
two_frames = 9 ∷ 1 ∷ 1 ∷ 1 ∷ 1 ∷ 9 ∷ 1 ∷ 1 ∷ []

calls_lem_example :
    let c = decode_begin one_word_setup in
    ((c' : LexDecoder one_word_setup one_word 4) × (step one_word_setup one_word two_frames 2 4 c
        ≡ ok c')
      × Reachable one_word_setup one_word 4 c')
    × ((c' : LexDecoder one_word_setup one_word 4) × (finish one_word_setup one_word c ≡ ok c')
        × Reachable one_word_setup one_word 4 c')
    × ((c' : LexDecoder one_word_setup one_word 4) × (prune one_word_setup c 1 ≡ ok c')
        × Reachable one_word_setup one_word 4 c')
    × ((r : DecodeResult ℕ) × (get_best_hypothesis one_word_setup one_word c 1 ≡ ok r))
calls_lem_example =
    calls_lem one_word_setup one_word 4 one_word-Fits (decode_begin one_word_setup) two_frames 2 1
      begun refl

abbrev stepped_call :
    (c' : LexDecoder one_word_setup one_word 4) × (step one_word_setup one_word two_frames 2 4
        (decode_begin one_word_setup)
      ≡ ok c')
    × Reachable one_word_setup one_word 4 c'
stepped_call =
    (calls_lem one_word_setup one_word 4 one_word-Fits (decode_begin one_word_setup) two_frames 2 1
      begun refl).0

decode_lem_example :
    (rs : List (DecodeResult ℕ)) × (decode one_word_setup one_word two_frames 2 4 ≡ ok rs)
    × All (IsTranscript one_word_setup one_word 4 3) rs
decode_lem_example = decode_lem one_word_setup one_word 4 one_word-Fits two_frames 2 refl

finish-nice_ending_example :
    let c = decode_begin one_word_setup in
    (c' : LexDecoder one_word_setup one_word 4) × (finish one_word_setup one_word c ≡ ok c')
    × All (λ st. st.lex ≡ []) (frame_at (c'.n_decoded - c'.n_pruned) c'.hyps)
unfolding nice_ending frame_at lookup decode_begin first_hypothesis
finish-nice_ending_example =
    finish-nice_ending one_word_setup one_word 4 one_word-Fits (decode_begin one_word_setup) begun
      refl

abbrev free_options : DecoderOptions ℕ
free_options = record options { criterion_type = asg }

abbrev free : Setup ℕ ℕ (Unit {0}) (Unit {0})
free = free_setup numbers counting_lm free_options (pos 1) same_sorts

abbrev square : List ℕ
square = 1 ∷ 2 ∷ 3 ∷ 4 ∷ []

free-FreeFits : FreeFits free (pos 0) square 2
free-FreeFits = record {
  sound = record {
    keeps_best = keeps_best free;
    perms = record {
      sort_perm = same_order;
      nth_perm = λ n. same_order;
      partial_perm = λ n. same_order;
    };
    tokens_perm = λ e n. same_order;
  };
  sil_token = (1, refl, omega arith);
  square = λ e. refl;
}

free_calls_lem_example :
    let c = free_begin free (pos 0) square in
    ((c' : Decoder ℕ ℕ (Unit {0}) (Unit {0})) × (free_step free (pos 0) square (5 ∷ 6 ∷ []) 1 2 c
        ≡ ok c')
      × FreeReachable free (pos 0) square 2 c')
    × ((c' : Decoder ℕ ℕ (Unit {0}) (Unit {0})) × (free_finish free (pos 0) square c ≡ ok c')
        × FreeReachable free (pos 0) square 2 c')
    × ((c' : Decoder ℕ ℕ (Unit {0}) (Unit {0})) × (free_prune free (pos 0) square c 1 ≡ ok c')
        × FreeReachable free (pos 0) square 2 c')
    × ((r : DecodeResult ℕ) × (free_best_hypothesis free (pos 0) square c 1 ≡ ok r)
        × (k : ℕ) × (k ≤ 1 + look_back_limit)
        × IsBest
            (IsFreePlace free (pos 0) square 2)
            (AnyMove free (pos 0) square 2)
            free
            (c.n_decoded - c.n_pruned)
            k
            r)
    × ((rs : List (DecodeResult ℕ)) × (free_all_final_hypothesis free (pos 0) square c ≡ ok rs)
        × All
            (IsDecoded
              (IsFreePlace free (pos 0) square 2)
              (AnyMove free (pos 0) square 2)
              (c.n_decoded - c.n_pruned))
            rs)
free_calls_lem_example =
    free_calls_lem free (pos 0) square 2 free-FreeFits (free_begin free (pos 0) square) (5 ∷ 6 ∷ [])
      1 1 FreeReachable.begun refl
