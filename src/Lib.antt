-- ===== src/Lib.antt =====
-- Verification of the core logic of wav2letter, an end-to-end speech recognition system.
--
-- Text becomes training targets in several steps: strings are split (src/libraries/common/Utils.cpp),
-- a lexicon is read and words are spelt as tokens (src/libraries/common/WordUtils.cpp and
-- src/common/Utils.cpp), and a dictionary gives tokens their indices
-- (src/libraries/common/Dictionary.cpp). The data set hands out batches of samples to each process
-- and prefetches their features (src/data/W2lDataset.cpp). The decoder turns the scores of a network
-- into words: it walks a trie of the lexicon (src/libraries/decoder/Trie.cpp) with a beam of
-- hypotheses (src/libraries/decoder/Utils.h, LexiconDecoder.cpp), and predicted or target indices go
-- back to letters and words (src/common/Transforms.h and Utils.cpp). The best path without a language
-- model comes from src/libraries/criterion/cpu/ViterbiPath.cpp.
--
-- Base: shared types and lemmas: tests and lists on native numbers, equality as an interface, `int`
--   values that may be negative, exceptions as results, hash maps as association lists.
-- Text: src/libraries/common/Utils.cpp and Utils-inl.h. A string is its list of bytes. Find, Split,
--   Tokens and Trim are the proofs.
-- Dictionary: src/libraries/common/Dictionary.h and Dictionary.cpp. The record has the two maps and the
--   default index; each method is a function of the same name. Consistent and Stream are the proofs.
-- Words: src/libraries/common/WordUtils.cpp. Letters (UTF-8), Replabels (repetition labels), Compact
--   (the filter in place) and Lexicon (reading a lexicon) are the proofs.
-- Labels: src/common/Transforms.h and Utils.cpp: targets of words and letters of predictions. The flags
--   that the functions read are a record. Targets and Runs are the proofs.
-- Batches: src/data/W2lDataset.cpp. `get_batches` is the packer, `Dataset` the batches and the prefetch
--   cache. Partition, Prefetch and Get are the proofs.
-- SampleOrder: src/data/Utils.cpp: the order of the samples and the filter on sizes. Spiral is the proof.
-- Trie: src/libraries/decoder/Trie.h and Trie.cpp. A node is a value with its children; `insert` returns
--   the new trie beside its result, since it changes the trie before it throws. Contents and Smear are
--   the proofs.
-- Beam: src/libraries/decoder/Utils.h, Utils.cpp and the candidate buffer of LexiconDecoder.cpp.
--   Pruning, Merging, Top, Stored, Hypotheses and Ancestors are the proofs, Kept the one that storing
--   never faults.
-- Decoder: src/libraries/decoder/LexiconDecoder.cpp and LexiconFreeDecoder.cpp, with pruneAndNormalize and
--   updateLMCache of Utils.h. Buffer is `hyp_` (a hash map from frame numbers to vectors), State the
--   hypotheses and members, Online what both classes have (decodeBegin, decodeStep, decodeEnd, prune
--   and the reading of results), Proposals, Lexicon and Free what each class proposes for a
--   hypothesis. Frames and Valid hold the invariant of the buffer, Chains, Best and Tails what is read
--   off, Pruned, Forgetful and Forgotten prune, Moves and Searching the search through the trie, Calls,
--   Ending and FreeCalls whole histories of calls. Seq2Seq is what LexiconSeq2SeqDecoder.cpp and
--   LexiconFreeSeq2SeqDecoder.cpp have in common, Expansions what each proposes; Rounds, Keys and Outputs
--   are the proofs for both, Sentences and FreeSentences those for each.
-- Viterbi: src/libraries/criterion/cpu/ViterbiPath.cpp for one element of a batch. Maximum and Optimal are
--   the proofs.
-- TargetSizes: src/criterion/CriterionUtils.cpp and src/libraries/criterion/cpu/CriterionUtils.cpp. Linear is the
--   proof.
-- SpeechStats: src/runtime/SpeechStatMeter.cpp. Merged is the proof.
-- Workspace: src/libraries/common/Workspace.h, from which the criteria take their arrays. Layout is the
--   proof.
-- Tests: runs of the theorems at concrete inputs.
--
-- Loops on positions run on fuel: the length of a string for a split, as each round takes at least one
-- byte, the number of indices for the search of a free one, as at most so many are taken, and the
-- length of a list of labels that is trimmed. The proofs show that the fuel is enough where a result
-- depends on it. Sizes and indices do not reach the bounds of the machine integers and have no wrap-around
-- here.
--
-- Parameters stand for what is not in the repository or left open by C++: `std::sort` and the
-- partial sorts, `std::shuffle`, random draws, the bounds check of flashlight's data set, the
-- computation of features, the language models, the acoustic model of the attention decoders, and
-- floating-point scores with their arithmetic and comparison. The laws that a theorem needs of them
-- are its hypotheses. Undefined behaviour stands as the error `fatal`.
-- One of these laws is more than an ordering without NaN: `pruneCandidates` converts its threshold
-- from `double` to `float`, and the decoders are safe only where this rounding never lifts the
-- threshold above the best score.
--
-- In the decoder a parent pointer is the position of the parent in the vector of the frame before, and a
-- pointer into the trie is the path from the root. `float` and `double` are one type there.
--
-- Not modelled: files and streams beyond the lines that are read, the tensors of flashlight and all
-- modules on them, the numerical code of features and of the other criteria, language models, CUDA,
-- the Python bindings, the command-line programs, and the vendored warpctc. The prefetching threads
-- compute values of a function, so races on the data set are not seen.
pub mod Base
pub mod Text
pub mod Dictionary
pub mod Words
pub mod Batches
pub mod Trie
pub mod Labels
pub mod Beam
mod Tests
pub mod Viterbi
pub mod Workspace
pub mod TargetSizes
pub mod SampleOrder
pub mod SpeechStats
pub mod Decoder
