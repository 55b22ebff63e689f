-- ===== src/Decoder.antt =====
-- The beam-search decoders of src/libraries/decoder. LexiconDecoder and LexiconFreeDecoder write
-- most of their members with the same words: these are modelled once, with the proposals of a
-- hypothesis as a parameter (Online), on the buffer `hyp_` (Buffer) and the state (State).
pub mod Buffer
pub mod State
pub mod Online
pub mod Frames
pub mod Valid
pub mod Chains
pub mod Best
pub mod Pruned
pub mod Forgetful
pub mod Proposed
pub mod Moves
pub mod Searching
pub mod Calls
pub mod Ending
pub mod Tails
pub mod Forgotten
pub mod FreeCalls
pub mod Seq2Seq
pub mod Expansions
pub mod Rounds
pub mod Keys
pub mod Outputs
pub mod Sentences
pub mod FreeSentences
pub mod Lexicon
pub mod Proposals
pub mod Free
