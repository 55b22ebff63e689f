-- ===== src/Tests.antt =====
-- Concrete runs of the theorems.
mod Strings
mod Lexicons
mod Datasets
mod Tries
mod Beams
mod Sorting
mod Paths
mod Transposed
mod Meters
mod Orders
mod Targets
mod Memory
mod Decoders
mod Sentences
