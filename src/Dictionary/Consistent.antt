-- ===== src/Dictionary/Consistent.antt =====
-- The two maps of a dictionary agree, whatever is added.
use wav2letter.Base.{
  ℕ, zero, suc, ◌<◌, ◌≤◌, ◌≡◌, inl, inr, true, false, not, none, some, List, [], ◌∷◌, length, arith,
  Option-cases, if◌then◌else◌, ok, err, guard, ◌≢◌, invalid_argument, ℤ, pos, negsuc, lookup,
  assign, lookup-assign, int_eq, list_eq, nat_eq, int_beq_iff, list_beq_iff, leb, >>=-eq-ok,
}
use wav2letter.Text.{Bytes}
use wav2letter.Dictionary.{
  Dictionary, empty, is_some, contains, add_entry_at, add_entry, first_free, index_size, get_entry,
  get_index,
}

-- Every index that an entry has is the index of some entry, and the entry that an index has is
-- mapped back to that index.
pub record IsConsistent (d : Dictionary) : Type 0 where
  pub known :
      (entry : Bytes) (idx : ℤ)
      → lookup entry d.entry2idx ≡ some idx
      → is_some (lookup idx d.idx2entry) ≡ true
  pub back :
      (idx : ℤ) (entry : Bytes)
      → lookup idx d.idx2entry ≡ some entry
      → lookup entry d.entry2idx ≡ some idx

pub empty-IsConsistent : IsConsistent empty
unfolding lookup
empty-IsConsistent = record { known = λ e i h. cc; back = λ i e h. cc }

pub add_entry_at-fresh :
    (entry : Bytes) (idx : ℤ) (d d' : Dictionary)
    → add_entry_at entry idx d ≡ ok d'
    → (lookup entry d.entry2idx ≡ none)
      × (d'.entry2idx ≡ assign entry idx d.entry2idx)
      × (d'.idx2entry ≡ (
          if is_some (lookup idx d.idx2entry) then d.idx2entry else assign idx entry d.idx2entry))
      × (d'.default_index ≡ d.default_index)
unfolding add_entry_at
add_entry_at-fresh entry idx d d' h = ground arith

-- `addEntry` with an index keeps the maps in agreement.
pub add_entry_at-IsConsistent :
    (entry : Bytes) (idx : ℤ) (d d' : Dictionary)
    → IsConsistent d
    → add_entry_at entry idx d ≡ ok d'
    → IsConsistent d'
add_entry_at-IsConsistent entry idx d d' c h =
    let f = add_entry_at-fresh entry idx d d' h in
    record {
      known = λ e i at. ground (
        arith,
        f.1,
        f.2,
        lookup-assign entry e idx d.entry2idx,
        lookup-assign idx i entry d.idx2entry,
        int_beq_iff idx i,
        c.known e i,
      );
      back = λ i e at. ground (
        arith,
        f.0,
        f.1,
        f.2,
        lookup-assign entry e idx d.entry2idx,
        lookup-assign idx i entry d.idx2entry,
        int_beq_iff idx i,
        list_beq_iff entry e,
        c.back i e,
      );
    }

-- `addEntry` without an index, where it succeeds, keeps the maps in agreement.
pub add_entry-IsConsistent :
    (entry : Bytes) (d d' : Dictionary)
    → IsConsistent d
    → add_entry entry d ≡ ok d'
    → IsConsistent d'
unfolding add_entry
add_entry-IsConsistent entry d d' c h =
    add_entry_at-IsConsistent entry
      (pos (first_free (suc (index_size d)) (index_size d) d.idx2entry)) d d' c
      ((>>=-eq-ok (guard (not (is_some (lookup entry d.entry2idx))) invalid_argument) _ h).2)

-- If the maps agree, looking an index up and then its entry leads back to the index.
pub get_index-get_entry :
    (d : Dictionary) (idx : ℤ) (entry : Bytes)
    → IsConsistent d
    → get_entry d idx ≡ ok entry
    → get_index d entry ≡ ok idx
unfolding get_entry get_index
get_index-get_entry d idx entry c h = ground (arith, c.back idx entry)

-- How many keys are the index `k` or above.
pub count_from : ℕ → List (ℤ × Bytes) → ℕ
count_from k [] = 0
count_from k ((pos i, e) ∷ m) = if leb k i then suc (count_from k m) else count_from k m
count_from k ((negsuc i, e) ∷ m) = count_from k m

pub count_from-le-length : (k : ℕ) (m : List (ℤ × Bytes)) → count_from k m ≤ length m
unfolding count_from
count_from-le-length k [] = omega arith
count_from-le-length k ((pos i, e) ∷ m) = ground (arith, count_from-le-length k m)
count_from-le-length k ((negsuc i, e) ∷ m) = omega (arith, count_from-le-length k m)

count_from-anti : (k : ℕ) (m : List (ℤ × Bytes)) → count_from (suc k) m ≤ count_from k m
unfolding count_from
count_from-anti k [] = omega arith
count_from-anti k ((pos i, e) ∷ m) = ground (arith, count_from-anti k m)
count_from-anti k ((negsuc i, e) ∷ m) = count_from-anti k m

pub count_from-lookup :
    (k : ℕ) (m : List (ℤ × Bytes)) (entry : Bytes)
    → lookup (pos k) m ≡ some entry
    → count_from (suc k) m < count_from k m
unfolding count_from lookup
count_from-lookup k [] entry h = cc
count_from-lookup k ((pos i, e) ∷ m) entry h =
    ground (arith, count_from-lookup k m entry, count_from-anti k m)
count_from-lookup k ((negsuc i, e) ∷ m) entry h = count_from-lookup k m entry h

first_free-lookup_fuel :
    (fuel idx : ℕ) (m : List (ℤ × Bytes))
    → count_from idx m < fuel
    → (lookup (pos (first_free fuel idx m)) m ≡ none) × (idx ≤ first_free fuel idx m)
unfolding first_free
first_free-lookup_fuel zero idx m h = absurd (omega arith)
first_free-lookup_fuel (suc fuel) idx m h = elim (Option-cases (lookup (pos idx) m)) [
  | inl e ↦ ground arith
  | inr (entry, e) ↦
      let less : count_from (suc idx) m < fuel = omega (arith, count_from-lookup idx m entry e) in
      ground (arith, first_free-lookup_fuel fuel (suc idx) m less)
]

first_free-lookup :
    (d : Dictionary)
    → lookup (pos (first_free (suc (index_size d)) (index_size d) d.idx2entry)) d.idx2entry ≡ none
unfolding index_size
first_free-lookup d =
    (first_free-lookup_fuel _ (length d.idx2entry) d.idx2entry
      (omega (arith, count_from-le-length (length d.idx2entry) d.idx2entry))).0

-- Adding a new entry always succeeds: the search for a free index ends on one, the entry gets that
-- index and the index gets that entry, and every other entry keeps its index.
pub add_entry_lem :
    (entry : Bytes) (d : Dictionary)
    → contains d entry ≡ false
    → (idx : ℤ) × (d' : Dictionary) × (add_entry entry d ≡ ok d')
      × (get_entry d idx ≡ err invalid_argument)
      × (get_index d' entry ≡ ok idx)
      × (get_entry d' idx ≡ ok entry)
      × ((other : Bytes) → other ≢ entry → get_index d' other ≡ get_index d other)
unfolding contains add_entry add_entry_at get_index get_entry
add_entry_lem entry d fresh =
    let idx = pos (first_free (suc (index_size d)) (index_size d) d.idx2entry) in
    let free = first_free-lookup d in
    (
      idx,
      record d {
        entry2idx = assign entry idx d.entry2idx;
        idx2entry = assign idx entry d.idx2entry;
      },
      ground (arith, free),
      ground (arith, free),
      ground (arith, lookup-assign entry entry idx d.entry2idx, list_beq_iff entry entry),
      ground (arith, lookup-assign idx idx entry d.idx2entry, int_beq_iff idx idx),
      λ other ne.
          ground (arith, lookup-assign entry other idx d.entry2idx, list_beq_iff entry other),
    )
