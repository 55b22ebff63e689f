-- ===== src/Batches/Partition.antt =====
-- The batches of all ranks, one behind the other, are the samples from 0 on.
use wav2letter.Base.{
  ℕ, zero, suc, ◌+◌, ◌-◌, ◌*◌, ◌/◌, ◌%◌, ◌<◌, ◌≤◌, min, ◌≡◌, refl, ap, sym, ◌∙◌, inl, inr, true,
  false, List, [], ◌∷◌, ◌++◌, map, none, get_or, arith, Bool-cases, ltb, if◌then◌else◌,
}
use wav2letter.Batches.{
  iota, Packer, per_global_batch, include_last, n_global_batches, is_last, batch_range, batch,
  get_batches,
}

-- A packer that the constructor lets pass, without its rank.
pub record IsSized (p : Packer) : Type 0 where
  pub batch_pos : 0 < p.batch_size
  pub world_pos : 0 < p.world_size

abbrev pub at_rank : Packer → ℕ → Packer
at_rank p rank = record p { world_rank = rank }

pub iota-append : (m n start : ℕ) → iota m start ++ iota n (start + m) ≡ iota (m + n) start
unfolding iota
iota-append zero n start =
    let e : start + 0 ≡ start = omega arith in let f : 0 + n ≡ n = omega arith in rw (e, f) refl
iota-append (suc m) n start =
    let e : start + suc m ≡ suc start + m = omega arith in
    let f : suc m + n ≡ suc (m + n) = omega arith in
    rw (e, f) (ap (λ t. start ∷ t) (iota-append m n (suc start)))

module _ (p : Packer) (n g : ℕ) where
  abbrev offset : ℕ
  offset = g * per_global_batch p

  abbrev share : ℕ
  share = (n - offset) / p.world_size

  abbrev odd : ℕ
  odd = (n - offset) % p.world_size

  batch-last :
      (rank : ℕ)
      → is_last p n g ≡ true
      → batch (at_rank p rank) n g
        ≡ iota (if ltb rank odd then share + 1 else share) (offset + share * rank + min rank odd)
  unfolding batch batch_range is_last include_last n_global_batches
  batch-last rank e = rw e refl

  batch-full :
      (rank : ℕ)
      → is_last p n g ≡ false
      → batch (at_rank p rank) n g ≡ iota p.batch_size (offset + p.batch_size * rank)
  unfolding batch batch_range is_last include_last n_global_batches
  batch-full rank e = rw e refl

  -- The shares of the first `k` ranks, one behind the other.
  pub shares : ℕ → List ℕ
  shares zero = []
  shares (suc k) = shares k ++ batch (at_rank p k) n g

  shares-last : (k : ℕ) → is_last p n g ≡ true → shares k ≡ iota (share * k + min k odd) offset
  unfolding shares
  shares-last zero e = let z : share * 0 + min 0 odd ≡ 0 = omega arith in rw z (unfold iota in refl)
  shares-last (suc k) e =
      let size : share * k + min k odd + (if ltb k odd then share + 1 else share)
          ≡ share * suc k + min (suc k) odd =
        ground arith in
      let start : offset + share * k + min k odd ≡ offset + (share * k + min k odd) = omega arith in
      rw (shares-last k e, batch-last k e, start)
        (iota-append _ _ offset ∙ ap (λ t. iota t offset) size)

  shares-full : (k : ℕ) → is_last p n g ≡ false → shares k ≡ iota (p.batch_size * k) offset
  unfolding shares
  shares-full zero e = let z : p.batch_size * 0 ≡ 0 = omega arith in rw z (unfold iota in refl)
  shares-full (suc k) e =
      let size : p.batch_size * k + p.batch_size ≡ p.batch_size * suc k = grind arith in
      rw (shares-full k e, batch-full k e) (iota-append _ _ offset ∙ ap (λ t. iota t offset) size)

-- The batch that rank `rank` gets for its index `g`, when nothing is shuffled.
abbrev pub read_by : Packer → ℕ → ℕ → ℕ → List ℕ
read_by p n rank g = get_or (get_batches (at_rank p rank) n none) g []

-- What the first `k` ranks read at index `g`, and what all ranks read at the first `k` indices.
abbrev pub read_at : Packer → ℕ → ℕ → ℕ → List ℕ
read_at p n g zero = []
read_at p n g (suc k) = read_at p n g k ++ read_by p n k g

abbrev pub read_until : Packer → ℕ → ℕ → List ℕ
read_until p n zero = []
read_until p n (suc g) = read_until p n g ++ read_at p n g p.world_size

get_or-map-iota :
    (f : ℕ → List ℕ) (n start g : ℕ) → g < n → get_or (map f (iota n start)) g [] ≡ f (start + g)
unfolding iota
get_or-map-iota f zero start g h = absurd (omega arith)
get_or-map-iota f (suc n) start zero h = let e : start + 0 ≡ start = omega arith in ap f (sym e)
get_or-map-iota f (suc n) start (suc g) h =
    let e : suc start + g ≡ start + suc g = omega arith in
    get_or-map-iota f n (suc start) g (omega arith) ∙ ap f e

read_at-shares :
    (p : Packer) (n g k : ℕ) → g < n_global_batches p n → read_at p n g k ≡ shares p n g k
unfolding shares get_batches n_global_batches include_last
read_at-shares p n g zero h = refl
read_at-shares p n g (suc k) h = rw (read_at-shares p n g k h) (
    ap (λ t. shares p n g k ++ t)
      (get_or-map-iota (batch (at_rank p k) n) (n_global_batches p n) 0 g h
        ∙ ap (batch (at_rank p k) n) (zero_left g)))
  where
    zero_left : (m : ℕ) → 0 + m ≡ m
    zero_left m = omega arith

module _ (p : Packer) (n : ℕ) (sized : IsSized p) where
  abbrev per : ℕ
  per = per_global_batch p

  per_pos : 0 < per
  per_pos = grind (arith, sized.batch_pos, sized.world_pos)

  is_last-false : (g : ℕ) → g < n / per → is_last p n g ≡ false
  unfolding is_last n_global_batches
  is_last-false g h = ground arith

  le-n_global : (g : ℕ) → g < n / per → g < n_global_batches p n
  unfolding n_global_batches
  le-n_global g h = ground arith

  read_at-full : (g : ℕ) → g < n / per → read_at p n g p.world_size ≡ iota per (g * per)
  read_at-full g h =
      let e : p.batch_size * p.world_size ≡ per = grind arith in
      read_at-shares p n g p.world_size (le-n_global g h)
      ∙ shares-full p n g p.world_size (is_last-false g h)
      ∙ ap (λ t. iota t (g * per)) e

  read_until-full : (g : ℕ) → g ≤ n / per → read_until p n g ≡ iota (g * per) 0
  read_until-full zero h = let z : 0 * per ≡ 0 = omega arith in rw z (unfold iota in refl)
  read_until-full (suc g) h =
      let e : g * per + per ≡ suc g * per = grind arith in
      let start : g * per ≡ 0 + g * per = omega arith in
      rw (read_until-full g (omega arith), read_at-full g h)
        (ap (λ t. iota (g * per) 0 ++ iota per t) start
          ∙ iota-append (g * per) per 0
          ∙ ap (λ t. iota t 0) e)

  read_until-last : include_last p n ≡ true → read_until p n (suc (n / per)) ≡ iota n 0
  read_until-last incl =
      let g = n / per in
      let below : g < n_global_batches p n = unfold n_global_batches in ground arith in
      let last : is_last p n g ≡ true = unfold is_last n_global_batches in ground arith in
      let x = n - g * per in
      let all : x / p.world_size * p.world_size + min p.world_size (x % p.world_size) ≡ x =
        grind (arith, sized.world_pos) in
      let whole : g * per + x ≡ n = grind (arith, per_pos) in
      let start : g * per ≡ 0 + g * per = omega arith in
      rw (read_until-full g (omega arith), read_at-shares p n g p.world_size below)
        (ap (λ t. iota (g * per) 0 ++ t) (shares-last p n g p.world_size last)
          ∙ ap (λ t. iota (g * per) 0 ++ iota t (g * per)) all
          ∙ ap (λ t. iota (g * per) 0 ++ iota x t) start
          ∙ iota-append (g * per) x 0
          ∙ ap (λ t. iota t 0) whole)

  -- If batch size and number of ranks are positive, then without shuffling the batches of all ranks
  -- at all indices, one behind the other, are the samples 0, 1, … in order, each once, up to a
  -- number that leaves out fewer samples than there are ranks.
  pub read_until-iota :
      (covered : ℕ) × (read_until p n (n_global_batches p n) ≡ iota covered 0)
      × (covered ≤ n)
      × (n < covered + p.world_size)
  read_until-iota = elim (Bool-cases (include_last p n)) [
    | inl incl ↦
        let e : n_global_batches p n ≡ suc (n / per) = unfold n_global_batches in ground arith in
        (n, rw e (read_until-last incl), omega arith, omega (arith, sized.world_pos))
    | inr not_incl ↦
        let e : n_global_batches p n ≡ n / per = unfold n_global_batches in ground arith in
        let left : n % per < p.world_size = unfold include_last in ground arith in
        (
          n / per * per,
          rw e (read_until-full (n / per) (omega arith)),
          grind (arith, per_pos),
          grind (arith, per_pos, left),
        )
  ]
