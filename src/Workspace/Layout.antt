-- ===== src/Workspace/Layout.antt =====
-- The arrays of a workspace fit into the size that a dry run computes.
use native.Mathlib.Nat.{add-mul-div_right}
use wav2letter.Base.{
  ℕ, ◌+◌, ◌-◌, ◌*◌, ◌/◌, ◌%◌, ◌<◌, ◌≤◌, ◌≡◌, refl, ap, sym, subst, ◌∙◌, List, [], ◌∷◌, arith,
}
use wav2letter.Workspace.{
  Workspace, Region, align, new_workspace, request, required_size, request_all,
}

module _ (alignment : ℕ) (positive : 0 < alignment) where
  -- The address of the next free byte.
  abbrev address : Workspace → ℕ
  address ws = ws.workspace_ptr + ws.offset

  -- The next multiple of the alignment.
  round_up : ℕ → ℕ
  round_up a = (a + alignment - 1) / alignment * alignment

  align-address : (ws : Workspace) → address (align alignment ws) ≡ round_up (address ws)
  unfolding align round_up
  align-address ws = grind (arith, positive)

  round_up-add : (k a : ℕ) → round_up (k * alignment + a) ≡ k * alignment + round_up a
  unfolding round_up
  round_up-add k a =
      let e : k * alignment + a + alignment - 1 ≡ a + alignment - 1 + k * alignment =
        omega (arith, positive) in
      rw (e, add-mul-div_right (a + alignment - 1) k positive) (grind arith)

  round_up-bounds : (a : ℕ) → (a ≤ round_up a) × (round_up a < a + alignment)
  unfolding round_up
  round_up-bounds a = (grind (arith, positive), grind (arith, positive))

  round_up-mod : (a : ℕ) → round_up a % alignment ≡ 0
  unfolding round_up
  round_up-mod a = grind (arith, positive)

  align-address-bounds :
      (ws : Workspace)
      → let a = address (align alignment ws) in
        (address ws ≤ a) × (a < address ws + alignment) × (a % alignment ≡ 0)
  align-address-bounds ws = rw (align-address ws) (
    (round_up-bounds (address ws)).0,
    (round_up-bounds (address ws)).1,
    round_up-mod (address ws),
  )

  align-ptr : (ws : Workspace) → (align alignment ws).workspace_ptr ≡ ws.workspace_ptr
  unfolding align
  align-ptr ws = refl

  align-shift :
      (k : ℕ) (dry ws : Workspace)
      → address ws ≡ k * alignment + address dry
      → address (align alignment ws) ≡ k * alignment + address (align alignment dry)
  align-shift k dry ws e =
      align-address ws
      ∙ ap round_up e
      ∙ round_up-add k (address dry)
      ∙ ap (λ a. k * alignment + a) (sym (align-address dry))

  -- The arrays follow each other from the address `low` on, each at a multiple of the alignment, and
  -- end before `high`.
  abbrev pub AreLaidOut : ℕ → ℕ → List Region → Type 0
  AreLaidOut low high [] = low ≤ high
  AreLaidOut low high (r ∷ rs) =
      (low ≤ r.start) × (r.start % alignment ≡ 0) × AreLaidOut (r.start + r.bytes) high rs

  request_all-AreLaidOut :
      (sizes : List ℕ) (k : ℕ) (dry ws : Workspace)
      → address ws ≡ k * alignment + address dry
      → let (regions, last) = request_all alignment sizes ws in
        let (dry_regions, dry_last) = request_all alignment sizes dry in
        AreLaidOut (address ws) (address last) regions
        × (address last ≡ k * alignment + address dry_last)
        × (last.workspace_ptr ≡ ws.workspace_ptr)
        × (dry_last.workspace_ptr ≡ dry.workspace_ptr)
  unfolding request_all request
  request_all-AreLaidOut [] k dry ws e = (omega arith, e, refl, refl)
  request_all-AreLaidOut (bytes ∷ sizes) k dry ws e =
      let next : Workspace = record (align alignment ws) {
        offset = (align alignment ws).offset + bytes;
      } in
      let next_dry : Workspace = record (align alignment dry) {
        offset = (align alignment dry).offset + bytes;
      } in
      let shifted = align-shift k dry ws e in
      let follow : address next ≡ address (align alignment ws) + bytes = omega arith in
      let (regions, last) = request_all alignment sizes next in
      let (laid_out, end, ptr, dry_ptr) =
        request_all-AreLaidOut sizes k next_dry next (omega (arith, shifted)) in
      (
        (
          (align-address-bounds ws).0,
          (align-address-bounds ws).2,
          subst (λ low. AreLaidOut low (address last) regions) follow laid_out,
        ),
        end,
        ptr ∙ align-ptr ws,
        dry_ptr ∙ align-ptr dry,
      )

  start-address :
      (ptr : ℕ)
      → (address (new_workspace alignment ptr) ≡ round_up ptr)
        × ((new_workspace alignment ptr).workspace_ptr ≡ ptr)
  unfolding new_workspace
  start-address ptr =
      let start : Workspace = record { workspace_ptr = ptr; offset = 0 } in
      let e : ptr + 0 ≡ ptr = omega arith in (align-address start ∙ ap round_up e, align-ptr start)

  AreLaidOut-widen :
      (rs : List Region) (low high low' high' : ℕ)
      → low' ≤ low
      → high ≤ high'
      → AreLaidOut low high rs
      → AreLaidOut low' high' rs
  AreLaidOut-widen [] low high low' high' l h laid_out = omega arith
  AreLaidOut-widen (r ∷ rs) low high low' high' l h laid_out =
      (omega arith, laid_out.1, AreLaidOut-widen rs _ high _ high' (omega arith) h laid_out.2)

  -- If the alignment is positive, the arrays of a sequence of requests start at multiples of it and
  -- follow each other without overlap in the block that begins at the given address and has the
  -- size that a dry run of the same requests from the null pointer requires.
  pub request_all_lem :
      (sizes : List ℕ) (ptr : ℕ)
      → let (dry_regions, dry) = request_all alignment sizes (new_workspace alignment 0) in
        let (regions, last) = request_all alignment sizes (new_workspace alignment ptr) in
        AreLaidOut ptr (ptr + required_size alignment dry) regions
  unfolding required_size
  request_all_lem sizes ptr =
      let dry = new_workspace alignment 0 in
      let ws = new_workspace alignment ptr in
      let k = (ptr + alignment - 1) / alignment in
      let (dry_start, dry_ptr) = start-address 0 in
      let (ws_start, ws_ptr) = start-address ptr in
      let nothing : round_up 0 ≡ 0 = unfold round_up in grind (arith, positive) in
      let whole : round_up ptr ≡ k * alignment = unfold round_up in refl in
      let e : address ws ≡ k * alignment + address dry =
        omega (arith, dry_start, ws_start, nothing, whole) in
      let (laid_out, end, _, last_ptr) = request_all-AreLaidOut sizes k dry ws e in
      let bounds = round_up-bounds ptr in
      AreLaidOut-widen _ _ _ _ _ (omega (arith, ws_start, bounds.0))
        (omega (arith, end, last_ptr, dry_ptr, whole, bounds.1, positive)) laid_out
