-- ===== src/Workspace.antt =====
-- src/libraries/common/Workspace.h: arrays in a contiguous block of memory.
-- Addresses and sizes are numbers; the sums stay below the bound of `size_t`, where nothing wraps around.
pub mod Layout
use wav2letter.Base.{ℕ, ◌+◌, ◌-◌, ◌%◌, List, [], ◌∷◌}

-- `workspacePtr_` and `offset_`.
pub record Workspace : Type 0 where
  pub workspace_ptr : ℕ
  pub offset : ℕ

-- An array: where it starts, and its size in bytes.
pub record Region : Type 0 where
  pub start : ℕ
  pub bytes : ℕ

module _ (alignment : ℕ) where
  unfoldable pub align : Workspace → Workspace
  align ws = record ws {
    offset =
        ws.offset + (alignment - 1 - (ws.workspace_ptr + ws.offset + alignment - 1) % alignment);
  }

  unfoldable pub new_workspace : ℕ → Workspace
  new_workspace ptr = align (record { workspace_ptr = ptr; offset = 0 })

  -- `request` of an array of so many bytes, `sizeof(T) * s0 * s1 * s2 * s3`.
  unfoldable pub request : ℕ → Workspace → Region × Workspace
  request bytes ws =
      let aligned = align ws in
      (
        record { start = aligned.workspace_ptr + aligned.offset; bytes = bytes },
        record aligned { offset = aligned.offset + bytes },
      )

  unfoldable pub required_size : Workspace → ℕ
  required_size ws = ws.offset + alignment - 1

  -- A sequence of requests.
  unfoldable pub request_all : List ℕ → Workspace → List Region × Workspace
  request_all [] ws = ([], ws)
  request_all (bytes ∷ sizes) ws =
      let (region, next) = request bytes ws in
      let (regions, last) = request_all sizes next in (region ∷ regions, last)
