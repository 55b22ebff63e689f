-- ===== src/Tests/Memory.antt =====
-- The theorem on Workspace.h for three arrays at an address that is not aligned.
use wav2letter.Base.{◌+◌, ◌<◌, [], ◌∷◌, arith}
use wav2letter.Workspace.{new_workspace, request_all, required_size}
use wav2letter.Workspace.Layout.{AreLaidOut, request_all_lem}

one_byte : 0 < 256
one_byte = omega arith

request_all_lem_example :
    let (dry_regions, dry) = request_all 256 (40 ∷ 0 ∷ 300 ∷ []) (new_workspace 256 0) in
    let (regions, last) = request_all 256 (40 ∷ 0 ∷ 300 ∷ []) (new_workspace 256 1001) in
    AreLaidOut 256 one_byte 1001 (1001 + required_size 256 dry) regions
request_all_lem_example = request_all_lem 256 one_byte (40 ∷ 0 ∷ 300 ∷ []) 1001
