-- ===== src/Consensus/Difficulty/Retarget.antt =====
-- consensus/difficulty.rs: the expected difficulty, from the headers behind a block.
use exfer.Common.{
  some, none, ℕ, zero, suc, ◌-◌, ◌*◌, ◌/◌, ◌%◌, Bool, Option, [], ◌∷◌, Bytes, replicate, ltb, ◌==◌,
  if◌then◌else◌, bytes_eq, Result, ok, ok_or, ◌>>=◌, ◌++◌, ◌&&◌,
}
use exfer.Common.Map.{Map, lookup, insert, bytes_key}
use exfer.Types.Hash.{Hash256, Sha}
use exfer.Types.Block.{BlockHeader, block_id}
use exfer.Consensus.Difficulty.Arith.{zeros, mul_div_256}

-- types/mod.rs
abbrev pub target_block_time_secs : ℕ
target_block_time_secs = 10

abbrev pub retarget_window : ℕ
retarget_window = 4320

abbrev pub max_retarget_factor : ℕ
max_retarget_factor = 4

abbrev pub expected_time : ℕ
expected_time = (retarget_window - 1) * target_block_time_secs

-- `u64::clamp`
abbrev pub clamp : ℕ → ℕ → ℕ → ℕ
clamp lo hi x = if ltb x lo then lo else if ltb hi x then hi else x

-- The fraction of the expected time that a retarget uses.
unfoldable pub clamped_time : ℕ → ℕ
clamped_time actual_time_secs =
    let actual = if actual_time_secs == 0 then 1 else actual_time_secs in
    clamp (expected_time / max_retarget_factor) (expected_time * max_retarget_factor) actual

unfoldable pub retarget : Bytes → ℕ → Bytes
unfolding clamped_time
retarget old_target actual_time_secs =
    let new_target = mul_div_256 old_target (clamped_time actual_time_secs) expected_time in
    if bytes_eq new_target zeros then replicate 31 0 ++ 1 ∷ [] else new_target

unfoldable pub needs_retarget : ℕ → Bool
needs_retarget height = ltb 0 height && height % retarget_window == 0

-- The production `genesis_target`: 2^248.
unfoldable pub genesis_target : Bytes
genesis_target = 1 ∷ replicate 31 0

pub data DifficultyError : Type 0 where
  ancestor_not_found : Hash256 → DifficultyError
  other : DifficultyError

-- `storage.get_header`, with its errors as `Other`.
abbrev pub HeaderSource : Type 0
HeaderSource = Hash256 → Result (Option BlockHeader) DifficultyError

-- `get_header(id)?.ok_or(AncestorNotFound(id))?`
unfoldable pub require_header : HeaderSource → Hash256 → Result BlockHeader DifficultyError
require_header get_header id = do found ← get_header id; ok_or found (ancestor_not_found id)

-- `for _ in 0..steps`: follow the parent links.
unfoldable pub walk_back : HeaderSource → ℕ → Hash256 → Result Hash256 DifficultyError
walk_back get_header zero current_id = ok current_id
walk_back get_header (suc steps) current_id = do
  hdr ← require_header get_header current_id
  walk_back get_header steps hdr.prev_block_id

unfoldable pub expected_difficulty : HeaderSource → Hash256 → ℕ → Result Bytes DifficultyError
expected_difficulty get_header prev_block_id height = if height == 0 then ok genesis_target else do
  parent ← require_header get_header prev_block_id
  if height % retarget_window == 0
      then (do
        start_id ← walk_back get_header (retarget_window - 1) prev_block_id
        window_start ← require_header get_header start_id
        ok (retarget parent.difficulty_target (parent.timestamp - window_start.timestamp)))
      else ok parent.difficulty_target

-- `ForwardHeaderOverlay`: headers in memory in front of the storage.
pub record ForwardHeaderOverlay : Type 0 where
  pub storage : HeaderSource
  pub overlay : Map Hash256 BlockHeader

unfoldable pub new_overlay : HeaderSource → ForwardHeaderOverlay
new_overlay storage = record { storage = storage; overlay = [] }

module _ (sha : Sha) where
  unfoldable pub insert_header : BlockHeader → ForwardHeaderOverlay → ForwardHeaderOverlay
  insert_header header o = record o { overlay = insert (block_id sha header) header o.overlay }

-- The overlay first, then the storage.
unfoldable pub overlay_header : ForwardHeaderOverlay → HeaderSource
overlay_header o id = elim (lookup id o.overlay) [ some h ↦ ok (some h) | none ↦ o.storage id ]

-- The copy of `expected_difficulty` that reads through an overlay.
unfoldable pub expected_difficulty_overlay :
    ForwardHeaderOverlay → Hash256 → ℕ → Result Bytes DifficultyError
expected_difficulty_overlay o prev_block_id height = if height == 0 then ok genesis_target else do
  parent ← require_header (overlay_header o) prev_block_id
  if height % retarget_window == 0
      then (do
        start_id ← walk_back (overlay_header o) (retarget_window - 1) prev_block_id
        window_start ← require_header (overlay_header o) start_id
        ok (retarget parent.difficulty_target (parent.timestamp - window_start.timestamp)))
      else ok parent.difficulty_target
