-- ===== src/Consensus/Difficulty/Overlay.antt =====
-- consensus/difficulty.rs: the header overlay, and the two copies of the difficulty rule.
use exfer.Common.{ℕ, refl, ◌∙◌, List, [], ◌∷◌, ◌≡◌, arith, some, ok, if◌then◌else◌, bytes_eq}
use exfer.Common.Map.{lookup, lookup-insert, bytes_key}
use mathlib.Core.Path.{fun_ext}
use exfer.Types.Hash.{Hash256, Sha}
use exfer.Types.Block.{BlockHeader, block_id}
use exfer.Consensus.Difficulty.Retarget.{
  HeaderSource, new_overlay, ForwardHeaderOverlay, overlay_header, insert_header,
  expected_difficulty, expected_difficulty_overlay,
}

-- A storage into which a header has been written under its block id.
unfoldable pub stored : Sha → BlockHeader → HeaderSource → HeaderSource
stored sha h get_header id = if bytes_eq (block_id sha h) id then ok (some h) else get_header id

unfoldable pub stored_all : Sha → List BlockHeader → HeaderSource → HeaderSource
stored_all sha [] get_header = get_header
stored_all sha (h ∷ hs) get_header = stored sha h (stored_all sha hs get_header)

-- The calls of `insert`, from the last header of the list to the first.
unfoldable pub insert_all : Sha → List BlockHeader → ForwardHeaderOverlay → ForwardHeaderOverlay
insert_all sha [] o = o
insert_all sha (h ∷ hs) o = insert_header sha h (insert_all sha hs o)

-- After `insert`, the overlay gives the header under its block id, and every other id as before.
pub overlay_header-insert_header :
    (sha : Sha) (o : ForwardHeaderOverlay) (h : BlockHeader) (id : Hash256)
    → overlay_header (insert_header sha h o) id
      ≡ (if bytes_eq (block_id sha h) id then ok (some h) else overlay_header o id)
unfolding overlay_header insert_header
overlay_header-insert_header sha o h id =
    ground (arith, lookup-insert (block_id sha h) id h o.overlay)

overlay_header-insert_all :
    (sha : Sha) (hs : List BlockHeader) (storage : HeaderSource) (id : Hash256)
    → overlay_header (insert_all sha hs (new_overlay storage)) id ≡ stored_all sha hs storage id
unfolding insert_all stored_all stored new_overlay overlay_header lookup
overlay_header-insert_all sha [] storage id = refl
overlay_header-insert_all sha (h ∷ hs) storage id =
    overlay_header-insert_header sha (insert_all sha hs (new_overlay storage)) h id
    ∙ rw (overlay_header-insert_all sha hs storage id) refl

-- A new overlay in front of a storage, into which any headers are inserted one after another, whether
-- the storage has them or not: the copy of the rule that reads through it gives, for every block, the
-- target or the error that the rule gives on that storage with the same headers written into it.
pub expected_difficulty_overlay-expected_difficulty :
    (sha : Sha) (hs : List BlockHeader) (storage : HeaderSource) (prev_block_id : Hash256)
    (height : ℕ)
    → expected_difficulty_overlay (insert_all sha hs (new_overlay storage)) prev_block_id height
      ≡ expected_difficulty (stored_all sha hs storage) prev_block_id height
unfolding expected_difficulty expected_difficulty_overlay
expected_difficulty_overlay-expected_difficulty sha hs storage prev_block_id height =
    let same : overlay_header (insert_all sha hs (new_overlay storage))
        ≡ stored_all sha hs storage =
      fun_ext (overlay_header-insert_all sha hs storage) in
    rw same
