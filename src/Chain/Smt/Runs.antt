-- ===== src/Chain/Smt/Runs.antt =====
-- chain/smt.rs: any sequence of insertions and removals, against the map that the calls describe.
use exfer.Common.{◌≡◌, refl, Option, none, some, List, [], ◌∷◌, if◌then◌else◌, bytes_eq}
use exfer.Types.Hash.{Hash256, Sha}
use exfer.Chain.Smt.Bits.{IsKey, smt_depth}
use exfer.Chain.Smt.Node.{find_leaf}
use exfer.Chain.Smt.Count.{size}
use exfer.Chain.Smt.Level.{leaves}
use exfer.Chain.Smt.Batch.{compute_root_recursive}
use exfer.Chain.Smt.Update.{SparseMerkleTree, new, insert, remove}
use exfer.Chain.Smt.Valid.{
  IsValid, new-IsValid, IsValid-insert, IsValid-remove, find-insert, find-remove,
  root_hash-compute_root_recursive, root_hash_ext,
}

pub data Op : Type 0 where
  put : (key value : Hash256) → Op
  delete : (key : Hash256) → Op

abbrev pub KeysOk : List Op → Type 0
KeysOk [] = Unit
KeysOk (put key value ∷ ops) = IsKey key × KeysOk ops
KeysOk (delete key ∷ ops) = KeysOk ops

-- The map after the calls.
abbrev pub replay : List Op → (Hash256 → Option Hash256) → Hash256 → Option Hash256
replay [] f = f
replay (put key value ∷ ops) f = replay ops (λ j. if bytes_eq key j then some value else f j)
replay (delete key ∷ ops) f = replay ops (λ j. if bytes_eq key j then none else f j)

module _ (sha : Sha) where
  unfoldable pub run : List Op → SparseMerkleTree → SparseMerkleTree
  run [] t = t
  run (put key value ∷ ops) t = run ops (insert sha key value t)
  run (delete key ∷ ops) t = run ops (remove sha key t)

  -- A tree that stands for the map f.
  pub record Refines (f : Hash256 → Option Hash256) (t : SparseMerkleTree) : Type 0 where
    pub reads : (j : Hash256) → find_leaf j t.root ≡ f j
    pub valid : IsValid sha t

  run-Refines :
      (ops : List Op) (f : Hash256 → Option Hash256) (t : SparseMerkleTree)
      → KeysOk ops
      → Refines f t
      → Refines (replay ops f) (run ops t)
  unfolding run
  run-Refines [] f t ok r = r
  run-Refines (put key value ∷ ops) f t ok r = run-Refines ops _ _ ok.1 (record {
    reads = λ j. rw (find-insert sha key j value t ok.0 r.valid, r.reads j) refl;
    valid = IsValid-insert sha key value t ok.0 r.valid;
  })
  run-Refines (delete key ∷ ops) f t ok r = run-Refines ops _ _ ok (record {
    reads = λ j. rw (find-remove sha key j t r.valid, r.reads j) refl;
    valid = IsValid-remove sha key t r.valid;
  })

  new-Refines : Refines (λ j. none) (new sha)
  unfolding new find_leaf
  new-Refines = record { reads = λ j. refl; valid = new-IsValid sha }

  -- After any insertions of 32-byte keys and any removals, from the empty tree, a key is found with
  -- the value that the map of these calls has for it; the root hash is the root that the batch
  -- computation gives for the leaves; and the leaf count is the number of leaves.
  pub run-replay :
      (ops : List Op) (j : Hash256)
      → KeysOk ops
      → (find_leaf j (run ops (new sha)).root ≡ replay ops (λ k. none) j)
        × ((run ops (new sha)).root_hash
            ≡ compute_root_recursive sha (leaves (run ops (new sha)).root) smt_depth 0)
        × ((run ops (new sha)).leaf_count ≡ size (run ops (new sha)).root)
  run-replay ops j ok =
      let r = run-Refines ops _ _ ok new-Refines in
      (r.reads j, root_hash-compute_root_recursive sha _ r.valid, r.valid.counted)

  -- Two sequences of calls that describe the same map end with the same root hash and leaf count,
  -- in whatever order the calls were made.
  pub root_hash-run :
      (ops ops' : List Op)
      → KeysOk ops
      → KeysOk ops'
      → ((j : Hash256) → replay ops (λ k. none) j ≡ replay ops' (λ k. none) j)
      → ((run ops (new sha)).root_hash ≡ (run ops' (new sha)).root_hash)
        × ((run ops (new sha)).leaf_count ≡ (run ops' (new sha)).leaf_count)
  root_hash-run ops ops' ok ok' same =
      let r = run-Refines ops _ _ ok new-Refines in
      let r' = run-Refines ops' _ _ ok' new-Refines in
      root_hash_ext sha _ _ r.valid r'.valid (λ j. rw (r.reads j, r'.reads j) (same j))
