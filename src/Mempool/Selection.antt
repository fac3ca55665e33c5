-- ===== src/Mempool/Selection.antt =====
-- mempool/mempool.rs: the selection for a block template keeps its limits.
use exfer.Common.{ℕ, ◌+◌, ◌^◌, ◌≤◌, ◌<◌, ◌≡◌, some, List, [], ◌∷◌, All, ok, IsU64}
use exfer.Common.Map.{Map, lookup, bytes_key}
use exfer.Types.Hash.{Hash256}
use exfer.Types.Transaction.{Transaction, serialized_size}
use exfer.Mempool.Defs.{Mempool, MempoolEntry, density_key, size_or}
use exfer.Mempool.Query.{Template}

-- The transaction has an encoding of a size that a usize holds with room to spare.
abbrev pub HasSize : MempoolEntry → Type 0
HasSize e = (n : ℕ) × (serialized_size e.tx ≡ ok n) × (n < 2 ^ 63)

unfoldable pub fees : List MempoolEntry → ℕ
fees [] = 0
fees (e ∷ es) = e.fee + fees es

unfoldable pub sizes : List MempoolEntry → ℕ
sizes [] = 0
sizes (e ∷ es) = size_or 0 e.tx + sizes es

-- An entry of the pool.
abbrev pub Pooled : Mempool → MempoolEntry → Type 0
Pooled p e = (id : Hash256) × (lookup id p.entries ≡ some e)

-- What holds of the template in every round.
record Within (max_block_size : ℕ) (p : Mempool) (t : Template) : Type 0 where
  pub fits : t.total_size ≤ max_block_size
  pub size : t.total_size ≡ sizes t.selected
  pub paid : t.total_fees ≡ fees t.selected
  pub bound : IsU64 t.total_fees
  pub pooled : All (Pooled p) t.selected
