-- ===== src/Dataplane/Pool.antt =====
-- crates/nexus-dataplane/src/pool.rs: the shard's buffers and their free stack, in a release build.
-- `none` is a failed assertion.
pub mod Held
use nexus_sfu.Base.{
  ℕ, zero, suc, ◌*◌, ◌/◌, Option, none, some, List, [], ◌∷◌, ltb, ◌==◌, if◌then◌else◌, length,
  replicate,
}

-- `BUF_SIZE`
abbrev pub buf_size : ℕ
buf_size = 2048

-- `BufRef`
pub record BufRef : Type 0 where
  pub shard : ℕ
  pub index : ℕ

-- `BufferPool`; the top of the free stack comes first.
pub record BufferPool : Type 0 where
  pub shard : ℕ
  pub memory : List ℕ
  pub free : List ℕ

-- The free_indices from `i` on.
unfoldable pub free_indices : ℕ → ℕ → List ℕ
free_indices i zero = []
free_indices i (suc n) = i ∷ free_indices (suc i) n

-- `new`
unfoldable pub new : ℕ → ℕ → Option BufferPool
new shard n =
    if n == 0
    then none
    else some
        (record { shard = shard; memory = replicate (n * buf_size) 0; free = free_indices 0 n })

-- `capacity`
unfoldable pub capacity : BufferPool → ℕ
capacity pool = length pool.memory / buf_size

-- `available`
unfoldable pub available : BufferPool → ℕ
available pool = length pool.free

unfoldable pub take_from : BufferPool → List ℕ → Option (BufRef × BufferPool)
take_from pool [] = none
take_from pool (index ∷ free) =
    some (record { shard = pool.shard; index = index }, record pool { free = free })

-- `take`: the buffer and the pool after it.
unfoldable pub take_buf : BufferPool → Option (BufRef × BufferPool)
unfolding take_from
take_buf pool = take_from pool pool.free

-- `put`
unfoldable pub put : BufferPool → BufRef → Option BufferPool
unfolding capacity
put pool b =
    if ltb (length pool.free) (capacity pool)
    then some (record pool { free = b.index ∷ pool.free })
    else none
