-- ===== src/Dataplane/Pool/Held.antt =====
-- The buffers of pool.rs that are out, through any sequence of takes and puts.
use nexus_sfu.Base.{
  ℕ, zero, suc, ◌+◌, ◌*◌, ◌/◌, ◌<◌, ◌≡◌, refl, ap, subst, true, false, none, some, List, [], ◌∷◌,
  arith, ltb, ◌==◌, if◌then◌else◌, length, replicate, length-replicate, some_eq, contains,
}
use nexus_sfu.Dataplane.Pool.{
  BufRef, BufferPool, buf_size, free_indices, new, capacity, available, take_from, take_buf, put,
}

-- How often an index stands in a list.
unfoldable pub times : ℕ → List ℕ → ℕ
times n [] = 0
times n (x ∷ xs) = if x == n then suc (times n xs) else times n xs

-- The list without the first element that equals the index.
unfoldable pub without : ℕ → List ℕ → List ℕ
without n [] = []
without n (x ∷ xs) = if x == n then xs else x ∷ without n xs

-- The pool and the buffers that its users hold, from a new pool on: a user puts what it holds.
pub data Reached (shard size : ℕ) : BufferPool → List ℕ → Type 0 where
  start : (pool : BufferPool) → new shard size ≡ some pool → Reached shard size pool []
  taken :
      (pool after : BufferPool) (held : List ℕ) (b : BufRef)
      → Reached shard size pool held
      → take_buf pool ≡ some (b, after)
      → Reached shard size after (b.index ∷ held)
  returned :
      (pool after : BufferPool) (held : List ℕ) (b : BufRef)
      → Reached shard size pool held
      → contains b.index held ≡ true
      → put pool b ≡ some after
      → Reached shard size after (without b.index held)

-- Every index of the pool is free or held, and only once.
pub record Partition (size : ℕ) (pool : BufferPool) (held : List ℕ) : Type 0 where
  pub sized : length pool.memory ≡ size * buf_size
  pub split : (n : ℕ) → times n pool.free + times n held ≡ (if ltb n size then 1 else 0)
  pub total : length pool.free + length held ≡ size

times-free_indices :
    (n i k : ℕ)
    → times n (free_indices i k) ≡ (if ltb n i then 0 else if ltb n (i + k) then 1 else 0)
unfolding times free_indices
times-free_indices n i zero = ground arith
times-free_indices n i (suc k) = ground (arith, times-free_indices n (suc i) k)

length-free_indices : (i k : ℕ) → length (free_indices i k) ≡ k
unfolding free_indices
length-free_indices i zero = refl
length-free_indices i (suc k) = ap suc (length-free_indices (suc i) k)

times-without :
    (n b : ℕ) (xs : List ℕ)
    → contains b xs ≡ true
    → times n (without b xs) + (if b == n then 1 else 0) ≡ times n xs
unfolding times without contains
times-without n b [] h = cc
times-without n b (x ∷ xs) h = ground (arith, times-without n b xs)

length-without :
    (b : ℕ) (xs : List ℕ) → contains b xs ≡ true → suc (length (without b xs)) ≡ length xs
unfolding without contains
length-without b [] h = cc
length-without b (x ∷ xs) h = ground (arith, length-without b xs)

new-Partition :
    (shard size : ℕ) (pool : BufferPool) → new shard size ≡ some pool → Partition size pool []
unfolding new times
new-Partition shard size pool h =
    let e : some (record {
      shard = shard;
      memory = replicate (size * buf_size) 0;
      free = free_indices 0 size;
    })
        ≡ some pool =
      ground arith in
    subst (λ p. Partition size p []) (some_eq e)
      (record {
        sized = length-replicate (size * buf_size) 0;
        split = λ n. ground (arith, times-free_indices n 0 size);
        total = omega (arith, length-free_indices 0 size);
      })

take-Partition :
    (size : ℕ) (pool after : BufferPool) (held free : List ℕ) (b : BufRef)
    → Partition size pool held
    → pool.free ≡ free
    → take_from pool free ≡ some (b, after)
    → Partition size after (b.index ∷ held)
unfolding take_from times
take-Partition size pool after held [] b v e h = cc
take-Partition size pool after held (i ∷ free) b v e h =
    subst (λ p. Partition size p.1 (p.0.index ∷ held)) (some_eq h)
      (record {
        sized = v.sized;
        split = λ n. ground (arith, v.split n, ap (times n) e);
        total = omega (arith, v.total, ap length e);
      })

put-Partition :
    (size : ℕ) (pool after : BufferPool) (held : List ℕ) (b : BufRef)
    → Partition size pool held
    → contains b.index held ≡ true
    → put pool b ≡ some after
    → Partition size after (without b.index held)
unfolding put times
put-Partition size pool after held b v out h =
    let e : some (record pool { free = b.index ∷ pool.free }) ≡ some after = ground arith in
    subst (λ p. Partition size p (without b.index held)) (some_eq e)
      (record {
        sized = v.sized;
        split = λ n. ground (arith, v.split n, times-without n b.index held out);
        total = omega (arith, v.total, length-without b.index held out);
      })

-- From a new pool on, by takes and by puts of held buffers, every index is free or held, and only
-- once.
pub reached-Partition :
    (shard size : ℕ) (pool : BufferPool) (held : List ℕ)
    → Reached shard size pool held
    → Partition size pool held
unfolding take_buf
reached-Partition shard size pool held (start made h) = new-Partition shard size made h
reached-Partition shard size pool held (taken before after out b r h) =
    let v = reached-Partition shard size before out r in
    take-Partition size before after out before.free b v refl h
reached-Partition shard size pool held (returned before after out b r c h) =
    put-Partition size before after out b (reached-Partition shard size before out r) c h

-- In a reached pool, `put` of a held buffer succeeds, and one more buffer is available.
pub put-held :
    (shard size : ℕ) (pool : BufferPool) (held : List ℕ) (b : BufRef)
    → Reached shard size pool held
    → contains b.index held ≡ true
    → (after : BufferPool) × (put pool b ≡ some after) × (available after ≡ suc (available pool))
unfolding put available capacity
put-held shard size pool held b r h =
    let v = reached-Partition shard size pool held r in
    let some_out = length-without b.index held h in
    let room : length pool.memory / buf_size ≡ size = omega (arith, v.sized) in
    (record pool { free = b.index ∷ pool.free }, ground (arith, v.total), refl)

times-contains : (n : ℕ) (xs : List ℕ) → times n xs ≡ 0 → contains n xs ≡ false
unfolding times contains
times-contains n [] h = refl
times-contains n (x ∷ xs) h = ground (arith, times-contains n xs)

-- In a reached pool, `take` hands out a buffer of the pool that nobody holds.
pub take-fresh :
    (shard size : ℕ) (pool after : BufferPool) (held : List ℕ) (b : BufRef)
    → Reached shard size pool held
    → take_buf pool ≡ some (b, after)
    → (contains b.index held ≡ false) × (b.index < size)
unfolding times
take-fresh shard size pool after held b r h =
    let v = reached-Partition shard size after (b.index ∷ held) (taken pool after held b r h) in
    let once = v.split b.index in (times-contains b.index held (ground arith), ground arith)

take_from-none : (pool : BufferPool) (free : List ℕ) → take_from pool free ≡ none → length free ≡ 0
unfolding take_from
take_from-none pool [] h = refl
take_from-none pool (i ∷ free) h = cc

-- In a reached pool, `take` fails only when every buffer is held.
pub take-none :
    (shard size : ℕ) (pool : BufferPool) (held : List ℕ)
    → Reached shard size pool held
    → take_buf pool ≡ none
    → length held ≡ size
unfolding take_buf
take-none shard size pool held r h =
    omega (arith, (reached-Partition shard size pool held r).total, take_from-none pool pool.free h)
