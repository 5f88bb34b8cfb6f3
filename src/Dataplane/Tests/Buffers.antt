-- ===== src/Dataplane/Tests/Buffers.antt =====
-- The theorems on the slab and the pool at concrete states.
use nexus_sfu.Base.{
  ℕ, ◌*◌, ◌<◌, ◌≡◌, refl, false, none, some, List, [], ◌∷◌, replicate, contains, count,
}
use nexus_sfu.Dataplane.Slab.{Key, Slab, insert, insert_with, remove, remove_slot, remove_value}
use nexus_sfu.Dataplane.Slab.Sound.{Sound, remove-Sound}
use nexus_sfu.Dataplane.Slab.Lookup.{entry_of, Adds, insert-Adds, remove-Adds}
use nexus_sfu.Dataplane.Slab.{get}
use nexus_sfu.Dataplane.Slab.Keys.{get-live}
use nexus_sfu.Dataplane.Pool
use nexus_sfu.Dataplane.Pool.{
  BufRef, BufferPool, buf_size, free_indices, capacity, available, take_from, take_buf, put,
}
use nexus_sfu.Dataplane.Pool.Held.{Reached, start, taken, Partition, reached-Partition, take-fresh}

abbrev key : ℕ → Key
key gen = record { index = 0; gen = gen }

-- One entry, then none, then another.
abbrev one : Slab ℕ
one = record { slots = record { gen = 0; value = some 7 } ∷ []; free = []; len = 1 }

abbrev vacated : Slab ℕ
vacated = record { slots = record { gen = 0; value = none } ∷ []; free = 0 ∷ []; len = 0 }

abbrev refilled : Slab ℕ
refilled = record { slots = record { gen = 1; value = some 8 } ∷ []; free = []; len = 1 }

removed : remove one (key 0) ≡ some (7, vacated)
unfolding remove remove_slot remove_value
removed = refl

inserted : insert vacated 8 ≡ some (key 1, refilled)
unfolding insert insert_with
inserted = refl

one-Sound : Sound one
unfolding count
one-Sound = record { vacant = tt; counted = refl; all = refl }

vacated-Sound : Sound vacated
vacated-Sound = remove-Sound one (key 0) 7 vacated one-Sound removed

insert-Adds_example : Adds vacated (key 1) 8 refilled
insert-Adds_example = insert-Adds vacated 8 (key 1) refilled inserted

remove-Adds_example : Adds vacated (key 0) 7 one
remove-Adds_example = remove-Adds one (key 0) 7 vacated removed

abbrev pool : List ℕ → BufferPool
pool free = record { shard = 3; memory = replicate (1 * buf_size) 0; free = free }

abbrev buffer : BufRef
buffer = record { shard = 3; index = 0 }

created : Pool.new 3 1 ≡ some (pool (0 ∷ []))
unfolding Pool.new free_indices
created = refl

took : take_buf (pool (0 ∷ [])) ≡ some (buffer, pool [])
unfolding take_buf take_from
took = refl

failed : take_buf (pool []) ≡ none
unfolding take_buf take_from
failed = refl

at_start : Reached 3 1 (pool (0 ∷ [])) []
at_start = start (pool (0 ∷ [])) created

all_held : Reached 3 1 (pool []) (0 ∷ [])
all_held = taken (pool (0 ∷ [])) (pool []) [] buffer at_start took

reached-Partition_example : Partition 1 (pool []) (0 ∷ [])
reached-Partition_example = reached-Partition 3 1 (pool []) (0 ∷ []) all_held

take-fresh_example : (contains 0 [] ≡ false) × (0 < 1)
take-fresh_example = take-fresh 3 1 (pool (0 ∷ [])) (pool []) [] buffer at_start took

live_read : get one (key 0) ≡ some 7
unfolding entry_of
live_read = get-live one (key 0) 7 refl
