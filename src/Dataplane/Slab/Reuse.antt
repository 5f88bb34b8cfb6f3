-- ===== src/Dataplane/Slab/Reuse.antt =====
-- A slot of slab.rs that is vacated and filled again.
use nexus_sfu.Base.{◌≡◌, none, some, ◌∷◌, get_elem?, set}
use nexus_sfu.Dataplane.Slab.{Key, Slot, Slab}

module _ {A : Type 0} where
  -- What a removal leaves: the slot's generation, and its index on the free stack.
  record Leaves (s : Slab A) (key : Key) (t : Slab A) : Type 0 where
    old : Slot A
    found : get_elem? s.slots key.index ≡ some old
    same : old.gen ≡ key.gen
    slots : t.slots ≡ set s.slots key.index (record old { value = none })
    free : t.free ≡ key.index ∷ s.free
