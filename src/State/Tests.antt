-- ===== src/State/Tests.antt =====
-- The replicated types at concrete inputs.
use nexus_sfu.Base.{ℕ, ◌≡◌, refl, ◌≢◌, ◌↔◌, ◌⊎◌, true, false, [], ◌∷◌, arith, position, ok}
use nexus_sfu.State.GCounter.{GCounter, new, merge, fetch_add}
use nexus_sfu.State.GCounter.Lattice.{merge-lattice}
use nexus_sfu.State.LwwReg.{LwwReg}
use nexus_sfu.State.LwwReg as LwwReg
use nexus_sfu.State.LwwReg.Order.{IsOrdered, merge_comm}
use nexus_sfu.State.Orswot.{
  Dot, Orswot, with_capacity, add, remove, add_at, remove_at, contains_element, holds,
  is_tombstoned,
}
use nexus_sfu.State.Orswot as Orswot
use nexus_sfu.State.Orswot.Sound.{Sound}
use nexus_sfu.State.Orswot.Runs.{adds, merges, replica, step, replica-Sound}
use nexus_sfu.State.Orswot.Buried.{IsGone}
use nexus_sfu.State.Orswot.Gone.{remove-IsGone}
use nexus_sfu.State.Orswot.Removal.{held_dot, adder, remover, merge_order}

abbrev two : GCounter
two = fetch_add new 3 2

abbrev five : GCounter
five = fetch_add new 4 5

merge-lattice_example :
    (merge two five ≡ merge five two)
    × (merge (merge two five) new ≡ merge two (merge five new))
    × (merge two two ≡ two)
unfolding new
merge-lattice_example = merge-lattice two five new (omega arith) (omega arith) (omega arith)

abbrev four : ℕ
four = 4

abbrev early : LwwReg ℕ
early = record { value = 10; timestamp = 100; writer = 1 }

abbrev late : LwwReg ℕ
late = record { value = 20; timestamp = 100; writer = 2 }

merge_comm_example :
    (LwwReg.merge early late ≡ LwwReg.merge late early) ↔ (IsOrdered early late ⊎ (early ≡ late))
merge_comm_example = merge_comm early late

abbrev dot : Dot
dot = record { actor_id = 1; clock = 1 }

replica-Sound_example : Sound (replica (with_capacity 2) (adds 42 dot ∷ adds 43 dot ∷ []))
replica-Sound_example = replica-Sound 2 (adds 42 dot ∷ adds 43 dot ∷ []) (omega arith)

-- The element is added again, and comes in by a merge.
remove-IsGone_example :
    let s = replica (with_capacity 2) (adds 42 dot ∷ []) in
    (contains_element (remove s 42 dot).1 42 ≡ false)
    × ((y : ℕ) → (add (remove s 42 dot).1 y (held_dot s 42)).0 ≢ ok true)
    × IsGone 42
        (held_dot s 42)
        (replica (remove s 42 dot).1 (adds 42 dot ∷ merges (adder 9 42 1 1) ∷ []))
unfolding replica step add remove with_capacity position is_tombstoned Orswot.merge
remove-IsGone_example =
    remove-IsGone 2 (adds 42 dot ∷ []) 42 dot (adds 42 dot ∷ merges (adder 9 42 1 1) ∷ [])
      (omega arith) refl (refl, (refl, tt))

merge_order_example :
    (contains_element (Orswot.merge (adder 9 7 1 1) (remover 9 8 1 2)).1 7 ≡ true)
    × (contains_element (Orswot.merge (remover 9 8 1 2) (adder 9 7 1 1)).1 7 ≡ false)
merge_order_example =
    merge_order 9 7 8 1 1 2 (omega arith) (omega arith) (omega arith) (omega arith)
