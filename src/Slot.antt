-- ===== src/Slot.antt =====
-- The atomics of one slot, as engine/src/arena.cc and engine/src/service.cc
-- use them: a strong compare-exchange of the control word, and the store of the birth time.
pub mod Kept
pub mod Ages
use semantic_sentinel.Base.{ℕ, Bool, true, false, ◌==◌, if◌then◌else◌}
use semantic_sentinel.Node.{MetaNode}
use semantic_sentinel.Arena.{Arena}

module _ {F : Type 0} where
  abbrev pub set_node : ℕ → MetaNode → Arena F → Arena F
  set_node node_id node a = record a { metadata = λ i. if i == node_id then node else a.metadata i }

  unfoldable pub set_control : ℕ → ℕ → Arena F → Arena F
  set_control node_id control a =
      set_node node_id (record (a.metadata node_id) { control_block = control }) a

  unfoldable pub set_created_at : ℕ → ℕ → Arena F → Arena F
  set_created_at node_id time a =
      set_node node_id (record (a.metadata node_id) { created_at = time }) a

  -- `control_block.compare_exchange_strong(expected, desired)`: whether it wrote, and the arena.
  unfoldable pub exchange_control : ℕ → ℕ → ℕ → Arena F → Bool × Arena F
  unfolding set_control
  exchange_control node_id expected desired a =
      if (a.metadata node_id).control_block == expected
      then (true, set_control node_id desired a)
      else (false, a)
