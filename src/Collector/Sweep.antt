-- ===== src/Collector/Sweep.antt =====
-- What an iteration of `RunGarbageCollector` in engine/src/arena.cc does to a ring that is loaded
-- enough for it to work, with no other thread in the way.
use semantic_sentinel.Base.{
  ◌+◌, ◌%◌, ◌^◌, ◌≤◌, ◌<◌, ◌≡◌, ◌≢◌, ◌⊎◌, List, [], ◌∷◌, ◌++◌, add64, length,
}
use semantic_sentinel.Node.{dead, UnpackedControl, load_control}
use semantic_sentinel.Memory.{Bytes}
use semantic_sentinel.Arena.{Arena, header_size, header_padding}
use semantic_sentinel.Arena.Queue.{Entry, Holds}
use semantic_sentinel.Slot.Kept.{AllSettled}
use semantic_sentinel.Collector.Visit.{AtTail}
use semantic_sentinel.Collector.Rescue.{after_rescue}
use semantic_sentinel.Collector.Evict.{evicted}
use semantic_sentinel.Collector.Queue.{Move}
use semantic_sentinel.Collector.Measure.{remaining, reach}

module _ {F : Type 0} where
  -- What an iteration on a loaded ring does: it skips the bytes before the oldest payload, passes over
  -- one that no slot refers to, evicts its slot, or moves it to the head.
  pub data Swept (a : Arena F) : List Entry → Arena F → List Entry → Type 0 where
    pad :
        (q : List Entry)
        → Swept a q (record a { read_tail = add64 a.read_tail (header_padding a.read_tail) }) q
    pass :
        (e : Entry) (q : List Entry)
        → header_padding a.read_tail ≡ 0
        → ((load_control (a.metadata e.node_id)).state ≡ dead)
          ⊎ ((load_control (a.metadata e.node_id)).virtual_offset ≢ a.read_tail % 2 ^ 37)
        → Swept a
            (e ∷ q)
            (record a { read_tail = add64 a.read_tail (header_size + length e.text) })
            q
    evict :
        (e : Entry) (q : List Entry) {u : UnpackedControl}
        → header_padding a.read_tail ≡ 0
        → AtTail a e.node_id (length e.text) u
        → Swept a
            (e ∷ q)
            (record (evicted a e.node_id u) {
              read_tail = add64 a.read_tail (header_size + length e.text);
            })
            q
    rescue :
        (e : Entry) (q : List Entry) {u : UnpackedControl}
        → header_padding a.read_tail ≡ 0
        → (at : AtTail a e.node_id (length e.text) u) (m' : Bytes)
        → Swept a
            (e ∷ q)
            (record (after_rescue at m') {
              read_tail = add64 a.read_tail (header_size + length e.text);
            })
            (q ++ (e ∷ []))

  -- What an iteration on a loaded ring leaves.
  pub record Advanced (a : Arena F) (q : List Entry) (a' : Arena F) (q' : List Entry) : Type 0 where
    pub holds : Holds a' q'
    pub move : Move q q'
    pub less : remaining a' q' < remaining a q
    pub calm : reach a' q' ≤ reach a q
    pub slots : AllSettled a → AllSettled a'
    pub swept : Swept a q a' q'
