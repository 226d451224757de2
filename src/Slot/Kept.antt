-- ===== src/Slot/Kept.antt =====
-- Changes of an arena of engine/src/arena.cc that leave its ring alone and its slots in order.
use Prim.Native.String.{String}
use semantic_sentinel.Base.{ℕ, ◌^◌, ◌<◌, ◌≡◌, ◌≢◌, inl, inr, refl, sym, ◌∙◌, ap, Bool-cases, ◌==◌}
use semantic_sentinel.Node.{
  NodeState, migrating, EvictState, UnpackedControl, pack_control, unpack_control,
}
use semantic_sentinel.Node.Layout.{pack_control-lt, unpack_control-pack_control}
use semantic_sentinel.Result.{Result, ok, thrown, fault}
use semantic_sentinel.Message.{Status, caught}
use semantic_sentinel.Arena.{Arena}
use semantic_sentinel.Slot.{set_control, set_created_at, exchange_control}

-- A 64-bit word whose state is one that the handlers and the collector give.
pub record IsSettled (control : ℕ) : Type 0 where
  pub word : control < 2 ^ 64
  pub settled : (unpack_control control).state ≢ migrating

pub pack_control-IsSettled :
    (s : NodeState) (r : EvictState) (len off : ℕ)
    → s ≢ migrating
    → IsSettled (pack_control s r len off)
pack_control-IsSettled s r len off h = record {
  word = pack_control-lt s r len off;
  settled = λ e.
      h (sym (ap (λ (u : UnpackedControl). u.state) (unpack_control-pack_control s r len off)) ∙ e);
}

module _ {F : Type 0} where
  abbrev pub AllSettled : Arena F → Type 0
  AllSettled a = (i : ℕ) → IsSettled (a.metadata i).control_block

  -- The ring is the same, and the slots are settled if they were.
  pub record Kept (a b : Arena F) : Type 0 where
    pub buffer : b.buffer_payload ≡ a.buffer_payload
    pub head : b.write_head ≡ a.write_head
    pub tail : b.read_tail ≡ a.read_tail
    pub slots : AllSettled a → AllSettled b

  pub Kept-refl : (a : Arena F) → Kept a a
  Kept-refl a = record { buffer = refl; head = refl; tail = refl; slots = λ h. h }

  pub Kept-trans : (a b c : Arena F) → Kept a b → Kept b c → Kept a c
  Kept-trans a b c h k = record {
    buffer = k.buffer ∙ h.buffer;
    head = k.head ∙ h.head;
    tail = k.tail ∙ h.tail;
    slots = λ s. k.slots (h.slots s);
  }

  pub set_created_at-Kept : (i time : ℕ) (a : Arena F) → Kept a (set_created_at i time a)
  unfolding set_created_at
  set_created_at-Kept i time a = record {
    buffer = refl;
    head = refl;
    tail = refl;
    slots = λ s j. elim (Bool-cases (j == i)) [ inl e ↦ rw e (s i) | inr e ↦ rw e (s j) ];
  }

  pub set_control-Kept :
      (i control : ℕ) (a : Arena F)
      → (AllSettled a → IsSettled control)
      → Kept a (set_control i control a)
  unfolding set_control
  set_control-Kept i control a h = record {
    buffer = refl;
    head = refl;
    tail = refl;
    slots = λ s j. elim (Bool-cases (j == i)) [ inl e ↦ rw e (h s) | inr e ↦ rw e (s j) ];
  }

  pub exchange_control-Kept :
      (i expected desired : ℕ) (a : Arena F)
      → (AllSettled a → IsSettled desired)
      → Kept a (exchange_control i expected desired a).1
  unfolding exchange_control
  exchange_control-Kept i expected desired a h =
      elim (Bool-cases ((a.metadata i).control_block == expected)) [
        | inr failed ↦ rw failed (Kept-refl a)
        | inl won ↦ rw won (set_control-Kept i desired a h)
      ]

-- The handlers of exceptions leave the state alone.
pub caught-state :
    {S A : Type 0} (prefix : String) (response : A) (r : Result (Status × A)) (x : S)
    → (caught prefix response (r, x)).1 ≡ x
caught-state prefix response (ok v) x = refl
caught-state prefix response (thrown v) x = refl
caught-state prefix response fault x = refl
