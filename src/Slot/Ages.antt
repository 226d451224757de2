-- ===== src/Slot/Ages.antt =====
-- Changes of an arena of engine/src/arena.cc that leave its ring alone and of each slot all but the
-- reference bit, or give its claim up.
use semantic_sentinel.Base.{ℕ, ◌≡◌, ◌⊎◌, inl, inr, refl, sym, ==_iff, ◌∙◌, Bool-cases, ◌==◌}
use semantic_sentinel.Node.{dead, pending, UnpackedControl, unpack_control, load_control}
use semantic_sentinel.Arena.{Arena}
use semantic_sentinel.Slot.{set_control, set_created_at, exchange_control}
use semantic_sentinel.Slot.Kept.{
  IsSettled, AllSettled, Kept, Kept-refl, Kept-trans, set_created_at-Kept, set_control-Kept,
}

-- Words that differ in the reference bit at most.
pub record Alike (u w : UnpackedControl) : Type 0 where
  pub state : w.state ≡ u.state
  pub length_field : w.length ≡ u.length
  pub virtual_offset : w.virtual_offset ≡ u.virtual_offset

pub Alike-refl : (u : UnpackedControl) → Alike u u
Alike-refl u = record { state = refl; length_field = refl; virtual_offset = refl }

-- The same, or the second word says that a claim is given up.
abbrev pub Turned : UnpackedControl → UnpackedControl → Type 0
Turned u w = Alike u w ⊎ ((u.state ≡ pending) × (w.state ≡ dead))

Turned-trans : (u v w : UnpackedControl) → Turned u v → Turned v w → Turned u w
Turned-trans u v w (inl h) (inl k) = inl (record {
  state = k.state ∙ h.state;
  length_field = k.length_field ∙ h.length_field;
  virtual_offset = k.virtual_offset ∙ h.virtual_offset;
})
Turned-trans u v w (inl h) (inr (k, d)) = inr (sym h.state ∙ k, d)
Turned-trans u v w (inr (h, d)) (inl k) = inr (h, k.state ∙ d)
Turned-trans u v w (inr (h, d)) (inr (k, e)) = inr (h, e)

module _ {F : Type 0} where
  pub record Ages (a b : Arena F) : Type 0 where
    pub kept : Kept a b
    pub turned : (i : ℕ) → Turned (load_control (a.metadata i)) (load_control (b.metadata i))

  pub Ages-refl : (a : Arena F) → Ages a a
  Ages-refl a = record {
    kept = Kept-refl a;
    turned = λ i. inl (Alike-refl (load_control (a.metadata i)));
  }

  pub Ages-trans : (a b c : Arena F) → Ages a b → Ages b c → Ages a c
  Ages-trans a b c h k = record {
    kept = Kept-trans a b c h.kept k.kept;
    turned = λ i.
        Turned-trans (load_control (a.metadata i)) (load_control (b.metadata i))
          (load_control (c.metadata i)) (h.turned i) (k.turned i);
  }

  pub set_created_at-Ages : (i time : ℕ) (a : Arena F) → Ages a (set_created_at i time a)
  unfolding set_created_at load_control
  set_created_at-Ages i time a = record {
    kept = set_created_at-Kept i time a;
    turned = λ j. elim (Bool-cases (j == i)) [
      | inl e ↦
          let same = (==_iff j i).0 e in
          inl (rw (e, same) (Alike-refl (load_control (a.metadata i))))
      | inr e ↦ inl (rw e (Alike-refl (load_control (a.metadata j))))
    ];
  }

  set_control-Turned :
      (i control : ℕ) (a : Arena F)
      → Turned (load_control (a.metadata i)) (unpack_control control)
      → (j : ℕ)
      → Turned (load_control (a.metadata j)) (load_control ((set_control i control a).metadata j))
  unfolding set_control load_control
  set_control-Turned i control a h j = elim (Bool-cases (j == i)) [
    | inl e ↦ let same = (==_iff j i).0 e in rw (e, same) h
    | inr e ↦ rw e (inl (Alike-refl (load_control (a.metadata j))))
  ]

  pub exchange_control-Ages :
      (i expected desired : ℕ) (a : Arena F)
      → (AllSettled a → IsSettled desired)
      → Turned (unpack_control expected) (unpack_control desired)
      → Ages a (exchange_control i expected desired a).1
  unfolding exchange_control load_control
  exchange_control-Ages i expected desired a settled turned =
      let c = (a.metadata i).control_block in
      elim (Bool-cases (c == expected)) [
        | inr failed ↦ rw failed (Ages-refl a)
        | inl won ↦
            let same = (==_iff c expected).0 won in
            rw won (record {
              kept = set_control-Kept i desired a settled;
              turned = set_control-Turned i desired a (rw same turned);
            })
      ]
