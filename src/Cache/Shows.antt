-- ===== src/Cache/Shows.antt =====
-- Which cache an arena of engine/src/arena.cc stands for, slot by slot: a ready slot refers to a
-- payload of the ring that names it and is as long as its word says.
use semantic_sentinel.Base.{
  ℕ, ◌+◌, ◌%◌, ◌^◌, ◌≡◌, inl, inr, refl, sym, fun_ext, ◌≢◌, Bool-cases, ◌==◌, ==_iff, ◌∙◌, ap,
  arith, List, length,
}
use semantic_sentinel.Node.{dead, pending, ready, UnpackedControl, load_control}
use semantic_sentinel.Memory.{Bytes}
use semantic_sentinel.Arena.{Arena, header_size}
use semantic_sentinel.Arena.Allocate.{used}
use semantic_sentinel.Arena.Ring.{ring_text, ring_text_mod}
use semantic_sentinel.Arena.Queue.{Entry, Chain}
use semantic_sentinel.Slot.Ages.{Alike}
use semantic_sentinel.Engine.Stores.{IsSound}
use semantic_sentinel.Cache.{Slot, free, claimed, filled, Cache, put}
use semantic_sentinel.Cache.View.{slot_of, seen, view, Live, Live-Stands}

-- The ring has the text for the slot at the offset of its word.
pub record Backs (t : ℕ) (q : List Entry) (i : ℕ) (u : UnpackedControl) (text : List ℕ)
    : Type 0 where
  pub state : u.state ≡ ready
  pub length_field : u.length ≡ length text
  pub offset : ℕ
  pub epoch : offset % 2 ^ 37 ≡ u.virtual_offset
  pub live : Live t q offset (record { node_id = i; text = text })

abbrev pub Shows : ℕ → List Entry → ℕ → UnpackedControl → Slot → Type 0
Shows t q i u free = u.state ≡ dead
Shows t q i u claimed = u.state ≡ pending
Shows t q i u (filled text) = Backs t q i u text

-- The same fields show the same slot, and so do payloads among which the old ones are.
pub Shows-live :
    (t t' : ℕ) (q q' : List Entry) (i : ℕ) (u : UnpackedControl) (s : Slot)
    → ((p : ℕ) (text : List ℕ)
        → u.state ≡ ready
        → p % 2 ^ 37 ≡ u.virtual_offset
        → Live t q p (record { node_id = i; text = text })
        → Live t' q' p (record { node_id = i; text = text }))
    → Shows t q i u s
    → Shows t' q' i u s
Shows-live t t' q q' i u free h s = s
Shows-live t t' q q' i u claimed h s = s
Shows-live t t' q q' i u (filled text) h s = record {
  state = s.state;
  length_field = s.length_field;
  offset = s.offset;
  epoch = s.epoch;
  live = h s.offset text s.state s.epoch s.live;
}

pub Shows-Alike :
    (t : ℕ) (q : List Entry) (i : ℕ) (u w : UnpackedControl) (s : Slot)
    → Alike u w
    → Shows t q i u s
    → Shows t q i w s
Shows-Alike t q i u w free e s = e.state ∙ s
Shows-Alike t q i u w claimed e s = e.state ∙ s
Shows-Alike t q i u w (filled text) e s = record {
  state = e.state ∙ s.state;
  length_field = e.length_field ∙ s.length_field;
  offset = s.offset;
  epoch = s.epoch ∙ sym e.virtual_offset;
  live = s.live;
}

-- The state of its word says what a slot without a text is.
pub Shows-free :
    (t : ℕ) (q : List Entry) (i : ℕ) (u : UnpackedControl) (s : Slot)
    → u.state ≡ dead
    → Shows t q i u s
    → s ≡ free
Shows-free t q i u free e s = refl
Shows-free t q i u claimed e s = absurd (cc)
Shows-free t q i u (filled text) e s = absurd (let r = s.state in cc)

pub Shows-claimed :
    (t : ℕ) (q : List Entry) (i : ℕ) (u : UnpackedControl) (s : Slot)
    → u.state ≡ pending
    → Shows t q i u s
    → s ≡ claimed
Shows-claimed t q i u free e s = absurd (cc)
Shows-claimed t q i u claimed e s = refl
Shows-claimed t q i u (filled text) e s = absurd (let r = s.state in cc)

Shows-seen :
    (m : Bytes) (t left : ℕ) (q : List Entry) (i : ℕ) (u : UnpackedControl) (s : Slot)
    → Chain m t left q
    → Shows t q i u s
    → seen m u ≡ s
Shows-seen m t left q i u free c s =
    ap (λ n. slot_of n (ring_text m (u.virtual_offset + header_size) u.length)) s
Shows-seen m t left q i u claimed c s =
    ap (λ n. slot_of n (ring_text m (u.virtual_offset + header_size) u.length)) s
Shows-seen m t left q i u (filled text) c s =
    let stands = Live-Stands m t left q s.offset (record { node_id = i; text = text }) c s.live in
    let o = u.virtual_offset + header_size in
    ap (λ n. slot_of n (ring_text m o u.length)) s.state
    ∙ ap (λ n. filled (ring_text m o n)) s.length_field
    ∙ ap filled (
        ring_text_mod m o (s.offset + header_size) (length text) (omega (arith, s.epoch))
        ∙ stands.text)

module _ {F : Type 0} where
  -- The ring of the arena holds the payloads `q`, no slot is migrating, and the slots stand for `v`.
  pub record StandsFor (a : Arena F) (q : List Entry) (v : Cache) : Type 0 where
    pub sound : IsSound a q
    pub shows : (i : ℕ) → Shows a.read_tail q i (load_control (a.metadata i)) (v i)

  pub StandsFor-view : {a : Arena F} {q : List Entry} {v : Cache} → StandsFor a q v → view a ≡ v
  StandsFor-view {a} {q} {v} r = fun_ext λ i.
      Shows-seen a.buffer_payload a.read_tail (used a) q i (load_control (a.metadata i)) (v i)
        r.sound.holds.chain (r.shows i)

  -- One slot stands for something else.
  pub put-StandsFor :
      (i : ℕ) (s : Slot) (a : Arena F) (q : List Entry) (v : Cache)
      → IsSound a q
      → Shows a.read_tail q i (load_control (a.metadata i)) s
      → ((j : ℕ) → j ≢ i → Shows a.read_tail q j (load_control (a.metadata j)) (v j))
      → StandsFor a q (put i s v)
  put-StandsFor i s a q v sound one others = record {
    sound = sound;
    shows = λ j. elim (Bool-cases (j == i)) [
      | inl e ↦ let same = (==_iff j i).0 e in rw (e, same) one
      | inr e ↦ rw e (others j (λ h. ground arith))
    ];
  }
