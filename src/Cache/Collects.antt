-- ===== src/Cache/Collects.antt =====
-- Iterations of `RunGarbageCollector` in engine/src/arena.cc, with no other thread in the way, as
-- steps of the cache.
use semantic_sentinel.Base.{
  ℕ, ◌+◌, ◌-◌, ◌%◌, ◌^◌, ◌≡◌, ◌≢◌, ◌⊎◌, inl, inr, refl, sym, fun_ext, ◌∙◌, ap, arith, subst, List,
  [], ◌∷◌, ◌++◌, add64, length,
}
use semantic_sentinel.Node.{dead, cold, UnpackedControl, load_control}
use semantic_sentinel.Memory.{Bytes}
use semantic_sentinel.Arena.{Arena, header_size, header_padding}
use semantic_sentinel.Arena.Allocate.{used}
use semantic_sentinel.Arena.Queue.{Entry, place, span, past, Chain}
use semantic_sentinel.Slot.{set_control, set_created_at}
use native.Mathlib.Decide.{dec_lt}
use semantic_sentinel.Constant.{low_watermark_threshold}
use semantic_sentinel.Result.{ok}
use semantic_sentinel.Collector.{is_dead, collect_once}
use semantic_sentinel.Collector.Visit.{quiet, AtTail, AtTail-length}
use semantic_sentinel.Collector.Progress.{collect_once_moves}
use semantic_sentinel.Collector.Rescue.{rescued_offset, after_rescue}
use semantic_sentinel.Collector.Evict.{evicted, evicted-control, collect_once_idle}
use semantic_sentinel.Collector.SecondChance.{cold_control}
use semantic_sentinel.Collector.Sweep.{Swept, pad, pass, evict, rescue}
use semantic_sentinel.Engine.Stores.{IsSound}
use semantic_sentinel.Cache.{Slot, free, claimed, filled, Cache, put, Collected, keep, forget}
use semantic_sentinel.Cache.View.{Live, Live-append, Live-last, Live-far, Live-place, Live-rest}
use semantic_sentinel.Cache.Shows.{Backs, Shows, Shows-live, StandsFor, put-StandsFor}

put-own : (i : ℕ) (v : Cache) → put i (v i) v ≡ v
put-own i v = fun_ext λ j. ground arith

module _ {F : Type 0} where
  abbrev Sweeps : Arena F → List Entry → Cache → Type 0
  Sweeps a q v = (w : Cache) × StandsFor a q w × Collected v w

  pad-Sweeps :
      {a : Arena F} (q : List Entry) {v : Cache}
      → StandsFor a q v
      → let a' = record a { read_tail = place a.read_tail } in IsSound a' q → Sweeps a' q v
  pad-Sweeps {a} q {v} s sound =
      let valid = s.sound.holds.valid in
      (
        v,
        record {
          sound = sound;
          shows = λ i.
              Shows-live a.read_tail (place a.read_tail) q q i (load_control (a.metadata i)) (v i)
                (λ p text state epoch live.
                  Live-place a.read_tail q p (record { node_id = i; text = text }) (omega arith)
                    live)
                (s.shows i);
        },
        keep,
      )

  module _ {a : Arena F} {e : Entry} {q : List Entry} {v : Cache} (s : StandsFor a (e ∷ q) v)
      (flat : header_padding a.read_tail ≡ 0) where
    abbrev behind : ℕ
    behind = add64 a.read_tail (header_size + length e.text)

    first-tail : {p : ℕ} → p ≡ place a.read_tail → p ≡ a.read_tail
    first-tail at = let valid = s.sound.holds.valid in omega arith

    abbrev left : ℕ
    left = used a - span a.read_tail e

    rest : Chain a.buffer_payload behind left q
    rest =
        let same : past a.read_tail e ≡ behind = omega arith in
        subst (λ z. Chain a.buffer_payload z left q) same s.sound.holds.chain.2

    -- What another slot than the first payload's stands for is kept.
    others :
        (q' : List Entry) (i : ℕ)
        → ((p : ℕ) (f : Entry) → Live behind q p f → Live behind q' p f)
        → i ≢ e.node_id
        → Shows behind q' i (load_control (a.metadata i)) (v i)
    others q' i more apart =
        Shows-live a.read_tail behind (e ∷ q) q' i (load_control (a.metadata i)) (v i)
          (λ p text state epoch live.
            let f : Entry = record { node_id = i; text = text } in
            elim (Live-rest a.read_tail behind e q p f flat refl live) [
              | inl (_, same) ↦ absurd (apart (ap (λ (x : Entry). x.node_id) same))
              | inr later ↦ more p f later
            ])
          (s.shows i)

    pass-Sweeps :
        ((load_control (a.metadata e.node_id)).state ≡ dead)
          ⊎ ((load_control (a.metadata e.node_id)).virtual_offset ≢ a.read_tail % 2 ^ 37)
        → let a' = record a { read_tail = behind } in IsSound a' q → Sweeps a' q v
    pass-Sweeps stale sound = (
      v,
      record {
        sound = sound;
        shows = λ i.
            Shows-live a.read_tail behind (e ∷ q) q i (load_control (a.metadata i)) (v i)
              (λ p text state epoch live.
                elim (Live-rest a.read_tail behind e q p (record { node_id = i; text = text }) flat
                  refl live) [
                    | inr later ↦ later
                    | inl (at, same) ↦
                        let own = ap (λ (x : Entry). x.node_id) same in
                        let there = first-tail at in
                        elim stale [
                          | inl gone ↦ absurd (let ready_too = rw own at state in cc)
                          | inr other ↦
                              absurd (other (sym (rw own at epoch) ∙ ap (λ z. z % 2 ^ 37) there))
                        ]
                  ])
              (s.shows i);
      },
      keep,
    )

    module _ {u : UnpackedControl} (at : AtTail a e.node_id (length e.text) u) where
      alive : v e.node_id ≢ free
      alive gone =
          let dead_too = subst (Shows a.read_tail (e ∷ q) e.node_id u) gone (
            subst (λ w. Shows a.read_tail (e ∷ q) e.node_id w (v e.node_id)) at.control
              (s.shows e.node_id)) in
          let no = at.alive in ground (arith, ap is_dead dead_too)

      evict-Sweeps :
          let a' = record (evicted a e.node_id u) { read_tail = behind } in
          IsSound a' q → Sweeps a' q v
      unfolding set_control set_created_at
      evict-Sweeps sound =
          let a' = record (evicted a e.node_id u) { read_tail = behind } in
          (
            put e.node_id free v,
            put-StandsFor e.node_id free a' q v sound (ap (λ w. w.state) (evicted-control at))
                (λ j apart.
                  let same : a'.metadata j ≡ a.metadata j = ground arith in
                  rw same (others q j (λ p f later. later) apart)),
            forget e.node_id alive,
          )

      -- The slot's text is the payload at the tail.
      first-text : (text : List ℕ) → Backs a.read_tail (e ∷ q) e.node_id u text → text ≡ e.text
      first-text text b =
          let f : Entry = record { node_id = e.node_id; text = text } in
          let h = s.sound.holds in
          elim (Live-rest a.read_tail behind e q b.offset f flat refl b.live) [
            | inl (_, same) ↦ ap (λ (x : Entry). x.text) same
            | inr later ↦
                let far =
                  Live-far a.buffer_payload behind left q b.offset f (omega arith) (omega arith)
                    rest later in
                absurd (omega (arith, far, h.fits, h.chain.0, h.valid.tail_word, b.epoch, at.epoch))
          ]

      -- A rescued slot stands for what it stood for.
      rescued-Shows :
          (w : UnpackedControl) (z : Slot)
          → w ≡ record u { ref_bit = cold; virtual_offset = rescued_offset a % 2 ^ 37 }
          → Shows a.read_tail (e ∷ q) e.node_id u z
          → Shows behind (q ++ (e ∷ [])) e.node_id w z
      rescued-Shows w free same h = ap (λ x. x.state) same ∙ h
      rescued-Shows w claimed same h = ap (λ x. x.state) same ∙ h
      rescued-Shows w (filled text) same h =
          let valid = s.sound.holds.valid in
          let f : Entry = record { node_id = e.node_id; text = text } in
          let own : e ≡ f =
            ap (λ t. record { node_id = e.node_id; text = t }) (sym (first-text text h)) in
          rw same (record {
            state = h.state;
            length_field = h.length_field;
            offset = rescued_offset a;
            epoch = refl;
            live = subst (Live behind (q ++ (e ∷ [])) (rescued_offset a)) own (
                Live-last a.buffer_payload behind left a.write_head q e (omega arith)
                  (omega (arith, s.sound.holds.chain.0)) rest);
          })

      rescued-word :
          (m' : Bytes)
          → load_control ((after_rescue at m').metadata e.node_id)
            ≡ record u { ref_bit = cold; virtual_offset = rescued_offset a % 2 ^ 37 }
      unfolding set_control load_control
      rescued-word m' = ground (arith, cold_control u (rescued_offset a) (AtTail-length at))

      rescue-Sweeps :
          (m' : Bytes)
          → let a' = record (after_rescue at m') { read_tail = behind } in
            IsSound a' (q ++ (e ∷ [])) → Sweeps a' (q ++ (e ∷ [])) v
      unfolding set_control
      rescue-Sweeps m' sound =
          let a' = record (after_rescue at m') { read_tail = behind } in
          let q' = q ++ (e ∷ []) in
          let n = e.node_id in
          let was = subst (λ w. Shows a.read_tail (e ∷ q) n w (v n)) at.control (s.shows n) in
          let own = rescued-Shows (load_control (a'.metadata n)) (v n) (rescued-word m') was in
          (
            v,
            subst (StandsFor a' q') (put-own n v) (
                put-StandsFor n (v n) a' q' v sound own (λ j apart.
                  let same : a'.metadata j ≡ a.metadata j = ground arith in
                  rw same (others q' j (Live-append behind q (e ∷ [])) apart))),
            keep,
          )

  swept-Sweeps :
      {a : Arena F} {q : List Entry} {a' : Arena F} {q' : List Entry} {v : Cache}
      → Swept a q a' q'
      → StandsFor a q v
      → IsSound a' q'
      → Sweeps a' q' v
  swept-Sweeps (pad q) s sound = pad-Sweeps q s sound
  swept-Sweeps (pass e q flat stale) s sound = pass-Sweeps s flat stale sound
  swept-Sweeps (evict e q flat at) s sound = evict-Sweeps s flat at sound
  swept-Sweeps (rescue e q flat at m') s sound = rescue-Sweeps s flat at m' sound

  -- An iteration that returns, with no other thread in the way, on an arena that stands for a cache.
  pub collect_once-Sweeps :
      (a : Arena F) (q : List Entry) (v : Cache) {slept : ℕ} {a' : Arena F}
      → StandsFor a q v
      → collect_once quiet a ≡ (ok slept, a')
      → (q' : List Entry) × (w : Cache) × StandsFor a' q' w × Collected v w
  collect_once-Sweeps a q v {slept} {a'} s ran = elim (dec_lt (used a) low_watermark_threshold) [
    | yes low ↦
        let same : a ≡ a' = ap (λ r. r.1) (sym (collect_once_idle quiet a low) ∙ ran) in
        (q, v, subst (λ z. StandsFor z q v) same s, keep)
    | no loaded ↦ elim (collect_once_moves a q s.sound.holds (omega arith)) [
      | inl (threw, _) ↦ absurd (ground arith)
      | inr (b, q', moved, adv) ↦
          let same : b ≡ a' = ap (λ r. r.1) (sym moved ∙ ran) in
          let sound : IsSound b q' = record {
            holds = adv.holds;
            settled = adv.slots s.sound.settled;
          } in
          let (w, t, step) = swept-Sweeps adv.swept s sound in
          (q', w, subst (λ z. StandsFor z q' w) same t, step)
    ]
  ]
