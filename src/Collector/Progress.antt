-- ===== src/Collector/Progress.antt =====
-- Iterations of `RunGarbageCollector` in engine/src/arena.cc with no other thread in the way: what
-- one does to a queue of payloads, and how many remain.
use semantic_sentinel.Base.{
  ℕ, ◌+◌, ◌-◌, ◌%◌, ◌^◌, ◌≤◌, ◌<◌, ◌≡◌, ◌≢◌, ◌⊎◌, inl, inr, refl, ◌∙◌, ap, subst, fun_ext, arith,
  true, Bool-cases, List, [], ◌∷◌, ◌++◌, add64, sub64, length,
}
use native.Mathlib.Decide.{dec_lt, ℕ_discrete}
use semantic_sentinel.Constant.{payload_buffer_size, max_payload_length, low_watermark_threshold}
use semantic_sentinel.Node.{dead, cold, hot, UnpackedControl, pack_control, load_control}
use semantic_sentinel.Node.Layout.{pack_control-lt}
use semantic_sentinel.Result.{ok, thrown, resource_exhausted}
use semantic_sentinel.Arena.{Arena, header_size, header_padding}
use semantic_sentinel.Arena.Allocate.{ring_index-mod, used}
use semantic_sentinel.Arena.Queue.{Entry, Stands, place, span, past, Chain, Holds}
use semantic_sentinel.Slot.{set_control, set_created_at}
use semantic_sentinel.Slot.Kept.{
  AllSettled, pack_control-IsSettled, Kept-trans, set_control-Kept, set_created_at-Kept,
}
use semantic_sentinel.Collector.{is_dead, advance, sweep, treat, collect_once}
use semantic_sentinel.Collector.Visit.{quiet, AtTail, AtTail-length, nap, collect_once_treats}
use semantic_sentinel.Collector.Rescue.{rescued_offset, after_rescue, rescue_runs}
use semantic_sentinel.Collector.Evict.{
  evicted, evicted-control, collect_once-evicted, collect_once_unhandled, collect_once_passes,
}
use semantic_sentinel.Collector.SecondChance.{cold_control}
use semantic_sentinel.Collector.Queue.{
  skip, drop_first, requeue, oldest-Stands, dropped, control, oldest-AtTail, rescued-Holds,
}
use semantic_sentinel.Collector.Sweep.{pad, pass, evict, rescue, Advanced}
use semantic_sentinel.Collector.Measure.{
  visits_of, all_visits-append, all_visits_mono, visits_of_le, visits_pos, EvictState-cases,
  is_dead-dead,
}

module _ {F : Type 0} where
  evicted-AllSettled :
      (n : ℕ) (u : UnpackedControl) (a : Arena F) → AllSettled a → AllSettled (evicted a n u)
  evicted-AllSettled n u a =
      let d = pack_control dead u.ref_bit u.length u.virtual_offset in
      let b = set_control n d a in
      (Kept-trans a b (evicted a n u)
        (set_control-Kept n d a
          (λ _. pack_control-IsSettled dead u.ref_bit u.length u.virtual_offset (λ e. cc)))
        (set_created_at-Kept n 0 b)).slots

  abbrev pub Outcome : Arena F → List Entry → Type 0
  Outcome a q =
      (collect_once quiet a ≡ (thrown resource_exhausted, a))
        × (payload_buffer_size ≤ used a + header_size + max_payload_length)
      ⊎ ((a' : Arena F) × (q' : List Entry) × (collect_once quiet a ≡ (ok (nap a), a'))
          × Advanced a q a' q')

  collect_once_skips :
      (a : Arena F)
      → low_watermark_threshold ≤ used a
      → 0 < header_padding a.read_tail
      → collect_once quiet a
        ≡ (ok (nap a), record a { read_tail = add64 a.read_tail (header_padding a.read_tail) })
  unfolding collect_once sweep advance
  collect_once_skips a loaded near = ground (arith, ring_index-mod a.read_tail)

  skipped :
      {a : Arena F} {e : Entry} {q : List Entry}
      → Holds a (e ∷ q)
      → 0 < header_padding a.read_tail
      → let a' = record a { read_tail = add64 a.read_tail (header_padding a.read_tail) } in
        Advanced a (e ∷ q) a' (e ∷ q)
  skipped {a} {e} {q} h near =
      let v = h.valid in
      let t = a.read_tail in
      let p = header_padding t in
      let t' = add64 t p in
      let flat : header_padding t' ≡ 0 = ground (arith, ring_index-mod t, ring_index-mod t') in
      let c = h.chain in
      let same : place t ≡ place t' = omega arith in
      let left : used a - span t e ≡ sub64 a.write_head t' - span t' e = omega (arith, c.0) in
      let rest = subst (λ z. Chain a.buffer_payload (past t e) z q) left c.2 in
      record {
        holds = record {
          valid = omega (arith, c.0);
          fits = omega (arith, c.0, h.fits);
          words = h.words;
          chain = (
            omega (arith, c.0),
            subst (λ z. Stands a.buffer_payload z e) same c.1,
            subst
                (λ z.
                  Chain a.buffer_payload (add64 z (header_size + length e.text))
                    (sub64 a.write_head t' - span t' e) q)
                same rest,
          );
        };
        move = skip (e ∷ q);
        less = ground arith;
        calm = omega (arith, c.0);
        slots = λ s. s;
        swept = pad (e ∷ q);
      }

  module _ {a : Arena F} {e : Entry} {q : List Entry} (h : Holds a (e ∷ q))
      (loaded : low_watermark_threshold ≤ used a) (flat : header_padding a.read_tail ≡ 0) where
    passed :
        (is_dead (control h).state ≡ true) ⊎ ((control h).virtual_offset ≢ a.read_tail % 2 ^ 37)
        → Outcome a (e ∷ q)
    passed stale =
        let s = oldest-Stands h flat in
        let n = length e.text in
        let a' = record a { read_tail = add64 a.read_tail (header_size + n) } in
        let why : ((control h).state ≡ dead) ⊎ ((control h).virtual_offset ≢ a.read_tail % 2 ^ 37) =
          elim stale [
            | inl gone ↦ inl (is_dead-dead (control h).state gone)
            | inr other ↦ inr other
          ] in
        inr (
          a',
          q,
          collect_once_passes a e.node_id n loaded (ground (arith, ring_index-mod a.read_tail))
              s.header s.slot s.small why,
          record {
            holds = dropped h a' flat refl refl refl h.words;
            move = drop_first e q;
            less = ground (arith, visits_pos (control h).ref_bit);
            calm = omega (arith, h.chain.0);
            slots = λ s. s;
            swept = pass e q flat why;
          },
        )

    Outcome-cold :
        AtTail a e.node_id (length e.text) (control h)
        → (control h).ref_bit ≡ cold
        → Outcome a (e ∷ q)
    unfolding set_control set_created_at
    Outcome-cold at chilly =
        let n = e.node_id in
        let a' = record (evicted a n (control h)) {
          read_tail = add64 a.read_tail (header_size + length e.text);
        } in
        let c = evicted-control at in
        let u = control h in
        let words : (i : ℕ) → (a'.metadata i).control_block < 2 ^ 64 = λ i.
          ground (arith, h.words i, pack_control-lt dead u.ref_bit u.length u.virtual_offset) in
        let cooler = all_visits_mono a.metadata a'.metadata q (
          visits_of_le a.metadata a'.metadata n (fun_ext λ i. ground arith)
            (ground (arith, ap (λ w. w.ref_bit) c))) in
        inr (
          a',
          q,
          collect_once-evicted at chilly,
          record {
            holds = dropped h a' flat refl refl refl words;
            move = drop_first e q;
            less = ground (arith, visits_pos u.ref_bit, cooler);
            calm = omega (arith, h.chain.0, cooler);
            slots = evicted-AllSettled n u a;
            swept = evict e q flat at;
          },
        )

    Outcome-hot :
        AtTail a e.node_id (length e.text) (control h)
        → (control h).ref_bit ≡ hot
        → Outcome a (e ∷ q)
    unfolding set_control
    Outcome-hot at warm =
        let n = length e.text in
        elim (dec_lt (used a + header_size + n) payload_buffer_size) [
          | no full ↦ inl (collect_once_unhandled at warm (omega arith), omega (arith, at.small))
          | yes room ↦
              let (m', ran, copy) = rescue_runs at room warm in
              let u = control h in
              let b = after_rescue at m' in
              let a' = record b { read_tail = add64 a.read_tail (header_size + n) } in
              let c = cold_control u (rescued_offset a) (AtTail-length at) in
              let cooled : visits_of a'.metadata e ≡ 1 = unfold load_control in ground (arith, c) in
              let cooler = all_visits_mono a.metadata a'.metadata q (
                visits_of_le a.metadata a'.metadata e.node_id (fun_ext λ i. ground arith)
                  (omega (arith, cooled, visits_pos u.ref_bit))) in
              inr (
                a',
                q ++ (e ∷ []),
                collect_once_treats b at (
                    ap (λ r. treat r quiet a.read_tail e.node_id n u a) warm ∙ unfold treat in ran),
                record {
                  holds = rescued-Holds h at m' flat room copy;
                  move = requeue e q;
                  less = ground (arith, cooler, cooled, all_visits-append a'.metadata q e);
                  calm = ground (
                    arith,
                    cooler,
                    cooled,
                    all_visits-append a'.metadata q e,
                    h.chain.0,
                    ring_index-mod a.write_head,
                  );
                  slots = λ s.
                      (set_control-Kept e.node_id
                          (pack_control u.state cold u.length (rescued_offset a)) a
                          (λ _.
                            pack_control-IsSettled u.state cold u.length (rescued_offset a)
                              (unfold load_control in (s e.node_id).settled))).slots
                        s;
                  swept = rescue e q flat at m';
                },
              )
        ]

  -- An iteration with no other thread in the way, on a loaded ring that holds the payloads `q`, throws and changes nothing, or it leaves
  -- a ring that holds the same payloads, or those but the oldest, or the oldest moved to the end; and
  -- then fewer iterations remain.
  pub collect_once_moves :
      (a : Arena F) (q : List Entry) → Holds a q → low_watermark_threshold ≤ used a → Outcome a q
  collect_once_moves a [] h loaded = absurd (omega (arith, h.chain))
  collect_once_moves a (e ∷ q) h loaded = elim (dec_lt 0 (header_padding a.read_tail)) [
    | yes near ↦ inr (
      record a { read_tail = add64 a.read_tail (header_padding a.read_tail) },
      e ∷ q,
      collect_once_skips a loaded near,
      skipped h near,
    )
    | no away ↦
        let flat : header_padding a.read_tail ≡ 0 = omega arith in
        let u = control h in
        elim (Bool-cases (is_dead u.state)) [
          | inl gone ↦ passed h loaded flat (inl gone)
          | inr alive ↦ elim (ℕ_discrete u.virtual_offset (a.read_tail % 2 ^ 37)) [
            | no other ↦ passed h loaded flat (inr other)
            | yes epoch ↦
                let at = oldest-AtTail h loaded flat alive epoch in
                elim (EvictState-cases u.ref_bit) [
                  | inl chilly ↦ Outcome-cold h loaded flat at chilly
                  | inr warm ↦ Outcome-hot h loaded flat at warm
                ]
          ]
        ]
  ]
