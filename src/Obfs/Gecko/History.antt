-- ===== src/Obfs/Gecko/History.antt =====
-- Chunks and expiries in any order.
use hysteria.Common.{
  ℕ, ◌≡◌, inl, inr, refl, ◌∙◌, ap₂, List, [], ◌∷◌, none, true, ltb, leb, ◌==◌, arith, Bool-cases,
  Option-cases, length-replicate,
}
use hysteria.Obfs.GeckoFrame.{FrameHeader}
use hysteria.Obfs.GeckoFrame.RoundTrip.{InRange}
use hysteria.Obfs.Gecko.{
  ReassemblyEntry, GeckoConn, find, drop_entry, new_entry, with_room, with_entry, accept_chunk,
  gc_entries, gc_expired, gecko_max_per_source, new_gecko_conn, has_key,
}
use hysteria.Obfs.Gecko.Table.{filled-replicate, find-key}
use hysteria.Obfs.Gecko.Bounded.{IsPartial, Inv, drop_entry-Inv, with_entry-Inv, store_chunk-Inv}

pub data Event : Type 0 where
  chunk_at : (now addr : ℕ) (h : FrameHeader) → InRange h → List ℕ → Event
  expiry_at : ℕ → Event

abbrev pub handle : GeckoConn → Event → GeckoConn
handle g (chunk_at now addr h r payload) = (accept_chunk now g addr h payload).0
handle g (expiry_at now) = gc_expired now g

abbrev pub run : GeckoConn → List Event → GeckoConn
run g [] = g
run g (e ∷ es) = run (handle g e) es

pub new_entry-IsPartial :
    (now addr : ℕ) (h : FrameHeader) → InRange h → IsPartial (new_entry now addr h)
new_entry-IsPartial now addr h r = record {
  counted = filled-replicate h.total_chunks;
  waits = omega (arith, r.two);
  slots = length-replicate h.total_chunks none;
}

accept_chunk-Inv :
    (now : ℕ) (g : GeckoConn) (addr : ℕ) (h : FrameHeader) (payload : List ℕ)
    → InRange h
    → Inv g
    → Inv ((accept_chunk now g addr h payload).0)
unfolding accept_chunk
accept_chunk-Inv now g addr h payload r v = elim (Option-cases (find addr h.msg_id g.reassembly)) [
  | inl q ↦ elim (Bool-cases (leb gecko_max_per_source (g.per_source addr))) [
    | inl full ↦ rw (q, accept_chunk, full) v
    | inr room ↦
        let e = new_entry now addr h in
        let self : has_key addr h.msg_id e ≡ true = ground arith in
        let v' = with_entry-Inv g e v (new_entry-IsPartial now addr h r) q (ground (arith, room)) in
        rw (q, accept_chunk, room)
          (store_chunk-Inv (with_entry (with_room g) e) e h payload v' (rw self refl))
  ]
  | inr (e, q) ↦ elim (Bool-cases (e.total == h.total_chunks)) [
    | inl same_total ↦
        let (a, i) = find-key addr h.msg_id g.reassembly e q in
        rw (q, accept_chunk, same_total)
          (store_chunk-Inv g e h payload v (ap₂ (λ x y. find x y g.reassembly) a i ∙ q))
    | inr other ↦ rw (q, accept_chunk, other) v
  ]
]

gc_entries-Inv :
    (now : ℕ) (g : GeckoConn) (t : List ReassemblyEntry) → Inv g → Inv (gc_entries now g t)
unfolding gc_entries
gc_entries-Inv now g [] v = v
gc_entries-Inv now g (e ∷ t) v = elim (Bool-cases (ltb e.deadline now)) [
  | inl q ↦
      rw q
        (gc_entries-Inv now (drop_entry g e.addr e.msg_id) t (drop_entry-Inv g e.addr e.msg_id v))
  | inr q ↦ rw q (gc_entries-Inv now g t v)
]

-- Whatever chunks come in, from any sources and at any times, and whenever entries expire: the count kept
-- for each source is that of its entries and at most 8, there are at most 4096 entries, no two under
-- one key, and each of them counts the chunks that it has and lacks one at least.
pub run-Inv : (g : GeckoConn) (es : List Event) → Inv g → Inv (run g es)
unfolding gc_expired
run-Inv g [] v = v
run-Inv g (chunk_at now addr h r payload ∷ es) v =
    run-Inv ((accept_chunk now g addr h payload).0) es (accept_chunk-Inv now g addr h payload r v)
run-Inv g (expiry_at now ∷ es) v =
    run-Inv (gc_expired now g) es (gc_entries-Inv now g g.reassembly v)

pub new_gecko_conn-Inv : Inv new_gecko_conn
new_gecko_conn-Inv = record {
  sources = λ addr. refl;
  source_cap = λ addr. omega arith;
  total_cap = omega arith;
  distinct = tt;
  partial = tt;
}
