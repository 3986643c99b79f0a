-- ===== src/Obfs/Gecko/Bounded.antt =====
-- What holds of the entries throughout: their counts, their bounds, and what each still lacks.
use hysteria.Common.{
  ℕ, ◌+◌, ◌-◌, ◌≤◌, ◌<◌, ◌≡◌, ◌⊎◌, inl, inr, refl, sym, ◌∙◌, ap, subst, List, [], ◌∷◌, none, some,
  ltb, leb, if◌then◌else◌, length, get_elem?, All, arith, Bool-cases, Option-cases, length-set,
}
use hysteria.Obfs.GeckoFrame.{FrameHeader}
use hysteria.Server.Sessions.{update}
use hysteria.Obfs.Gecko.{
  ReassemblyEntry, GeckoConn, find, remove, replace, oldest, drop_entry, evict_oldest, with_chunk,
  store_chunk, with_room, with_entry, gecko_max_reassembly, gecko_max_per_source,
}
use hysteria.Obfs.Gecko.Table.{
  count_addr, Distinct, filled, filled-set, remove-count, remove-length, replace-count,
  replace-length, remove-Distinct, replace-Distinct, remove-All, replace-All, find-All, find-oldest,
  find-replace_self, remove-replace, find-remove-none,
}

-- An entry that waits for more chunks and counts those that it has.
pub record IsPartial (e : ReassemblyEntry) : Type 0 where
  pub counted : filled e.chunks ≡ e.received
  pub waits : e.received < e.total
  pub slots : length e.chunks ≡ e.total

pub record Inv (g : GeckoConn) : Type 0 where
  pub sources : (addr : ℕ) → g.per_source addr ≡ count_addr addr g.reassembly
  pub source_cap : (addr : ℕ) → g.per_source addr ≤ gecko_max_per_source
  pub total_cap : length g.reassembly ≤ gecko_max_reassembly
  pub distinct : Distinct g.reassembly
  pub partial : All IsPartial g.reassembly

pub drop_entry-Inv : (g : GeckoConn) (a i : ℕ) → Inv g → Inv (drop_entry g a i)
unfolding drop_entry
drop_entry-Inv g a i v = elim (Option-cases (find a i g.reassembly)) [
  | inl q ↦ rw (q, drop_entry) v
  | inr (e, q) ↦
      let removed = remove a i g.reassembly in
      let counts : (b : ℕ) → update g.per_source a (g.per_source a - 1) b ≡ count_addr b removed =
        λ b.
          let all = v.sources b in
          let mine = v.sources a in
          ground (arith, all, mine, remove-count a i g.reassembly e b q) in
      rw (q, drop_entry)
        (record {
          sources = counts;
          source_cap =
              λ b. let c = v.source_cap b in let d = v.source_cap a in ground (arith, c, d);
          total_cap = omega (arith, v.total_cap, remove-length a i g.reassembly e q);
          distinct = remove-Distinct a i g.reassembly v.distinct;
          partial = remove-All IsPartial a i g.reassembly v.partial;
        })
]

evict_oldest-Inv : (g : GeckoConn) → Inv g → Inv (evict_oldest g)
unfolding evict_oldest
evict_oldest-Inv g v = elim (Option-cases (oldest g.reassembly)) [
  | inl q ↦ rw (q, evict_oldest) v
  | inr (e, q) ↦ rw (q, evict_oldest) (drop_entry-Inv g e.addr e.msg_id v)
]

-- A table without an oldest entry is empty.
oldest-none : (t : List ReassemblyEntry) → oldest t ≡ none → length t ≡ 0
oldest-none [] h = refl
oldest-none (e ∷ t) h = absurd (ground (arith, h))

abbrev dropped : GeckoConn → ℕ → ℕ → GeckoConn
dropped g a i = record {
  reassembly = remove a i g.reassembly;
  per_source = update g.per_source a (g.per_source a - 1);
}

drop_entry-eq :
    (g : GeckoConn) (a i : ℕ) (e : ReassemblyEntry)
    → find a i g.reassembly ≡ some e
    → drop_entry g a i ≡ dropped g a i
unfolding drop_entry
drop_entry-eq g a i e q = rw (q, drop_entry) refl

-- Room is there, or comes of the eviction of an entry of the table.
with_room-cases :
    (g : GeckoConn)
    → ((with_room g ≡ g) × (length g.reassembly < gecko_max_reassembly))
      ⊎ ((e f : ReassemblyEntry) × (find e.addr e.msg_id g.reassembly ≡ some f)
          × (with_room g ≡ dropped g e.addr e.msg_id))
unfolding evict_oldest
with_room-cases g = elim (Bool-cases (leb gecko_max_reassembly (length g.reassembly))) [
  | inr q ↦ inl (ap (λ b. if b then evict_oldest g else g) q, ground (arith, q))
  | inl q ↦ elim (Option-cases (oldest g.reassembly)) [
    | inl n ↦ let empty = oldest-none g.reassembly n in absurd (ground (arith, q, empty))
    | inr (e, o) ↦
        let (f, at) = find-oldest g.reassembly e o in
        let evicted : evict_oldest g ≡ dropped g e.addr e.msg_id =
          rw (o, evict_oldest) (drop_entry-eq g e.addr e.msg_id f at) in
        inr (e, f, at, ap (λ b. if b then evict_oldest g else g) q ∙ evicted)
  ]
]

-- A new entry under a key that the table lacks, where the source has room.
pub with_entry-Inv :
    (g : GeckoConn) (e : ReassemblyEntry)
    → Inv g
    → IsPartial e
    → find e.addr e.msg_id g.reassembly ≡ none
    → g.per_source e.addr < gecko_max_per_source
    → Inv (with_entry (with_room g) e)
with_entry-Inv g e v p apart few = elim (with_room-cases g) [
  | inl (q, l) ↦ subst (λ x. Inv (with_entry x e)) (sym q) (inserted g v apart few l)
  | inr (o, f, at, q) ↦
      let l : length (remove o.addr o.msg_id g.reassembly) < gecko_max_reassembly =
        omega (arith, v.total_cap, remove-length o.addr o.msg_id g.reassembly f at) in
      let few' : (dropped g o.addr o.msg_id).per_source e.addr < gecko_max_per_source =
        ground (arith, few) in
      subst (λ x. Inv (with_entry x e)) (sym q)
        (inserted (dropped g o.addr o.msg_id)
          (subst Inv (drop_entry-eq g o.addr o.msg_id f at) (drop_entry-Inv g o.addr o.msg_id v))
          (find-remove-none o.addr o.msg_id g.reassembly e.addr e.msg_id apart) few' l)
]
  where
    inserted :
        (x : GeckoConn)
        → Inv x
        → find e.addr e.msg_id x.reassembly ≡ none
        → x.per_source e.addr < gecko_max_per_source
        → length x.reassembly < gecko_max_reassembly
        → Inv (with_entry x e)
    inserted x w a c l = record {
      sources =
          λ b. let all = w.sources b in let mine = w.sources e.addr in ground (arith, all, mine);
      source_cap = λ b. let k = w.source_cap b in ground (arith, k, c);
      total_cap = omega arith;
      distinct = (a, w.distinct);
      partial = (p, w.partial);
    }

-- The entry with one more chunk.
pub store_chunk-Inv :
    (g : GeckoConn) (e : ReassemblyEntry) (h : FrameHeader) (payload : List ℕ)
    → Inv g
    → find e.addr e.msg_id g.reassembly ≡ some e
    → Inv ((store_chunk g e h payload).0)
unfolding store_chunk
store_chunk-Inv g e h payload v at = elim (Option-cases (get_elem? e.chunks h.chunk_idx)) [
  | inl q ↦ rw (q, store_chunk) v
  | inr (some c, q) ↦ rw (q, store_chunk) v
  | inr (none, q) ↦
      let e' = with_chunk e h.chunk_idx payload in
      let t' = replace e' g.reassembly in
      elim (Bool-cases (ltb (e.received + 1) e.total)) [
        | inl more ↦
            let p = find-All IsPartial e.addr e.msg_id g.reassembly e v.partial at in
            let p' : IsPartial e' = record {
              counted = filled-set e.chunks h.chunk_idx payload q ∙ omega (arith, p.counted);
              waits = ground (arith, more);
              slots = length-set e.chunks h.chunk_idx (some payload) ∙ p.slots;
            } in
            rw (q, store_chunk, more)
              (record {
                sources = λ b. v.sources b ∙ sym (replace-count e' g.reassembly b);
                source_cap = v.source_cap;
                total_cap = omega (arith, v.total_cap, replace-length e' g.reassembly);
                distinct = replace-Distinct e' g.reassembly v.distinct;
                partial = replace-All IsPartial e' g.reassembly p' v.partial;
              })
        | inr last ↦
            let g' : GeckoConn = record g { reassembly = t' } in
            let same_drop : drop_entry g' e.addr e.msg_id ≡ drop_entry g e.addr e.msg_id =
              drop_entry-eq g' e.addr e.msg_id e' (find-replace_self e' g.reassembly e at)
              ∙ ap
                  (λ t. record {
                    reassembly = t;
                    per_source = update g.per_source e.addr (g.per_source e.addr - 1);
                  })
                  (remove-replace e' g.reassembly)
              ∙ sym (drop_entry-eq g e.addr e.msg_id e at) in
            rw (q, store_chunk, last, same_drop) (drop_entry-Inv g e.addr e.msg_id v)
      ]
]
