-- ===== src/Obfs/Gecko/Collect.antt =====
-- What the collection of expired entries in extras/obfs/gecko.go leaves of an entry that has not expired.
use hysteria.Common.{
  ℕ, ◌≤◌, ◌≡◌, ◌⊎◌, inl, inr, refl, ◌∙◌, List, [], ◌∷◌, none, false, ltb, ◌==◌, ◌&&◌, All, arith,
  Bool-cases, Option-cases,
}
use hysteria.Obfs.Gecko.{
  ReassemblyEntry, GeckoConn, has_key, find, remove, drop_entry, evict_oldest, oldest, gc_entries,
  gc_expired,
}
use hysteria.Obfs.Gecko.Table.{remove-All}

-- An expired entry has another key than this one.
abbrev pub Spares : ℕ → ℕ → ℕ → ReassemblyEntry → Type 0
Spares addr id deadline e = (has_key addr id e ≡ false) ⊎ (e.deadline ≡ deadline)

-- The collections at some times.
unfoldable pub gc_all : List ℕ → GeckoConn → GeckoConn
gc_all [] g = g
gc_all (t ∷ ts) g = gc_all ts (gc_expired t g)

module _ (addr id deadline : ℕ) where
  find-remove_other :
      (a i : ℕ) (t : List ReassemblyEntry)
      → ((a == addr) && (i == id)) ≡ false
      → find addr id (remove a i t) ≡ find addr id t
  find-remove_other a i [] h = refl
  find-remove_other a i (e ∷ t) h = ground (arith, h, find-remove_other a i t h)

  -- The deletion of an entry with another key.
  drop_entry-keeps :
      (g : GeckoConn) (a i : ℕ)
      → ((a == addr) && (i == id)) ≡ false
      → All (Spares addr id deadline) g.reassembly
      → (find addr id (drop_entry g a i).reassembly ≡ find addr id g.reassembly)
        × All (Spares addr id deadline) (drop_entry g a i).reassembly
  unfolding drop_entry
  drop_entry-keeps g a i h s = elim (Option-cases (find a i g.reassembly)) [
    | inl e ↦ rw (e, drop_entry) (refl, s)
    | inr (f, e) ↦
        rw (e, drop_entry)
          (
            find-remove_other a i g.reassembly h,
            remove-All (Spares addr id deadline) a i g.reassembly s,
          )
  ]

  gc_entries-keeps :
      (now : ℕ) (g : GeckoConn) (t : List ReassemblyEntry)
      → now ≤ deadline
      → All (Spares addr id deadline) t
      → All (Spares addr id deadline) g.reassembly
      → (find addr id (gc_entries now g t).reassembly ≡ find addr id g.reassembly)
        × All (Spares addr id deadline) (gc_entries now g t).reassembly
  unfolding gc_entries
  gc_entries-keeps now g [] h st s = (refl, s)
  gc_entries-keeps now g (e ∷ t) h (se, st) s = elim (Bool-cases (ltb e.deadline now)) [
    | inl late ↦
        let other : ((e.addr == addr) && (e.msg_id == id)) ≡ false = elim se [
          | inl n ↦ n
          | inr same ↦ absurd (ground (arith, late, same, h))
        ] in
        let (kept, s') = drop_entry-keeps g e.addr e.msg_id other s in
        let (kept', s'') = gc_entries-keeps now (drop_entry g e.addr e.msg_id) t h st s' in
        rw (late, gc_entries) (kept' ∙ kept, s'')
    | inr early ↦ rw (early, gc_entries) (gc_entries-keeps now g t h st s)
  ]

  pub gc_all-keeps :
      (ts : List ℕ) (g : GeckoConn)
      → All (λ t. t ≤ deadline) ts
      → All (Spares addr id deadline) g.reassembly
      → (find addr id (gc_all ts g).reassembly ≡ find addr id g.reassembly)
        × All (Spares addr id deadline) (gc_all ts g).reassembly
  unfolding gc_all gc_expired
  gc_all-keeps [] g h s = (refl, s)
  gc_all-keeps (t ∷ ts) g (h, hs) s =
      let (kept, s') = gc_entries-keeps t g g.reassembly h s s in
      let (kept', s'') = gc_all-keeps ts (gc_expired t g) hs s' in (kept' ∙ kept, s'')

  -- A table without the key.
  pub find-Spares :
      (t : List ReassemblyEntry) → find addr id t ≡ none → All (Spares addr id deadline) t
  find-Spares [] h = tt
  find-Spares (e ∷ t) h = elim (Bool-cases (has_key addr id e)) [
    | inl q ↦ ground (arith, h, q)
    | inr q ↦ (inl q, find-Spares t (ground (arith, h, q)))
  ]

  pub evict_oldest-Spares :
      (g : GeckoConn)
      → All (Spares addr id deadline) g.reassembly
      → All (Spares addr id deadline) (evict_oldest g).reassembly
  unfolding evict_oldest drop_entry
  evict_oldest-Spares g s = elim (Option-cases (oldest g.reassembly)) [
    | inl e ↦ rw (e, evict_oldest) s
    | inr (f, e) ↦ elim (Option-cases (find f.addr f.msg_id g.reassembly)) [
      | inl n ↦ rw (e, n, evict_oldest, drop_entry) s
      | inr (x, n) ↦
          rw (e, n, evict_oldest, drop_entry)
            (remove-All (Spares addr id deadline) f.addr f.msg_id g.reassembly s)
    ]
  ]
