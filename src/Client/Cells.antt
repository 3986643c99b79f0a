-- ===== src/Client/Cells.antt =====
-- The invariant, where one session changes.
use hysteria.Common.{
  ℕ, ◌+◌, ◌%◌, ◌^◌, ◌<◌, ◌≡◌, ◌≢◌, ◌⊎◌, inl, inr, refl, sym, ◌∙◌, ap, subst, none, some, true,
  false, ◌==◌, if◌then◌else◌, arith, Bool-cases,
}
use hysteria.Server.Sessions.{lookup, delete, update}
use hysteria.Server.Sessions.Table.{lookup-delete, delete-Distinct}
use hysteria.Server.Sessions.Invariant.{update-eq, update-ne, handle-cases}
use hysteria.Client.{UdpConn, Manager, with_conn}
use hysteria.Client.Invariant.{IsSound, Inv}

-- A cell that is written: the cell itself, or another one.
pub written :
    (m : Manager) (h k : ℕ) (c' c : UdpConn)
    → update m.heap h (some c') k ≡ some c
    → ((k ≡ h) × (c ≡ c')) ⊎ ((k ≢ h) × (m.heap k ≡ some c))
written m h k c' c e = elim (handle-cases k h) [
  | inl q ↦ let new = update-eq m.heap h (some c') k q in inl (q, cc (e, new))
  | inr n ↦ let old = update-ne m.heap h (some c') k n in inr (n, sym old ∙ e)
]

-- What of the invariant is about single cells stays where a cell keeps its id.
module _ (m : Manager) (h : ℕ) (c c' : UdpConn) (i : Inv m) (at : m.heap h ≡ some c) where
  used-written : (g : ℕ) → g < m.fresh → (d : UdpConn) × (update m.heap h (some c') g ≡ some d)
  used-written g l = elim (handle-cases g h) [
    | inl q ↦ (c', update-eq m.heap h (some c') g q)
    | inr n ↦ let (d, a) = i.used g l in (d, update-ne m.heap h (some c') g n ∙ a)
  ]

  unused-written : (k : ℕ) (d : UdpConn) → update m.heap h (some c') k ≡ some d → k < m.fresh
  unused-written k d e = elim (written m h k c' d e) [
    | inl (q, r) ↦ let old = i.unused h c at in omega arith
    | inr (n, e') ↦ i.unused k d e'
  ]

  sound-written :
      IsSound c' → (k : ℕ) (d : UdpConn) → update m.heap h (some c') k ≡ some d → IsSound d
  sound-written s k d e = elim (written m h k c' d e) [
    | inl (q, r) ↦ subst IsSound (sym r) s
    | inr (n, e') ↦ i.sound k d e'
  ]

  ids-written :
      c'.id ≡ c.id
      → (k : ℕ) (d : UdpConn) → update m.heap h (some c') k ≡ some d
      → d.id ≡ (k + 1) % 2 ^ 32
  ids-written id k d e = elim (written m h k c' d e) [
    | inl (q, r) ↦
        ap (λ (x : UdpConn). x.id) r ∙ id ∙ i.ids h c at ∙ ap (λ x. (x + 1) % 2 ^ 32) (sym q)
    | inr (n, e') ↦ i.ids k d e'
  ]

  -- A change of a session that keeps its id and whether it is open.
  pub with_conn-Inv : c'.id ≡ c.id → c'.closed ≡ c.closed → IsSound c' → Inv (with_conn m h c')
  with_conn-Inv id same_open sound = record {
    lists = lists';
    sound = sound-written sound;
    used = used-written;
    unused = unused-written;
    ids = ids-written id;
    next = i.next;
    distinct = i.distinct;
    listed = λ few k d e o. elim (written m h k c' d e) [
      | inl (q, r) ↦
          let was_open : c.closed ≡ false =
            sym same_open ∙ sym (ap (λ (x : UdpConn). x.closed) r) ∙ o in
          ap (λ (x : UdpConn). lookup x.id m.table) r
          ∙ ap (λ x. lookup x m.table) id
          ∙ i.listed few h c at was_open
          ∙ ap some (sym q)
      | inr (n, e') ↦ i.listed few k d e' o
    ];
    ended = i.ended;
  }
    where
      lists' :
          (k g : ℕ)
          → lookup k m.table ≡ some g
          → (d : UdpConn) × (update m.heap h (some c') g ≡ some d) × (d.id ≡ k) × (d.closed ≡ false)
      lists' k g e =
          let (d, a, b, o) = i.lists k g e in
          elim (handle-cases g h) [
            | inl q ↦
                let same_cell : c ≡ d = cc (a, at, q) in
                (
                  c',
                  update-eq m.heap h (some c') g q,
                  id ∙ ap (λ (x : UdpConn). x.id) same_cell ∙ b,
                  same_open ∙ ap (λ (x : UdpConn). x.closed) same_cell ∙ o,
                )
            | inr n ↦ (d, update-ne m.heap h (some c') g n ∙ a, b, o)
          ]

  -- The close of an open session, which takes it out of the table.
  pub closed-Inv :
      c.closed ≡ false
      → c' ≡ record c { shut = true; closed = true }
      → Inv (record m { heap = update m.heap h (some c'); table = delete c.id m.table })
  closed-Inv is_open is = record {
    lists = lists';
    sound = sound-written (
        subst IsSound (sym is) (record {
          shut_closed = refl;
          few = (i.sound h c at).few;
          valid = (i.sound h c at).valid;
          small = (i.sound h c at).small;
        }));
    used = used-written;
    unused = unused-written;
    ids = ids-written (ap (λ (x : UdpConn). x.id) is);
    next = i.next;
    distinct = delete-Distinct c.id m.table i.distinct;
    listed = λ few k d e o. elim (written m h k c' d e) [
      | inl (q, r) ↦
          let shut : d.closed ≡ true = ap (λ (x : UdpConn). x.closed) (r ∙ is) in
          absurd (cc (shut, o))
      | inr (n, e') ↦
          let mine = i.listed few h c at is_open in
          let other = i.listed few k d e' o in
          lookup-delete c.id d.id m.table ∙ elim (Bool-cases (c.id == d.id)) [
            | inl q ↦
                let same_id : c.id ≡ d.id = ground (arith, q) in
                let same_cell : some h ≡ some k =
                  sym mine ∙ ap (λ x. lookup x m.table) same_id ∙ other in
                absurd (n (ground (arith, same_cell)))
            | inr q ↦ rw q other
          ]
    ];
    ended = λ done. ap (delete c.id) (i.ended done) ∙ (unfold delete in refl);
  }
    where
      lists' :
          (k g : ℕ)
          → lookup k (delete c.id m.table) ≡ some g
          → (d : UdpConn) × (update m.heap h (some c') g ≡ some d) × (d.id ≡ k) × (d.closed ≡ false)
      lists' k g e =
          let e' = sym (lookup-delete c.id k m.table) ∙ e in
          elim (Bool-cases (c.id == k)) [
            | inl q ↦ absurd (go q e')
            | inr q ↦
                let (d, a, b, o) =
                  i.lists k g (sym (ap (λ t. if t then none else lookup k m.table) q) ∙ e') in
                let apart : g ≢ h = λ r.
                  let same_cell : c ≡ d = cc (a, at, r) in
                  let same_id : c.id ≡ k = ap (λ (x : UdpConn). x.id) same_cell ∙ b in
                  absurd (ground (arith, q, same_id)) in
                (d, update-ne m.heap h (some c') g apart ∙ a, b, o)
          ]
        where
          go : (c.id == k) ≡ true → (if c.id == k then none else lookup k m.table) ≡ some g → ⊥
          go q x = ground (arith, q, x)
