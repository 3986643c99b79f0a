-- ===== src/Client/Opening.antt =====
-- `NewUDP`.
use hysteria.Common.{
  ℕ, ◌+◌, ◌%◌, ◌^◌, ◌≤◌, ◌≡◌, ◌≢◌, ◌⊎◌, inl, inr, refl, sym, ◌∙◌, ap, subst, ◌∷◌, Option, none,
  some, Bool, false, if◌then◌else◌, arith, Bool-cases,
}
use hysteria.Server.Sessions.{lookup, delete, update}
use hysteria.Server.Sessions.Table.{lookup-delete, delete-Distinct}
use hysteria.Server.Sessions.Invariant.{update-eq, update-ne, handle-cases}
use hysteria.Client.{UdpConn, Manager, new_conn, new_udp}
use hysteria.Client.Invariant.{IsSound, Inv}
use hysteria.Client.Cells.{written}

pub new_conn-IsSound : (id : ℕ) → IsSound (new_conn id)
new_conn-IsSound id = record {
  shut_closed = refl;
  few = omega arith;
  valid = record { count_is = refl; few = omega arith };
  small = tt;
}

module _ (m : Manager) (i : Inv m) where
  -- The manager behind `NewUDP`.
  abbrev opened : Manager
  opened = record m {
    heap = update m.heap m.fresh (some (new_conn m.next_id));
    fresh = m.fresh + 1;
    table = (m.next_id, m.fresh) ∷ delete m.next_id m.table;
    next_id = (m.next_id + 1) % 2 ^ 32;
  }

  -- The entries of the new table.
  entry-cases :
      (k g : ℕ)
      → lookup k opened.table ≡ some g
      → ((m.next_id ≡ k) × (g ≡ m.fresh)) ⊎ (lookup k m.table ≡ some g)
  unfolding lookup
  entry-cases k g e = ground (arith, e, lookup-delete m.next_id k m.table)

  lists' :
      (k g : ℕ)
      → lookup k opened.table ≡ some g
      → (c : UdpConn) × (opened.heap g ≡ some c) × (c.id ≡ k) × (c.closed ≡ false)
  lists' k g e = elim (entry-cases k g e) [
    | inl (q, r) ↦
        (new_conn m.next_id, update-eq m.heap m.fresh (some (new_conn m.next_id)) g r, q, refl)
    | inr old ↦
        let (c, a, b, o) = i.lists k g old in
        let apart : g ≢ m.fresh = let l = i.unused g c a in λ q. omega arith in
        (c, update-ne m.heap m.fresh (some (new_conn m.next_id)) g apart ∙ a, b, o)
  ]

  listed' :
      m.fresh + 1 ≤ 2 ^ 32
      → (h : ℕ) (c : UdpConn) → opened.heap h ≡ some c
      → c.closed ≡ false
      → lookup c.id opened.table ≡ some h
  unfolding lookup
  listed' few h c e o = elim (written m m.fresh h (new_conn m.next_id) c e) [
    | inl (q, r) ↦
        let same_id : c.id ≡ m.next_id = ap (λ (x : UdpConn). x.id) r in ground (arith, q, same_id)
    | inr (n, e') ↦
        let l = i.unused h c e' in
        let other : m.next_id ≢ c.id = let a = i.ids h c e' in let b = i.next in λ q. omega arith in
        let old = i.listed (omega arith) h c e' o in
        ground (arith, other, old, lookup-delete m.next_id c.id m.table)
  ]

  opened-Inv : m.closed ≡ false → Inv opened
  opened-Inv is_open = record {
    lists = lists';
    sound = λ h c e. elim (written m m.fresh h (new_conn m.next_id) c e) [
      | inl (q, r) ↦ subst IsSound (sym r) (new_conn-IsSound m.next_id)
      | inr (n, e') ↦ i.sound h c e'
    ];
    used = λ h l. elim (handle-cases h m.fresh) [
      | inl q ↦ (new_conn m.next_id, update-eq m.heap m.fresh (some (new_conn m.next_id)) h q)
      | inr n ↦
          let (c, a) = i.used h (omega arith) in
          (c, update-ne m.heap m.fresh (some (new_conn m.next_id)) h n ∙ a)
    ];
    unused = λ h c e. elim (written m m.fresh h (new_conn m.next_id) c e) [
      | inl (q, r) ↦ omega arith
      | inr (n, e') ↦ let l = i.unused h c e' in omega arith
    ];
    ids = λ h c e. elim (written m m.fresh h (new_conn m.next_id) c e) [
      | inl (q, r) ↦ ap (λ (x : UdpConn). x.id) r ∙ i.next ∙ ap (λ x. (x + 1) % 2 ^ 32) (sym q)
      | inr (n, e') ↦ i.ids h c e'
    ];
    next = let b = i.next in omega arith;
    distinct = (gone, delete-Distinct m.next_id m.table i.distinct);
    listed = listed';
    ended = λ done. absurd (cc (done, is_open));
  }
    where
      gone : lookup m.next_id (delete m.next_id m.table) ≡ none
      gone = ground (arith, lookup-delete m.next_id m.next_id m.table)

  pub new_udp-Inv : Inv ((new_udp m).0)
  unfolding new_udp
  new_udp-Inv =
      let result : Bool → Manager × Option ℕ =
        λ b. if b then (m, none) else (opened, some m.fresh) in
      elim (Bool-cases m.closed) [
        | inl q ↦ subst Inv (sym (ap (λ b. (result b).0) q)) i
        | inr q ↦ subst Inv (sym (ap (λ b. (result b).0) q)) (opened-Inv q)
      ]
