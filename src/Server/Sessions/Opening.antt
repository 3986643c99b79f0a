-- ===== src/Server/Sessions/Opening.antt =====
-- Opening a session keeps the invariant.
use hysteria.Common.{
  ℕ, ◌<◌, ◌≡◌, ◌≢◌, inl, inr, refl, sym, ◌∙◌, ap, subst, ◌∷◌, Option, none, some, Bool, true, false,
  ◌||◌, not, length, arith, Bool-cases,
}
use hysteria.Server.Session.{Entry, new_entry}
use hysteria.Server.Session.Feeding.{IsSound}
use hysteria.Server.Sessions.{Manager, lookup, update, with_entry, start_idle_cleanup}
use hysteria.Server.Sessions.Invariant.{Live, Inv, update-eq, update-ne, handle-cases}

pub new_entry-IsSound : (id now : ℕ) → IsSound (new_entry id now)
new_entry-IsSound id now = record {
  defragger = record { count_is = refl; few = omega arith };
  bounded = omega arith;
  shut = λ q. refl;
  unset = λ q. refl;
}

module _ (m : Manager) (i : Inv m) (id now : ℕ) (free : lookup id m.table ≡ none) where
  lookup-ne : (k h : ℕ) → lookup k m.table ≡ some h → k ≢ id
  lookup-ne k h l q = cc

  ne-fresh : (h : ℕ) (e : Entry) → m.heap h ≡ some e → h ≢ m.fresh
  ne-fresh h e c q = cc (c, i.unused h (omega (arith, q)))

  exiting-ne-fresh : (h : ℕ) → m.exiting h ≡ true → h ≢ m.fresh
  exiting-ne-fresh h b = let (e, c, _) = i.exits h b in ne-fresh h e c

  running : Bool → Manager
  running b = record (with_entry m id now) { cleanup_running = b }

  running-Inv :
      (b : Bool)
      → length m.table < m.max_sessions
      → (m.has_stop ≡ true → b ≡ true)
      → Inv (running b)
  unfolding running lookup
  running-Inv b room cleans = record {
    bounded = omega arith;
    distinct = (free, i.distinct);
    lists = lists';
    listed = listed';
    exits = λ h x. let (e, c, o) = i.exits h x in (e, there h (exiting-ne-fresh h x) ∙ c, o);
    sound = sound';
    unused = λ h l. there h (λ q. omega arith) ∙ i.unused h (omega arith);
    cleans = λ p q. absurd (cc (cleans p, q));
  }
    where
      fresh_entry : Entry
      fresh_entry = new_entry id now

      heap' : ℕ → Option Entry
      heap' = update m.heap m.fresh (some fresh_entry)

      there : (h : ℕ) → h ≢ m.fresh → heap' h ≡ m.heap h
      there h n = update-ne m.heap m.fresh (some fresh_entry) h n

      here : (h : ℕ) → h ≡ m.fresh → heap' h ≡ some fresh_entry
      here h q = update-eq m.heap m.fresh (some fresh_entry) h q

      lists' :
          (k h : ℕ)
          → lookup k ((id, m.fresh) ∷ m.table) ≡ some h
          → (e : Entry) × (heap' h ≡ some e) × (e.id ≡ k) × Live m h e
      lists' k h l = elim (handle-cases id k) [
        | inl q ↦ (fresh_entry, here h (ground (arith, l, q)), q, inl refl)
        | inr n ↦
            let (e, c, p, live) = i.lists k h (ground (arith, l, n)) in
            (e, there h (ne-fresh h e c) ∙ c, p, live)
      ]

      listed' :
          (h : ℕ) (e : Entry)
          → heap' h ≡ some e
          → Live m h e
          → lookup e.id ((id, m.fresh) ∷ m.table) ≡ some h
      listed' h e c live = elim (handle-cases h m.fresh) [
        | inl q ↦
            (let p : fresh_entry ≡ e = cc (here h q, c) in
              let r : id ≡ e.id = ap (λ f. f.id) p in ground (arith, r, q))
        | inr n ↦
            (let l = i.listed h e (sym (there h n) ∙ c) live in
              ground (arith, l, lookup-ne e.id h l))
      ]

      sound' : (h : ℕ) (e : Entry) → heap' h ≡ some e → IsSound e
      sound' h e c = elim (handle-cases h m.fresh) [
        | inl q ↦ subst IsSound (cc (here h q, c)) (new_entry-IsSound id now)
        | inr n ↦ i.sound h e (sym (there h n) ∙ c)
      ]

  pub with_entry-Inv :
      length m.table < m.max_sessions → Inv (start_idle_cleanup (with_entry m id now))
  unfolding start_idle_cleanup running
  with_entry-Inv room = elim (Bool-cases (m.cleanup_running || not m.has_stop)) [
    | inl z ↦
        rw (z, start_idle_cleanup)
          (running-Inv m.cleanup_running room (runs m.cleanup_running m.has_stop z))
    | inr z ↦ rw (z, start_idle_cleanup) (running-Inv true room (λ p. refl))
  ]
    where
      runs : (r p : Bool) → (r || not p) ≡ true → p ≡ true → r ≡ true
      runs true p z q = refl
      runs false true z q = z
      runs false false z q = q
