-- ===== src/Server/Sessions/Closing.antt =====
-- Closing a session keeps the invariant.
use hysteria.Common.{
  ℕ, ◌≡◌, ◌≢◌, ◌⊎◌, inl, inr, refl, sym, ◌∙◌, ◌∷◌, none, some, Bool, true, false, arith, Bool-cases,
  Option-cases,
}
use hysteria.Server.Session.{Entry}
use hysteria.Server.Session.Feeding.{IsSound}
use hysteria.Server.Sessions.{ended, Manager, lookup, delete, update, begin_close, finish_close}
use hysteria.Server.Sessions.Table.{lookup-delete, delete-Distinct, length-delete-le}
use hysteria.Server.Sessions.Invariant.{Inv, update-eq, update-ne, with_cell, with_cell-Inv}

abbrev pub closed_entry : Entry → Entry
closed_entry e = record e { closed = true; conn_open = false }

closed_entry-IsSound : (e : Entry) → IsSound e → IsSound (closed_entry e)
closed_entry-IsSound e s = record {
  defragger = s.defragger;
  bounded = s.bounded;
  shut = λ q. refl;
  unset = λ q. refl;
}

-- What `begin_close` does to an open entry.
pub begin_close_open :
    (m : Manager) (h : ℕ) (e : Entry)
    → m.heap h ≡ some e
    → e.closed ≡ false
    → begin_close m h ≡ with_cell m h (closed_entry e) (update m.exiting h true)
begin_close_open m h e c o = unfold begin_close in rw (c, o, begin_close) refl

pub begin_close_closed :
    (m : Manager) (h : ℕ) (e : Entry) → m.heap h ≡ some e → e.closed ≡ true → begin_close m h ≡ m
begin_close_closed m h e c o = unfold begin_close in rw (c, o, begin_close) refl

pub begin_close_absent : (m : Manager) (h : ℕ) → m.heap h ≡ none → begin_close m h ≡ m
begin_close_absent m h c = unfold begin_close in rw (c, begin_close) refl

pub begin_close-Inv : (m : Manager) (h : ℕ) → Inv m → Inv (begin_close m h)
begin_close-Inv m h i = elim (Option-cases (m.heap h)) [
  | inl c ↦ rw (begin_close_absent m h c) i
  | inr (e, c) ↦ elim (Bool-cases e.closed) [
    | inl o ↦ rw (begin_close_closed m h e c o) i
    | inr o ↦ rw (begin_close_open m h e c o) (
        with_cell-Inv m i h e (closed_entry e) (update m.exiting h true) c refl
          (closed_entry-IsSound e (i.sound h e c)) (λ k n. update-ne m.exiting h true k n)
          (λ l. inr (update-eq m.exiting h true h refl)) (λ l. inl o) (λ b. refl))
  ]
]

-- The entry to be taken out of the table stands in it.
pub exiting_lem :
    (m : Manager) (h : ℕ)
    → Inv m
    → m.exiting h ≡ true
    → (e : Entry) × (m.heap h ≡ some e) × (e.closed ≡ true) × (lookup e.id m.table ≡ some h)
exiting_lem m h i b = let (e, c, o) = i.exits h b in (e, c, o, i.listed h e c (inr b))

module _ (m : Manager) (h : ℕ) (e : Entry) (c : m.heap h ≡ some e)
    (l : lookup e.id m.table ≡ some h) where
  pub finish_close_lem : finish_close m h ≡ record m {
    log = ended h e.id ∷ m.log;
    exiting = update m.exiting h false;
    table = delete e.id m.table;
  }
  finish_close_lem = unfold finish_close in rw (c, l, finish_close) (ground arith)

  pub finish_close-Inv : Inv m → e.closed ≡ true → Inv (finish_close m h)
  finish_close-Inv i o = rw finish_close_lem (record {
    bounded = omega (arith, i.bounded, length-delete-le e.id m.table);
    distinct = delete-Distinct e.id m.table i.distinct;
    lists = lists';
    listed = listed';
    exits = exits';
    sound = i.sound;
    unused = i.unused;
    cleans = λ p q. rw (i.cleans p q) (unfold delete in refl);
  })
    where
      x : ℕ → Bool
      x = update m.exiting h false

      x-ne : (g : ℕ) → g ≢ h → x g ≡ m.exiting g
      x-ne g n = update-ne m.exiting h false g n

      exits-ne : (g : ℕ) → x g ≡ true → g ≢ h
      exits-ne g b q = cc (update-eq m.exiting h false g q, b)

      lists' :
          (k g : ℕ)
          → lookup k (delete e.id m.table) ≡ some g
          → (f : Entry) × (m.heap g ≡ some f) × (f.id ≡ k) × ((f.closed ≡ false) ⊎ (x g ≡ true))
      lists' k g p =
          let q : lookup k m.table ≡ some g = ground (arith, lookup-delete e.id k m.table) in
          let other : e.id ≢ k = ground (arith, lookup-delete e.id k m.table) in
          let (f, d, j, live) = i.lists k g q in
          let n : g ≢ h = λ r. other (cc (c, d, j, r)) in (f, d, j, rw (x-ne g n) live)

      listed' :
          (g : ℕ) (f : Entry)
          → m.heap g ≡ some f
          → (f.closed ≡ false) ⊎ (x g ≡ true)
          → lookup f.id (delete e.id m.table) ≡ some g
      listed' g f d live =
          let n : g ≢ h = not_here live in
          let q : lookup f.id m.table ≡ some g = i.listed g f d (rw (sym (x-ne g n)) live) in
          let other : e.id ≢ f.id = λ r. n (cc (q, l, r)) in
          lookup-delete e.id f.id m.table ∙ ground (arith, q, other)
        where
          not_here : (f.closed ≡ false) ⊎ (x g ≡ true) → g ≢ h
          not_here (inl u) r = cc (c, d, o, u, r)
          not_here (inr b) r = exits-ne g b r

      exits' : (g : ℕ) → x g ≡ true → (f : Entry) × (m.heap g ≡ some f) × (f.closed ≡ true)
      exits' g b = i.exits g (sym (x-ne g (exits-ne g b)) ∙ b)
