-- ===== src/Server/Sessions/Cleanup.antt =====
-- What `cleanup` closes, and what it leaves.
use hysteria.Common.{
  ℕ, ◌≡◌, ◌≢◌, ◌⊎◌, inl, inr, refl, sym, ◌∙◌, subst, List, [], ◌∷◌, none, some, Bool, true, false,
  ◌==◌, ◌||◌, arith, Bool-cases, Option-cases,
}
use hysteria.Server.Session.{Entry}
use hysteria.Server.Sessions.{
  Manager, lookup, update, begin_close, finish_close, close_with_err, close_all, cleanup,
  timeout_entries, is_idle, idle_handle,
}
use hysteria.Server.Sessions.Invariant.{Live, Inv, update-eq, update-ne, handle-cases, with_cell}
use hysteria.Server.Sessions.Closing.{
  closed_entry, begin_close_open, begin_close-Inv, finish_close_lem, finish_close-Inv,
}

-- No `CloseWithErr` is between its two parts.
abbrev pub Quiet : Manager → Type 0
Quiet m = (h : ℕ) → m.exiting h ≡ false

-- A manager in which the entries that `p` picks have been closed, and no others.
record Shuts (m m' : Manager) (p : ℕ → Bool) : Type 0 where
  inv : Inv m'
  quiet : Quiet m'
  kept : (h : ℕ) → p h ≡ false → m'.heap h ≡ m.heap h
  stays : (h : ℕ) (e : Entry) → m.heap h ≡ some e → (f : Entry) × (m'.heap h ≡ some f)
  shut : (h : ℕ) (e : Entry) → p h ≡ true → m'.heap h ≡ some e → e.closed ≡ true

-- With no call between its parts, an entry in the table is open.
open_lem : (m : Manager) (h : ℕ) (e : Entry) → Quiet m → Live m h e → e.closed ≡ false
open_lem m h e q (inl o) = o
open_lem m h e q (inr b) = absurd (cc (q h, b))

close_with_err-Shuts :
    (m : Manager) (h : ℕ) → Inv m → Quiet m → Shuts m (close_with_err m h) (λ k. k == h)
close_with_err-Shuts m h i q = elim (Option-cases (m.heap h)) [
  | inl c ↦
      unfold close_with_err in
      rw (c, close_with_err)
        (record {
          inv = i;
          quiet = q;
          kept = λ k n. refl;
          stays = λ k f d. (f, d);
          shut = λ k e n d. ground (arith, c, d, n);
        })
  | inr (e, c) ↦ elim (Bool-cases e.closed) [
    | inl o ↦
        unfold close_with_err in
        rw (c, o, close_with_err)
          (record {
            inv = i;
            quiet = q;
            kept = λ k n. refl;
            stays = λ k f d. (f, d);
            shut = λ k f n d. ground (arith, c, d, n, o);
          })
    | inr o ↦ unfold close_with_err in rw (c, o, close_with_err) (closed e c o)
  ]
]
  where
    closed :
        (e : Entry)
        → m.heap h ≡ some e
        → e.closed ≡ false
        → Shuts m (finish_close (begin_close m h) h) (λ k. k == h)
    closed e c o =
        let x = update m.exiting h true in
        let m1 = with_cell m h (closed_entry e) x in
        let p : begin_close m h ≡ m1 = begin_close_open m h e c o in
        let i1 : Inv m1 = subst Inv p (begin_close-Inv m h i) in
        let c1 : m1.heap h ≡ some (closed_entry e) =
          update-eq m.heap h (some (closed_entry e)) h refl in
        let l : lookup e.id m.table ≡ some h = i.listed h e c (inl o) in
        let f = finish_close_lem m1 h (closed_entry e) c1 l in
        rw (p, f)
          (record {
            inv = subst Inv f (finish_close-Inv m1 h (closed_entry e) c1 l i1 refl);
            quiet = λ k. ground (arith, q k);
            kept = λ k n. ground (arith, n);
            stays = λ k g d. elim (handle-cases k h) [
              | inl y ↦ (closed_entry e, update-eq m.heap h (some (closed_entry e)) k y)
              | inr n ↦ (g, update-ne m.heap h (some (closed_entry e)) k n ∙ d)
            ];
            shut =
                λ k g n d. cc (update-eq m.heap h (some (closed_entry e)) k (ground (arith, n)), d);
          })

has : ℕ → List ℕ → Bool
has k [] = false
has k (h ∷ hs) = (k == h) || has k hs

close_all-Shuts :
    (m : Manager) (hs : List ℕ) → Inv m → Quiet m → Shuts m (close_all m hs) (λ k. has k hs)
unfolding close_all has
close_all-Shuts m [] i q = record {
  inv = i;
  quiet = q;
  kept = λ k n. refl;
  stays = λ k f d. (f, d);
  shut = λ k e n. absurd (cc n);
}
close_all-Shuts m (h ∷ hs) i q =
    let s1 = close_with_err-Shuts m h i q in
    let s2 = close_all-Shuts (close_with_err m h) hs s1.inv s1.quiet in
    record {
      inv = s2.inv;
      quiet = s2.quiet;
      kept = λ k n. s2.kept k (ground (arith, n)) ∙ s1.kept k (ground (arith, n));
      stays = λ k e d. (let (f, d') = s1.stays k e d in s2.stays k f d');
      shut = λ k e n d. elim (Bool-cases (has k hs)) [
        | inl y ↦ s2.shut k e y d
        | inr z ↦ s1.shut k e (ground (arith, n, z)) (sym (s2.kept k z) ∙ d)
      ];
    }

has-timeout_entries :
    (m : Manager) (b : Bool) (now k h : ℕ) (t : List (ℕ × ℕ))
    → lookup k t ≡ some h
    → idle_handle m b now (m.heap h) ≡ true
    → has h (timeout_entries m b now t) ≡ true
unfolding lookup timeout_entries has
has-timeout_entries m b now k h [] l y = absurd (cc l)
has-timeout_entries m b now k h ((j, g) ∷ t) l y = ground (arith, has-timeout_entries m b now k h t)

timeout_entries-idle :
    (m : Manager) (b : Bool) (now h : ℕ) (t : List (ℕ × ℕ))
    → has h (timeout_entries m b now t) ≡ true
    → idle_handle m b now (m.heap h) ≡ true
unfolding timeout_entries has
timeout_entries-idle m b now h [] y = absurd (cc y)
timeout_entries-idle m b now h ((j, g) ∷ t) y = ground (arith, timeout_entries-idle m b now h t)

module _ (m : Manager) (i : Inv m) (q : Quiet m) (idle_only : Bool) (now : ℕ) where
  picked : List ℕ
  picked = timeout_entries m idle_only now m.table

  shuts : Shuts m (cleanup m idle_only now) (λ k. has k picked)
  unfolding cleanup picked
  shuts = close_all-Shuts m picked i q

  is_open :
      (k h : ℕ)
      → lookup k m.table ≡ some h
      → (e : Entry) × (m.heap h ≡ some e) × (e.id ≡ k) × (e.closed ≡ false)
  is_open k h l = let (e, c, j, live) = i.lists k h l in (e, c, j, open_lem m h e q live)

  -- In a manager with the invariant, where no other call is closing a session, `cleanup` leaves each session of the table that it does
  -- not find idle: it stays in the table, and its entry is as it was.
  pub cleanup-keeps :
      (k h : ℕ)
      → lookup k m.table ≡ some h
      → idle_handle m idle_only now (m.heap h) ≡ false
      → (lookup k (cleanup m idle_only now).table ≡ some h)
        × ((cleanup m idle_only now).heap h ≡ m.heap h)
  unfolding picked
  cleanup-keeps k h l y =
      let n : has h picked ≡ false =
        ground (arith, y, timeout_entries-idle m idle_only now h m.table) in
      let (e, c, j, o) = is_open k h l in
      let c' = shuts.kept h n ∙ c in
      (
        subst (λ j. lookup j (cleanup m idle_only now).table ≡ some h) j
            (shuts.inv.listed h e c' (inl o)),
        shuts.kept h n,
      )

  -- In a manager with the invariant, where no other call is closing a session, `cleanup` closes each session of the table that it finds
  -- idle: it leaves the table, and its socket is shut.
  pub cleanup-closes :
      (k h : ℕ)
      → lookup k m.table ≡ some h
      → idle_handle m idle_only now (m.heap h) ≡ true
      → (lookup k (cleanup m idle_only now).table ≡ none)
        × ((e : Entry) × ((cleanup m idle_only now).heap h ≡ some e)
            × (e.closed ≡ true)
            × (e.conn_open ≡ false))
  unfolding picked
  cleanup-closes k h l y = (
    elim (Option-cases (lookup k m'.table)) [ inl n ↦ n | inr (g, r) ↦ absurd (stranger g r) ],
    closed,
  )
    where
      m' : Manager
      m' = cleanup m idle_only now

      mine : has h picked ≡ true
      mine = has-timeout_entries m idle_only now k h m.table l y

      closed : (e : Entry) × (m'.heap h ≡ some e) × (e.closed ≡ true) × (e.conn_open ≡ false)
      closed =
          let (e, c, _, _) = is_open k h l in
          let (f, d) = shuts.stays h e c in
          let o = shuts.shut h f mine d in (f, d, o, (shuts.inv.sound h f d).shut o)

      stranger : (g : ℕ) → lookup k m'.table ≡ some g → ⊥
      stranger g r =
          let (f, c, j, live) = shuts.inv.lists k g r in
          let o : f.closed ≡ false = open_lem m' g f shuts.quiet live in
          elim (Bool-cases (has g picked)) [
            | inl z ↦ cc (shuts.shut g f z c, o)
            | inr z ↦
                (let r' = i.listed g f (sym (shuts.kept g z) ∙ c) (inl o) in cc (r', j, l, z, mine))
          ]

empty_lem : (t : List (ℕ × ℕ)) → ((k h : ℕ) → lookup k t ≢ some h) → t ≡ []
unfolding lookup
empty_lem [] n = refl
empty_lem ((k, h) ∷ t) n = absurd (n k h (ground arith))

module _ (m : Manager) (now : ℕ) (i : Inv m) (q : Quiet m) where
  all_gone : (k h : ℕ) → lookup k (cleanup m false now).table ≢ some h
  unfolding cleanup is_idle
  all_gone k h l =
      let s = shuts m i q false now in
      let (f, c, j, live) = s.inv.lists k h l in
      let o : f.closed ≡ false = open_lem (cleanup m false now) h f s.quiet live in
      elim (Bool-cases (has h (picked m i q false now))) [
        | inl z ↦ cc (s.shut h f z c, o)
        | inr z ↦
            (let c' : m.heap h ≡ some f = sym (s.kept h z) ∙ c in
              let r : lookup k m.table ≡ some h =
                subst (λ j. lookup j m.table ≡ some h) j (i.listed h f c' (inl o)) in
              let y : idle_handle m false now (m.heap h) ≡ true = rw c' refl in
              let (n, _) = cleanup-closes m i q false now k h r y in cc (n, l))
      ]

-- At the end of `Run`, in a manager with the invariant and where no other call is closing a session, every session is closed: the table is
-- empty, and no entry that there ever was has an open socket.
pub cleanup-all :
    (m : Manager) (now : ℕ)
    → Inv m
    → Quiet m
    → ((cleanup m false now).table ≡ [])
      × ((h : ℕ)
          → (m.heap h ≡ none)
            ⊎ ((e : Entry) × ((cleanup m false now).heap h ≡ some e)
                × (e.closed ≡ true)
                × (e.conn_open ≡ false)))
cleanup-all m now i q = (empty_lem _ (all_gone m now i q), socket)
  where
    m' : Manager
    m' = cleanup m false now

    s : Shuts m m' (λ k. has k (picked m i q false now))
    s = shuts m i q false now

    at : (h : ℕ) (f : Entry) → m'.heap h ≡ some f → f.closed ≡ true
    at h f d = elim (Bool-cases f.closed) [
      | inl o ↦ o
      | inr o ↦ absurd (all_gone m now i q f.id h (s.inv.listed h f d (inl o)))
    ]

    socket :
        (h : ℕ)
        → (m.heap h ≡ none)
          ⊎ ((e : Entry) × (m'.heap h ≡ some e) × (e.closed ≡ true) × (e.conn_open ≡ false))
    socket h = elim (Option-cases (m.heap h)) [
      | inl n ↦ inl n
      | inr (e, c) ↦
          (let (f, d) = s.stays h e c in
            let o = at h f d in inr (f, d, o, (s.inv.sound h f d).shut o))
    ]
