-- ===== src/Server/Sessions/Admission.antt =====
-- What `feed` does with a session id: the session it finds or opens, or the refusal at the cap.
use hysteria.Common.{
  ℕ, ◌≡◌, ◌⊎◌, inl, inr, refl, [], Option, none, some, Bool, true, false, ◌||◌, not, ◌==◌,
  if◌then◌else◌, length, arith, leb, ltb, Bool-cases, Option-cases,
}
use hysteria.Server.Session.{Entry, new_entry}
use hysteria.Server.Sessions.{
  Manager, lookup, update, admit, can_admit, start_idle_cleanup, with_entry,
}
use hysteria.Server.Sessions.Invariant.{update-ne, handle-cases}

-- An entry as `feed` makes it: nothing has come in, and there is no socket.
abbrev pub IsNew : ℕ → ℕ → Option Entry → Type 0
IsNew id now none = ⊥
IsNew id now (some e) =
    (e.id ≡ id)
    × (e.last ≡ now)
    × (e.d ≡ record { pkt_id = 0; frags = []; count = 0; size = 0 })
    × (e.conn ≡ none)
    × (e.conn_open ≡ false)
    × (e.closed ≡ false)
    × (e.override_addr ≡ [])
    × (e.acl_cache ≡ [])

-- A new session: only its id leads to another entry than before, and only its entry is changed.
abbrev pub Opens : Manager → ℕ → ℕ → Manager × Option ℕ → Type 0
Opens m id now (m', o) =
    (o ≡ some m.fresh)
    × IsNew id now (m'.heap m.fresh)
    × ((k : ℕ) → lookup k m'.table ≡ (if k == id then some m.fresh else lookup k m.table))
    × ((g : ℕ) → (g ≡ m.fresh) ⊎ (m'.heap g ≡ m.heap g))
    × (m'.cleanup_running ≡ (m.cleanup_running || m.has_stop))

-- The session of this id where there is one, and nothing changes; or a new one.
abbrev pub Gives : Manager → ℕ → ℕ → Manager × Option ℕ → Type 0
Gives m id now r =
    ((h : ℕ) × (lookup id m.table ≡ some h) × (r ≡ (m, some h)))
    ⊎ ((lookup id m.table ≡ none) × Opens m id now r)

-- What comes of a message: a session, or at the cap the manager as it was.
abbrev pub Outcome : Manager → ℕ → ℕ → Bool → Manager × Option ℕ → Type 0
Outcome m id now true r = Gives m id now r
Outcome m id now false r = r ≡ (m, none)

opened_lem :
    (m : Manager) (id now : ℕ)
    → Opens m id now (start_idle_cleanup (with_entry m id now), some m.fresh)
unfolding start_idle_cleanup lookup
opened_lem m id now = go (m.cleanup_running || not m.has_stop) refl
  where
    heaps : (g : ℕ) → (g ≡ m.fresh) ⊎ (update m.heap m.fresh (some (new_entry id now)) g ≡ m.heap g)
    heaps g = elim (handle-cases g m.fresh) [
      | inl y ↦ inl y
      | inr n ↦ inr (update-ne m.heap m.fresh (some (new_entry id now)) g n)
    ]

    fresh : IsNew id now (update m.heap m.fresh (some (new_entry id now)) m.fresh)
    fresh =
        let self : (m.fresh == m.fresh) ≡ true = ground arith in
        rw self (refl, refl, refl, refl, refl, refl, refl, refl)

    go :
        (b : Bool)
        → (m.cleanup_running || not m.has_stop) ≡ b
        → Opens m id now (start_idle_cleanup (with_entry m id now), some m.fresh)
    go true z =
        rw (z, start_idle_cleanup) (refl, fresh, λ k. ground arith, heaps, ground (arith, z))
    go false z =
        rw (z, start_idle_cleanup) (refl, fresh, λ k. ground arith, heaps, ground (arith, z))

-- `feed` gives a message a session exactly if `canAdmit` says so. That is the session of this id, where
-- there is one, and nothing changes; otherwise a new one with no socket and an empty defragger: this id
-- leads to it then, each other id leads to what it led to, each entry that there was is as it was, and
-- the loop that closes idle sessions runs if `Run` has started. At the cap, without a session of this
-- id, nothing changes.
pub admit_lem : (m : Manager) (id now : ℕ) → Outcome m id now (can_admit m id) (admit m id now)
admit_lem m id now = elim (Option-cases (lookup id m.table)) [
  | inr (h, q) ↦ unfold can_admit admit in rw (q, can_admit, admit) (inl (h, q, refl))
  | inl q ↦ elim (Bool-cases (leb m.max_sessions (length m.table))) [
    | inl full ↦
        (let z : ltb (length m.table) m.max_sessions ≡ false = ground (arith, full) in
          unfold can_admit admit in rw (q, z, full, can_admit, admit) refl)
    | inr room ↦
        (let z : ltb (length m.table) m.max_sessions ≡ true = ground (arith, room) in
          unfold can_admit admit in
          rw (q, z, room, can_admit, admit) (inr (q, opened_lem m id now)))
  ]
]
