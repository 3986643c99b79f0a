-- ===== src/Client/Closing.antt =====
-- `close` and `closeCleanup`.
use hysteria.Common.{
  ℕ, ◌^◌, ◌≤◌, ◌<◌, ◌≡◌, ◌≢◌, ◌⊎◌, inl, inr, refl, sym, ◌∙◌, ap, subst, List, [], ◌∷◌, none, some,
  true, false, ◌==◌, All, arith, Bool-cases,
}
use hysteria.Server.Sessions.{lookup, delete, update}
use hysteria.Server.Sessions.Table.{lookup-delete}
use hysteria.Server.Sessions.Invariant.{update-eq}
use hysteria.Client.{UdpConn, Manager, new_udp, close_conn, close_all, close_cleanup}
use hysteria.Client.Invariant.{Inv}
use hysteria.Client.Cells.{closed-Inv}

-- `order` has a cell.
abbrev pub Contains : ℕ → List ℕ → Type 0
Contains g [] = ⊥
Contains g (h ∷ hs) = (h ≡ g) ⊎ Contains g hs

abbrev pub Covers : List ℕ → List (ℕ × ℕ) → Type 0
Covers order table = (k g : ℕ) → lookup k table ≡ some g → Contains g order

-- A close returns, and the table lists what it listed, but not the session.
pub record Closes (m : Manager) (h : ℕ) (m' : Manager) : Type 0 where
  pub inv : Inv m'
  pub same_fresh : m'.fresh ≡ m.fresh
  pub shrinks : (k g : ℕ) → lookup k m'.table ≡ some g → (lookup k m.table ≡ some g) × (h ≢ g)

-- A session that is closed is not listed.
not_listed :
    (m : Manager) (h : ℕ) (c : UdpConn)
    → Inv m
    → m.heap h ≡ some c
    → c.closed ≡ true
    → (k g : ℕ) → lookup k m.table ≡ some g
    → h ≢ g
not_listed m h c i at shut k g e =
    let (d, a, b, o) = i.lists k g e in
    λ q.
      let same_cell : c ≡ d = cc (a, at, q) in
      let is_open : c.closed ≡ false = ap (λ (x : UdpConn). x.closed) same_cell ∙ o in
      absurd (cc (is_open, shut))

lookup-delete_lem :
    (k j g : ℕ) (t : List (ℕ × ℕ)) → lookup j (delete k t) ≡ some g → lookup j t ≡ some g
lookup-delete_lem k j g t e = let q = sym (lookup-delete k j t) ∙ e in ground (arith, q)

pub close_conn-Keeps :
    (m : Manager) (h : ℕ)
    → Inv m
    → h < m.fresh
    → (m' : Manager) × (close_conn m h ≡ some m') × Closes m h m'
unfolding close_conn
close_conn-Keeps m h i l =
    let (c, at) = i.used h l in
    elim (Bool-cases c.closed) [
      | inl q ↦ (
        m,
        rw (at, q) refl,
        record {
          inv = i;
          same_fresh = refl;
          shrinks = λ k g e. (e, not_listed m h c i at q k g e);
        },
      )
      | inr q ↦
          let c' : UdpConn = record c { shut = true; closed = true } in
          let shut : c.shut ≡ false = (i.sound h c at).shut_closed ∙ q in
          let m' : Manager = record m {
            heap = update m.heap h (some c');
            table = delete c.id m.table;
          } in
          let i' : Inv m' = closed-Inv m h c c' i at q refl in
          (
            m',
            rw (at, q, shut) refl,
            record {
              inv = i';
              same_fresh = refl;
              shrinks = λ k g e. (
                lookup-delete_lem c.id k g m.table e,
                not_listed m' h c' i' (update-eq m.heap h (some c') h refl) refl k g e,
              );
            },
          )
    ]

close_all-Keeps :
    (m : Manager) (hs : List ℕ)
    → Inv m
    → All (λ h. h < m.fresh) hs
    → (m' : Manager) × (close_all m hs ≡ some m')
      × Inv m'
      × (m'.fresh ≡ m.fresh)
      × ((k g : ℕ) → lookup k m'.table ≡ some g → (lookup k m.table ≡ some g) × (Contains g hs → ⊥))
unfolding close_all
close_all-Keeps m [] i a = (m, refl, i, refl, λ k g e. (e, λ x. x))
close_all-Keeps m (h ∷ hs) i (l, a) =
    let (m', e, c) = close_conn-Keeps m h i l in
    let (m'', e', i'', same_fresh, s) =
      close_all-Keeps m' hs c.inv (subst (λ n. All (λ k. k < n) hs) (sym c.same_fresh) a) in
    (
      m'',
      rw e e',
      i'',
      same_fresh ∙ c.same_fresh,
      λ k g q.
          let (q', out) = s k g q in
          let (q'', apart) = c.shrinks k g q' in
          (q'', λ x. elim x [ inl y ↦ apart y | inr y ↦ out y ]),
    )

-- A table that lists nothing.
table-nil : (t : List (ℕ × ℕ)) → ((k g : ℕ) → lookup k t ≡ some g → ⊥) → t ≡ []
unfolding lookup
table-nil [] none_listed = refl
table-nil ((k, h) ∷ t) none_listed =
    let self : (k == k) ≡ true = ground arith in absurd (none_listed k h (rw self refl))

pub close_cleanup-Keeps :
    (m : Manager) (order : List ℕ)
    → Inv m
    → All (λ h. h < m.fresh) order
    → Covers order m.table
    → (m' : Manager) × (close_cleanup m order ≡ some m')
      × Inv m'
      × (m'.table ≡ [])
      × (m'.closed ≡ true)
      × (m'.fresh ≡ m.fresh)
unfolding close_cleanup
close_cleanup-Keeps m order i a cover =
    let (m', e, i', same_fresh, s) = close_all-Keeps m order i a in
    let nothing : m'.table ≡ [] =
      table-nil m'.table (λ k g q. let (q', out) = s k g q in out (cover k g q')) in
    (
      record m' { closed = true },
      rw e refl,
      record {
        lists = i'.lists;
        sound = i'.sound;
        used = i'.used;
        unused = i'.unused;
        ids = i'.ids;
        next = i'.next;
        distinct = i'.distinct;
        listed = i'.listed;
        ended = λ done. nothing;
      },
      nothing,
      refl,
      same_fresh,
    )

-- The cleanup at the end of `run` returns, whatever order Go ranges over the table in. After it the table
-- is empty, every session is closed with its channel, as long as at most 2^32 were opened, and `NewUDP`
-- fails.
pub close_cleanup_everything :
    (m : Manager) (order : List ℕ)
    → Inv m
    → All (λ h. h < m.fresh) order
    → Covers order m.table
    → m.fresh ≤ 2 ^ 32
    → (m' : Manager) × (close_cleanup m order ≡ some m')
      × (m'.table ≡ [])
      × ((h : ℕ) (c : UdpConn) → m'.heap h ≡ some c → (c.closed ≡ true) × (c.shut ≡ true))
      × (new_udp m' ≡ (m', none))
unfolding new_udp lookup
close_cleanup_everything m order i a cover few =
    let (m', e, i', nothing, done, same_fresh) = close_cleanup-Keeps m order i a cover in
    (
      m',
      e,
      nothing,
      λ h c at.
          let shut : c.closed ≡ true = elim (Bool-cases c.closed) [
            | inl q ↦ q
            | inr q ↦
                let at_id = i'.listed (omega arith) h c at q in
                let at_none : lookup c.id m'.table ≡ none = ap (lookup c.id) nothing in
                absurd (ground (arith, at_id, at_none))
          ] in
          (shut, (i'.sound h c at).shut_closed ∙ shut),
      rw done refl,
    )
