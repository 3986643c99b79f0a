-- ===== src/Server/Sessions/Invariant.antt =====
-- The invariant of the manager, and what keeps it: each step's effect on one entry or on the table.
use hysteria.Common.{
  ℕ, ◌≤◌, ◌≡◌, ◌≢◌, ◌⊎◌, inl, inr, refl, sym, ◌∙◌, ap, subst, [], none, some, Bool, true, false,
  ◌==◌, length, arith, Bool-cases,
}
use hysteria.Server.Session.{Entry}
use hysteria.Server.Session.Feeding.{IsSound}
use hysteria.Server.Sessions.{Manager, lookup, update}
use hysteria.Server.Sessions.Table.{Distinct}

-- An entry that is open, or closed and not yet taken out of the table.
abbrev pub Live : Manager → ℕ → Entry → Type 0
Live m h e = (e.closed ≡ false) ⊎ (m.exiting h ≡ true)

pub record Inv (m : Manager) : Type 0 where
  pub bounded : length m.table ≤ m.max_sessions
  pub distinct : Distinct m.table
  -- The table lists live entries, each under its id, and every live entry: none is lost.
  pub lists :
      (k h : ℕ)
      → lookup k m.table ≡ some h
      → (e : Entry) × (m.heap h ≡ some e) × (e.id ≡ k) × Live m h e
  pub listed : (h : ℕ) (e : Entry) → m.heap h ≡ some e → Live m h e → lookup e.id m.table ≡ some h
  pub exits : (h : ℕ) → m.exiting h ≡ true → (e : Entry) × (m.heap h ≡ some e) × (e.closed ≡ true)
  -- A closed entry has no open socket.
  pub sound : (h : ℕ) (e : Entry) → m.heap h ≡ some e → IsSound e
  pub unused : (h : ℕ) → m.fresh ≤ h → m.heap h ≡ none
  -- While there are sessions, the loop that closes idle ones runs.
  pub cleans : m.has_stop ≡ true → m.cleanup_running ≡ false → m.table ≡ []

pub update-eq {ℓ} : {A : Type ℓ} (f : ℕ → A) (h : ℕ) (a : A) (k : ℕ) → k ≡ h → update f h a k ≡ a
update-eq f h a k e = ground arith

pub update-ne {ℓ} : {A : Type ℓ} (f : ℕ → A) (h : ℕ) (a : A) (k : ℕ) → k ≢ h → update f h a k ≡ f k
update-ne f h a k n = ground arith

pub handle-cases : (k h : ℕ) → (k ≡ h) ⊎ (k ≢ h)
handle-cases k h = elim (Bool-cases (k == h)) [
  | inl e ↦ inl (ground arith)
  | inr n ↦ inr (λ q. ground arith)
]

abbrev pub with_cell : Manager → ℕ → Entry → (ℕ → Bool) → Manager
with_cell m h e' x = record m { heap = update m.heap h (some e'); exiting = x }

-- A change of one entry that keeps its id, and whether it is live.
module _ (m : Manager) (i : Inv m) (h : ℕ) (e e' : Entry) (x : ℕ → Bool) where
  pub with_cell-Inv :
      m.heap h ≡ some e
      → e'.id ≡ e.id
      → IsSound e'
      → ((k : ℕ) → k ≢ h → x k ≡ m.exiting k)
      → (Live m h e → (e'.closed ≡ false) ⊎ (x h ≡ true))
      → ((e'.closed ≡ false) ⊎ (x h ≡ true) → Live m h e)
      → (x h ≡ true → e'.closed ≡ true)
      → Inv (with_cell m h e' x)
  with_cell-Inv at id s other to from closed = record {
    bounded = i.bounded;
    distinct = i.distinct;
    lists = lists';
    listed = listed';
    exits = exits';
    sound = sound';
    unused = λ k l. elim (handle-cases k h) [
      | inl q ↦ absurd (cc (i.unused k l, at, q))
      | inr n ↦ update-ne m.heap h (some e') k n ∙ i.unused k l
    ];
    cleans = i.cleans;
  }
    where
      m' : Manager
      m' = with_cell m h e' x

      there : (g : ℕ) → g ≢ h → m'.heap g ≡ m.heap g
      there g n = update-ne m.heap h (some e') g n

      here : (g : ℕ) → g ≡ h → m'.heap g ≡ some e'
      here g q = update-eq m.heap h (some e') g q

      is_here : (f : Entry) → m'.heap h ≡ some f → e' ≡ f
      is_here f c = cc (here h refl, c)

      lists-here :
          (k : ℕ)
          → lookup k m.table ≡ some h
          → (f : Entry) × (m'.heap h ≡ some f) × (f.id ≡ k) × Live m' h f
      lists-here k l =
          let (f, c, p, live) = i.lists k h l in
          let q : f ≡ e = cc (c, at) in
          (e', here h refl, id ∙ cc (q, p), to (subst (Live m h) q live))

      lists-there :
          (k g : ℕ)
          → g ≢ h
          → lookup k m.table ≡ some g
          → (f : Entry) × (m'.heap g ≡ some f) × (f.id ≡ k) × Live m' g f
      lists-there k g n l =
          let (f, c, p, live) = i.lists k g l in (f, there g n ∙ c, p, rw (other g n) live)

      listed-here : (f : Entry) → m'.heap h ≡ some f → Live m' h f → lookup f.id m.table ≡ some h
      listed-here f c live =
          let q : f ≡ e' = sym (is_here f c) in
          let p : f.id ≡ e.id = cc (q, id) in
          rw p (i.listed h e at (from (subst (Live m' h) q live)))

      listed-there :
          (g : ℕ) (f : Entry)
          → g ≢ h
          → m'.heap g ≡ some f
          → Live m' g f
          → lookup f.id m.table ≡ some g
      listed-there g f n c live = i.listed g f (sym (there g n) ∙ c) (rw (sym (other g n)) live)

      exits-there :
          (g : ℕ) → g ≢ h → x g ≡ true → (f : Entry) × (m'.heap g ≡ some f) × (f.closed ≡ true)
      exits-there g n b = let (f, c, d) = i.exits g (sym (other g n) ∙ b) in (f, there g n ∙ c, d)

      exits-here : x h ≡ true → (f : Entry) × (m'.heap h ≡ some f) × (f.closed ≡ true)
      exits-here b = (e', here h refl, closed b)

      lists' :
          (k g : ℕ)
          → lookup k m.table ≡ some g
          → (f : Entry) × (m'.heap g ≡ some f) × (f.id ≡ k) × Live m' g f
      lists' k g l = elim (handle-cases g h) [
        | inl q ↦
            subst
              (λ j.
                lookup k m.table ≡ some j
                → (f : Entry) × (m'.heap j ≡ some f) × (f.id ≡ k) × Live m' j f)
              (sym q) (lists-here k) l
        | inr n ↦ lists-there k g n l
      ]

      listed' :
          (g : ℕ) (f : Entry) → m'.heap g ≡ some f → Live m' g f → lookup f.id m.table ≡ some g
      listed' g f c live = elim (handle-cases g h) [
        | inl q ↦
            subst (λ j. m'.heap j ≡ some f → Live m' j f → lookup f.id m.table ≡ some j) (sym q)
              (listed-here f) c live
        | inr n ↦ listed-there g f n c live
      ]

      exits' : (g : ℕ) → x g ≡ true → (f : Entry) × (m'.heap g ≡ some f) × (f.closed ≡ true)
      exits' g b = elim (handle-cases g h) [
        | inl q ↦
            subst (λ j. x j ≡ true → (f : Entry) × (m'.heap j ≡ some f) × (f.closed ≡ true)) (sym q)
              exits-here b
        | inr n ↦ exits-there g n b
      ]

      sound' : (g : ℕ) (f : Entry) → m'.heap g ≡ some f → IsSound f
      sound' g f c = elim (handle-cases g h) [
        | inl q ↦ subst IsSound (is_here f (ap m'.heap (sym q) ∙ c)) s
        | inr n ↦ i.sound g f (sym (there g n) ∙ c)
      ]
