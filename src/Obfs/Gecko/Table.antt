-- ===== src/Obfs/Gecko/Table.antt =====
-- The table of entries: what a deletion and a write leave of it.
use hysteria.Common.{
  ℕ, zero, suc, ◌+◌, ◌≡◌, inl, inr, refl, sym, ◌∙◌, ap, subst, List, [], ◌∷◌, Option, none, some,
  true, false, ltb, ◌==◌, if◌then◌else◌, length, set, get_elem?, replicate, All, arith, Bool-cases,
}
use hysteria.Obfs.Gecko.{ReassemblyEntry, has_key, find, remove, replace, older, oldest}

-- The entries of a source.
abbrev pub count_addr : ℕ → List ReassemblyEntry → ℕ
count_addr addr [] = 0
count_addr addr (e ∷ t) = (if e.addr == addr then 1 else 0) + count_addr addr t

-- No key stands in the table twice.
abbrev pub Distinct : List ReassemblyEntry → Type 0
Distinct [] = Unit {0}
Distinct (e ∷ t) = (find e.addr e.msg_id t ≡ none) × Distinct t

-- The chunks that are there.
abbrev pub filled : List (Option (List ℕ)) → ℕ
filled [] = 0
filled (none ∷ cs) = filled cs
filled (some c ∷ cs) = suc (filled cs)

pub filled-set :
    (cs : List (Option (List ℕ))) (i : ℕ) (c : List ℕ)
    → get_elem? cs i ≡ some none
    → filled (set cs i (some c)) ≡ suc (filled cs)
filled-set [] i c h = absurd (ground (arith, h))
filled-set (none ∷ cs) zero c h = refl
filled-set (some x ∷ cs) zero c h = absurd (ground (arith, h))
filled-set (none ∷ cs) (suc i) c h = filled-set cs i c h
filled-set (some x ∷ cs) (suc i) c h = ap suc (filled-set cs i c h)

pub filled-replicate : (n : ℕ) → filled (replicate n none) ≡ 0
filled-replicate zero = refl
filled-replicate (suc n) = filled-replicate n

pub find-key :
    (a i : ℕ) (t : List ReassemblyEntry) (e : ReassemblyEntry)
    → find a i t ≡ some e
    → (e.addr ≡ a) × (e.msg_id ≡ i)
find-key a i [] e h = absurd (ground (arith, h))
find-key a i (f ∷ t) e h = elim (Bool-cases (has_key a i f)) [
  | inl q ↦
      let same_entry : f ≡ e = cc (sym (ap (λ b. if b then some f else find a i t) q) ∙ h) in
      subst (λ (x : ReassemblyEntry). (x.addr ≡ a) × (x.msg_id ≡ i)) same_entry (ground (arith, q))
  | inr q ↦ find-key a i t e (sym (ap (λ b. if b then some f else find a i t) q) ∙ h)
]

pub remove-count :
    (a i : ℕ) (t : List ReassemblyEntry) (e : ReassemblyEntry) (b : ℕ)
    → find a i t ≡ some e
    → count_addr b t ≡ (if a == b then 1 else 0) + count_addr b (remove a i t)
remove-count a i [] e b h = absurd (ground (arith, h))
remove-count a i (f ∷ t) e b h = ground (arith, h, remove-count a i t e b)

pub remove-length :
    (a i : ℕ) (t : List ReassemblyEntry) (e : ReassemblyEntry)
    → find a i t ≡ some e
    → length t ≡ suc (length (remove a i t))
remove-length a i [] e h = absurd (ground (arith, h))
remove-length a i (f ∷ t) e h = ground (arith, h, remove-length a i t e)

pub replace-count :
    (e' : ReassemblyEntry) (t : List ReassemblyEntry) (b : ℕ)
    → count_addr b (replace e' t) ≡ count_addr b t
replace-count e' [] b = refl
replace-count e' (f ∷ t) b = ground (arith, replace-count e' t b)

pub replace-length :
    (e' : ReassemblyEntry) (t : List ReassemblyEntry) → length (replace e' t) ≡ length t
replace-length e' [] = refl
replace-length e' (f ∷ t) = ground (arith, replace-length e' t)

pub find-remove-none :
    (a i : ℕ) (t : List ReassemblyEntry) (b j : ℕ)
    → find b j t ≡ none
    → find b j (remove a i t) ≡ none
find-remove-none a i [] b j h = refl
find-remove-none a i (f ∷ t) b j h = ground (arith, h, find-remove-none a i t b j)

pub find-replace-none :
    (e' : ReassemblyEntry) (t : List ReassemblyEntry) (b j : ℕ)
    → find b j t ≡ none
    → find b j (replace e' t) ≡ none
find-replace-none e' [] b j h = refl
find-replace-none e' (f ∷ t) b j h = ground (arith, h, find-replace-none e' t b j)

pub remove-Distinct : (a i : ℕ) (t : List ReassemblyEntry) → Distinct t → Distinct (remove a i t)
remove-Distinct a i [] d = tt
remove-Distinct a i (f ∷ t) (n, d) = elim (Bool-cases (has_key a i f)) [
  | inl q ↦ rw q d
  | inr q ↦ rw q (find-remove-none a i t f.addr f.msg_id n, remove-Distinct a i t d)
]

pub remove-All {κ} :
    (P : ReassemblyEntry → Type κ) (a i : ℕ) (t : List ReassemblyEntry)
    → All P t
    → All P (remove a i t)
remove-All P a i [] h = h
remove-All P a i (f ∷ t) (x, h) = elim (Bool-cases (has_key a i f)) [
  | inl q ↦ rw q h
  | inr q ↦ rw q (x, remove-All P a i t h)
]

pub replace-All {κ} :
    (P : ReassemblyEntry → Type κ) (e' : ReassemblyEntry) (t : List ReassemblyEntry)
    → P e'
    → All P t
    → All P (replace e' t)
replace-All P e' [] p h = h
replace-All P e' (f ∷ t) p (x, h) = elim (Bool-cases (has_key e'.addr e'.msg_id f)) [
  | inl q ↦ rw q (p, h)
  | inr q ↦ rw q (x, replace-All P e' t p h)
]

pub replace-Distinct :
    (e' : ReassemblyEntry) (t : List ReassemblyEntry) → Distinct t → Distinct (replace e' t)
replace-Distinct e' [] d = tt
replace-Distinct e' (f ∷ t) (n, d) = elim (Bool-cases (has_key e'.addr e'.msg_id f)) [
  | inl q ↦
      let a : f.addr ≡ e'.addr = ground (arith, q) in
      let b : f.msg_id ≡ e'.msg_id = ground (arith, q) in
      rw q (subst (λ k. find k e'.msg_id t ≡ none) a (subst (λ k. find f.addr k t ≡ none) b n), d)
  | inr q ↦ rw q (find-replace-none e' t f.addr f.msg_id n, replace-Distinct e' t d)
]

pub find-All {κ} :
    (P : ReassemblyEntry → Type κ) (a i : ℕ) (t : List ReassemblyEntry) (e : ReassemblyEntry)
    → All P t
    → find a i t ≡ some e
    → P e
find-All P a i [] e p h = absurd (ground (arith, h))
find-All P a i (f ∷ t) e (x, p) h = elim (Bool-cases (has_key a i f)) [
  | inl q ↦
      let same_entry : f ≡ e = cc (sym (ap (λ b. if b then some f else find a i t) q) ∙ h) in
      subst P same_entry x
  | inr q ↦ find-All P a i t e p (sym (ap (λ b. if b then some f else find a i t) q) ∙ h)
]

-- The oldest entry is in the table.
pub find-oldest :
    (t : List ReassemblyEntry) (e : ReassemblyEntry)
    → oldest t ≡ some e
    → (f : ReassemblyEntry) × (find e.addr e.msg_id t ≡ some f)
find-oldest [] e h = absurd (ground (arith, h))
find-oldest (f ∷ t) e h = elim (Bool-cases (has_key e.addr e.msg_id f)) [
  | inl q ↦ (f, rw q refl)
  | inr q ↦
      let apart : f ≡ e → ⊥ = λ r.
        let self : has_key f.addr f.msg_id f ≡ true = ground arith in
        let other : has_key f.addr f.msg_id f ≡ false =
          subst (λ (x : ReassemblyEntry). has_key x.addr x.msg_id f ≡ false) (sym r) q in
        absurd (cc (self, other)) in
      let (g, r) = find-oldest t e (go (oldest t) refl h apart) in (g, rw q r)
]
  where
    go :
        (o : Option ReassemblyEntry)
        → oldest t ≡ o
        → some (older f o) ≡ some e
        → (f ≡ e → ⊥)
        → oldest t ≡ some e
    go none s k apart = let q : f ≡ e = cc k in absurd (apart q)
    go (some g) s k apart = elim (Bool-cases (ltb g.deadline f.deadline)) [
      | inl q ↦
          let r : g ≡ e = cc (sym (ap (λ b. some (if b then g else f)) q) ∙ k) in s ∙ ap some r
      | inr q ↦
          let r : f ≡ e = cc (sym (ap (λ b. some (if b then g else f)) q) ∙ k) in absurd (apart r)
    ]

-- What follows a write of a found entry.
pub find-replace_self :
    (e' : ReassemblyEntry) (t : List ReassemblyEntry) (e : ReassemblyEntry)
    → find e'.addr e'.msg_id t ≡ some e
    → find e'.addr e'.msg_id (replace e' t) ≡ some e'
find-replace_self e' [] e h = absurd (ground (arith, h))
find-replace_self e' (f ∷ t) e h = elim (Bool-cases (has_key e'.addr e'.msg_id f)) [
  | inl q ↦ let self : has_key e'.addr e'.msg_id e' ≡ true = ground arith in rw (q, self) refl
  | inr q ↦
      rw (q, q)
        (find-replace_self e' t e
          (sym (ap (λ b. if b then some f else find e'.addr e'.msg_id t) q) ∙ h))
]

pub remove-replace :
    (e' : ReassemblyEntry) (t : List ReassemblyEntry)
    → remove e'.addr e'.msg_id (replace e' t) ≡ remove e'.addr e'.msg_id t
remove-replace e' [] = refl
remove-replace e' (f ∷ t) = elim (Bool-cases (has_key e'.addr e'.msg_id f)) [
  | inl q ↦ let self : has_key e'.addr e'.msg_id e' ≡ true = ground arith in rw (q, self) refl
  | inr q ↦ rw (q, q) (ap (λ l. f ∷ l) (remove-replace e' t))
]
