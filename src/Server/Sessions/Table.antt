-- ===== src/Server/Sessions/Table.antt =====
-- The table of sessions: lookup, deletion, and distinct ids.
use hysteria.Common.{
  ℕ, ◌≤◌, ◌<◌, ◌≡◌, List, [], ◌∷◌, none, some, ◌==◌, if◌then◌else◌, length, arith,
}
use hysteria.Server.Sessions.{lookup, delete}

-- No id stands in the table twice.
abbrev pub Distinct : List (ℕ × ℕ) → Type 0
Distinct [] = Unit {0}
Distinct ((k, h) ∷ t) = (lookup k t ≡ none) × Distinct t

pub lookup-delete :
    (k j : ℕ) (t : List (ℕ × ℕ)) → lookup j (delete k t) ≡ (if k == j then none else lookup j t)
unfolding lookup delete
lookup-delete k j [] = ground arith
lookup-delete k j ((i, h) ∷ t) = ground (arith, lookup-delete k j t)

pub delete-Distinct : (k : ℕ) (t : List (ℕ × ℕ)) → Distinct t → Distinct (delete k t)
unfolding delete
delete-Distinct k [] d = tt
delete-Distinct k ((i, h) ∷ t) d = ground (arith, delete-Distinct k t d.1, lookup-delete k i t)

pub length-delete-le : (k : ℕ) (t : List (ℕ × ℕ)) → length (delete k t) ≤ length t
unfolding delete
length-delete-le k [] = omega arith
length-delete-le k ((i, h) ∷ t) = ground (arith, length-delete-le k t)

pub length-delete :
    (k h : ℕ) (t : List (ℕ × ℕ)) → lookup k t ≡ some h → length (delete k t) < length t
unfolding lookup delete
length-delete k h [] e = absurd (cc e)
length-delete k h ((i, g) ∷ t) e = ground (arith, length-delete k h t, length-delete-le k t)
