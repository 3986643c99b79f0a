-- ===== src/Acl/Matchers/Wildcard.antt =====
-- The wildcard patterns of extras/outbounds/acl/matchers.go.
use hysteria.Common.{
  ℕ, List, [], ◌∷◌, ◌++◌, true, ◌==◌, ◌≡◌, refl, ◌↔◌, arith, ==_iff, Bool-cases, inl, inr, ◌≢◌,
  subst, sym, ap,
}
use hysteria.Acl.Matchers.{deep_match_rune}

-- What a pattern means: a star stands for any text, every other rune for itself.
pub data Matches : List ℕ → List ℕ → Type 0 where
  done : Matches [] []
  star :
      {str pattern' : List ℕ} (p : ℕ) (prefix rest : List ℕ)
      → p ≡ b'*'
      → str ≡ prefix ++ rest
      → Matches rest pattern'
      → Matches str (p ∷ pattern')
  rune :
      {str pattern' : List ℕ} (c p : ℕ)
      → p ≢ b'*'
      → c ≡ p
      → Matches str pattern'
      → Matches (c ∷ str) (p ∷ pattern')

-- A star takes one more rune.
takes_more :
    (c : ℕ) {str pattern' : List ℕ} (p : ℕ)
    → p ≡ b'*'
    → Matches str (p ∷ pattern')
    → Matches (c ∷ str) (p ∷ pattern')
takes_more c p e (star _ prefix rest q s m) = star p (c ∷ prefix) rest q (ap (◌∷◌ c) s) m
takes_more c p e (rune c' _ ne s m) = absurd (ne e)

Matches-of_deep :
    (str pattern' : List ℕ) → deep_match_rune str pattern' ≡ true → Matches str pattern'
unfolding deep_match_rune
Matches-of_deep [] [] h = done
Matches-of_deep (c ∷ str) [] h = absurd (cc h)
Matches-of_deep [] (p ∷ pattern') h = elim (Bool-cases (p == b'*')) [
  | inl e ↦
      star p [] [] ((==_iff p b'*').0 e) refl (Matches-of_deep [] pattern' (ground (arith, h, e)))
  | inr e ↦ absurd (ground (arith, h, e))
]
Matches-of_deep (c ∷ str) (p ∷ pattern') h = elim (Bool-cases (p == b'*')) [
  | inl e ↦ elim (Bool-cases (deep_match_rune (c ∷ str) pattern')) [
    | inl skip ↦
        star p [] (c ∷ str) ((==_iff p b'*').0 e) refl (Matches-of_deep (c ∷ str) pattern' skip)
    | inr s ↦
        takes_more c p ((==_iff p b'*').0 e)
          (Matches-of_deep str (p ∷ pattern') (ground (arith, h, e, s)))
  ]
  | inr e ↦
      rune c p (λ q. ground (arith, e, q)) (ground (arith, h, e))
        (Matches-of_deep str pattern' (ground (arith, h, e)))
]

star_matches :
    (p : ℕ) (prefix rest pattern' : List ℕ)
    → p ≡ b'*'
    → deep_match_rune rest pattern' ≡ true
    → deep_match_rune (prefix ++ rest) (p ∷ pattern') ≡ true
unfolding deep_match_rune
star_matches p [] [] pattern' e h = ground (arith, e, h)
star_matches p [] (c ∷ rest) pattern' e h = ground (arith, e, h)
star_matches p (c ∷ prefix) rest pattern' e h =
    ground (arith, e, star_matches p prefix rest pattern' e h)

deep_match_rune-Matches :
    {str pattern' : List ℕ} → Matches str pattern' → deep_match_rune str pattern' ≡ true
unfolding deep_match_rune
deep_match_rune-Matches done = refl
deep_match_rune-Matches {pattern' = _ ∷ pat} (star p prefix rest e s m) =
    subst (λ t. deep_match_rune t (p ∷ pat) ≡ true) (sym s)
      (star_matches p prefix rest pat e (deep_match_rune-Matches m))
deep_match_rune-Matches (rune c p ne e m) = ground (arith, ne, e, deep_match_rune-Matches m)

-- A wildcard pattern matches a name exactly if the name is the pattern's text with some text in the place of
-- each star.
pub deep_match_rune_iff :
    (str pattern' : List ℕ) → (deep_match_rune str pattern' ≡ true) ↔ Matches str pattern'
deep_match_rune_iff str pattern' = (Matches-of_deep str pattern', λ m. deep_match_rune-Matches m)
