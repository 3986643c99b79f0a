-- ===== src/PortUnion/Split.antt =====
-- `strings.Split` of Go's library, as extras/utils/portunion.go and extras/outbounds/acl use it, on joined texts.
use hysteria.Common.{ℕ, ◌≡◌, ◌≢◌, refl, ap, List, [], ◌∷◌, ◌++◌, true, false, ◌==◌, All, arith}
use hysteria.PortUnion.Parse.{split, cons_head}

abbrev pub Lacks : ℕ → List ℕ → Type 0
Lacks sep = All (λ c. c ≢ sep)

pub split-Lacks : (sep : ℕ) (s : List ℕ) → Lacks sep s → split sep s ≡ s ∷ []
unfolding split
split-Lacks sep [] h = refl
split-Lacks sep (c ∷ s) h =
    let other : (c == sep) ≡ false = ground (arith, h.0) in
    rw other (ap (cons_head c) (split-Lacks sep s h.1))

pub split-append :
    (sep : ℕ) (s t : List ℕ) → Lacks sep s → split sep (s ++ (sep ∷ t)) ≡ s ∷ split sep t
unfolding split
split-append sep [] t h = let here : (sep == sep) ≡ true = ground arith in rw here refl
split-append sep (c ∷ s) t h =
    let other : (c == sep) ≡ false = ground (arith, h.0) in
    rw other (ap (cons_head c) (split-append sep s t h.1))
