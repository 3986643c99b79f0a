-- ===== src/PortUnion/Ports.antt =====
-- `Ports` lists the ports of a union, and of a normalized one each once and in ascending order.
use hysteria.Common.{
  ℕ, zero, suc, ◌+◌, ◌-◌, ◌≤◌, ◌<◌, ◌≡◌, refl, ◌∙◌, List, [], ◌∷◌, ◌++◌, Bool, false, ltb, leb,
  ◌==◌, ◌||◌, ◌&&◌, All, All-append, arith, Bool-cases, inl, inr,
}
use hysteria.PortUnion.{PortRange, Sorts, normalize, contains, ports_from, ports}
use hysteria.PortUnion.Merge.{Apart, normalize-Apart}

-- Whether a port is in a list.
abbrev pub listed : ℕ → List ℕ → Bool
listed port [] = false
listed port (p ∷ ps) = (p == port) || listed port ps

abbrev pub Ascending : List ℕ → Type 0
Ascending [] = Unit {0}
Ascending (p ∷ ps) = All (λ q. p < q) ps × Ascending ps

listed-append :
    (port : ℕ) (ps qs : List ℕ) → listed port (ps ++ qs) ≡ (listed port ps || listed port qs)
listed-append port [] qs = refl
listed-append port (p ∷ ps) qs = ground (arith, listed-append port ps qs)

listed-ports_from : (port i n : ℕ) → listed port (ports_from i n) ≡ (leb i port && ltb port (i + n))
unfolding ports_from
listed-ports_from port i zero = ground arith
listed-ports_from port i (suc n) = ground (arith, listed-ports_from port (i + 1) n)

listed-ports : (u : List PortRange) (port : ℕ) → listed port (ports u) ≡ contains u port
unfolding ports contains
listed-ports [] port = refl
listed-ports (r ∷ u) port =
    listed-append port (ports_from r.start (r.stop + 1 - r.start)) (ports u)
    ∙ ground (arith, listed-ports_from port r.start (r.stop + 1 - r.start), listed-ports u port)

at_least_mono : (m n : ℕ) (ps : List ℕ) → m ≤ n → All (λ q. n ≤ q) ps → All (λ q. m ≤ q) ps
at_least_mono m n [] h a = tt
at_least_mono m n (p ∷ ps) h (k, a) = (omega arith, at_least_mono m n ps h a)

-- A run of ports in front of an ascending list that starts behind it.
ports_from-Ascending :
    (i n : ℕ) (ps : List ℕ)
    → Ascending ps
    → All (λ q. i + n ≤ q) ps
    → Ascending (ports_from i n ++ ps) × All (λ q. i ≤ q) (ports_from i n ++ ps)
unfolding ports_from
ports_from-Ascending i zero ps asc a = (asc, at_least_mono i (i + 0) ps (omega arith) a)
ports_from-Ascending i (suc n) ps asc a =
    let (asc', a') =
      ports_from-Ascending (i + 1) n ps asc
        (at_least_mono (i + 1 + n) (i + suc n) ps (omega arith) a) in
    (
      (at_least_mono (suc i) (i + 1) _ (omega arith) a', asc'),
      (omega arith, at_least_mono i (i + 1) _ (omega arith) a'),
    )

ports_from-above : (m i n : ℕ) → m ≤ i → All (λ q. m ≤ q) (ports_from i n)
unfolding ports_from
ports_from-above m i zero h = tt
ports_from-above m i (suc n) h = (h, ports_from-above m (i + 1) n (omega arith))

ports-above :
    (m : ℕ) (u : List PortRange)
    → All (λ (s : PortRange). m < s.start) u
    → All (λ q. suc m ≤ q) (ports u)
unfolding ports
ports-above m [] a = tt
ports-above m (r ∷ u) (h, a) =
    All-append _ _ _ (ports_from-above (suc m) r.start _ h) (ports-above m u a)

ports-Ascending : (u : List PortRange) → Apart u → Ascending (ports u)
unfolding ports
ports-Ascending [] a = tt
ports-Ascending (r ∷ u) (h, a) = elim (Bool-cases (leb r.start r.stop)) [
  | inl y ↦
      (let above =
          at_least_mono (r.start + (r.stop + 1 - r.start)) (suc (r.stop + 1)) (ports u)
            (ground (arith, y)) (ports-above (r.stop + 1) u h) in
        (ports_from-Ascending r.start (r.stop + 1 - r.start) (ports u) (ports-Ascending u a)
          above).0)
  | inr n ↦
      (let z : r.stop + 1 - r.start ≡ 0 = ground (arith, n) in
        rw (z, ports_from) (ports-Ascending u a))
]

-- `Ports` of a normalized union lists exactly the ports that the union contains, each once and in
-- ascending order.
pub ports-normalize :
    (sort_slice : List PortRange → List PortRange) (u : List PortRange)
    → Sorts sort_slice
    → Ascending (ports (normalize sort_slice u))
      × ((port : ℕ) → listed port (ports (normalize sort_slice u)) ≡ contains u port)
ports-normalize sort_slice u s =
    let (same, a) = normalize-Apart sort_slice u s in
    (
      ports-Ascending (normalize sort_slice u) a,
      λ port. listed-ports (normalize sort_slice u) port ∙ same port,
    )
