-- ===== src/Acl/Runs.antt =====
-- Runs of the matchers of the access control list.
use hysteria.Common.{
  ℕ, zero, suc, ◌<◌, ◌≡◌, ◌↔◌, refl, List, [], ◌∷◌, none, some, true, false, ◌||◌, map, arith, sym,
  subst, if◌then◌else◌, get_elem?,
}
use hysteria.Common.Bits.{bit_and_0xff}
use hysteria.Acl.Ip.{IpNet, less, contains, short_form, to4}
use hysteria.Acl.Texts.{codes}
use hysteria.Acl.GeoSite.{
  GeositeDomain, GeositeDomainType, geosite_domain_plain, geosite_domain_root, geosite_domain_full,
  match_any,
}
use hysteria.Acl.GeoSite.Indexed.{answers-scan}
use hysteria.Acl.GeoSite.Indexed
use hysteria.Acl.GeoIp.{GeoipMatcher}
use hysteria.Acl.GeoIp
use hysteria.Acl.GeoIp.Search.{IsIp, Apart, of_four, missing, held, match-held}
use hysteria.Acl.Matchers.{deep_match_rune}
use hysteria.Acl.Matchers.Wildcard.{Matches, deep_match_rune_iff}

abbrev entry : GeositeDomainType → List ℕ → GeositeDomain
entry type value = record { type = type; value = value; regex = none; attrs = [] }

abbrev sites : List GeositeDomain
sites =
    entry geosite_domain_root (codes "ads.com")
    ∷ entry geosite_domain_plain (codes "track")
    ∷ entry geosite_domain_full (codes "x.org")
    ∷ []

answers-scan_example :
    Indexed.answers
      (record { domains = sites; attrs = []; index = none })
      (codes "a.ads.com" ∷ codes "bads.com" ∷ codes "x.org" ∷ [])
    ≡ map (match_any [] sites) (codes "a.ads.com" ∷ codes "bads.com" ∷ codes "x.org" ∷ [])
answers-scan_example =
    answers-scan sites [] (codes "a.ads.com" ∷ codes "bads.com" ∷ codes "x.org" ∷ [])

scan_run :
    map (match_any [] sites) (codes "a.ads.com" ∷ codes "bads.com" ∷ codes "x.org" ∷ [])
    ≡ true ∷ false ∷ true ∷ []
unfolding match_any
scan_run = refl

abbrev net_of : ℕ → IpNet
net_of a = record { ip = a ∷ 0 ∷ 0 ∷ 0 ∷ []; mask = 255 ∷ 0 ∷ 0 ∷ 0 ∷ [] }

abbrev two_nets : GeoipMatcher
two_nets = record { n4 = net_of 10 ∷ net_of 192 ∷ []; n6 = []; inverse = false }

in_net_of :
    (a b : ℕ) (s : List ℕ) → a < 256 → IsIp 4 (b ∷ s) → contains (net_of a) (b ∷ s) ≡ true → b ≡ a
unfolding contains short_form to4
in_net_of a b (c ∷ d ∷ e ∷ []) l w h = ground (arith, h, bit_and_0xff a l, bit_and_0xff b (w.1.0))
in_net_of a b [] l w h = absurd (omega (arith, w.0))
in_net_of a b (c ∷ []) l w h = absurd (omega (arith, w.0))
in_net_of a b (c ∷ d ∷ []) l w h = absurd (omega (arith, w.0))
in_net_of a b (c ∷ d ∷ e ∷ f ∷ s) l w h = absurd (omega (arith, w.0))

two_nets-Apart : Apart 4 two_nets.n4
unfolding contains short_form to4 less
two_nets-Apart = record { own = own; before = before }
  where
    own :
        (i : ℕ) (a : IpNet)
        → get_elem? two_nets.n4 i ≡ some a
        → (contains a a.ip ≡ true) × IsIp 4 a.ip
    own zero a e =
        let q : net_of 10 ≡ a = cc (e) in
        subst (λ n. (contains n n.ip ≡ true) × IsIp 4 n.ip) q (refl, omega arith)
    own (suc zero) a e =
        let q : net_of 192 ≡ a = cc (e) in
        subst (λ n. (contains n n.ip ≡ true) × IsIp 4 n.ip) q (refl, omega arith)
    own (suc (suc i)) a e = absurd (cc e)

    less_of :
        (x y : List ℕ)
        → IsIp 4 x
        → IsIp 4 y
        → contains (net_of 10) x ≡ true
        → contains (net_of 192) y ≡ true
        → less x y ≡ true
    less_of [] y w v h k = absurd (omega (arith, w.0))
    less_of (b ∷ x) [] w v h k = absurd (omega (arith, v.0))
    less_of (b ∷ x) (c ∷ y) w v h k =
        ground (arith, in_net_of 10 b x (omega arith) w h, in_net_of 192 c y (omega arith) v k)

    before :
        (i j : ℕ) (a b : IpNet) (x y : List ℕ)
        → i < j
        → get_elem? two_nets.n4 i ≡ some a
        → get_elem? two_nets.n4 j ≡ some b
        → IsIp 4 x
        → IsIp 4 y
        → contains a x ≡ true
        → contains b y ≡ true
        → less x y ≡ true
    before zero (suc zero) a b x y l e f w v h k =
        let p : net_of 10 ≡ a = cc (e) in
        let q : net_of 192 ≡ b = cc (f) in
        less_of x y w v (subst (λ n. contains n x ≡ true) (sym p) h)
          (subst (λ n. contains n y ≡ true) (sym q) k)
    before zero zero a b x y l e f w v h k = absurd (omega arith)
    before (suc i) zero a b x y l e f w v h k = absurd (omega arith)
    before (suc i) (suc zero) a b x y l e f w v h k = absurd (omega arith)
    before i (suc (suc j)) a b x y l e f w v h k = absurd (cc f)

no_nets-Apart : Apart 16 two_nets.n6
no_nets-Apart = record {
  own = λ i a e. absurd (cc e);
  before = λ i j a b x y l e f w v h k. absurd (cc e);
}

match-held_example :
    GeoIp.match two_nets (10 ∷ 1 ∷ 2 ∷ 3 ∷ []) []
    ≡ some (if held two_nets (10 ∷ 1 ∷ 2 ∷ 3 ∷ []) || held two_nets [] then true else false)
match-held_example =
    match-held two_nets two_nets-Apart no_nets-Apart (10 ∷ 1 ∷ 2 ∷ 3 ∷ []) []
      (of_four (refl, omega arith)) (missing refl)

wildcard_run : deep_match_rune (codes "a.b.example.com") (codes "*.exa*.com") ≡ true
unfolding deep_match_rune
wildcard_run = refl

deep_match_rune_iff_example :
    (deep_match_rune (codes "a.example.com") (codes "*.com") ≡ true)
    ↔ Matches (codes "a.example.com") (codes "*.com")
deep_match_rune_iff_example = deep_match_rune_iff (codes "a.example.com") (codes "*.com")
