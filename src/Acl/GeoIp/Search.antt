-- ===== src/Acl/GeoIp/Search.antt =====
-- The binary search of a GeoIP matcher against the nets that hold an address.
use hysteria.Common.{
  ℕ, zero, suc, ◌+◌, ◌-◌, ◌/◌, ◌<◌, ◌≤◌, ◌≡◌, refl, sym, ap, ◌∙◌, List, [], ◌∷◌, some, Bool, true,
  false, not, ◌||◌, ◌&&◌, ◌==◌, ltb, lt_trichotomy, ltb→lt, lt→ltb, ◌⊎◌, if◌then◌else◌, length,
  take, drop, subst, get_elem?, arith, Bool-cases, Option-cases, inl, inr,
}
use hysteria.Common.{length-drop}
use hysteria.Common.Bytes.{same, AreBytes}
use hysteria.Acl.Ip.{to4, v4_in_v6_prefix, IpNet, less, contains}
use hysteria.Acl.GeoIp.{
  GeoipMatcher, search, search_all, family, is_nil, match_ip, match_present, match,
}

pub to4-length : (ip ip4 : List ℕ) → to4 ip ≡ some ip4 → (length ip4 ≡ 4) × (4 ≤ length ip)
unfolding to4
to4-length ip ip4 e = elim (Bool-cases (length ip == 4)) [
  | inl f ↦
      let e' : some ip ≡ some ip4 = ground (arith, e, f) in
      let q : ip ≡ ip4 = cc (e') in (ground (arith, f, ap length q), ground (arith, f))
  | inr nf ↦ elim (Bool-cases ((length ip == 16) && same (take 12 ip) v4_in_v6_prefix)) [
    | inl m ↦
        let e' : some (drop 12 ip) ≡ some ip4 = ground (arith, e, nf, m) in
        let q : drop 12 ip ≡ ip4 = cc (e') in
        let l : length ip ≡ 16 = ground (arith, m) in
        (omega (arith, ap length q, length-drop 12 ip), omega arith)
    | inr nm ↦ absurd (ground (arith, e, nf, nm))
  ]
]

pub to4_four : (ip4 : List ℕ) → length ip4 ≡ 4 → to4 ip4 ≡ some ip4
unfolding to4
to4_four ip4 l = ground (arith, l)

pub is_nil_long : (ip : List ℕ) → 4 ≤ length ip → is_nil ip ≡ false
is_nil_long [] h = absurd (omega arith)
is_nil_long (b ∷ ip) h = refl

pub less_asym : (a b : List ℕ) → less a b ≡ true → less b a ≡ false
unfolding less
less_asym a [] h = absurd (cc h)
less_asym [] (y ∷ b) h = refl
less_asym (x ∷ a) (y ∷ b) h = ground (arith, h, less_asym a b)

-- An address of `size` bytes.
abbrev pub IsIp : ℕ → List ℕ → Type 0
IsIp size ip = (length ip ≡ size) × AreBytes ip

-- The nets of addresses of `size` bytes follow one another: each holds its own address, and every address
-- that one holds is less than those that a later one holds.
pub record Apart (size : ℕ) (n : List IpNet) : Type 0 where
  pub own : (i : ℕ) (a : IpNet) → get_elem? n i ≡ some a → (contains a a.ip ≡ true) × IsIp size a.ip
  pub before :
      (i j : ℕ) (a b : IpNet) (x y : List ℕ)
      → i < j
      → get_elem? n i ≡ some a
      → get_elem? n j ≡ some b
      → IsIp size x
      → IsIp size y
      → contains a x ≡ true
      → contains b y ≡ true
      → less x y ≡ true

-- An address of a host: missing, or of 4 or 16 bytes.
pub data IsAddress (ip : List ℕ) : Type 0 where
  missing : ip ≡ [] → IsAddress ip
  of_four : IsIp 4 ip → IsAddress ip
  of_sixteen : IsIp 16 ip → IsAddress ip

-- Some net of the list holds the address.
unfoldable pub any_contains : List IpNet → List ℕ → Bool
any_contains [] ip = false
any_contains (net ∷ n) ip = if contains net ip then true else any_contains n ip

any_contains-get :
    (n : List IpNet) (ip : List ℕ) (i : ℕ) (a : IpNet)
    → get_elem? n i ≡ some a
    → contains a ip ≡ true
    → any_contains n ip ≡ true
unfolding any_contains
any_contains-get [] ip i a e hit = absurd (cc e)
any_contains-get (net ∷ n) ip zero a e hit = ground (arith, e, hit)
any_contains-get (net ∷ n) ip (suc i) a e hit = ground (arith, any_contains-get n ip i a e hit)

any_contains-none :
    (n : List IpNet) (ip : List ℕ)
    → ((i : ℕ) (a : IpNet) → get_elem? n i ≡ some a → contains a ip ≡ true → ⊥)
    → any_contains n ip ≡ false
unfolding any_contains
any_contains-none [] ip none_holds = refl
any_contains-none (net ∷ n) ip none_holds = elim (Bool-cases (contains net ip)) [
  | inl hit ↦ absurd (none_holds 0 net refl hit)
  | inr out ↦ rw out (any_contains-none n ip (λ i a e hit. none_holds (suc i) a e hit))
]

get_elem?-some : (n : List IpNet) (i : ℕ) → i < length n → (a : IpNet) × (get_elem? n i ≡ some a)
get_elem?-some [] i h = absurd (omega arith)
get_elem?-some (a ∷ n) zero h = (a, refl)
get_elem?-some (a ∷ n) (suc i) h = get_elem?-some n i (omega arith)

get_elem?-bound : (n : List IpNet) (i : ℕ) (a : IpNet) → get_elem? n i ≡ some a → i < length n
get_elem?-bound [] i a e = absurd (cc e)
get_elem?-bound (b ∷ n) zero a e = omega arith
get_elem?-bound (b ∷ n) (suc i) a e = omega (arith, get_elem?-bound n i a e)

module _ (size : ℕ) (n : List IpNet) (ip : List ℕ) (apart : Apart size n)
    (is_ip : IsIp size ip) where
  -- A net that holds the address stands between `left` and `stop`.
  Within : ℕ → ℕ → Type 0
  Within left stop =
      (i : ℕ) (a : IpNet) → get_elem? n i ≡ some a → contains a ip ≡ true → (left ≤ i) × (i < stop)

  same_net :
      (a net : IpNet) {i mid : ℕ}
      → i ≡ mid
      → get_elem? n i ≡ some a
      → get_elem? n mid ≡ some net
      → contains a ip ≡ true
      → contains net ip ≡ false
      → ⊥
  same_net a net q ei e hit out =
      let same : some a ≡ some net = sym ei ∙ ap (get_elem? n) q ∙ e in
      let a_net : a ≡ net = cc (same) in absurd (cc (a_net, hit, out))

  goes_up :
      (mid : ℕ) (net : IpNet) (left stop : ℕ)
      → get_elem? n mid ≡ some net
      → contains net ip ≡ false
      → less net.ip ip ≡ true
      → Within left stop
      → Within (mid + 1) stop
  unfolding Within
  goes_up mid net left stop e out up w i a ei hit = elim (lt_trichotomy i mid) [
    | inl l ↦
        let back = less_asym ip net.ip (
          apart.before i mid a net ip net.ip l ei e is_ip ((apart.own mid net e).1) hit
            ((apart.own mid net e).0)) in
        absurd (cc (back, up))
    | inr (inl q) ↦ absurd (same_net a net q ei e hit out)
    | inr (inr g) ↦ let (l, r) = w i a ei hit in (omega arith, r)
  ]

  goes_down :
      (mid : ℕ) (net : IpNet) (left stop : ℕ)
      → get_elem? n mid ≡ some net
      → contains net ip ≡ false
      → less net.ip ip ≡ false
      → Within left stop
      → Within left mid
  unfolding Within
  goes_down mid net left stop e out down w i a ei hit = elim (lt_trichotomy i mid) [
    | inl l ↦ let (b, r) = w i a ei hit in (b, l)
    | inr (inl q) ↦ absurd (same_net a net q ei e hit out)
    | inr (inr g) ↦
        let forth =
          apart.before mid i net a net.ip ip g e ei ((apart.own mid net e).1) is_ip
            ((apart.own mid net e).0) hit in
        absurd (cc (forth, down))
  ]

  search-Within :
      (fuel left stop : ℕ)
      → stop ≤ length n
      → stop - left ≤ fuel
      → Within left stop
      → search fuel n ip left stop ≡ some (any_contains n ip)
  unfolding search Within
  search-Within zero left stop h enough w =
      ap some (sym (any_contains-none n ip (λ i a e hit. let (l, r) = w i a e hit in omega arith)))
  search-Within (suc fuel) left stop h enough w = elim (Bool-cases (ltb left stop)) [
    | inr done ↦ rw done (
        ap some (
          sym (
            any_contains-none n ip (λ i a e hit.
              let (l, r) = w i a e hit in absurd (cc (done, lt→ltb left stop (omega arith)))))))
    | inl more ↦
        let lt : left < stop = ltb→lt left stop more in
        let mid : ℕ = (left + stop - 1) / 2 in
        let (net, e) = get_elem?-some n mid (omega arith) in
        rw more rw e (elim (Bool-cases (contains net ip)) [
          | inl hit ↦ rw hit (ap some (sym (any_contains-get n ip mid net e hit)))
          | inr out ↦ rw out (elim (Bool-cases (less net.ip ip)) [
            | inl up ↦ rw up (
                search-Within fuel (mid + 1) stop h (omega arith)
                  (goes_up mid net left stop e out up w))
            | inr down ↦ rw down (
                search-Within fuel left mid (omega arith) (omega arith)
                  (goes_down mid net left stop e out down w))
          ])
        ])
  ]

address-bytes : (ip : List ℕ) → IsIp 4 ip ⊎ IsIp 16 ip → AreBytes ip
address-bytes ip (inl w) = w.1
address-bytes ip (inr w) = w.1

All-drop : (n : ℕ) (xs : List ℕ) → AreBytes xs → AreBytes (drop n xs)
All-drop zero xs h = h
All-drop (suc n) [] h = h
All-drop (suc n) (x ∷ xs) h = All-drop n xs h.1

to4-IsIp : (ip ip4 : List ℕ) → AreBytes ip → to4 ip ≡ some ip4 → IsIp 4 ip4
unfolding to4
to4-IsIp ip ip4 bytes e = (
  (to4-length ip ip4 e).0,
  elim (Bool-cases (length ip == 4)) [
    | inl f ↦
        let e' : some ip ≡ some ip4 = ground (arith, e, f) in
        let q : ip ≡ ip4 = cc (e') in subst AreBytes q bytes
    | inr nf ↦ elim (Bool-cases ((length ip == 16) && same (take 12 ip) v4_in_v6_prefix)) [
      | inl m ↦
          let e' : some (drop 12 ip) ≡ some ip4 = ground (arith, e, nf, m) in
          let q : drop 12 ip ≡ ip4 = cc (e') in subst AreBytes q (All-drop 12 ip bytes)
      | inr nm ↦ absurd (ground (arith, e, nf, nm))
    ]
  ],
)

search_all-any :
    (size : ℕ) (n : List IpNet) (ip : List ℕ)
    → Apart size n
    → IsIp size ip
    → search_all (n, ip) ≡ some (any_contains n ip)
unfolding Within
search_all-any size n ip apart is_ip =
    search-Within size n ip apart is_ip (length n) 0 (length n) (omega arith) (omega arith)
      (λ i a e hit. (omega arith, get_elem?-bound n i a e))

-- A net of its family holds the address, which is not missing.
unfoldable pub held : GeoipMatcher → List ℕ → Bool
held m ip = if is_nil ip then false else let (n, ip') = family m ip (to4 ip) in any_contains n ip'

module _ (m : GeoipMatcher) (a4 : Apart 4 m.n4) (a6 : Apart 16 m.n6) where
  search-held :
      (ip : List ℕ)
      → is_nil ip ≡ false
      → IsIp 4 ip ⊎ IsIp 16 ip
      → match_present m ip ≡ some (held m ip)
  unfolding match_ip held
  search-held ip there w = elim (Option-cases (to4 ip)) [
    | inr (ip4, e) ↦
        rw there rw e (search_all-any 4 m.n4 ip4 a4 (to4-IsIp ip ip4 (address-bytes ip w) e))
    | inl e ↦ elim w [
      | inl four ↦ absurd (cc (e, to4_four ip four.0))
      | inr sixteen ↦ rw there rw e (search_all-any 16 m.n6 ip a6 sixteen)
    ]
  ]

  match_present-held : (ip : List ℕ) → IsAddress ip → match_present m ip ≡ some (held m ip)
  unfolding held
  match_present-held ip (missing e) = rw e refl
  match_present-held ip (of_four w) = search-held ip (is_nil_long ip (omega (arith, w.0))) (inl w)
  match_present-held ip (of_sixteen w) =
      search-held ip (is_nil_long ip (omega (arith, w.0))) (inr w)

  -- Where the nets of both families follow one another, the binary searches find a host exactly if some net
  -- holds one of its addresses; the answer is turned around if the list is an inverse one.
  pub match-held :
      (ipv4 ipv6 : List ℕ)
      → IsAddress ipv4
      → IsAddress ipv6
      → match m ipv4 ipv6 ≡ some (if held m ipv4 || held m ipv6 then not m.inverse else m.inverse)
  unfolding match
  match-held ipv4 ipv6 w4 w6 =
      rw (match_present-held ipv4 w4) (ground (arith, match_present-held ipv6 w6))
