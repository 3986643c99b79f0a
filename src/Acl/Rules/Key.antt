-- ===== src/Acl/Rules/Key.antt =====
-- Hosts with one key: the rules of extras/outbounds/acl cannot tell them apart.
use hysteria.Common.{
  ℕ, zero, suc, ◌≡◌, ◌≢◌, refl, sym, subst, ap, ap₂, ◌∙◌, List, [], ◌∷◌, ◌++◌, Option, none, some,
  Bool, true, false, ◌||◌, ◌&&◌, ◌==◌, length, take, drop, All, arith, Bool-cases, Option-cases,
  inl, inr, length-drop,
}
use hysteria.Common.Bytes.{same}
use hysteria.Acl.Ip.{
  IpNet, to4, short_form, or_self, ip_equal, contains, in_net, network_number_and_mask,
  v4_in_v6_prefix,
}
use hysteria.Acl.Texts.{same-length}
use hysteria.Common.Bytes.{same_iff}
use hysteria.Acl.Matchers.{
  HostInfo, HostMatcher, host_match, ip_matcher, cidr_matcher, domain_matcher, all_matcher,
  geoip_matcher, geosite_matcher, match_domain, match_mode, or_name,
}
use hysteria.Acl.GeoIp.{GeoipMatcher, is_nil, match_ip, match_present}
use hysteria.Acl.GeoSite
use hysteria.Acl.GeoIp
use hysteria.Acl.GeoIp.Search.{to4-length, to4_four, is_nil_long}
use hysteria.Acl.Rules.{host_string}

abbrev pub NoBar : List ℕ → Type 0
NoBar = All (λ c. c ≢ b'|')

no_bar : (a b : List ℕ) → NoBar (a ++ (b'|' ∷ b)) → ⊥
no_bar [] b h = h.0 refl
no_bar (c ∷ a) b h = no_bar a b h.1

-- The last bar splits a text in one way.
last_bar :
    (a a' b b' : List ℕ)
    → NoBar b
    → NoBar b'
    → a ++ (b'|' ∷ b) ≡ a' ++ (b'|' ∷ b')
    → (a ≡ a') × (b ≡ b')
last_bar [] [] b b' h h' e = (refl, cc (e))
last_bar [] (c ∷ a') b b' h h' e =
    let e' : b'|' ∷ b ≡ c ∷ (a' ++ (b'|' ∷ b')) = e in
    let t : b ≡ a' ++ (b'|' ∷ b') = cc (e') in absurd (no_bar a' b' (subst NoBar t h))
last_bar (c ∷ a) [] b b' h h' e =
    let e' : c ∷ (a ++ (b'|' ∷ b)) ≡ b'|' ∷ b' = e in
    let t : b' ≡ a ++ (b'|' ∷ b) = cc (e') in absurd (no_bar a b (subst NoBar t h'))
last_bar (c ∷ a) (c' ∷ a') b b' h h' e =
    let e' : c ∷ (a ++ (b'|' ∷ b)) ≡ c' ∷ (a' ++ (b'|' ∷ b')) = e in
    let head : c ≡ c' = cc (e') in
    let tail : a ++ (b'|' ∷ b) ≡ a' ++ (b'|' ∷ b') = cc (e') in
    let (p, q) = last_bar a a' b b' h h' tail in (ap₂ ◌∷◌ head p, q)

pub record IsIpString (ip_string : List ℕ → List ℕ) : Type 0 where
  pub no_bars : (ip : List ℕ) → NoBar (ip_string ip)
  pub distinct : (ip ip' : List ℕ) → ip_string ip ≡ ip_string ip' → short_form ip ≡ short_form ip'

-- Two hosts that differ in no more than the form of their addresses.
pub record Alike (h h' : HostInfo) : Type 0 where
  pub names : h.name ≡ h'.name
  pub ipv4s : short_form h.ipv4 ≡ short_form h'.ipv4
  pub ipv6s : short_form h.ipv6 ≡ short_form h'.ipv6

pub host_string-Alike :
    (ip_string : List ℕ → List ℕ)
    → IsIpString ip_string
    → (h h' : HostInfo) → host_string ip_string h ≡ host_string ip_string h'
    → Alike h h'
unfolding host_string
host_string-Alike ip_string w h h' e =
    let (p, q) = last_bar _ _ _ _ (w.no_bars h.ipv6) (w.no_bars h'.ipv6) e in
    let (n, r) = last_bar _ _ _ _ (w.no_bars h.ipv4) (w.no_bars h'.ipv4) p in
    record { names = n; ipv4s = w.distinct _ _ r; ipv6s = w.distinct _ _ q }

contains-short :
    (net : IpNet) (ip ip' : List ℕ)
    → short_form ip ≡ short_form ip'
    → contains net ip ≡ contains net ip'
unfolding contains
contains-short net ip ip' e = ap (in_net (network_number_and_mask net)) e

same_apart : (s t : List ℕ) → length s ≢ length t → same s t ≡ false
same_apart s t n = elim (Bool-cases (same s t)) [
  | inl e ↦ absurd (n (same-length s t e))
  | inr e ↦ e
]

same-drop :
    (n : ℕ) (s t : List ℕ)
    → same (take n s) (take n t) ≡ true
    → same s t ≡ same (drop n s) (drop n t)
unfolding same
same-drop zero s t h = refl
same-drop (suc n) [] [] h = refl
same-drop (suc n) [] (b ∷ t) h = absurd (cc h)
same-drop (suc n) (a ∷ s) [] h = absurd (cc h)
same-drop (suc n) (a ∷ s) (b ∷ t) h = ground (arith, h, same-drop n s t)

same_trans : (a b c : List ℕ) → same a c ≡ true → same b c ≡ true → same a b ≡ true
same_trans a b c h k = (same_iff a b).1 ((same_iff a c).0 h ∙ sym ((same_iff b c).0 k))

same_sym : (a b : List ℕ) → same a b ≡ same b a
unfolding same
same_sym [] [] = refl
same_sym [] (y ∷ b) = refl
same_sym (x ∷ a) [] = refl
same_sym (x ∷ a) (y ∷ b) = ground (arith, same_sym a b)

-- A mapped address is no other of its length.
prefix_apart :
    (ip x : List ℕ)
    → same (take 12 ip) v4_in_v6_prefix ≡ true
    → same (take 12 x) v4_in_v6_prefix ≡ false
    → same ip x ≡ false
prefix_apart ip x p p' = elim (Bool-cases (same ip x)) [
  | inl e ↦
      let heads : take 12 x ≡ take 12 ip = ap (take 12) (sym ((same_iff ip x).0 e)) in
      absurd (cc (p', ap (λ t. same t v4_in_v6_prefix) heads ∙ p))
  | inr e ↦ e
]

-- The three forms of an address.
data Form (ip : List ℕ) : Type 0 where
  four : length ip ≡ 4 → short_form ip ≡ ip → Form ip
  mapped :
      length ip ≡ 16
      → same (take 12 ip) v4_in_v6_prefix ≡ true
      → short_form ip ≡ drop 12 ip
      → Form ip
  other :
      length ip ≢ 4
      → (length ip ≡ 16 → same (take 12 ip) v4_in_v6_prefix ≡ false)
      → short_form ip ≡ ip
      → Form ip

form : (ip : List ℕ) → Form ip
unfolding short_form to4
form ip = elim (Bool-cases (length ip == 4)) [
  | inl f ↦ four (ground (arith, f)) (rw f refl)
  | inr nf ↦ elim (Bool-cases ((length ip == 16) && same (take 12 ip) v4_in_v6_prefix)) [
    | inl m ↦ mapped (ground (arith, m)) (ground (arith, m)) (rw nf rw m refl)
    | inr nm ↦ other (λ e. ground (arith, nf, e)) (λ e. ground (arith, nm, e)) (rw nf rw nm refl)
  ]
]

and_false : (b : Bool) → (b && false) ≡ false
and_false true = refl
and_false false = refl

ip_equal_odd : (ip x : List ℕ) → length ip ≢ 4 → length x ≢ 4 → ip_equal ip x ≡ same ip x
unfolding ip_equal
ip_equal_odd ip x l l' = elim (Bool-cases (length ip == length x)) [
  | inl e ↦ rw e refl
  | inr e ↦
      let ip4 : (length ip == 4) ≡ false = ground (arith, l) in
      let x4 : (length x == 4) ≡ false = ground (arith, l') in
      rw e rw ip4 rw x4 rw (and_false (length ip == 16))
        (sym (same_apart ip x (λ q. ground (arith, e, q))))
]

ip_equal-forms :
    (ip x : List ℕ) → Form ip → Form x → ip_equal ip x ≡ same (short_form ip) (short_form x)
unfolding ip_equal
ip_equal-forms ip x (four l s) (four l' s') = rw s rw s' (ground (arith, l, l'))
ip_equal-forms ip x (four l s) (mapped l' p' s') = rw s rw s' (ground (arith, l, l', p'))
ip_equal-forms ip x (four l s) (other l' p' s') =
    rw s rw s' (ground (arith, l, l', p', same_apart ip x (λ e. omega arith)))
ip_equal-forms ip x (mapped l p s) (four l' s') = rw s rw s' (ground (arith, l, l', p))
ip_equal-forms ip x (mapped l p s) (mapped l' p' s') = rw s rw s' (
    ground
      (arith, l, l', same-drop 12 ip x (same_trans (take 12 ip) (take 12 x) v4_in_v6_prefix p p')))
ip_equal-forms ip x (mapped l p s) (other l' p' s') = rw s rw s' (
    ground (
      arith,
      l,
      l',
      length-drop 12 ip,
      same_apart (drop 12 ip) x (λ e. omega (arith, length-drop 12 ip)),
      prefix_apart ip x p,
      p',
      same_apart ip x,
    ))
ip_equal-forms ip x (other l p s) (four l' s') =
    rw s rw s' (ground (arith, l, l', p, same_apart ip x (λ e. omega arith)))
ip_equal-forms ip x (other l p s) (mapped l' p' s') = rw s rw s' (
    ground (
      arith,
      l,
      l',
      same_apart ip (drop 12 x) (λ e. omega (arith, length-drop 12 x)),
      p,
      same_sym ip x,
      prefix_apart x ip p',
      same_apart ip x,
    ))
ip_equal-forms ip x (other l p s) (other l' p' s') = rw s rw s' (ip_equal_odd ip x l l')

ip_equal-Alike : (ip x x' : List ℕ) → short_form x ≡ short_form x' → ip_equal ip x ≡ ip_equal ip x'
ip_equal-Alike ip x x' e =
    ip_equal-forms ip x (form ip) (form x)
    ∙ ap (same (short_form ip)) e
    ∙ sym (ip_equal-forms ip x' (form ip) (form x'))

short_form-none : (ip : List ℕ) → to4 ip ≡ none → short_form ip ≡ ip
unfolding short_form
short_form-none ip e = ap (or_self ip) e

short_form-some : (ip ip4 : List ℕ) → to4 ip ≡ some ip4 → short_form ip ≡ ip4
unfolding short_form
short_form-some ip ip4 e = ap (or_self ip) e

match_present-short :
    (m : GeoipMatcher) (ip : List ℕ) → match_present m ip ≡ match_present m (short_form ip)
unfolding match_ip
match_present-short m ip = elim (Option-cases (to4 ip)) [
  | inl e ↦ rw (short_form-none ip e) refl
  | inr (ip4, e) ↦
      let (l, long) = to4-length ip ip4 e in
      rw (short_form-some ip ip4 e) rw e rw (is_nil_long ip long) rw (is_nil_long ip4 (omega arith))
        rw (to4_four ip4 l) refl
]

present-Alike :
    (m : GeoipMatcher) (ip ip' : List ℕ)
    → short_form ip ≡ short_form ip'
    → match_present m ip ≡ match_present m ip'
present-Alike m ip ip' e =
    match_present-short m ip ∙ ap (match_present m) e ∙ sym (match_present-short m ip')

geoip_match-Alike :
    (m : GeoipMatcher) (h h' : HostInfo)
    → Alike h h'
    → GeoIp.match m h.ipv4 h.ipv6 ≡ GeoIp.match m h'.ipv4 h'.ipv6
unfolding GeoIp.match
geoip_match-Alike m h h' a =
    rw (present-Alike m h.ipv4 h'.ipv4 a.ipv4s) rw (present-Alike m h.ipv6 h'.ipv6 a.ipv6s) refl

pub host_match-Alike :
    (to_unicode : List ℕ → Option (List ℕ)) (m : HostMatcher) (h h' : HostInfo)
    → Alike h h'
    → host_match to_unicode m h ≡ host_match to_unicode m h'
unfolding host_match match_domain
host_match-Alike u (ip_matcher ip) h h' a =
    ap₂ (λ p q. some (p || q)) (ip_equal-Alike ip _ _ a.ipv4s) (ip_equal-Alike ip _ _ a.ipv6s)
host_match-Alike u (cidr_matcher net) h h' a =
    ap₂ (λ p q. some (p || q)) (contains-short net _ _ a.ipv4s) (contains-short net _ _ a.ipv6s)
host_match-Alike u (domain_matcher pattern' mode) h h' a =
    ap (λ n. some (match_mode u mode pattern' (or_name u (u n) n))) a.names
host_match-Alike u all_matcher h h' a = refl
host_match-Alike u (geoip_matcher m) h h' a = geoip_match-Alike m h h' a
host_match-Alike u (geosite_matcher m) h h' a = ap (λ n. some ((GeoSite.match m n).0)) a.names
