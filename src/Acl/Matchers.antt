-- ===== src/Acl/Matchers.antt =====
-- extras/outbounds/acl/matchers.go. `idna.ToUnicode` of golang.org/x/net is the parameter `to_unicode`, with
-- `none` for an error.
pub mod Wildcard
use hysteria.Common.{
  ℕ, List, [], ◌∷◌, ◌++◌, Option, none, some, Bool, true, false, ◌==◌, ◌||◌, if◌then◌else◌,
}
use hysteria.Common.Bytes.{same}
use hysteria.Acl.Ip.{IpNet, ip_equal, contains}
use hysteria.Acl.Texts.{has_suffix, runes}
use hysteria.Acl.GeoIp.{GeoipMatcher}
use hysteria.Acl.GeoSite.{GeositeMatcher}
use hysteria.Acl.GeoIp
use hysteria.Acl.GeoSite

pub record HostInfo : Type 0 where
  pub name : List ℕ
  pub ipv4 : List ℕ
  pub ipv6 : List ℕ

pub data DomainMode : Type 0 where
  domain_match_exact : DomainMode
  domain_match_wildcard : DomainMode
  domain_match_suffix : DomainMode

-- The types that implement `hostMatcher`.
pub data HostMatcher : Type 0 where
  ip_matcher : List ℕ → HostMatcher
  cidr_matcher : IpNet → HostMatcher
  domain_matcher : List ℕ → DomainMode → HostMatcher
  all_matcher : HostMatcher
  geoip_matcher : GeoipMatcher → HostMatcher
  geosite_matcher : GeositeMatcher → HostMatcher

-- `deepMatchRune`; the loop's `str` and `pattern`.
unfoldable pub deep_match_rune : List ℕ → List ℕ → Bool
deep_match_rune [] [] = true
deep_match_rune (c ∷ str) [] = false
deep_match_rune [] (p ∷ pattern') =
    let skip = deep_match_rune [] pattern' in if p == b'*' then skip else false
deep_match_rune (c ∷ str) (p ∷ pattern') =
    let skip = deep_match_rune (c ∷ str) pattern' in
    let eat = deep_match_rune str (p ∷ pattern') in
    let next = deep_match_rune str pattern' in
    if p == b'*' then (if skip then true else eat) else if c == p then next else false

module _ (to_unicode : List ℕ → Option (List ℕ)) where
  abbrev pub or_name : Option (List ℕ) → List ℕ → List ℕ
  or_name none name = name
  or_name (some unicode) name = unicode

  abbrev pub match_mode : DomainMode → List ℕ → List ℕ → Bool
  match_mode domain_match_exact pattern' name = same name pattern'
  match_mode domain_match_wildcard pattern' name = deep_match_rune (runes name) (runes pattern')
  match_mode domain_match_suffix pattern' name =
      same name pattern' || has_suffix name (b'.' ∷ pattern')

  unfoldable pub match_domain : List ℕ → DomainMode → HostInfo → Bool
  unfolding deep_match_rune runes same has_suffix
  match_domain pattern' mode host =
      match_mode mode pattern' (or_name (to_unicode host.name) host.name)

  -- `Match` of each matcher; `none` is a panic. That a GeoSite matcher builds its index at the first
  -- call changes none of its answers, and is left out.
  unfoldable pub host_match : HostMatcher → HostInfo → Option Bool
  unfolding match_domain ip_equal contains
  host_match (ip_matcher ip) host = some (ip_equal ip host.ipv4 || ip_equal ip host.ipv6)
  host_match (cidr_matcher net) host = some (contains net host.ipv4 || contains net host.ipv6)
  host_match (domain_matcher pattern' mode) host = some (match_domain pattern' mode host)
  host_match all_matcher host = some true
  host_match (geoip_matcher m) host = GeoIp.match m host.ipv4 host.ipv6
  host_match (geosite_matcher m) host = some ((GeoSite.match m host.name).0)
