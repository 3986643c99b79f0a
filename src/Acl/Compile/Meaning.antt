-- ===== src/Acl/Compile/Meaning.antt =====
-- What a rule of an access control list means to `Compile` of extras/outbounds/acl/compile.go: the form of its address,
-- protocol and ports, and address to hijack to, each with its errors.
use hysteria.Common.{ℕ, ◌≡◌, List, [], ◌∷◌, Option, none, some, Bool, true, false, ◌||◌, drop}
use hysteria.Common.Bytes.{same}
use hysteria.Common.Results.{Result, ok, err}
use hysteria.Acl.Texts.{trim_dots, has_prefix, contains}
use hysteria.Acl.Ip.{IpNet}
use hysteria.Acl.GeoIp.{GeoipMatcher, new_geoip_matcher}
use hysteria.Acl.GeoSite.{GeositeMatcher, Domain, new_geosite_matcher}
use hysteria.Acl.Matchers.{
  HostMatcher, all_matcher, ip_matcher, cidr_matcher, domain_matcher, geoip_matcher,
  geosite_matcher, domain_match_exact, domain_match_wildcard, domain_match_suffix,
}
use hysteria.Acl.Rules.{CompiledRule, Protocol}
use hysteria.Acl.Parse.{TextRule}
use hysteria.Acl.Compile.{
  Library, GeoIp, CompileError, outbound_not_found, empty_country, country_not_found, empty_site,
  site_not_found, load_failed, invalid_list, empty_suffix, invalid_cidr, invalid_proto_port,
  invalid_hijack, parse_proto_port, parse_geo_site_name,
}

abbrev pub star : List ℕ
star = b'*' ∷ []

abbrev pub says_all : List ℕ → Bool
says_all addr = same addr star || same addr (b'a' ∷ b'l' ∷ b'l' ∷ [])

abbrev pub says_geoip : List ℕ → Bool
says_geoip addr = has_prefix addr (b'g' ∷ b'e' ∷ b'o' ∷ b'i' ∷ b'p' ∷ b':' ∷ [])

abbrev pub says_geosite : List ℕ → Bool
says_geosite addr = has_prefix addr (b'g' ∷ b'e' ∷ b'o' ∷ b's' ∷ b'i' ∷ b't' ∷ b'e' ∷ b':' ∷ [])

abbrev pub says_suffix : List ℕ → Bool
says_suffix addr = has_prefix addr (b's' ∷ b'u' ∷ b'f' ∷ b'f' ∷ b'i' ∷ b'x' ∷ b':' ∷ [])

-- None of the words and prefixes.
abbrev pub IsPlain : List ℕ → Type 0
IsPlain addr =
    (says_all addr ≡ false)
    × (says_geoip addr ≡ false)
    × (says_geosite addr ≡ false)
    × (says_suffix addr ≡ false)

module _ (lib : Library) where
  -- A country code: it must be given, the map loaded, the code in it, and its nets well formed.
  pub data Country : List ℕ → Result CompileError HostMatcher → Type 0 where
    no_code : Country [] (err empty_country)
    no_map : (c : ℕ) (code : List ℕ) → lib.load_geoip ≡ none → Country (c ∷ code) (err load_failed)
    no_country :
        (c : ℕ) (code : List ℕ) (g : List ℕ → Option GeoIp)
        → lib.load_geoip ≡ some g
        → g (c ∷ code) ≡ none
        → Country (c ∷ code) (err country_not_found)
    bad_nets :
        (c : ℕ) (code : List ℕ) (g : List ℕ → Option GeoIp) (list : GeoIp)
        → lib.load_geoip ≡ some g
        → g (c ∷ code) ≡ some list
        → new_geoip_matcher lib.sort_slice list.cidr list.inverse_match ≡ none
        → Country (c ∷ code) (err invalid_list)
    nets :
        (c : ℕ) (code : List ℕ) (g : List ℕ → Option GeoIp) (list : GeoIp) (m : GeoipMatcher)
        → lib.load_geoip ≡ some g
        → g (c ∷ code) ≡ some list
        → new_geoip_matcher lib.sort_slice list.cidr list.inverse_match ≡ some m
        → Country (c ∷ code) (ok (geoip_matcher m))

  -- A site name with attributes, in the same way.
  pub data Site : List ℕ → List (List ℕ) → Result CompileError HostMatcher → Type 0 where
    no_name : (attrs : List (List ℕ)) → Site [] attrs (err empty_site)
    no_map :
        (c : ℕ) (name : List ℕ) (attrs : List (List ℕ))
        → lib.load_geosite ≡ none
        → Site (c ∷ name) attrs (err load_failed)
    no_site :
        (c : ℕ) (name : List ℕ) (attrs : List (List ℕ)) (g : List ℕ → Option (List Domain))
        → lib.load_geosite ≡ some g
        → g (c ∷ name) ≡ none
        → Site (c ∷ name) attrs (err site_not_found)
    bad_domains :
        (c : ℕ) (name : List ℕ) (attrs : List (List ℕ)) (g : List ℕ → Option (List Domain))
        (list : List Domain)
        → lib.load_geosite ≡ some g
        → g (c ∷ name) ≡ some list
        → new_geosite_matcher lib.compile_regex list attrs ≡ none
        → Site (c ∷ name) attrs (err invalid_list)
    domains :
        (c : ℕ) (name : List ℕ) (attrs : List (List ℕ)) (g : List ℕ → Option (List Domain))
        (list : List Domain) (m : GeositeMatcher)
        → lib.load_geosite ≡ some g
        → g (c ∷ name) ≡ some list
        → new_geosite_matcher lib.compile_regex list attrs ≡ some m
        → Site (c ∷ name) attrs (ok (geosite_matcher m))

  -- An address in lower case, without dots at its end.
  pub data Address (addr : List ℕ) : Result CompileError HostMatcher → Type 0 where
    everything : says_all addr ≡ true → Address addr (ok all_matcher)
    country :
        (r : Result CompileError HostMatcher)
        → says_all addr ≡ false
        → says_geoip addr ≡ true
        → Country (drop 6 addr) r
        → Address addr r
    site :
        (r : Result CompileError HostMatcher)
        → says_all addr ≡ false
        → says_geoip addr ≡ false
        → says_geosite addr ≡ true
        → Site
            ((parse_geo_site_name lib (drop 8 addr)).0)
            ((parse_geo_site_name lib (drop 8 addr)).1)
            r
        → Address addr r
    no_suffix :
        says_all addr ≡ false
        → says_geoip addr ≡ false
        → says_geosite addr ≡ false
        → says_suffix addr ≡ true
        → drop 7 addr ≡ []
        → Address addr (err empty_suffix)
    suffix :
        (c : ℕ) (s : List ℕ)
        → says_all addr ≡ false
        → says_geoip addr ≡ false
        → says_geosite addr ≡ false
        → says_suffix addr ≡ true
        → drop 7 addr ≡ c ∷ s
        → Address addr (ok (domain_matcher (c ∷ s) domain_match_suffix))
    no_net :
        IsPlain addr
        → contains addr (b'/' ∷ []) ≡ true
        → lib.parse_cidr addr ≡ none
        → Address addr (err invalid_cidr)
    net :
        (n : IpNet)
        → IsPlain addr
        → contains addr (b'/' ∷ []) ≡ true
        → lib.parse_cidr addr ≡ some n
        → Address addr (ok (cidr_matcher n))
    ip :
        (b : ℕ) (bs : List ℕ)
        → IsPlain addr
        → contains addr (b'/' ∷ []) ≡ false
        → lib.parse_ip addr ≡ b ∷ bs
        → Address addr (ok (ip_matcher (b ∷ bs)))
    wildcard :
        IsPlain addr
        → contains addr (b'/' ∷ []) ≡ false
        → lib.parse_ip addr ≡ []
        → contains addr star ≡ true
        → Address addr (ok (domain_matcher addr domain_match_wildcard))
    exact :
        IsPlain addr
        → contains addr (b'/' ∷ []) ≡ false
        → lib.parse_ip addr ≡ []
        → contains addr star ≡ false
        → Address addr (ok (domain_matcher addr domain_match_exact))

  -- The address that a rule hijacks to: none, or one that is given and can be parsed.
  pub data Hijack : List ℕ → Result CompileError (List ℕ) → Type 0 where
    no_hijack : Hijack [] (ok [])
    bad_hijack :
        (c : ℕ) (s : List ℕ) → lib.parse_ip (c ∷ s) ≡ [] → Hijack (c ∷ s) (err invalid_hijack)
    hijack :
        (c : ℕ) (s : List ℕ) (b : ℕ) (bs : List ℕ)
        → lib.parse_ip (c ∷ s) ≡ b ∷ bs
        → Hijack (c ∷ s) (ok (b ∷ bs))

  -- A rule, and its errors in the order in which its parts are looked at.
  pub data Means {O : Type 0} (outbounds : List ℕ → Option O) (t : TextRule)
      : Result CompileError (CompiledRule O) → Type 0 where
    no_outbound :
        outbounds (lib.to_lower t.outbound) ≡ none → Means outbounds t (err outbound_not_found)
    bad_address :
        (o : O) (e : CompileError)
        → outbounds (lib.to_lower t.outbound) ≡ some o
        → Address (trim_dots (lib.to_lower t.address)) (err e)
        → Means outbounds t (err e)
    bad_ports :
        (o : O) (hm : HostMatcher)
        → outbounds (lib.to_lower t.outbound) ≡ some o
        → Address (trim_dots (lib.to_lower t.address)) (ok hm)
        → parse_proto_port lib t.proto_port ≡ none
        → Means outbounds t (err invalid_proto_port)
    bad_target :
        (o : O) (hm : HostMatcher) (proto : Protocol) (start : ℕ) (stop : ℕ) (e : CompileError)
        → outbounds (lib.to_lower t.outbound) ≡ some o
        → Address (trim_dots (lib.to_lower t.address)) (ok hm)
        → parse_proto_port lib t.proto_port ≡ some (proto, start, stop)
        → Hijack t.hijack_address (err e)
        → Means outbounds t (err e)
    rule :
        (o : O) (hm : HostMatcher) (proto : Protocol) (start : ℕ) (stop : ℕ) (target : List ℕ)
        → outbounds (lib.to_lower t.outbound) ≡ some o
        → Address (trim_dots (lib.to_lower t.address)) (ok hm)
        → parse_proto_port lib t.proto_port ≡ some (proto, start, stop)
        → Hijack t.hijack_address (ok target)
        → Means outbounds t (
            ok (record {
              outbound = o;
              host_matcher = hm;
              protocol = proto;
              start_port = start;
              end_port = stop;
              hijack_address = target;
            }))
