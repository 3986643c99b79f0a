-- ===== src/Acl/Compile/NoPanic.antt =====
-- `Compile` of extras/outbounds/acl/compile.go does not panic.
use hysteria.Common.{ℕ, List, [], ◌∷◌, Option, none, some, Bool, true, false, if◌then◌else◌}
use hysteria.Common.Results.{Result, ok, err, panic, ◌>>=◌}
use hysteria.Acl.Parse.{TextRule}
use hysteria.Acl.Ip.{IpNet}
use hysteria.Acl.GeoIp.{new_geoip_matcher}
use hysteria.Acl.GeoSite.{new_geosite_matcher}
use hysteria.Acl.Compile.{
  Library, CompileError, outbound_not_found, load_failed, country_not_found, site_not_found,
  invalid_list, invalid_proto_port, or_error, compile_geoip, compile_geosite, compile_suffix,
  compile_cidr, compile_name, compile_host_matcher, or_invalid, compile_hijack, parse_proto_port,
  compile_rule,
}

abbrev pub NoPanic {ℓ} : {E : Type 0} {A : Type ℓ} → Result E A → Type 0
NoPanic (ok a) = Unit {0}
NoPanic (err e) = Unit {0}
NoPanic panic = ⊥

pub bind-NoPanic :
    {E A B : Type 0} (m : Result E A) (f : A → Result E B)
    → NoPanic m
    → ((a : A) → NoPanic (f a))
    → NoPanic (m >>= f)
bind-NoPanic (ok a) f h k = k a
bind-NoPanic (err e) f h k = tt
bind-NoPanic panic f h k = h

pub or_error-NoPanic : {A : Type 0} (e : CompileError) (o : Option A) → NoPanic (or_error e o)
or_error-NoPanic e none = tt
or_error-NoPanic e (some a) = tt

if-NoPanic :
    {A : Type 0} (b : Bool) (x y : Result CompileError A)
    → NoPanic x
    → NoPanic y
    → NoPanic (if b then x else y)
if-NoPanic true x y h k = h
if-NoPanic false x y h k = k

module _ (lib : Library) where
  geoip-NoPanic : (country : List ℕ) → NoPanic (compile_geoip lib country)
  geoip-NoPanic [] = tt
  geoip-NoPanic (c ∷ country) =
      bind-NoPanic (or_error load_failed lib.load_geoip) _ (or_error-NoPanic _ _) λ g.
        bind-NoPanic (or_error country_not_found (g (c ∷ country))) _ (or_error-NoPanic _ _) λ list.
          bind-NoPanic
            (or_error invalid_list (new_geoip_matcher lib.sort_slice list.cidr list.inverse_match))
            _ (or_error-NoPanic _ _) λ m. tt

  geosite-NoPanic : (name : List ℕ × List (List ℕ)) → NoPanic (compile_geosite lib name)
  geosite-NoPanic ([], attrs) = tt
  geosite-NoPanic (c ∷ name, attrs) =
      bind-NoPanic (or_error load_failed lib.load_geosite) _ (or_error-NoPanic _ _) λ g.
        bind-NoPanic (or_error site_not_found (g (c ∷ name))) _ (or_error-NoPanic _ _) λ list.
          bind-NoPanic (or_error invalid_list (new_geosite_matcher lib.compile_regex list attrs)) _
            (or_error-NoPanic _ _) λ m. tt

  suffix-NoPanic : (s : List ℕ) → NoPanic (compile_suffix lib s)
  suffix-NoPanic [] = tt
  suffix-NoPanic (c ∷ s) = tt

  cidr-NoPanic : (net : Option IpNet) → NoPanic (compile_cidr lib net)
  cidr-NoPanic none = tt
  cidr-NoPanic (some net) = tt

  name-NoPanic : (addr ip : List ℕ) → NoPanic (compile_name lib addr ip)
  name-NoPanic addr [] = tt
  name-NoPanic addr (b ∷ ip) = tt

  pub host-NoPanic : (s : List ℕ) → NoPanic (compile_host_matcher lib s)
  unfolding compile_host_matcher
  host-NoPanic s =
      search
        (if-NoPanic, geoip-NoPanic, geosite-NoPanic, suffix-NoPanic, cidr-NoPanic, name-NoPanic, tt)
        depth 12

  pub hijack-NoPanic : (s : List ℕ) → NoPanic (compile_hijack lib s)
  hijack-NoPanic [] = tt
  hijack-NoPanic (c ∷ s) = parsed_ip (lib.parse_ip (c ∷ s))
    where
      parsed_ip : (ip : List ℕ) → NoPanic (or_invalid lib ip)
      parsed_ip [] = tt
      parsed_ip (b ∷ ip) = tt

  module _ {O : Type 0} (outbounds : List ℕ → Option O) where
    pub rule-NoPanic : (t : TextRule) → NoPanic (compile_rule lib outbounds t)
    unfolding compile_rule
    rule-NoPanic t =
        bind-NoPanic (or_error outbound_not_found (outbounds (lib.to_lower t.outbound))) _
          (or_error-NoPanic _ _)
          λ o. bind-NoPanic (compile_host_matcher lib t.address) _ (host-NoPanic t.address) λ hm.
            bind-NoPanic (or_error invalid_proto_port (parse_proto_port lib t.proto_port)) _
              (or_error-NoPanic _ _)
              λ p.
                bind-NoPanic (compile_hijack lib t.hijack_address) _
                  (hijack-NoPanic t.hijack_address) λ h. tt
