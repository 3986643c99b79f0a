-- ===== src/Acl/Compile.antt =====
-- The compiler of extras/outbounds/acl/compile.go. What it uses of Go's library and of the loader of the
-- databases is the parameter `lib`. The messages of errors are constructors.
pub mod Ports
pub mod NoPanic
pub mod Meaning
pub mod Rule
pub mod First
mod Runs
use hysteria.Common.{
  ℕ, ◌+◌, List, [], ◌∷◌, ◌++◌, Option, none, some, Bool, true, false, ◌&&◌, ◌||◌, ltb, ◌==◌,
  if◌then◌else◌, drop, map,
}
use hysteria.Common.Results.{Result, ok, err, panic, ◌>>=◌}
use hysteria.Common.Bytes.{same}
use hysteria.Acl.Ip.{IpNet}
use hysteria.Acl.Texts.{has_prefix, contains, trim_dots}
use hysteria.Acl.GeoIp.{Cidr, GeoipMatcher, new_geoip_matcher}
use hysteria.Acl.GeoSite.{Domain, GeositeMatcher, new_geosite_matcher}
use hysteria.Acl.Matchers.{
  HostMatcher, ip_matcher, cidr_matcher, domain_matcher, all_matcher, geoip_matcher,
  geosite_matcher, domain_match_exact, domain_match_wildcard, domain_match_suffix,
}
use hysteria.Acl.Rules.{Protocol, protocol_both, protocol_tcp, protocol_udp, CompiledRule}
use hysteria.Acl.Parse.{TextRule}
use hysteria.PortUnion.Parse.{split, parse_uint16}

-- The entries of the databases.
pub record GeoIp : Type 0 where
  pub cidr : List Cidr
  pub inverse_match : Bool

pub record Library : Type 0 where
  pub to_lower : List ℕ → List ℕ
  pub trim_space : List ℕ → List ℕ
  -- Nil is the empty list.
  pub parse_ip : List ℕ → List ℕ
  pub parse_cidr : List ℕ → Option IpNet
  pub compile_regex : List ℕ → Option (List ℕ → Bool)
  pub sort_slice : List IpNet → List IpNet
  -- The maps, or `none` for an error of the loader.
  pub load_geoip : Option (List ℕ → Option GeoIp)
  pub load_geosite : Option (List ℕ → Option (List Domain))

pub data CompileError : Type 0 where
  outbound_not_found : CompileError
  empty_country : CompileError
  country_not_found : CompileError
  empty_site : CompileError
  site_not_found : CompileError
  load_failed : CompileError
  invalid_list : CompileError
  empty_suffix : CompileError
  invalid_cidr : CompileError
  invalid_proto_port : CompileError
  invalid_hijack : CompileError

-- `strings.SplitN(s, sep, 2)` for a separator of one byte: the text before it, and what stands behind.
abbrev pub push_text : ℕ → List ℕ × Option (List ℕ) → List ℕ × Option (List ℕ)
push_text c (a, b) = (c ∷ a, b)

unfoldable pub split_two : ℕ → List ℕ → List ℕ × Option (List ℕ)
split_two sep [] = ([], none)
split_two sep (c ∷ s) =
    let rest = push_text c (split_two sep s) in if c == sep then ([], some s) else rest

abbrev pub text_all : List ℕ
text_all = b'a' ∷ b'l' ∷ b'l' ∷ []

abbrev pub text_star : List ℕ
text_star = b'*' ∷ []

abbrev pub text_tcp : List ℕ
text_tcp = b't' ∷ b'c' ∷ b'p' ∷ []

abbrev pub text_udp : List ℕ
text_udp = b'u' ∷ b'd' ∷ b'p' ∷ []

abbrev pub or_error {ℓ} : {A : Type ℓ} → CompileError → Option A → Result CompileError A
or_error e none = err e
or_error e (some a) = ok a

-- The first part of a protocol with a port.
unfoldable pub parse_proto : List ℕ → Option Protocol
unfolding same
parse_proto s =
    if same s text_tcp
    then some protocol_tcp
    else if same s text_udp
    then some protocol_udp
    else if same s text_star
    then some protocol_both
    else none

abbrev pub ordered : Option ℕ → Option ℕ → Option (ℕ × ℕ)
ordered none stop = none
ordered (some start) none = none
ordered (some start) (some stop) = if ltb stop start then none else some (start, stop)

abbrev pub one_port : Option ℕ → Option (ℕ × ℕ)
one_port none = none
one_port (some port) = some (port, port)

-- `whole` is the part as it was, `ports` what the split of the trimmed part gives.
abbrev pub parse_ports : List ℕ → List ℕ × Option (List ℕ) → Option (ℕ × ℕ)
parse_ports whole (a, none) = one_port (parse_uint16 whole)
parse_ports whole (a, some b) = ordered (parse_uint16 a) (parse_uint16 b)

abbrev pub with_proto : Option Protocol → Option (ℕ × ℕ) → Option (Protocol × ℕ × ℕ)
with_proto none ports = none
with_proto (some proto) none = none
with_proto (some proto) (some (start, stop)) = some (proto, start, stop)

module _ (lib : Library) where
  abbrev pub parse_parts : List ℕ × Option (List ℕ) → Option (Protocol × ℕ × ℕ)
  parse_parts (proto, none) =
      if same proto text_tcp
      then some (protocol_tcp, 0, 0)
      else if same proto text_udp
      then some (protocol_udp, 0, 0)
      else none
  parse_parts (proto, some port) = with_proto (parse_proto proto) (
      if same port text_star
      then some (0, 0)
      else parse_ports port (split_two b'-' (lib.trim_space port)))

  unfoldable pub parse_proto_port : List ℕ → Option (Protocol × ℕ × ℕ)
  unfolding split_two parse_proto parse_uint16 same
  parse_proto_port s =
      let proto_port = lib.to_lower s in
      if same proto_port []
        || same proto_port text_star
        || same proto_port (b'*' ∷ b'/' ∷ b'*' ∷ [])
      then some (protocol_both, 0, 0)
      else parse_parts (split_two b'/' proto_port)

  abbrev pub parse_geo_site_parts : List (List ℕ) → List ℕ × List (List ℕ)
  parse_geo_site_parts [] = ([], [])
  parse_geo_site_parts (base ∷ attrs) = (lib.trim_space base, map lib.trim_space attrs)

  unfoldable pub parse_geo_site_name : List ℕ → List ℕ × List (List ℕ)
  unfolding split
  parse_geo_site_name s = parse_geo_site_parts (split b'@' s)

  abbrev pub compile_geoip : List ℕ → Result CompileError HostMatcher
  compile_geoip [] = err empty_country
  compile_geoip (c ∷ country) = do
    g_map ← or_error load_failed lib.load_geoip
    list ← or_error country_not_found (g_map (c ∷ country))
    m ← or_error invalid_list (new_geoip_matcher lib.sort_slice list.cidr list.inverse_match)
    ok (geoip_matcher m)

  abbrev pub compile_geosite : List ℕ × List (List ℕ) → Result CompileError HostMatcher
  compile_geosite ([], attrs) = err empty_site
  compile_geosite (c ∷ name, attrs) = do
    g_map ← or_error load_failed lib.load_geosite
    list ← or_error site_not_found (g_map (c ∷ name))
    m ← or_error invalid_list (new_geosite_matcher lib.compile_regex list attrs)
    ok (geosite_matcher m)

  abbrev pub compile_suffix : List ℕ → Result CompileError HostMatcher
  compile_suffix [] = err empty_suffix
  compile_suffix (c ∷ suffix) = ok (domain_matcher (c ∷ suffix) domain_match_suffix)

  abbrev pub compile_cidr : Option IpNet → Result CompileError HostMatcher
  compile_cidr none = err invalid_cidr
  compile_cidr (some ipnet) = ok (cidr_matcher ipnet)

  abbrev pub compile_name : List ℕ → List ℕ → Result CompileError HostMatcher
  compile_name addr [] = ok (
      domain_matcher addr
        (if contains addr text_star then domain_match_wildcard else domain_match_exact))
  compile_name addr (b ∷ ip) = ok (ip_matcher (b ∷ ip))

  unfoldable pub compile_host_matcher : List ℕ → Result CompileError HostMatcher
  unfolding trim_dots has_prefix contains same parse_geo_site_name new_geoip_matcher
      new_geosite_matcher
  compile_host_matcher s =
      let addr = trim_dots (lib.to_lower s) in
      if same addr text_star || same addr text_all
      then ok all_matcher
      else if has_prefix addr (b'g' ∷ b'e' ∷ b'o' ∷ b'i' ∷ b'p' ∷ b':' ∷ [])
      then compile_geoip (drop 6 addr)
      else if has_prefix addr (b'g' ∷ b'e' ∷ b'o' ∷ b's' ∷ b'i' ∷ b't' ∷ b'e' ∷ b':' ∷ [])
      then compile_geosite (parse_geo_site_name (drop 8 addr))
      else if has_prefix addr (b's' ∷ b'u' ∷ b'f' ∷ b'f' ∷ b'i' ∷ b'x' ∷ b':' ∷ [])
      then compile_suffix (drop 7 addr)
      else if contains addr (b'/' ∷ [])
      then compile_cidr (lib.parse_cidr addr)
      else compile_name addr (lib.parse_ip addr)

  -- The address that a rule hijacks to: nil, a parsed address, or an error.
  abbrev pub or_invalid : List ℕ → Result CompileError (List ℕ)
  or_invalid [] = err invalid_hijack
  or_invalid (b ∷ ip) = ok (b ∷ ip)

  abbrev pub compile_hijack : List ℕ → Result CompileError (List ℕ)
  compile_hijack [] = ok []
  compile_hijack (c ∷ s) = or_invalid (lib.parse_ip (c ∷ s))

  module _ {O : Type 0} (outbounds : List ℕ → Option O) where
    -- The body of the loop of `Compile`.
    unfoldable pub compile_rule : TextRule → Result CompileError (CompiledRule O)
    unfolding compile_host_matcher parse_proto_port
    compile_rule rule = do
      outbound ← or_error outbound_not_found (outbounds (lib.to_lower rule.outbound))
      hm ← compile_host_matcher rule.address
      ports ← or_error invalid_proto_port (parse_proto_port rule.proto_port)
      hijack_address ← compile_hijack rule.hijack_address
      ok (record {
        outbound = outbound;
        host_matcher = hm;
        protocol = ports.0;
        start_port = ports.1;
        end_port = ports.2;
        hijack_address = hijack_address;
      })

    -- An error with the line of its rule.
    abbrev pub at_line : {A : Type 0} → ℕ → Result CompileError A → Result (ℕ × CompileError) A
    at_line num (ok a) = ok a
    at_line num (err e) = err (num, e)
    at_line num panic = panic

    unfoldable pub compile : List TextRule → Result (ℕ × CompileError) (List (CompiledRule O))
    unfolding compile_rule
    compile [] = ok []
    compile (rule ∷ rules) = do
      r ← at_line rule.line_num (compile_rule rule)
      rs ← compile rules
      ok (r ∷ rs)
