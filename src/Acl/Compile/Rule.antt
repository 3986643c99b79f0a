-- ===== src/Acl/Compile/Rule.antt =====
-- What `compileHostMatcher` and the body of the loop of `Compile` in extras/outbounds/acl/compile.go make of a rule.
use hysteria.Common.{
  ℕ, ◌≡◌, refl, sym, subst, List, [], ◌∷◌, Option, none, some, true, false, drop, inl, inr,
  Bool-cases, Option-cases,
}
use hysteria.Common.Results.{Result, ok, err, panic, ◌>>=◌}
use hysteria.Acl.Texts.{trim_dots, contains}
use hysteria.Acl.Ip.{IpNet}
use hysteria.Acl.GeoIp.{new_geoip_matcher}
use hysteria.Acl.GeoSite.{new_geosite_matcher}
use hysteria.Acl.Matchers.{HostMatcher}
use hysteria.Acl.Rules.{CompiledRule, Protocol}
use hysteria.Acl.Parse.{TextRule}
use hysteria.Acl.Compile.{
  Library, CompileError, invalid_proto_port, compile_geoip, compile_geosite, compile_suffix,
  compile_cidr, compile_name, compile_host_matcher, compile_hijack, parse_proto_port,
  parse_geo_site_name, compile_rule, or_error, or_invalid,
}
use hysteria.Acl.Compile.NoPanic.{NoPanic, host-NoPanic, hijack-NoPanic}
use hysteria.Acl.Compile.Meaning.{
  star, says_all, says_geoip, says_geosite, says_suffix, IsPlain, Country, no_code, no_country,
  bad_nets, nets, Site, no_name, no_site, bad_domains, domains, Address, everything, country, site,
  no_suffix, suffix, no_net, net, ip, wildcard, exact, Hijack, no_hijack, bad_hijack, hijack, Means,
  no_outbound, bad_address, bad_ports, bad_target, rule,
}

module _ (lib : Library) where
  geoip-Country : (code : List ℕ) → Country lib code (compile_geoip lib code)
  geoip-Country [] = no_code
  geoip-Country (c ∷ code) = elim (Option-cases lib.load_geoip) [
    | inl e ↦ subst (Country lib (c ∷ code)) (sym (rw e refl)) (Country.no_map c code e)
    | inr (g, e) ↦ elim (Option-cases (g (c ∷ code))) [
      | inl f ↦ subst (Country lib (c ∷ code)) (sym (rw (e, f) refl)) (no_country c code g e f)
      | inr (list, f) ↦
          elim (Option-cases (new_geoip_matcher lib.sort_slice list.cidr list.inverse_match)) [
            | inl k ↦
                subst (Country lib (c ∷ code)) (sym (rw (e, f, k) refl))
                  (bad_nets c code g list e f k)
            | inr (m, k) ↦
                subst (Country lib (c ∷ code)) (sym (rw (e, f, k) refl))
                  (nets c code g list m e f k)
          ]
    ]
  ]

  geosite-Site :
      (name : List ℕ) (attrs : List (List ℕ))
      → Site lib name attrs (compile_geosite lib (name, attrs))
  geosite-Site [] attrs = no_name attrs
  geosite-Site (c ∷ name) attrs = elim (Option-cases lib.load_geosite) [
    | inl e ↦ subst (Site lib (c ∷ name) attrs) (sym (rw e refl)) (Site.no_map c name attrs e)
    | inr (g, e) ↦ elim (Option-cases (g (c ∷ name))) [
      | inl f ↦
          subst (Site lib (c ∷ name) attrs) (sym (rw (e, f) refl)) (no_site c name attrs g e f)
      | inr (list, f) ↦ elim (Option-cases (new_geosite_matcher lib.compile_regex list attrs)) [
        | inl k ↦
            subst (Site lib (c ∷ name) attrs) (sym (rw (e, f, k) refl))
              (bad_domains c name attrs g list e f k)
        | inr (m, k) ↦
            subst (Site lib (c ∷ name) attrs) (sym (rw (e, f, k) refl))
              (domains c name attrs g list m e f k)
      ]
    ]
  ]

  suffix-Address :
      (addr s : List ℕ)
      → says_all addr ≡ false
      → says_geoip addr ≡ false
      → says_geosite addr ≡ false
      → says_suffix addr ≡ true
      → drop 7 addr ≡ s
      → Address lib addr (compile_suffix lib s)
  suffix-Address addr [] a b c d e = no_suffix a b c d e
  suffix-Address addr (x ∷ s) a b c d e = suffix x s a b c d e

  cidr-Address :
      (addr : List ℕ) (o : Option IpNet)
      → IsPlain addr
      → contains addr (b'/' ∷ []) ≡ true
      → lib.parse_cidr addr ≡ o
      → Address lib addr (compile_cidr lib o)
  cidr-Address addr none p h e = no_net p h e
  cidr-Address addr (some n) p h e = net n p h e

  name-Address :
      (addr bs : List ℕ)
      → IsPlain addr
      → contains addr (b'/' ∷ []) ≡ false
      → lib.parse_ip addr ≡ bs
      → Address lib addr (compile_name lib addr bs)
  name-Address addr (b ∷ bs) p h e = ip b bs p h e
  name-Address addr [] p h e = elim (Bool-cases (contains addr star)) [
    | inl q ↦ subst (Address lib addr) (sym (rw q refl)) (wildcard p h e q)
    | inr q ↦ subst (Address lib addr) (sym (rw q refl)) (exact p h e q)
  ]

  pub compile_host_matcher-Address :
      (s : List ℕ) → Address lib (trim_dots (lib.to_lower s)) (compile_host_matcher lib s)
  unfolding compile_host_matcher
  compile_host_matcher-Address s =
      let addr = trim_dots (lib.to_lower s) in
      elim (Bool-cases (says_all addr)) [
        | inl a ↦ subst (Address lib addr) (sym (rw a refl)) (everything a)
        | inr a ↦ elim (Bool-cases (says_geoip addr)) [
          | inl b ↦
              subst (Address lib addr) (sym (rw (a, b) refl))
                (country _ a b (geoip-Country (drop 6 addr)))
          | inr b ↦ elim (Bool-cases (says_geosite addr)) [
            | inl c ↦
                let name = parse_geo_site_name lib (drop 8 addr) in
                subst (Address lib addr) (sym (rw (a, b, c) refl))
                  (site _ a b c (geosite-Site (name.0) (name.1)))
            | inr c ↦ elim (Bool-cases (says_suffix addr)) [
              | inl d ↦
                  subst (Address lib addr) (sym (rw (a, b, c, d) refl))
                    (suffix-Address addr (drop 7 addr) a b c d refl)
              | inr d ↦ elim (Bool-cases (contains addr (b'/' ∷ []))) [
                | inl e ↦
                    subst (Address lib addr) (sym (rw (a, b, c, d, e) refl))
                      (cidr-Address addr (lib.parse_cidr addr) (a, b, c, d) e refl)
                | inr e ↦
                    subst (Address lib addr) (sym (rw (a, b, c, d, e) refl))
                      (name-Address addr (lib.parse_ip addr) (a, b, c, d) e refl)
              ]
            ]
          ]
        ]
      ]

  compile_hijack-Hijack : (s : List ℕ) → Hijack lib s (compile_hijack lib s)
  compile_hijack-Hijack [] = no_hijack
  compile_hijack-Hijack (c ∷ s) = go (lib.parse_ip (c ∷ s)) refl
    where
      go : (ip : List ℕ) → lib.parse_ip (c ∷ s) ≡ ip → Hijack lib (c ∷ s) (or_invalid lib ip)
      go [] e = bad_hijack c s e
      go (b ∷ bs) e = hijack c s b bs e

  module _ {O : Type 0} (outbounds : List ℕ → Option O) (t : TextRule) where
    -- The parts from the last one on, of which none panics.
    of_hijack :
        (o : O) (hm : HostMatcher) (proto : Protocol) (start stop : ℕ)
        (r : Result CompileError (List ℕ))
        → outbounds (lib.to_lower t.outbound) ≡ some o
        → Address lib (trim_dots (lib.to_lower t.address)) (ok hm)
        → parse_proto_port lib t.proto_port ≡ some (proto, start, stop)
        → Hijack lib t.hijack_address r
        → NoPanic r
        → Means lib outbounds t (
            r >>= λ target. ok (record {
              outbound = o;
              host_matcher = hm;
              protocol = proto;
              start_port = start;
              end_port = stop;
              hijack_address = target;
            }))
    of_hijack o hm proto start stop (ok target) a b c h n =
        rule o hm proto start stop target a b c h
    of_hijack o hm proto start stop (err e) a b c h n = bad_target o hm proto start stop e a b c h
    of_hijack o hm proto start stop panic a b c h n = absurd n

    -- The rule behind its outbound.
    abbrev rest : O → HostMatcher → Result CompileError (CompiledRule O)
    rest o hm = or_error invalid_proto_port (parse_proto_port lib t.proto_port) >>= λ ports.
        compile_hijack lib t.hijack_address >>= λ target. ok (record {
          outbound = o;
          host_matcher = hm;
          protocol = ports.0;
          start_port = ports.1;
          end_port = ports.2;
          hijack_address = target;
        })

    of_ports :
        (o : O) (hm : HostMatcher) (ports : Option (Protocol × ℕ × ℕ))
        → outbounds (lib.to_lower t.outbound) ≡ some o
        → Address lib (trim_dots (lib.to_lower t.address)) (ok hm)
        → parse_proto_port lib t.proto_port ≡ ports
        → Means lib outbounds t (rest o hm)
    of_ports o hm none a b c =
        subst (Means lib outbounds t) (sym (rw c refl)) (bad_ports o hm a b c)
    of_ports o hm (some (proto, start, stop)) a b c =
        subst (Means lib outbounds t) (sym (rw c refl)) (
          of_hijack o hm proto start stop (compile_hijack lib t.hijack_address) a b c
            (compile_hijack-Hijack t.hijack_address) (hijack-NoPanic lib t.hijack_address))

    of_address :
        (o : O) (r : Result CompileError HostMatcher)
        → outbounds (lib.to_lower t.outbound) ≡ some o
        → Address lib (trim_dots (lib.to_lower t.address)) r
        → NoPanic r
        → Means lib outbounds t (r >>= rest o)
    of_address o (ok hm) a b n = of_ports o hm (parse_proto_port lib t.proto_port) a b refl
    of_address o (err e) a b n = bad_address o e a b
    of_address o panic a b n = absurd n

    pub compile_rule-Means : Means lib outbounds t (compile_rule lib outbounds t)
    unfolding compile_rule
    compile_rule-Means = elim (Option-cases (outbounds (lib.to_lower t.outbound))) [
      | inl e ↦ subst (Means lib outbounds t) (sym (rw e refl)) (no_outbound e)
      | inr (o, e) ↦ subst (Means lib outbounds t) (sym (rw e refl)) (
          of_address o (compile_host_matcher lib t.address) e
            (compile_host_matcher-Address t.address) (host-NoPanic lib t.address))
    ]
