-- ===== src/Acl/Compile/Ports.antt =====
-- The protocols and ports of a rule, from its text to what it matches.
use hysteria.Common.{
  ℕ, ◌≤◌, ◌≡◌, ◌≢◌, refl, ap, List, [], ◌∷◌, ◌++◌, Option, none, some, Bool, true, false, ◌&&◌,
  ◌||◌, ◌==◌, ltb, leb, if◌then◌else◌, All, arith, Bool-cases, inl, inr,
}
use hysteria.Common.Bytes.{same}
use hysteria.Acl.Matchers.{HostInfo, host_match}
use hysteria.Acl.Rules.{
  Protocol, protocol_both, protocol_tcp, protocol_udp, is_protocol, CompiledRule, rule_match,
}
use hysteria.PortUnion.Parse.{parse_uint16, parse_uint16_le}
use hysteria.Acl.Compile.{
  Library, text_star, text_tcp, text_udp, push_text, split_two, parse_proto, ordered, one_port,
  parse_ports, with_proto, parse_parts, parse_proto_port,
}

split_two-append :
    (sep : ℕ) (s t : List ℕ) → All (λ c. c ≢ sep) s → split_two sep (s ++ (sep ∷ t)) ≡ (s, some t)
unfolding split_two
split_two-append sep [] t h = let here : (sep == sep) ≡ true = ground arith in rw here refl
split_two-append sep (c ∷ s) t h =
    let other : (c == sep) ≡ false = ground (arith, h.0) in
    rw other (ap (push_text c) (split_two-append sep s t h.1))

-- The text of a protocol and a range of ports.
abbrev range_text : List ℕ → List ℕ → List ℕ → List ℕ
range_text p a b = p ++ (b'/' ∷ (a ++ (b'-' ∷ b)))

-- The ports of a rule that a request's port is looked up in: 0 as the start stands for all.
abbrev pub in_ports : ℕ → ℕ → ℕ → Bool
in_ports start stop port = (start == 0) || (leb start port && leb port stop)

abbrev pub of_proto : Protocol → Protocol → Bool
of_proto p q = is_protocol p protocol_both || is_protocol p q

rule_match-ports :
    {O : Type 0} (u : List ℕ → Option (List ℕ)) (r : CompiledRule O) (h : HostInfo) (q : Protocol)
    (port : ℕ)
    → rule_match u r h q port ≡ (
        if of_proto r.protocol q && in_ports r.start_port r.end_port port
        then host_match u r.host_matcher h
        else some false)
unfolding rule_match
rule_match-ports u r h q port = ground arith

not_star : (a b : List ℕ) → same (a ++ (b'-' ∷ b)) text_star ≡ false
unfolding same
not_star [] b = refl
not_star (c ∷ []) b = ground arith
not_star (c ∷ d ∷ a) b = ground arith

-- The three texts of a protocol.
pub data ProtoText : List ℕ → Protocol → Type 0 where
  tcp : ProtoText text_tcp protocol_tcp
  udp : ProtoText text_udp protocol_udp
  both : ProtoText text_star protocol_both

module _ (lib : Library) (a b : List ℕ) (start stop : ℕ) (dash : All (λ c. c ≢ b'-') a)
    (trimmed : lib.trim_space (a ++ (b'-' ∷ b)) ≡ a ++ (b'-' ∷ b))
    (first : parse_uint16 a ≡ some start) (second : parse_uint16 b ≡ some stop)
    (order : start ≤ stop) where
  ports-range :
      parse_ports (a ++ (b'-' ∷ b)) (split_two b'-' (lib.trim_space (a ++ (b'-' ∷ b))))
      ≡ some (start, stop)
  ports-range =
      let up : ltb stop start ≡ false = ground arith in
      rw trimmed rw (split_two-append b'-' a b dash) rw first rw second rw up refl

  parts-range :
      (p : List ℕ) (proto : Protocol)
      → parse_proto p ≡ some proto
      → parse_parts lib (p, some (a ++ (b'-' ∷ b))) ≡ some (proto, start, stop)
  parts-range p proto e = rw (not_star a b) rw ports-range rw e refl

  parse_proto_port-range :
      (s p : List ℕ) (proto : Protocol)
      → ProtoText p proto
      → lib.to_lower s ≡ p ++ (b'/' ∷ (a ++ (b'-' ∷ b)))
      → parse_proto_port lib s ≡ some (proto, start, stop)
  unfolding parse_proto_port parse_proto same split_two
  parse_proto_port-range s _ _ tcp e = rw e (parts-range text_tcp protocol_tcp refl)
  parse_proto_port-range s _ _ udp e = rw e (parts-range text_udp protocol_udp refl)
  parse_proto_port-range s _ _ both e = rw e rw (not_star a b) rw ports-range refl

  -- A protocol with a range of ports, `tcp/80-90`, is parsed into them; a rule with them looks at the host exactly
  -- for requests of that protocol, `*` being both, whose port is in the range, and for those of any port where the
  -- range starts at 0.
  pub range-rule :
      {O : Type 0} (u : List ℕ → Option (List ℕ)) (r : CompiledRule O) (h : HostInfo) (q : Protocol)
      (port : ℕ) (s p : List ℕ) (proto : Protocol)
      → ProtoText p proto
      → lib.to_lower s ≡ p ++ (b'/' ∷ (a ++ (b'-' ∷ b)))
      → (parse_proto_port lib s ≡ some (proto, start, stop))
        × (rule_match u
              (record r { protocol = proto; start_port = start; end_port = stop })
              h
              q
              port
            ≡ (if of_proto proto q && in_ports start stop port
                then host_match u r.host_matcher h
                else some false))
  range-rule u r h q port s p proto t e = (
    parse_proto_port-range s p proto t e,
    rule_match-ports u (record r { protocol = proto; start_port = start; end_port = stop }) h q
        port,
  )

abbrev Bounded : ℕ → ℕ → Type 0
Bounded start stop = (start ≤ stop) × (stop ≤ 65535)

abbrev PortPair : Type 0
PortPair = Option (ℕ × ℕ)

abbrev PortTriple : Type 0
PortTriple = Option (Protocol × ℕ × ℕ)

pair_bounds :
    (a b c d : ℕ) → Bounded a b → ◌≡◌ {A = PortPair} (some (a, b)) (some (c, d)) → Bounded c d
pair_bounds a b c d h e =
    let l : a ≡ c = cc (e) in let r : b ≡ d = cc (e) in (omega arith, omega arith)

triple_bounds :
    (p q : Protocol) (a b c d : ℕ)
    → Bounded a b
    → ◌≡◌ {A = PortTriple} (some (p, a, b)) (some (q, c, d))
    → Bounded c d
triple_bounds p q a b c d h e =
    let l : a ≡ c = cc (e) in let r : b ≡ d = cc (e) in (omega arith, omega arith)

ordered-bounds :
    (x y : Option ℕ) (start stop : ℕ)
    → ((v : ℕ) → y ≡ some v → v ≤ 65535)
    → ordered x y ≡ some (start, stop)
    → Bounded start stop
ordered-bounds none y start stop small e = absurd (cc e)
ordered-bounds (some v) none start stop small e = absurd (cc e)
ordered-bounds (some v) (some w) start stop small e = elim (Bool-cases (ltb w v)) [
  | inl down ↦ absurd (cc (rw down at e))
  | inr up ↦ pair_bounds v w start stop (ground (arith, up), small w refl) (rw up at e)
]

one-bounds :
    (x : Option ℕ) (start stop : ℕ)
    → ((v : ℕ) → x ≡ some v → v ≤ 65535)
    → one_port x ≡ some (start, stop)
    → Bounded start stop
one-bounds none start stop small e = absurd (cc e)
one-bounds (some v) start stop small e = pair_bounds v v start stop (omega arith, small v refl) e

ports-bounds :
    (whole : List ℕ) (parts : List ℕ × Option (List ℕ)) (start stop : ℕ)
    → parse_ports whole parts ≡ some (start, stop)
    → Bounded start stop
ports-bounds whole (a, none) start stop e =
    one-bounds (parse_uint16 whole) start stop (parse_uint16_le whole) e
ports-bounds whole (a, some b) start stop e =
    ordered-bounds (parse_uint16 a) (parse_uint16 b) start stop (parse_uint16_le b) e

with_proto-bounds :
    (p : Option Protocol) (ports : Option (ℕ × ℕ)) (proto : Protocol) (start stop : ℕ)
    → ((a b : ℕ) → ports ≡ some (a, b) → Bounded a b)
    → with_proto p ports ≡ some (proto, start, stop)
    → Bounded start stop
with_proto-bounds none ports proto start stop h e = absurd (cc e)
with_proto-bounds (some p) none proto start stop h e = absurd (cc e)
with_proto-bounds (some p) (some (a, b)) proto start stop h e =
    triple_bounds p proto a b start stop (h a b refl) e

module _ (lib : Library) where
  port_part-bounds :
      (port : List ℕ) (a b : ℕ)
      → (if same port text_star
          then some (0, 0)
          else parse_ports port (split_two b'-' (lib.trim_space port)))
        ≡ some (a, b)
      → Bounded a b
  port_part-bounds port a b e = elim (Bool-cases (same port text_star)) [
    | inl star ↦ pair_bounds 0 0 a b (omega arith) (rw star at e)
    | inr other ↦ ports-bounds port _ a b (rw other at e)
  ]

  parts-bounds :
      (parts : List ℕ × Option (List ℕ)) (proto : Protocol) (start stop : ℕ)
      → parse_parts lib parts ≡ some (proto, start, stop)
      → Bounded start stop
  parts-bounds (p, none) proto start stop e = elim (Bool-cases (same p text_tcp)) [
    | inl t ↦ triple_bounds _ proto 0 0 start stop (omega arith) (rw t at e)
    | inr nt ↦ elim (Bool-cases (same p text_udp)) [
      | inl t ↦ triple_bounds _ proto 0 0 start stop (omega arith) (rw t at (rw nt at e))
      | inr nu ↦ absurd (cc (rw nu at (rw nt at e)))
    ]
  ]
  parts-bounds (p, some port) proto start stop e =
      with_proto-bounds (parse_proto p) _ proto start stop (port_part-bounds port) e

  -- What `parseProtoPort` returns, for any text, are ports of 16 bits in order.
  pub parse_proto_port-bounds :
      (s : List ℕ) (proto : Protocol) (start stop : ℕ)
      → parse_proto_port lib s ≡ some (proto, start, stop)
      → (start ≤ stop) × (stop ≤ 65535)
  unfolding parse_proto_port
  parse_proto_port-bounds s proto start stop e =
      elim (Bool-cases (
        same (lib.to_lower s) []
        || same (lib.to_lower s) text_star
        || same (lib.to_lower s) (b'*' ∷ b'/' ∷ b'*' ∷ []))) [
          | inl y ↦ triple_bounds _ proto 0 0 start stop (omega arith) (rw y at e)
          | inr n ↦ parts-bounds (split_two b'/' (lib.to_lower s)) proto start stop (rw n at e)
        ]
