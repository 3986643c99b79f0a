-- ===== src/Acl/Compile/Runs.antt =====
-- Runs of the parser, the compiler and the engine.
use hysteria.Common.{
  inl, inr, ℕ, ◌≤◌, ◌≡◌, refl, List, [], ◌∷◌, none, some, true, false, ◌&&◌, arith, if◌then◌else◌,
}
use hysteria.PortUnion.Parse.{parse_uint16}
use hysteria.Common.Bytes.{same}
use Prim.Native.String.{String}
use hysteria.Acl.Texts.{codes}
use hysteria.Acl.Matchers.{HostInfo, all_matcher, host_match}
use hysteria.Acl.Rules.{protocol_both, protocol_tcp, protocol_udp, CompiledRule, rule_match}
use hysteria.Acl.Parse.{TextRule, parsed, parse_text_rules}
use hysteria.Acl.Parse.RoundTrip.{
  IsWritable, print_rules, print_rule, numbered, parse_text_rules-print,
}
use hysteria.Acl.Compile.{Library, parse_proto_port, text_tcp}
use hysteria.Acl.Compile.Ports.{tcp, of_proto, in_ports, range-rule, parse_proto_port-bounds}
use hysteria.Acl.Compile.First.{Outcome, compile_outcome}
use hysteria.Acl.Engine.{OutboundEntry, outbounds_to_map, text_default}
use hysteria.Acl.Engine.Names.{last_entry, or_else, built_in, outbounds_to_map_lem}

-- Texts in lower case without blanks, and no addresses but 1.1.1.1.
abbrev library : Library
library = record {
  to_lower = λ s. s;
  trim_space = λ s. s;
  parse_ip = λ s. if same s (codes "1.1.1.1") then 1 ∷ 1 ∷ 1 ∷ 1 ∷ [] else [];
  parse_cidr = λ s. none;
  compile_regex = λ s. none;
  sort_slice = λ n. n;
  load_geoip = none;
  load_geosite = none;
}

abbrev text_rule : String → String → String → String → ℕ → TextRule
text_rule o a p h num = record {
  outbound = codes o;
  address = codes a;
  proto_port = codes p;
  hijack_address = codes h;
  line_num = num;
}

abbrev first_rule : TextRule
first_rule = text_rule "reject" "suffix:ads.com" "tcp/80-90" "1.1.1.1" 1

abbrev second_rule : TextRule
second_rule = text_rule "direct" "*" "" "" 2

first_rule-IsWritable : IsWritable (λ s. s) first_rule
unfolding print_rule
first_rule-IsWritable = record {
  named = tt;
  word = (refl, (refl, (refl, (refl, (refl, (refl, tt))))));
  given = (tt, inl tt);
  commas = omega arith;
  one_line = omega arith;
  no_comment = omega arith;
  trimmed = (refl, refl, refl, refl);
}

second_rule-IsWritable : IsWritable (λ s. s) second_rule
unfolding print_rule
second_rule-IsWritable = record {
  named = tt;
  word = (refl, (refl, (refl, (refl, (refl, (refl, tt))))));
  given = (tt, inr (refl, refl));
  commas = omega arith;
  one_line = omega arith;
  no_comment = omega arith;
  trimmed = (refl, refl, refl, refl);
}

parse_text_rules-print_example :
    parse_text_rules (λ s. s) (print_rules first_rule (second_rule ∷ []))
    ≡ parsed (numbered (first_rule ∷ second_rule ∷ []) 1)
parse_text_rules-print_example =
    parse_text_rules-print (λ s. s) first_rule (second_rule ∷ []) first_rule-IsWritable
      (second_rule-IsWritable, tt)

printed :
    print_rules first_rule (second_rule ∷ [])
    ≡ codes "reject(suffix:ads.com,tcp/80-90,1.1.1.1)\ndirect(*)"
unfolding print_rules
printed = refl

-- A comment, an empty line, blanks and missing fields.
parsed_run :
    parse_text_rules (λ s. s) (codes "# ads\n\nreject (x)\ndirect(y,tcp)#z")
    ≡ parsed (text_rule "reject" "x" "" "" 3 ∷ text_rule "direct" "y" "tcp" "" 4 ∷ [])
unfolding parse_text_rules
parsed_run = refl

abbrev any_host : CompiledRule ℕ
any_host = record {
  outbound = 1;
  host_matcher = all_matcher;
  protocol = protocol_both;
  start_port = 0;
  end_port = 0;
  hijack_address = [];
}

abbrev no_host : HostInfo
no_host = record { name = []; ipv4 = []; ipv6 = [] }

-- Port 91 is behind the range, which starts at 0.
range-rule_example :
    (parse_proto_port library (codes "tcp/0-90") ≡ some (protocol_tcp, 0, 90))
    × (rule_match
          (λ s. some s)
          (record any_host { protocol = protocol_tcp; start_port = 0; end_port = 90 })
          no_host
          protocol_tcp
          91
        ≡ (if of_proto protocol_tcp protocol_tcp && in_ports 0 90 91
            then host_match (λ s. some s) all_matcher no_host
            else some false))
unfolding parse_uint16
range-rule_example =
    range-rule library (codes "0") (codes "90") 0 90 (omega arith) refl refl refl (omega arith)
      (λ s. some s) any_host no_host protocol_tcp 91 (codes "tcp/0-90") text_tcp protocol_tcp tcp
      refl

range_from_zero :
    rule_match
      (λ s. some s)
      (record any_host { protocol = protocol_tcp; start_port = 0; end_port = 90 })
      no_host
      protocol_tcp
      91
    ≡ some true
unfolding rule_match host_match
range_from_zero = refl

parse_proto_port-bounds_example : (◌≤◌ 80 90) × (90 ≤ 65535)
unfolding parse_proto_port
parse_proto_port-bounds_example =
    parse_proto_port-bounds library (codes "tcp/80-90") protocol_tcp 80 90 refl

-- Each port, and a range that is none.
proto_port_runs :
    (parse_proto_port library (codes "*/443") ≡ some (protocol_both, 443, 443))
    × (parse_proto_port library (codes "udp/9-8") ≡ none)
    × (parse_proto_port library (codes "udp") ≡ some (protocol_udp, 0, 0))
unfolding parse_proto_port
proto_port_runs = (refl, refl, refl)

compile_outcome_example :
    Outcome {O = ℕ} library (λ s. some 1) (first_rule ∷ text_rule "direct" "*" "icmp" "" 2 ∷ [])
compile_outcome_example =
    compile_outcome {O = ℕ} library (λ s. some 1)
      (first_rule ∷ text_rule "direct" "*" "icmp" "" 2 ∷ [])

abbrev named_outbounds : List (OutboundEntry ℕ)
named_outbounds =
    record { name = codes "direct"; outbound = 5 }
    ∷ record { name = codes "direct"; outbound = 6 }
    ∷ []

outbounds_to_map_lem_example :
    outbounds_to_map (λ s. s) 1 2 named_outbounds text_default
    ≡ or_else
        (λ s. s)
        (last_entry (λ s. s) named_outbounds text_default)
        (built_in (λ s. s) 1 2 named_outbounds text_default)
outbounds_to_map_lem_example = outbounds_to_map_lem (λ s. s) 1 2 named_outbounds text_default
