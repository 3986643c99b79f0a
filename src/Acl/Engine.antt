-- ===== src/Acl/Engine.antt =====
-- extras/outbounds/acl.go: the engine over the compiled rules. `Out` is the type of outbounds; a nil one is `none`.
pub mod Names
use hysteria.Common.{ℕ, List, [], ◌∷◌, Option, none, some, Bool, true, false, if◌then◌else◌}
use hysteria.Common.Results.{Result, ok, err, panic}
use hysteria.Common.Results.Panics.{◌>>=◌}
use hysteria.Common.Bytes.{same}
use hysteria.Acl.Ip.{to4}
use hysteria.Acl.Matchers.{HostInfo}
use hysteria.Acl.Rules.{
  Protocol, MatchResult, MatchResultCacheKey, Lru, CompiledRuleSet, CompiledRule,
}
use hysteria.Acl.Rules
use hysteria.Acl.Parse.{ParseResult, parsed, invalid_syntax, parse_text_rules}
use hysteria.Acl.Compile.{Library, CompileError, compile}

abbrev pub acl_cache_size : ℕ
acl_cache_size = 1024

-- extras/outbounds/interface.go. A missing address is the empty list.
pub record ResolveInfo : Type 0 where
  pub ipv4 : List ℕ
  pub ipv6 : List ℕ
  pub err : Option ℕ

pub record AddrEx : Type 0 where
  pub host : List ℕ
  pub port : ℕ
  pub resolve_info : Option ResolveInfo

abbrev pub text_direct : List ℕ
text_direct = b'd' ∷ b'i' ∷ b'r' ∷ b'e' ∷ b'c' ∷ b't' ∷ []

abbrev pub text_reject : List ℕ
text_reject = b'r' ∷ b'e' ∷ b'j' ∷ b'e' ∷ b'c' ∷ b't' ∷ []

abbrev pub text_default : List ℕ
text_default = b'd' ∷ b'e' ∷ b'f' ∷ b'a' ∷ b'u' ∷ b'l' ∷ b't' ∷ []

pub record OutboundEntry (Out : Type 0) : Type 0 where
  pub name : List ℕ
  pub outbound : Out

-- The address that a request goes to, behind the rule that matched it.
abbrev pub hijacked_info : List ℕ → Option (List ℕ) → ResolveInfo
hijacked_info hijack_ip none = record { ipv4 = []; ipv6 = hijack_ip; err = none }
hijacked_info hijack_ip (some ip4) = record { ipv4 = ip4; ipv6 = []; err = none }

unfoldable pub hijack : (List ℕ → List ℕ) → AddrEx → List ℕ → AddrEx
unfolding to4
hijack ip_string req_addr [] = req_addr
hijack ip_string req_addr (b ∷ ip) = record req_addr {
  host = ip_string (b ∷ ip);
  resolve_info = some (hijacked_info (b ∷ ip) (to4 (b ∷ ip)));
}

abbrev pub host_info : AddrEx → HostInfo
host_info req_addr = elim (req_addr.resolve_info) [
  | none ↦ record { name = req_addr.host; ipv4 = []; ipv6 = [] }
  | some info ↦ record { name = req_addr.host; ipv4 = info.ipv4; ipv6 = info.ipv6 }
]

pub data EngineError : Type 0 where
  syntax_error : List ℕ → ℕ → EngineError
  compilation_error : ℕ → CompileError → EngineError

module _ {Out : Type 0} where
  -- `obMap[k] = v`
  abbrev pub put : (List ℕ → Option Out) → List ℕ → Out → List ℕ → Option Out
  put ob_map k v s = if same s k then some v else ob_map s

  unfoldable pub put_entries :
      (List ℕ → List ℕ) → (List ℕ → Option Out) → List (OutboundEntry Out) → List ℕ → Option Out
  unfolding same
  put_entries to_lower ob_map [] = ob_map
  put_entries to_lower ob_map (ob ∷ outbounds) =
      put_entries to_lower (put ob_map (to_lower ob.name) ob.outbound) outbounds

  -- A name that is not in the map gets a value, if there is one.
  abbrev pub or_put : Option Out → (List ℕ → Option Out) → List ℕ → Option Out → List ℕ → Option Out
  or_put (some found) ob_map k v = ob_map
  or_put none ob_map k none = ob_map
  or_put none ob_map k (some v) = put ob_map k v

  abbrev pub put_missing : (List ℕ → Option Out) → List ℕ → Option Out → List ℕ → Option Out
  put_missing ob_map k v = or_put (ob_map k) ob_map k v

  -- The outbound for `default`: the first entry's, or that for `direct`.
  abbrev pub first_or : List (OutboundEntry Out) → Option Out → Option Out
  first_or [] direct = direct
  first_or (ob ∷ outbounds) direct = some ob.outbound

  unfoldable pub outbounds_to_map :
      (List ℕ → List ℕ) → Out → Out → List (OutboundEntry Out) → List ℕ → Option Out
  unfolding put_entries
  outbounds_to_map to_lower new_direct reject_outbound outbounds =
      let named = put_entries to_lower (λ s. none) outbounds in
      let with_direct = put_missing named text_direct (some new_direct) in
      let with_reject = put_missing with_direct text_reject (some reject_outbound) in
      put_missing with_reject text_default (first_or outbounds (with_reject text_direct))

  -- What `handle` does with the result of `Match`.
  abbrev pub route :
      (List ℕ → List ℕ) → Option Out → AddrEx → MatchResult (Option Out) → Option Out × AddrEx
  route ip_string default req_addr result = elim (result.outbound) [
    | none ↦ (default, req_addr)
    | some ob ↦ (some ob, hijack ip_string req_addr result.hijack_address)
  ]

  module _ (to_unicode : List ℕ → Option (List ℕ)) (ip_string : List ℕ → List ℕ) (lib : Library)
      (lru : Lru MatchResultCacheKey (MatchResult (Option Out))) where
    pub record AclEngine : Type 0 where
      pub rule_set : CompiledRuleSet to_unicode lib.to_lower ip_string lru
      pub default : Option Out

    -- The outbound of a request, its address from then on, and the engine; `none` is a panic.
    unfoldable pub handle :
        AclEngine → AddrEx → Protocol → Option ((Option Out × AddrEx) × AclEngine)
    unfolding hijack
    handle a req_addr proto = do
      (result, rule_set) ←
          Rules.match to_unicode lib.to_lower ip_string lru a.rule_set (host_info req_addr) proto
            req_addr.port
      some (route ip_string a.default req_addr result, record a { rule_set = rule_set })

    -- An entry of the map, as a value that may be nil.
    abbrev pub not_nil : Option Out → Option (Option Out)
    not_nil none = none
    not_nil (some ob) = some (some ob)

    abbrev pub engine_of :
        (List ℕ → Option Out)
        → lru.Cache
        → Result (ℕ × CompileError) (List (CompiledRule (Option Out)))
        → Result EngineError AclEngine
    engine_of ob_map cache (ok rules) = ok (record {
      rule_set = record { rules = rules; cache = cache; zero_value = none };
      default = ob_map text_default;
    })
    engine_of ob_map cache (err (num, e)) = err (compilation_error num e)
    engine_of ob_map cache panic = panic

    abbrev pub engine_from :
        (List ℕ → Option Out) → lru.Cache → ParseResult → Result EngineError AclEngine
    engine_from ob_map cache (parsed trs) =
        engine_of ob_map cache (compile lib (λ name. not_nil (ob_map name)) trs)
    engine_from ob_map cache (invalid_syntax line num) = err (syntax_error line num)

    -- `cache` is the new cache of `acl_cache_size` entries.
    unfoldable pub new_acl_engine_from_string :
        Out → Out → lru.Cache → List ℕ → List (OutboundEntry Out) → Result EngineError AclEngine
    unfolding outbounds_to_map compile parse_text_rules
    new_acl_engine_from_string new_direct reject_outbound cache rules outbounds =
        engine_from (outbounds_to_map lib.to_lower new_direct reject_outbound outbounds) cache
          (parse_text_rules lib.trim_space rules)
