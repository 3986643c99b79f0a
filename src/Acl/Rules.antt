-- ===== src/Acl/Rules.antt =====
-- The compiled rules of extras/outbounds/acl/compile.go, and their cache. Parameters: `to_lower` of Go's
-- strings package and `to_unicode` of golang.org/x/net/idna, `ip_string` for `net.IP.String`, and
-- `lru` for the cache of hashicorp/golang-lru, of which `IsCache` says what its documentation does.
pub mod Key
pub mod Cached
mod Runs
use hysteria.Common.{
  ℕ, ◌+◌, ◌≡◌, ◌⊎◌, List, [], ◌∷◌, ◌++◌, Option, none, some, Bool, true, false, not, ◌&&◌, ◌||◌,
  ltb, ◌==◌, if◌then◌else◌,
}
use hysteria.Common.Results.Panics.{◌>>=◌}
use hysteria.Acl.Texts.{trim_dots}
use hysteria.Acl.Matchers.{HostInfo, HostMatcher, host_match}

pub data Protocol : Type 0 where
  protocol_both : Protocol
  protocol_tcp : Protocol
  protocol_udp : Protocol

abbrev pub is_protocol : Protocol → Protocol → Bool
is_protocol protocol_both protocol_both = true
is_protocol protocol_tcp protocol_tcp = true
is_protocol protocol_udp protocol_udp = true
is_protocol p q = false

pub record CompiledRule (O : Type 0) : Type 0 where
  pub outbound : O
  pub host_matcher : HostMatcher
  pub protocol : Protocol
  pub start_port : ℕ
  pub end_port : ℕ
  -- Nil is the empty list.
  pub hijack_address : List ℕ

pub record MatchResult (O : Type 0) : Type 0 where
  pub outbound : O
  pub hijack_address : List ℕ

pub record MatchResultCacheKey : Type 0 where
  pub host : List ℕ
  pub proto : Protocol
  pub port : ℕ

pub record Lru (K V : Type 0) : Type 1 where
  pub Cache : Type 0
  pub get : Cache → K → Option V × Cache
  pub add : Cache → K → V → Cache

-- A cache holds nothing but what was added, under the key that it was added with last.
pub record IsCache {K V : Type 0} (l : Lru K V) : Type 0 where
  pub get_keeps :
      (c : l.Cache) (k j : K) (v : V)
      → (l.get ((l.get c k).1) j).0 ≡ some v
      → (l.get c j).0 ≡ some v
  pub add_keeps :
      (c : l.Cache) (k j : K) (v w : V)
      → (l.get (l.add c k v) j).0 ≡ some w
      → ((k ≡ j) × (v ≡ w)) ⊎ ((l.get c j).0 ≡ some w)

module _ (ip_string : List ℕ → List ℕ) where
  -- `HostInfo.String`
  unfoldable pub host_string : HostInfo → List ℕ
  host_string h = (h.name ++ (b'|' ∷ ip_string h.ipv4)) ++ (b'|' ∷ ip_string h.ipv6)

  abbrev pub cache_key : HostInfo → Protocol → ℕ → MatchResultCacheKey
  cache_key host proto port = record { host = host_string host; proto = proto; port = port }

module _ (to_lower : List ℕ → List ℕ) where
  -- The host with its name in lower case and without dots at its end.
  unfoldable pub normalized : HostInfo → HostInfo
  unfolding trim_dots
  normalized host = record host { name = trim_dots (to_lower host.name) }

module _ {O : Type 0} (to_unicode : List ℕ → Option (List ℕ)) where
  unfoldable pub rule_match : CompiledRule O → HostInfo → Protocol → ℕ → Option Bool
  rule_match r host proto port =
      if not (is_protocol r.protocol protocol_both) && not (is_protocol r.protocol proto)
      then some false
      else if not (r.start_port == 0) && (ltb port r.start_port || ltb r.end_port port)
      then some false
      else host_match to_unicode r.host_matcher host

  -- The loop of `Match`: the result of the first rule that matches, or the zero value.
  unfoldable pub scan : O → List (CompiledRule O) → HostInfo → Protocol → ℕ → Option (MatchResult O)
  unfolding rule_match
  scan zero_value [] host proto port = some (record { outbound = zero_value; hijack_address = [] })
  scan zero_value (rule ∷ rules) host proto port = do
    hit ← rule_match rule host proto port
    let rest = scan zero_value rules host proto port
    if hit
        then some (record { outbound = rule.outbound; hijack_address = rule.hijack_address })
        else rest

  module _ (to_lower ip_string : List ℕ → List ℕ)
      (lru : Lru MatchResultCacheKey (MatchResult O)) where
    -- `compiledRuleSetImpl`, with the nil outbound.
    pub record CompiledRuleSet : Type 0 where
      pub rules : List (CompiledRule O)
      pub cache : lru.Cache
      pub zero_value : O

    -- What `Match` does behind its look into the cache.
    abbrev pub after_get :
        CompiledRuleSet
        → HostInfo
        → Protocol
        → ℕ
        → Option (MatchResult O) × lru.Cache
        → Option (MatchResult O × CompiledRuleSet)
    after_get s host proto port (some result, cache) = some (result, record s { cache = cache })
    after_get s host proto port (none, cache) = do
      result ← scan s.zero_value s.rules host proto port
      some (result, record s { cache = lru.add cache (cache_key ip_string host proto port) result })

    unfoldable pub match :
        CompiledRuleSet → HostInfo → Protocol → ℕ → Option (MatchResult O × CompiledRuleSet)
    unfolding normalized
    match s host proto port =
        let host = normalized to_lower host in
        after_get s host proto port (lru.get s.cache (cache_key ip_string host proto port))
