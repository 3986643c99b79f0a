-- ===== src/Acl/Rules/Cached.antt =====
-- The answers of `Match` of extras/outbounds/acl/compile.go with its cache, and without.
use hysteria.Common.{
  ℕ, ◌≡◌, refl, sym, ap, ap₂, ◌∙◌, List, [], ◌∷◌, Option, none, some, Option-cases, inl, inr,
}
use hysteria.Common.Results.Panics.{◌>>=◌}
use hysteria.Acl.Matchers.{HostInfo}
use hysteria.Acl.Rules.{
  Protocol, CompiledRule, MatchResult, MatchResultCacheKey, Lru, IsCache, cache_key, normalized,
  rule_match, scan, CompiledRuleSet, after_get, match,
}
use hysteria.Acl.Rules.Key.{IsIpString, Alike, host_string-Alike, host_match-Alike}

pub record Request : Type 0 where
  pub host : HostInfo
  pub proto : Protocol
  pub port : ℕ

module _ {O : Type 0} (to_unicode : List ℕ → Option (List ℕ)) where
  rule_match-Alike :
      (r : CompiledRule O) (h h' : HostInfo) (proto : Protocol) (port : ℕ)
      → Alike h h'
      → rule_match to_unicode r h proto port ≡ rule_match to_unicode r h' proto port
  unfolding rule_match
  rule_match-Alike r h h' proto port a = rw (host_match-Alike to_unicode r.host_matcher h h' a) refl

  scan-Alike :
      (zero_value : O) (rules : List (CompiledRule O)) (h h' : HostInfo) (proto : Protocol)
      (port : ℕ)
      → Alike h h'
      → scan to_unicode zero_value rules h proto port
        ≡ scan to_unicode zero_value rules h' proto port
  unfolding scan
  scan-Alike zero_value [] h h' proto port a = refl
  scan-Alike zero_value (rule ∷ rules) h h' proto port a =
      rw (rule_match-Alike rule h h' proto port a) rw
        (scan-Alike zero_value rules h h' proto port a) refl

  module _ (to_lower ip_string : List ℕ → List ℕ) (lru : Lru MatchResultCacheKey (MatchResult O))
      (is_cache : IsCache lru) (is_ip_string : IsIpString ip_string) (zero_value : O)
      (rules : List (CompiledRule O)) where
    -- What the cache answers is what the rules answer.
    IsHonest : lru.Cache → Type 0
    IsHonest cache =
        (h : HostInfo) (proto : Protocol) (port : ℕ) (v : MatchResult O)
        → (lru.get cache (cache_key ip_string h proto port)).0 ≡ some v
        → scan to_unicode zero_value rules h proto port ≡ some v

    get-IsHonest :
        (cache : lru.Cache) (k : MatchResultCacheKey)
        → IsHonest cache
        → IsHonest ((lru.get cache k).1)
    unfolding IsHonest
    get-IsHonest cache k honest h proto port v e =
        honest h proto port v (is_cache.get_keeps cache k _ v e)

    add-IsHonest :
        (cache : lru.Cache) (h : HostInfo) (proto : Protocol) (port : ℕ) (v : MatchResult O)
        → IsHonest cache
        → scan to_unicode zero_value rules h proto port ≡ some v
        → IsHonest (lru.add cache (cache_key ip_string h proto port) v)
    unfolding IsHonest
    add-IsHonest cache h proto port v honest found h' proto' port' w e =
        elim (is_cache.add_keeps cache (cache_key ip_string h proto port)
          (cache_key ip_string h' proto' port') v w e) [
            | inl (k, q) ↦
                let a =
                  host_string-Alike ip_string is_ip_string h h'
                    (ap (λ (x : MatchResultCacheKey). x.host) k) in
                let p : proto ≡ proto' = ap (λ (x : MatchResultCacheKey). x.proto) k in
                let o : port ≡ port' = ap (λ (x : MatchResultCacheKey). x.port) k in
                sym (scan-Alike zero_value rules h h' proto' port' a)
                ∙ sym (ap₂ (scan to_unicode zero_value rules h) p o)
                ∙ found
                ∙ ap some q
            | inr old ↦ honest h' proto' port' w old
          ]

    abbrev with_cache : lru.Cache → CompiledRuleSet to_unicode to_lower ip_string lru
    with_cache cache = record { rules = rules; cache = cache; zero_value = zero_value }

    -- The answers to requests that follow one another.
    unfoldable pub answers :
        CompiledRuleSet to_unicode to_lower ip_string lru
        → List Request
        → Option (List (MatchResult O))
    answers s [] = some []
    answers s (r ∷ rs) = do
      (result, s') ← match to_unicode to_lower ip_string lru s r.host r.proto r.port
      results ← answers s' rs
      some (result ∷ results)

    -- What the rules alone answer.
    unfoldable pub decisions : List Request → Option (List (MatchResult O))
    decisions [] = some []
    decisions (r ∷ rs) = do
      result ← scan to_unicode zero_value rules (normalized to_lower r.host) r.proto r.port
      results ← decisions rs
      some (result ∷ results)

    abbrev followed_by :
        List Request
        → Option (MatchResult O × CompiledRuleSet to_unicode to_lower ip_string lru)
        → Option (List (MatchResult O))
    followed_by rs answer = do
      (result, s') ← answer
      results ← answers s' rs
      some (result ∷ results)

    -- `got` is what the cache gave for the request.
    answers-after :
        (cache : lru.Cache) (h : HostInfo) (proto : Protocol) (port : ℕ) (rs : List Request)
        (got : Option (MatchResult O) × lru.Cache)
        → ((v : MatchResult O)
            → got.0 ≡ some v
            → scan to_unicode zero_value rules h proto port ≡ some v)
        → IsHonest got.1
        → ((c : lru.Cache) → IsHonest c → answers (with_cache c) rs ≡ decisions rs)
        → followed_by rs
            (after_get to_unicode to_lower ip_string lru (with_cache cache) h proto port got)
          ≡ (scan to_unicode zero_value rules h proto port >>= λ result.
              (decisions rs >>= λ results. some (result ∷ results)))
    answers-after cache h proto port rs (some v, c) hit honest rest =
        rw (hit v refl) rw (rest c honest) refl
    answers-after cache h proto port rs (none, c) hit honest rest =
        elim (Option-cases (scan to_unicode zero_value rules h proto port)) [
          | inl e ↦ rw e refl
          | inr (v, e) ↦ rw e rw (rest _ (add-IsHonest c h proto port v honest e)) refl
        ]

    answers-IsHonest :
        (cache : lru.Cache) (rs : List Request)
        → IsHonest cache
        → answers (with_cache cache) rs ≡ decisions rs
    unfolding answers decisions match IsHonest
    answers-IsHonest cache [] honest = refl
    answers-IsHonest cache (r ∷ rs) honest =
        let h = normalized to_lower r.host in
        let k = cache_key ip_string h r.proto r.port in
        answers-after cache h r.proto r.port rs (lru.get cache k) (honest h r.proto r.port)
          (get-IsHonest cache k honest) (λ c i. answers-IsHonest c rs i)

    -- With a cache that is empty at first, `Match` answers any sequence of requests as the rules alone do.
    pub answers-decisions :
        (cache : lru.Cache) (rs : List Request)
        → ((k : MatchResultCacheKey) → (lru.get cache k).0 ≡ none)
        → answers (with_cache cache) rs ≡ decisions rs
    unfolding IsHonest
    answers-decisions cache rs fresh =
        answers-IsHonest cache rs
          (λ h proto port v e. absurd (cc (e, fresh (cache_key ip_string h proto port))))
