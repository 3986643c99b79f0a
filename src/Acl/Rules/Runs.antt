-- ===== src/Acl/Rules/Runs.antt =====
-- Runs of the compiled rules and their cache.
use hysteria.Common.{
  ℕ, ◌+◌, ◌≡◌, ◌⊎◌, refl, List, [], ◌∷◌, Option, none, some, Bool, true, false, map, arith, ap₂,
  ==_iff, Bool-cases, ◌==◌, if◌then◌else◌, inl, inr,
}
use hysteria.Common.Bytes.{same}
use Prim.Native.String.{String}
use hysteria.Acl.Ip.{short_form}
use hysteria.Acl.Texts.{codes}
use hysteria.Common.Bytes.{same_iff}
use hysteria.Acl.Matchers.{all_matcher, domain_matcher, domain_match_suffix}
use hysteria.Acl.Rules.{
  Protocol, protocol_both, protocol_tcp, protocol_udp, CompiledRule, MatchResult,
  MatchResultCacheKey, Lru, IsCache, is_protocol,
}
use hysteria.Acl.Rules.Key.{NoBar, IsIpString}
use hysteria.Acl.Rules.Cached.{Request, decisions, answers-decisions}
use hysteria.Acl.Rules.Cached

-- A cache of one entry.
abbrev key_eq : MatchResultCacheKey → MatchResultCacheKey → Bool
key_eq k j =
    if same k.host j.host
    then (if is_protocol k.proto j.proto then k.port == j.port else false)
    else false

is_protocol-eq : (p q : Protocol) → is_protocol p q ≡ true → p ≡ q
is_protocol-eq protocol_both protocol_both e = refl
is_protocol-eq protocol_tcp protocol_tcp e = refl
is_protocol-eq protocol_udp protocol_udp e = refl
is_protocol-eq protocol_both protocol_tcp e = absurd (cc e)
is_protocol-eq protocol_both protocol_udp e = absurd (cc e)
is_protocol-eq protocol_tcp protocol_both e = absurd (cc e)
is_protocol-eq protocol_tcp protocol_udp e = absurd (cc e)
is_protocol-eq protocol_udp protocol_both e = absurd (cc e)
is_protocol-eq protocol_udp protocol_tcp e = absurd (cc e)

key_eq-eq : (k j : MatchResultCacheKey) → key_eq k j ≡ true → k ≡ j
key_eq-eq k j e =
    ground (
      arith,
      e,
      (same_iff k.host j.host).0,
      is_protocol-eq k.proto j.proto,
      (==_iff k.port j.port).0,
    )

abbrev found_in : {V : Type 0} → Option (MatchResultCacheKey × V) → MatchResultCacheKey → Option V
found_in none j = none
found_in (some (k, v)) j = if key_eq k j then some v else none

abbrev one_entry : Lru MatchResultCacheKey (MatchResult ℕ)
one_entry = record {
  Cache = Option (MatchResultCacheKey × MatchResult ℕ);
  get = λ c k. (found_in c k, c);
  add = λ c k v. some (k, v);
}

one_entry-IsCache : IsCache one_entry
one_entry-IsCache = record {
  get_keeps = λ c k j v e. e;
  add_keeps = λ c k j v w e. added c k j v w e;
}
  where
    added :
        (c : Option (MatchResultCacheKey × MatchResult ℕ)) (k j : MatchResultCacheKey)
        (v w : MatchResult ℕ)
        → found_in (some (k, v)) j ≡ some w
        → ((k ≡ j) × (v ≡ w)) ⊎ (found_in c j ≡ some w)
    added c k j v w e = elim (Bool-cases (key_eq k j)) [
      | inl y ↦ let e' : some v ≡ some w = rw y at e in inl (key_eq-eq k j y, cc (e'))
      | inr n ↦ absurd (cc (rw n at e))
    ]

-- A text of an address that has no bar.
abbrev far : List ℕ → List ℕ
far ip = map (λ c. c + 200) ip

far-NoBar : (ip : List ℕ) → NoBar (far ip)
far-NoBar [] = tt
far-NoBar (c ∷ ip) = (λ e. omega arith, far-NoBar ip)

far-eq : (a b : List ℕ) → far a ≡ far b → a ≡ b
far-eq [] [] e = refl
far-eq [] (y ∷ b) e = absurd (cc e)
far-eq (x ∷ a) [] e = absurd (cc e)
far-eq (x ∷ a) (y ∷ b) e =
    let e' : (x + 200) ∷ far a ≡ (y + 200) ∷ far b = e in
    let head : x + 200 ≡ y + 200 = cc (e') in
    let tail : far a ≡ far b = cc (e') in ap₂ ◌∷◌ (omega arith) (far-eq a b tail)

abbrev far_text : List ℕ → List ℕ
far_text ip = far (short_form ip)

far_text-IsIpString : IsIpString far_text
far_text-IsIpString = record {
  no_bars = λ ip. far-NoBar (short_form ip);
  distinct = λ ip ip' e. far-eq (short_form ip) (short_form ip') e;
}

abbrev ad_rules : List (CompiledRule ℕ)
ad_rules =
    record {
      outbound = 1;
      host_matcher = domain_matcher (codes "ads.com") domain_match_suffix;
      protocol = protocol_both;
      start_port = 0;
      end_port = 0;
      hijack_address = [];
    }
    ∷ record {
      outbound = 2;
      host_matcher = all_matcher;
      protocol = protocol_tcp;
      start_port = 80;
      end_port = 90;
      hijack_address = [];
    }
    ∷ []

abbrev ask : String → ℕ → Request
ask name port = record {
  host = record { name = codes name; ipv4 = []; ipv6 = [] };
  proto = protocol_tcp;
  port = port;
}

abbrev asked : List Request
asked = ask "x.ads.com." 80 ∷ ask "x.ads.com" 80 ∷ ask "b.org" 85 ∷ ask "b.org" 91 ∷ []

answers-decisions_example :
    Cached.answers
      (λ s. some s)
      (λ s. s)
      far_text
      one_entry
      one_entry-IsCache
      far_text-IsIpString
      0
      ad_rules
      (record { rules = ad_rules; cache = none; zero_value = 0 })
      asked
    ≡ decisions
        (λ s. some s)
        (λ s. s)
        far_text
        one_entry
        one_entry-IsCache
        far_text-IsIpString
        0
        ad_rules
        asked
answers-decisions_example =
    answers-decisions (λ s. some s) (λ s. s) far_text one_entry one_entry-IsCache
      far_text-IsIpString 0 ad_rules none asked (λ k. refl)
