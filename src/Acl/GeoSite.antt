-- ===== src/Acl/GeoSite.antt =====
-- The GeoSite matcher of extras/outbounds/acl/matchers_v2geo.go: the linear scan, and the index that the
-- first match builds. A map to `true` is the list of its keys. `regexp.Compile` of Go's library is the
-- parameter `compile`: the matcher of a text, or `none` for an error.
pub mod Indexed
use hysteria.Common.{
  ℕ, ◌+◌, ◌-◌, List, [], ◌∷◌, Option, none, some, Bool, true, false, not, ◌&&◌, ltb, ◌==◌,
  if◌then◌else◌, length, drop, get_or,
}
use hysteria.Common.Bytes.{same}
use hysteria.Common.Results.Panics.{◌>>=◌}
use hysteria.Acl.Texts.{has, contains}

pub data GeositeDomainType : Type 0 where
  geosite_domain_plain : GeositeDomainType
  geosite_domain_regex : GeositeDomainType
  geosite_domain_root : GeositeDomainType
  geosite_domain_full : GeositeDomainType
  -- Any other number.
  geosite_domain_unknown : ℕ → GeositeDomainType

pub record GeositeDomain : Type 0 where
  pub type : GeositeDomainType
  pub value : List ℕ
  -- `MatchString`, where the pointer is not nil.
  pub regex : Option (List ℕ → Bool)
  pub attrs : List (List ℕ)

-- `full`, `root` and `residual`.
pub record Index : Type 0 where
  pub full : List (List ℕ)
  pub root : List (List ℕ)
  pub residual : List GeositeDomain

-- `index` is there once `indexOnce` is done.
pub record GeositeMatcher : Type 0 where
  pub domains : List GeositeDomain
  pub attrs : List (List ℕ)
  pub index : Option Index

abbrev pub is_empty {ℓ} : {A : Type ℓ} → List A → Bool
is_empty [] = true
is_empty (x ∷ xs) = false

unfoldable pub all_in : List (List ℕ) → List (List ℕ) → Bool
unfolding has
all_in domain_attrs [] = true
all_in domain_attrs (attr ∷ rest) =
    if has domain_attrs attr then all_in domain_attrs rest else false

unfoldable pub attrs_allow : List (List ℕ) → GeositeDomain → Bool
unfolding all_in
attrs_allow m_attrs domain =
    if is_empty m_attrs
    then true
    else if is_empty domain.attrs
    then false
    else all_in domain.attrs m_attrs

-- A domain that is equal to `value`, or ends in it behind a dot.
unfoldable pub match_root : List ℕ → List ℕ → Bool
unfolding same
match_root value name =
    if same name value
    then true
    else ltb (length value) (length name)
      && (get_or name (length name - length value - 1) 0 == b'.')
      && same (drop (length name - length value) name) value

abbrev pub match_regex : Option (List ℕ → Bool) → List ℕ → Bool
match_regex none name = false
match_regex (some regex) name = regex name

abbrev pub match_type : GeositeDomainType → GeositeDomain → List ℕ → Bool
match_type geosite_domain_plain domain name = contains name domain.value
match_type geosite_domain_regex domain name = match_regex domain.regex name
match_type geosite_domain_full domain name = same name domain.value
match_type geosite_domain_root domain name = match_root domain.value name
match_type (geosite_domain_unknown n) domain name = false

unfoldable pub match_domain : List (List ℕ) → GeositeDomain → List ℕ → Bool
unfolding all_in match_root contains same
match_domain m_attrs domain name =
    if not (is_empty m_attrs) && is_empty domain.attrs
    then false
    else if not (is_empty m_attrs) && not (all_in domain.attrs m_attrs)
    then false
    else match_type domain.type domain name

-- An entry put into the index.
abbrev pub index_entry : GeositeDomainType → GeositeDomain → Index → Index
index_entry geosite_domain_full domain ix = record ix { full = domain.value ∷ ix.full }
index_entry geosite_domain_root domain ix = record ix { root = domain.value ∷ ix.root }
index_entry geosite_domain_plain domain ix = record ix { residual = domain ∷ ix.residual }
index_entry geosite_domain_regex domain ix = record ix { residual = domain ∷ ix.residual }
index_entry (geosite_domain_unknown n) domain ix = ix

unfoldable pub build_entries : List (List ℕ) → List GeositeDomain → Index
unfolding attrs_allow
build_entries m_attrs [] = record { full = []; root = []; residual = [] }
build_entries m_attrs (domain ∷ domains) =
    let rest = build_entries m_attrs domains in
    if attrs_allow m_attrs domain then index_entry domain.type domain rest else rest

-- `indexOnce.Do(m.buildIndex)`
abbrev pub once : GeositeMatcher → Option Index → GeositeMatcher
once m none = record m { domains = []; index = some (build_entries m.attrs m.domains) }
once m (some ix) = m

unfoldable pub build_index : GeositeMatcher → GeositeMatcher
unfolding build_entries
build_index m = once m m.index

-- The loop over the dots of a name.
unfoldable pub probe : List (List ℕ) → List ℕ → Bool
unfolding has
probe root [] = false
probe root (c ∷ s) =
    let rest = probe root s in if not (c == b'.') then rest else if has root s then true else rest

unfoldable pub match_any : List (List ℕ) → List GeositeDomain → List ℕ → Bool
unfolding match_domain
match_any m_attrs [] name = false
match_any m_attrs (domain ∷ domains) name =
    if match_domain m_attrs domain name then true else match_any m_attrs domains name

unfoldable pub match_index : List (List ℕ) → Index → List ℕ → Bool
unfolding has probe match_any
match_index m_attrs ix name =
    if not (is_empty ix.full) && has ix.full name
    then true
    else if not (is_empty ix.root) && has ix.root name
    then true
    else if not (is_empty ix.root) && probe ix.root name
    then true
    else match_any m_attrs ix.residual name

abbrev pub match_once : GeositeMatcher → Option Index → List ℕ → Bool
match_once m none name = false
match_once m (some ix) name = match_index m.attrs ix name

-- `Match`: the answer, and the matcher with its index.
unfoldable pub match : GeositeMatcher → List ℕ → Bool × GeositeMatcher
unfolding build_index match_index
match m name = let m' = build_index m in (match_once m' m'.index name, m')

-- An entry of the database, with the numbers that its package gives the types.
pub record Domain : Type 0 where
  pub type : ℕ
  pub value : List ℕ
  pub attribute : List (List ℕ)

module _ (compile : List ℕ → Option (List ℕ → Bool)) where
  abbrev pub new_domain :
      Domain → GeositeDomainType → Option (List ℕ → Bool) → List ℕ → GeositeDomain
  new_domain domain type regex value = record {
    type = type;
    value = value;
    regex = regex;
    attrs = domain.attribute;
  }

  unfoldable pub new_geosite_domain : Domain → Option GeositeDomain
  new_geosite_domain domain =
      if domain.type == 0
      then some (new_domain domain geosite_domain_plain none domain.value)
      else if domain.type == 1
      then (compile domain.value >>= λ regex.
          some (new_domain domain geosite_domain_regex (some regex) []))
      else if domain.type == 3
      then some (new_domain domain geosite_domain_full none domain.value)
      else if domain.type == 2
      then some (new_domain domain geosite_domain_root none domain.value)
      else none

  unfoldable pub new_domains : List Domain → Option (List GeositeDomain)
  unfolding new_geosite_domain
  new_domains [] = some []
  new_domains (domain ∷ rest) = do
    d ← new_geosite_domain domain
    ds ← new_domains rest
    some (d ∷ ds)

  unfoldable pub new_geosite_matcher : List Domain → List (List ℕ) → Option GeositeMatcher
  unfolding new_domains
  new_geosite_matcher list attrs = do
    domains ← new_domains list
    some (record { domains = domains; attrs = attrs; index = none })
