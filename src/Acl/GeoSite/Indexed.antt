-- ===== src/Acl/GeoSite/Indexed.antt =====
-- The index of a GeoSite matcher against the linear scan.
use hysteria.Common.{
  ℕ, suc, ◌-◌, ◌≡◌, refl, sym, ap, ◌∙◌, List, [], ◌∷◌, none, some, Bool, true, false, not, ◌&&◌,
  ltb, ◌==◌, if◌then◌else◌, length, drop, get_or, arith, lt_trichotomy, lt→ltb, ◌≢◌, ◌<◌, ◌≤◌, ap₂,
  Bool-cases, inl, inr, map,
}
use hysteria.Common.Bytes.{same}
use hysteria.Acl.Texts.{has, same-length}
use hysteria.Acl.GeoSite.{
  GeositeDomain, GeositeDomainType, GeositeMatcher, Index, is_empty, geosite_domain_plain,
  geosite_domain_regex, geosite_domain_root, geosite_domain_full, geosite_domain_unknown,
  attrs_allow, match_root, match_domain, match_type, build_entries, index_entry, build_index, probe,
  match_any, match_index, match,
}

-- The name ends in the value behind a dot.
abbrev behind_dot : List ℕ → List ℕ → Bool
behind_dot value name =
    ltb (length value) (length name)
    && (get_or name (length name - length value - 1) 0 == b'.')
    && same (drop (length name - length value) name) value

-- The byte at `i` is a dot, and the value stands from `j` on.
abbrev dot_at : List ℕ → List ℕ → ℕ → ℕ → Bool
dot_at value name i j = (get_or name i 0 == b'.') && same (drop j name) value

same-ne : (s t : List ℕ) → length s ≢ length t → same s t ≡ false
same-ne s t n = elim (Bool-cases (same s t)) [ inl e ↦ absurd (n (same-length s t e)) | inr e ↦ e ]

behind_dot-cons_lt :
    (value : List ℕ) (c : ℕ) (s : List ℕ)
    → length value < length s
    → behind_dot value (c ∷ s) ≡ behind_dot value s
behind_dot-cons_lt value c s h =
    let i : length (c ∷ s) - length value - 1 ≡ suc (length s - length value - 1) = omega arith in
    let j : length (c ∷ s) - length value ≡ suc (length s - length value) = omega arith in
    let long : ltb (length value) (length s) ≡ true = lt→ltb _ _ h in
    let longer : ltb (length value) (length (c ∷ s)) ≡ true = lt→ltb _ _ (omega arith) in
    rw longer rw long (ap₂ (dot_at value (c ∷ s)) i j)

behind_dot-cons_eq :
    (value : List ℕ) (c : ℕ) (s : List ℕ)
    → length value ≡ length s
    → behind_dot value (c ∷ s) ≡ (c == b'.') && same s value
behind_dot-cons_eq value c s h =
    let i : length (c ∷ s) - length value - 1 ≡ 0 = omega arith in
    let j : length (c ∷ s) - length value ≡ 1 = omega arith in
    let longer : ltb (length value) (length (c ∷ s)) ≡ true = lt→ltb _ _ (omega arith) in
    rw longer (ap₂ (dot_at value (c ∷ s)) i j)

behind_dot-short : (value s : List ℕ) → length s ≤ length value → behind_dot value s ≡ false
behind_dot-short value s h =
    let short : ltb (length value) (length s) ≡ false = ground arith in rw short refl

probe-one : (value name : List ℕ) → probe (value ∷ []) name ≡ behind_dot value name
unfolding probe has
probe-one value [] = sym (behind_dot-short value [] (omega arith))
probe-one value (c ∷ s) = elim (lt_trichotomy (length value) (length s)) [
  | inl less ↦ ground (
    arith,
    probe-one value s,
    behind_dot-cons_lt value c s less,
    same-ne s value (λ e. omega arith),
  )
  | inr (inl same_size) ↦ ground (
    arith,
    probe-one value s,
    behind_dot-cons_eq value c s same_size,
    behind_dot-short value s (omega arith),
  )
  | inr (inr more) ↦ ground (
    arith,
    probe-one value s,
    behind_dot-short value s (omega arith),
    behind_dot-short value (c ∷ s) (omega arith),
    same-ne s value (λ e. omega arith),
  )
]

probe-cons :
    (value : List ℕ) (root : List (List ℕ)) (name : List ℕ)
    → probe (value ∷ root) name ≡ (if probe (value ∷ []) name then true else probe root name)
unfolding probe has
probe-cons value root [] = refl
probe-cons value root (c ∷ s) = ground (arith, probe-cons value root s)

match_domain-allow :
    (m_attrs : List (List ℕ)) (d : GeositeDomain) (name : List ℕ)
    → match_domain m_attrs d name
      ≡ (if attrs_allow m_attrs d then match_type d.type d name else false)
unfolding match_domain attrs_allow
match_domain-allow [] d name = refl
match_domain-allow (a ∷ as') d name = ground arith

has-guard : (ts : List (List ℕ)) (s : List ℕ) → (not (is_empty ts) && has ts s) ≡ has ts s
unfolding has
has-guard [] s = refl
has-guard (t ∷ ts) s = refl

probe-nil : (s : List ℕ) → probe [] s ≡ false
unfolding probe has
probe-nil [] = refl
probe-nil (c ∷ s) = ground (arith, probe-nil s)

probe-guard : (ts : List (List ℕ)) (s : List ℕ) → (not (is_empty ts) && probe ts s) ≡ probe ts s
probe-guard [] s = sym (probe-nil s)
probe-guard (t ∷ ts) s = refl

module _ (m_attrs : List (List ℕ)) (name : List ℕ) where
  -- What the four parts of an index say.
  found : List (List ℕ) → List (List ℕ) → List GeositeDomain → Bool
  found full root residual =
      if has full name
      then true
      else if has root name
      then true
      else if probe root name
      then true
      else match_any m_attrs residual name

  match_index-found : (ix : Index) → match_index m_attrs ix name ≡ found ix.full ix.root ix.residual
  unfolding match_index found
  match_index-found ix =
      rw (has-guard ix.full name) rw (has-guard ix.root name) rw (probe-guard ix.root name) refl

  allowed-domain :
      (t : GeositeDomainType) (d : GeositeDomain)
      → d.type ≡ t
      → attrs_allow m_attrs d ≡ true
      → match_domain m_attrs d name ≡ match_type t d name
  allowed-domain t d e ok =
      match_domain-allow m_attrs d name
      ∙ ap (λ b. if b then match_type d.type d name else false) ok
      ∙ ap (λ k. match_type k d name) e

  residual-found :
      (t : GeositeDomainType) (d : GeositeDomain) (ix : Index)
      → d.type ≡ t
      → attrs_allow m_attrs d ≡ true
      → match_index m_attrs (record ix { residual = d ∷ ix.residual }) name
        ≡ (if match_type t d name then true else match_index m_attrs ix name)
  unfolding found match_any
  residual-found t d ix e ok =
      rw (match_index-found ix) rw (match_index-found (record ix { residual = d ∷ ix.residual }))
        (ground (arith, allowed-domain t d e ok))

  entry-found :
      (t : GeositeDomainType) (d : GeositeDomain) (ix : Index)
      → d.type ≡ t
      → attrs_allow m_attrs d ≡ true
      → match_index m_attrs (index_entry t d ix) name
        ≡ (if match_type t d name then true else match_index m_attrs ix name)
  unfolding found match_any has match_root
  entry-found geosite_domain_full d ix e ok =
      rw (match_index-found ix) rw (match_index-found (record ix { full = d.value ∷ ix.full }))
        (ground arith)
  entry-found geosite_domain_root d ix e ok =
      rw (match_index-found ix) rw (match_index-found (record ix { root = d.value ∷ ix.root }))
        (ground (arith, probe-cons d.value ix.root name, probe-one d.value name))
  entry-found geosite_domain_plain d ix e ok = residual-found geosite_domain_plain d ix e ok
  entry-found geosite_domain_regex d ix e ok = residual-found geosite_domain_regex d ix e ok
  entry-found (geosite_domain_unknown n) d ix e ok = refl

  match_index-build :
      (ds : List GeositeDomain)
      → match_index m_attrs (build_entries m_attrs ds) name ≡ match_any m_attrs ds name
  unfolding build_entries match_any found has
  match_index-build [] =
      match_index-found (record { full = []; root = []; residual = [] })
      ∙ ground (arith, probe-nil name)
  match_index-build (d ∷ ds) = elim (Bool-cases (attrs_allow m_attrs d)) [
    | inl ok ↦
        rw ok rw (allowed-domain d.type d refl ok) rw
          (entry-found d.type d (build_entries m_attrs ds) refl ok)
          (ap (λ b. if match_type d.type d name then true else b) (match_index-build ds))
    | inr refused ↦
        rw refused rw (match_domain-allow m_attrs d name) rw refused (match_index-build ds)
  ]

-- The answers of a matcher to names that follow one another.
unfoldable pub answers : GeositeMatcher → List (List ℕ) → List Bool
answers m [] = []
answers m (name ∷ names) = (match m name).0 ∷ answers ((match m name).1) names

answers-indexed :
    (attrs : List (List ℕ)) (ds : List GeositeDomain) (names : List (List ℕ))
    → answers (record { domains = []; attrs = attrs; index = some (build_entries attrs ds) }) names
      ≡ map (match_any attrs ds) names
unfolding answers match build_index
answers-indexed attrs ds [] = refl
answers-indexed attrs ds (name ∷ names) =
    ap₂ ◌∷◌ (match_index-build attrs name ds) (answers-indexed attrs ds names)

-- However often a new matcher is asked, the index answers each name as a scan of all entries does.
pub answers-scan :
    (domains : List GeositeDomain) (attrs : List (List ℕ)) (names : List (List ℕ))
    → answers (record { domains = domains; attrs = attrs; index = none }) names
      ≡ map (match_any attrs domains) names
unfolding answers match build_index
answers-scan domains attrs [] = refl
answers-scan domains attrs (name ∷ names) =
    ap₂ ◌∷◌ (match_index-build attrs name domains) (answers-indexed attrs domains names)
