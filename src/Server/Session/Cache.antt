-- ===== src/Server/Session/Cache.antt =====
-- The cache of `checkAddr`: bounded, and right about the address that was asked for.
use hysteria.Common.{
  ◌⊎◌, inl, inr, Bool-cases, ℕ, zero, suc, ◌+◌, ◌≤◌, ◌<◌, ◌≡◌, refl, List, [], ◌∷◌, none, some,
  true, leb, if◌then◌else◌, Option-cases, Bool-cases, inl, inr, arith, length,
}
use hysteria.Server.Session.{
  Entry, Env, Cache, Decision, cached, evict, check_addr, max_session_acl_cache,
}
use hysteria.Common.Bytes.{same}

pub same_refl : (a : List ℕ) → same a a ≡ true
unfolding same
same_refl [] = refl
same_refl (x ∷ a) = ground (arith, same_refl a)

pub same→eq : (a b : List ℕ) → same a b ≡ true → a ≡ b
unfolding same
same→eq [] [] e = refl
same→eq [] (b ∷ bs) e = absurd (cc e)
same→eq (a ∷ as') [] e = absurd (cc e)
same→eq (a ∷ as') (b ∷ bs) e = ground (arith, same→eq as' bs)

-- The key that a range over the map yields first is a key of the map.
abbrev pub Ranges : Env → Type 0
Ranges env = (c : Cache) → 0 < length c → env.first_key c < length c

length-evict : (k : ℕ) (c : Cache) → k < length c → length (evict k c) + 1 ≡ length c
unfolding evict
length-evict k [] h = absurd (omega arith)
length-evict zero (a ∷ c) h = omega arith
length-evict (suc k) (a ∷ c) h = omega (arith, length-evict k c (omega arith))

-- The cache with room for one more decision.
abbrev trimmed : Env → Cache → Cache
trimmed env c = if leb max_session_acl_cache (length c) then evict (env.first_key c) c else c

trimmed-le :
    (env : Env) (c : Cache)
    → Ranges env
    → length c ≤ max_session_acl_cache
    → length (trimmed env c) < max_session_acl_cache
trimmed-le env c range small = elim (Bool-cases (leb max_session_acl_cache (length c))) [
  | inl full ↦
      let inside : env.first_key c < length c = range c (ground arith) in
      rw full (omega (arith, length-evict (env.first_key c) c inside))
  | inr more ↦ rw more (ground arith)
]

check_addr_known :
    (env : Env) (e : Entry) (addr : List ℕ) {x : Decision}
    → cached addr e.acl_cache ≡ some x
    → check_addr env e addr ≡ (x, e)
unfolding check_addr
check_addr_known env e addr h = rw (h, check_addr)

check_addr_new :
    (env : Env) (e : Entry) (addr : List ℕ)
    → cached addr e.acl_cache ≡ none
    → check_addr env e addr ≡ (
      env.check_udp addr,
      record e { acl_cache = (addr, env.check_udp addr) ∷ trimmed env e.acl_cache },
    )
unfolding check_addr
check_addr_new env e addr h = rw (h, check_addr)

cached_self : (addr : List ℕ) (x : Decision) (c : Cache) → cached addr ((addr, x) ∷ c) ≡ some x
unfolding cached
cached_self addr x c = rw (same_refl addr)

-- `checkAddr` keeps a cache of at most 256 decisions within that size and leaves the rest of the
-- session alone, where a range over a map that is not empty yields one of its keys. It answers from
-- the cache where the address is known, and asks the policy where it is not; asked again at once it
-- gives the same answer and changes nothing, whatever the policy says by then.
pub check_addr_lem :
    (env later : Env) (e : Entry) (addr : List ℕ)
    → Ranges env
    → length e.acl_cache ≤ max_session_acl_cache
    → let (decision, e') = check_addr env e addr in
      (length e'.acl_cache ≤ max_session_acl_cache)
      × (e' ≡ record e { acl_cache = e'.acl_cache })
      × ((cached addr e.acl_cache ≡ some decision)
          ⊎ ((cached addr e.acl_cache ≡ none) × (decision ≡ env.check_udp addr)))
      × (check_addr later e' addr ≡ (decision, e'))
check_addr_lem env later e addr range small = elim (Option-cases (cached addr e.acl_cache)) [
  | inl new ↦ rw (check_addr_new env e addr new) (
    trimmed-le env e.acl_cache range small,
    refl,
    inr (new, refl),
    check_addr_known later _ addr (cached_self addr _ _),
  )
  | inr (x, known) ↦
      rw (check_addr_known env e addr known)
        (small, refl, inl known, check_addr_known later e addr known)
]
