-- ===== src/Stats/Kicked.antt =====
-- `kick` and `LogTraffic` of extras/trafficlogger/http.go: when a user is told to disconnect.
use hysteria.Common.{
  ℕ, ◌≡◌, ◌≢◌, refl, ◌∙◌, List, [], ◌∷◌, none, some, Bool, true, false, if◌then◌else◌, ◌==◌, ==_iff,
  arith, Bool-cases, inl, inr,
}
use hysteria.Stats.{
  TrafficStatsEntry, TrafficStats, log_traffic, log_online_state, get_traffic, kick, mark, Call,
  traffic, online, traced, untraced, report, kicks, call, calls,
}
use hysteria.Server.Sessions.{update}
use hysteria.Server.Sessions.Invariant.{update-eq, update-ne}

-- Whether a user is in the list.
unfoldable pub has : ℕ → List ℕ → Bool
has id [] = false
has id (k ∷ ks) = if id == k then true else has id ks

module _ (id : ℕ) where
  -- Neither traffic of the user nor a request that kicks them.
  unfoldable pub leaves : Call → Bool
  leaves (traffic k t) = if id == k then false else true
  leaves (kicks (some ids)) = if has id ids then false else true
  leaves c = true

  unfoldable pub all_leave : List Call → Bool
  all_leave [] = true
  all_leave (c ∷ cs) = if leaves c then all_leave cs else false

  if-same : (b : Bool) → (if b then true else true) ≡ true
  if-same true = refl
  if-same false = refl

  mark-has :
      (kicked : ℕ → Bool) (ids : List ℕ)
      → mark kicked ids id ≡ (if has id ids then true else kicked id)
  unfolding has
  mark-has kicked [] = refl
  mark-has kicked (k ∷ ks) = elim (Bool-cases (id == k)) [
    | inl q ↦
        rw q rw (mark-has (update kicked k true) ks) rw
          (update-eq kicked k true id ((==_iff id k).0 q)) (if-same (has id ks))
    | inr q ↦ rw q rw (mark-has (update kicked k true) ks) rw q refl
  ]

  log_traffic-leaves :
      (s : TrafficStats) (k tx rx : ℕ)
      → id ≢ k
      → (log_traffic s k tx rx).1.kick_map id ≡ s.kick_map id
  unfolding log_traffic
  log_traffic-leaves s k tx rx n = elim (Bool-cases (s.kick_map k)) [
    | inl q ↦ rw q (update-ne s.kick_map k false id n)
    | inr q ↦ rw q refl
  ]

  call-leaves :
      (s : TrafficStats) (c : Call) → leaves c ≡ true → (call s c).kick_map id ≡ s.kick_map id
  unfolding leaves call log_traffic get_traffic kick log_online_state
  call-leaves s (traffic k t) l = log_traffic-leaves s k t.tx t.rx (ground (arith, l))
  call-leaves s (online k true) l = refl
  call-leaves s (online k false) l = refl
  call-leaves s (traced stream stats) l = refl
  call-leaves s (untraced stream) l = refl
  call-leaves s (report true) l = refl
  call-leaves s (report false) l = refl
  call-leaves s (kicks none) l = refl
  call-leaves s (kicks (some ids)) l = mark-has s.kick_map ids ∙ ground (arith, l)

  calls-leave :
      (s : TrafficStats) (cs : List Call)
      → all_leave cs ≡ true
      → (calls s cs).kick_map id ≡ s.kick_map id
  unfolding all_leave calls
  calls-leave s [] l = refl
  calls-leave s (c ∷ cs) l =
      calls-leave (call s c) cs (ground (arith, l)) ∙ call-leaves s c (ground (arith, l))

  kick-marks :
      (s : TrafficStats) (ids : List ℕ)
      → has id ids ≡ true
      → (kick s (some ids)).1.kick_map id ≡ true
  unfolding kick
  kick-marks s ids h = mark-has s.kick_map ids ∙ rw h refl

  log_traffic-kicked :
      (s : TrafficStats) (tx rx : ℕ)
      → s.kick_map id ≡ true
      → log_traffic s id tx rx ≡ (false, record s { kick_map = update s.kick_map id false })
  unfolding log_traffic
  log_traffic-kicked s tx rx q = rw q refl

  log_traffic-accepts :
      (s : TrafficStats) (tx rx : ℕ) → s.kick_map id ≡ false → (log_traffic s id tx rx).0 ≡ true
  unfolding log_traffic
  log_traffic-accepts s tx rx q = rw q refl

  -- Once a user is kicked, calls that neither log traffic of them nor kick them change nothing about it:
  -- the next `LogTraffic` of the user refuses and counts nothing, and after such calls again, the one
  -- that follows it accepts.
  pub log_traffic-kick :
      (s : TrafficStats) (ids : List ℕ) (between after : List Call) (t u : TrafficStatsEntry)
      → has id ids ≡ true
      → all_leave between ≡ true
      → all_leave after ≡ true
      → (let s₁ = calls ((kick s (some ids)).1) between in
          let (ok, s₂) = log_traffic s₁ id t.tx t.rx in
          (ok ≡ false)
          × (s₂.stats_map ≡ s₁.stats_map)
          × ((log_traffic (calls s₂ after) id u.tx u.rx).0 ≡ true))
  log_traffic-kick s ids between after t u h b a =
      let s₁ : TrafficStats = calls ((kick s (some ids)).1) between in
      let marked : s₁.kick_map id ≡ true =
        calls-leave ((kick s (some ids)).1) between b ∙ kick-marks s ids h in
      let e = log_traffic-kicked s₁ t.tx t.rx marked in
      let s₂ : TrafficStats = record s₁ { kick_map = update s₁.kick_map id false } in
      let unmarked : (calls s₂ after).kick_map id ≡ false =
        calls-leave s₂ after a ∙ update-eq s₁.kick_map id false id refl in
      rw e (refl, refl, log_traffic-accepts (calls s₂ after) u.tx u.rx unmarked)
