-- ===== src/Stats/Conserved.antt =====
-- `LogTraffic` and `getTraffic` of extras/trafficlogger/http.go: what becomes of the traffic.
use hysteria.Common.{
  ℕ, ◌+◌, ◌%◌, ◌^◌, ◌≡◌, refl, List, [], ◌∷◌, Option, none, some, Bool, true, false, if◌then◌else◌,
  ◌==◌, ==_iff, ap, arith, Bool-cases, inl, inr,
}
use hysteria.Stats.{
  TrafficStatsEntry, TrafficStats, entry_or_new, add_traffic, log_traffic, log_online_state,
  get_traffic, kick, Call, traffic, online, traced, untraced, report, kicks, call, calls,
}
use hysteria.Server.Sessions.{update}

-- A direction of the traffic.
pub data Direction : Type 0 where
  sent : Direction
  received : Direction

abbrev pub part : Direction → TrafficStatsEntry → ℕ
part sent t = t.tx
part received t = t.rx

module _ (d : Direction) (id : ℕ) where
  -- What the map holds of a user.
  unfoldable pub held : (ℕ → Option TrafficStatsEntry) → ℕ
  held stats_map = part d (entry_or_new (stats_map id))

  -- What a call logs of the user's traffic, if it is accepted.
  unfoldable pub accepted_by : TrafficStats → Call → ℕ
  accepted_by s (traffic k t) =
      if id == k then (if (log_traffic s k t.tx t.rx).0 then part d t else 0) else 0
  accepted_by s c = 0

  -- What a call reports of the user's traffic and forgets.
  unfoldable pub cleared_by : TrafficStats → Call → ℕ
  cleared_by s (report clear) = if clear then held ((get_traffic s clear).0) else 0
  cleared_by s c = 0

  unfoldable pub accepted : TrafficStats → List Call → ℕ
  accepted s [] = 0
  accepted s (c ∷ cs) = accepted_by s c + accepted (call s c) cs

  unfoldable pub cleared : TrafficStats → List Call → ℕ
  cleared s [] = 0
  cleared s (c ∷ cs) = cleared_by s c + cleared (call s c) cs

  add_traffic-part :
      (e : TrafficStatsEntry) (tx rx : ℕ)
      → (part d (add_traffic e tx rx) + 0) % 2 ^ 64
        ≡ (part d e + part d (record { tx = tx; rx = rx })) % 2 ^ 64
  add_traffic-part e tx rx = grind arith

  update-held :
      (m : ℕ → Option TrafficStatsEntry) (k tx rx : ℕ)
      → (held (update m k (some (add_traffic (entry_or_new (m k)) tx rx))) + 0) % 2 ^ 64
        ≡ (held m + (if id == k then part d (record { tx = tx; rx = rx }) else 0)) % 2 ^ 64
  unfolding held
  update-held m k tx rx = elim (Bool-cases (id == k)) [
    | inl q ↦
        let p : id ≡ k = (==_iff id k).0 q in
        rw q rw (ap m p) (add_traffic-part (entry_or_new (m k)) tx rx)
    | inr q ↦ rw q refl
  ]

  nothing : (h : ℕ) (b : Bool) → (h + 0) % 2 ^ 64 ≡ (h + (if b then 0 else 0)) % 2 ^ 64
  nothing h true = refl
  nothing h false = refl

  log_traffic-held :
      (s : TrafficStats) (k tx rx : ℕ)
      → (held ((log_traffic s k tx rx).1.stats_map) + 0) % 2 ^ 64
        ≡ (held s.stats_map
            + (if id == k
                then (if (log_traffic s k tx rx).0 then part d (record { tx = tx; rx = rx }) else 0)
                else 0))
          % 2 ^ 64
  unfolding held log_traffic
  log_traffic-held s k tx rx = elim (Bool-cases (s.kick_map k)) [
    | inl q ↦ rw q (nothing _ (id == k))
    | inr q ↦ rw q (update-held s.stats_map k tx rx)
  ]

  call-held :
      (s : TrafficStats) (c : Call)
      → (held ((call s c).stats_map) + cleared_by s c) % 2 ^ 64
        ≡ (held s.stats_map + accepted_by s c) % 2 ^ 64
  unfolding held accepted_by cleared_by call log_traffic get_traffic kick log_online_state
  call-held s (traffic k t) = log_traffic-held s k t.tx t.rx
  call-held s (online k true) = refl
  call-held s (online k false) = refl
  call-held s (traced stream stats) = refl
  call-held s (untraced stream) = refl
  call-held s (report true) = ground arith
  call-held s (report false) = refl
  call-held s (kicks none) = refl
  call-held s (kicks (some ids)) = refl

  join :
      (h₀ h₁ h₂ o t c a : ℕ)
      → (h₁ + o) % 2 ^ 64 ≡ (h₀ + t) % 2 ^ 64
      → (h₂ + c) % 2 ^ 64 ≡ (h₁ + a) % 2 ^ 64
      → (h₂ + (o + c)) % 2 ^ 64 ≡ (h₀ + (t + a)) % 2 ^ 64
  join h₀ h₁ h₂ o t c a p q = omega arith

  -- After any calls, what the map holds of a user and what the reports that cleared it had of them add
  -- up to what the map held before and what `LogTraffic` accepted, in each direction, modulo 2 ^ 64.
  pub calls-held :
      (s : TrafficStats) (cs : List Call)
      → (held ((calls s cs).stats_map) + cleared s cs) % 2 ^ 64
        ≡ (held s.stats_map + accepted s cs) % 2 ^ 64
  unfolding calls accepted cleared
  calls-held s [] = refl
  calls-held s (c ∷ cs) = join _ _ _ _ _ _ _ (call-held s c) (calls-held (call s c) cs)
