-- ===== src/Stats/Runs.antt =====
-- Runs of the traffic statistics.
use hysteria.Common.{ℕ, ◌+◌, ◌%◌, ◌^◌, ◌≡◌, refl, List, [], ◌∷◌, none, some, true, false}
use hysteria.Stats.{
  TrafficStatsEntry, new_traffic_stats, log_traffic, log_online_state, kick, Call, traffic, online,
  report, kicks, call, calls, get_traffic,
}
use hysteria.Stats.Conserved.{sent, held, accepted, accepted_by, cleared, calls-held}
use hysteria.Stats.Kicked.{has, all_leave, leaves, log_traffic-kick}

abbrev bytes : ℕ → ℕ → TrafficStatsEntry
bytes tx rx = record { tx = tx; rx = rx }

abbrev afternoon : List Call
afternoon =
    traffic 7 (bytes 100 20)
    ∷ online 7 true
    ∷ report true
    ∷ traffic 7 (bytes 5 6)
    ∷ kicks (some (7 ∷ []))
    ∷ traffic 7 (bytes 50 60)
    ∷ traffic 7 (bytes 1 2)
    ∷ []

-- 106 bytes are accepted, 100 of them are reported and forgotten; the 50 are refused.
afternoon_sent : accepted sent 7 new_traffic_stats afternoon ≡ 106
unfolding accepted accepted_by calls call log_traffic get_traffic kick log_online_state
afternoon_sent = refl

calls-held_example :
    (held sent 7 ((calls new_traffic_stats afternoon).stats_map)
        + cleared sent 7 new_traffic_stats afternoon)
      % 2 ^ 64
    ≡ (held sent 7 new_traffic_stats.stats_map + accepted sent 7 new_traffic_stats afternoon)
      % 2 ^ 64
calls-held_example = calls-held sent 7 new_traffic_stats afternoon

log_traffic-kick_example :
    let s₁ = calls ((kick new_traffic_stats (some (3 ∷ 7 ∷ []))).1) (traffic 3 (bytes 1 1) ∷ []) in
    let (ok, s₂) = log_traffic s₁ 7 50 60 in
    (ok ≡ false)
    × (s₂.stats_map ≡ s₁.stats_map)
    × ((log_traffic (calls s₂ (online 7 false ∷ [])) 7 1 2).0 ≡ true)
unfolding has all_leave leaves
log_traffic-kick_example =
    log_traffic-kick 7 new_traffic_stats (3 ∷ 7 ∷ []) (traffic 3 (bytes 1 1) ∷ [])
      (online 7 false ∷ []) (bytes 50 60) (bytes 1 2) refl refl refl

-- Two connections, of which one ends; then the other, and the entry is gone.
online_run :
    (calls new_traffic_stats (online 7 true ∷ online 7 true ∷ online 7 false ∷ [])).online_map 7
    ≡ some 1
unfolding calls call log_online_state
online_run = refl

online_run_gone :
    (calls new_traffic_stats
        (online 7 true ∷ online 7 true ∷ online 7 false ∷ online 7 false ∷ [])).online_map
      7
    ≡ none
unfolding calls call log_online_state
online_run_gone = refl
