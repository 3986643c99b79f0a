-- ===== src/Stats.antt =====
-- extras/trafficlogger/http.go: the traffic counters, the users online and the users to be kicked.
-- A user's name, a stream and the counters of a stream are numbers, of which only equality is used; a
-- map is a function. The response of a handler is the map that it encodes; what the JSON decoder gives
-- is an argument. Each function runs under one hold of the lock.
pub mod Conserved
pub mod Kicked
mod Runs
use hysteria.Common.{
  ℕ, zero, suc, ◌+◌, ◌%◌, ◌^◌, List, [], ◌∷◌, Option, none, some, Bool, true, false, if◌then◌else◌,
}
use hysteria.Server.Sessions.{update}

pub record TrafficStatsEntry : Type 0 where
  pub tx : ℕ
  pub rx : ℕ

pub record TrafficStats : Type 0 where
  pub stats_map : ℕ → Option TrafficStatsEntry
  pub online_map : ℕ → Option ℕ
  pub stream_map : ℕ → Option ℕ
  pub kick_map : ℕ → Bool

abbrev pub new_traffic_stats : TrafficStats
new_traffic_stats = record {
  stats_map = λ id. none;
  online_map = λ id. none;
  stream_map = λ stream. none;
  kick_map = λ id. false;
}

-- The entry of a user: `&trafficStatsEntry{}` where there is none.
abbrev pub entry_or_new : Option TrafficStatsEntry → TrafficStatsEntry
entry_or_new none = record { tx = 0; rx = 0 }
entry_or_new (some entry) = entry

abbrev pub add_traffic : TrafficStatsEntry → ℕ → ℕ → TrafficStatsEntry
add_traffic entry tx rx = record { tx = (entry.tx + tx) % 2 ^ 64; rx = (entry.rx + rx) % 2 ^ 64 }

unfoldable pub log_traffic : TrafficStats → ℕ → ℕ → ℕ → Bool × TrafficStats
log_traffic s id tx rx =
    if s.kick_map id then (false, record s { kick_map = update s.kick_map id false }) else (
      true,
      record s {
        stats_map =
            update s.stats_map id (some (add_traffic (entry_or_new (s.stats_map id)) tx rx));
      },
    )

-- `OnlineMap[id]++`, on less than 2 ^ 63 connections of a user.
abbrev pub one_more : Option ℕ → ℕ
one_more none = 1
one_more (some n) = n + 1

-- `OnlineMap[id]--`, and the entry is deleted at zero or below.
abbrev pub one_less : Option ℕ → Option ℕ
one_less none = none
one_less (some zero) = none
one_less (some (suc zero)) = none
one_less (some (suc (suc n))) = some (suc n)

unfoldable pub log_online_state : TrafficStats → ℕ → Bool → TrafficStats
log_online_state s id true = record s {
  online_map = update s.online_map id (some (one_more (s.online_map id)));
}
log_online_state s id false = record s {
  online_map = update s.online_map id (one_less (s.online_map id));
}

abbrev pub trace_stream : TrafficStats → ℕ → ℕ → TrafficStats
trace_stream s stream stats = record s { stream_map = update s.stream_map stream (some stats) }

abbrev pub untrace_stream : TrafficStats → ℕ → TrafficStats
untrace_stream s stream = record s { stream_map = update s.stream_map stream none }

-- The map that is encoded, and the state after it.
unfoldable pub get_traffic : TrafficStats → Bool → (ℕ → Option TrafficStatsEntry) × TrafficStats
get_traffic s clear = (s.stats_map, if clear then record s { stats_map = λ id. none } else s)

abbrev pub mark : (ℕ → Bool) → List ℕ → ℕ → Bool
mark kicked [] = kicked
mark kicked (id ∷ ids) = mark (update kicked id true) ids

-- `none` is a body that the decoder rejects. The answer is the status code.
unfoldable pub kick : TrafficStats → Option (List ℕ) → ℕ × TrafficStats
kick s none = (400, s)
kick s (some ids) = (200, record s { kick_map = mark s.kick_map ids })

-- A call of the server, or a request to the API.
pub data Call : Type 0 where
  traffic : ℕ → TrafficStatsEntry → Call
  online : ℕ → Bool → Call
  traced : ℕ → ℕ → Call
  untraced : ℕ → Call
  report : Bool → Call
  kicks : Option (List ℕ) → Call

unfoldable pub call : TrafficStats → Call → TrafficStats
unfolding log_traffic get_traffic kick
call s (traffic id t) = (log_traffic s id t.tx t.rx).1
call s (online id state) = log_online_state s id state
call s (traced stream stats) = trace_stream s stream stats
call s (untraced stream) = untrace_stream s stream
call s (report clear) = (get_traffic s clear).1
call s (kicks ids) = (kick s ids).1

unfoldable pub calls : TrafficStats → List Call → TrafficStats
calls s [] = s
calls s (c ∷ cs) = calls (call s c) cs
