-- ===== src/Server/Copy/TwoWay.antt =====
-- The checks that `copyTwoWayEx` and `copyTwoWayVerdict` of core/server/copy.go copy with, in both directions. The
-- embedder's logger is a function on a state of its own, from which also the clock is read; `none` are no counters.
use hysteria.Common.{ℕ, ◌+◌, ◌%◌, ◌^◌, Option, none, some, Bool}
use hysteria.Server.Copy.{CopyError, TrafficVerdict, stream_verdict_error, log_check}

-- The counters of `StreamStats` in core/server/config.go that a copy changes.
pub record StreamStats : Type 0 where
  pub tx : ℕ
  pub rx : ℕ
  pub last_active_time : ℕ

-- What a copy reads from: the remote end, or the stream of the client.
pub data Source : Type 0 where
  remote : Source
  server : Source

abbrev pub count_stream : Source → ℕ → ℕ → Option StreamStats → Option StreamStats
count_stream source now n none = none
count_stream remote now n (some stats) =
    some (record stats { last_active_time = now; rx = (stats.rx + n) % 2 ^ 64 })
count_stream server now n (some stats) =
    some (record stats { last_active_time = now; tx = (stats.tx + n) % 2 ^ 64 })

module _ {L : Type 0} (now : L → ℕ) (id : ℕ) where
  -- The call of the logger with the bytes of a chunk.
  abbrev pub log_chunk : {B : Type 0} → (L → ℕ → ℕ → ℕ → B) → Source → L → ℕ → B
  log_chunk log remote l n = log l id 0 n
  log_chunk log server l n = log l id n 0

  abbrev pub stream_log :
      (L → ℕ → ℕ → ℕ → Bool × L)
      → Source
      → L × Option StreamStats
      → ℕ
      → Bool × (L × Option StreamStats)
  stream_log log source (l, stats) n =
      let (ok, l') = log_chunk log source l n in (ok, (l', count_stream source (now l) n stats))

  -- `copyTwoWayEx`
  abbrev pub copy_two_way_check :
      (L → ℕ → ℕ → ℕ → Bool × L)
      → Source
      → L × Option StreamStats
      → ℕ
      → Option CopyError × (L × Option StreamStats)
  copy_two_way_check log source = log_check (stream_log log source)

  -- `copyTwoWayVerdict`
  abbrev pub copy_two_way_verdict :
      (L → ℕ → ℕ → ℕ → TrafficVerdict × L)
      → Source
      → L × Option StreamStats
      → ℕ
      → Option CopyError × (L × Option StreamStats)
  copy_two_way_verdict log source (l, stats) n =
      let (verdict, l') = log_chunk log source l n in
      (stream_verdict_error verdict, (l', count_stream source (now l) n stats))
