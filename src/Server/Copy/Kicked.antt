-- ===== src/Server/Copy/Kicked.antt =====
-- The copies of core/server/copy.go for a user whom extras/trafficlogger/http.go is to disconnect.
use hysteria.Common.{
  ℕ, zero, suc, ◌≡◌, ◌⊎◌, inl, inr, refl, List, Option, none, some, Bool, true, false, ◌==◌,
  if◌then◌else◌, length, Bool-cases,
}
use hysteria.Server.Copy.{
  ReadError, CopyError, disconnect, buf_size, Outcome, returns, pass_on, round, copy_rounds,
}
use hysteria.Server.Copy.TwoWay.{
  StreamStats, Source, remote, server, count_stream, copy_two_way_check,
}
use hysteria.Server.Sessions.{update}
use hysteria.Stats.{TrafficStats, log_traffic, Call, calls}

module _ {R : Type 0} (read : R → ℕ → List ℕ × Option ReadError × R) where
  abbrev silent_after : (R → Bool) → List ℕ × Option ReadError × R → Bool
  silent_after silent (chunk, some x, r) = length chunk == 0
  silent_after silent (chunk, none, r) = if length chunk == 0 then silent r else false

  -- Whether the reader gives no byte in a number of reads at one level, or ends before it gives one.
  unfoldable pub silent : ℕ → ℕ → R → Bool
  silent zero level r = true
  silent (suc fuel) level r = silent_after (silent fuel level) (read r (buf_size level))

module _ (now : TrafficStats → ℕ) (id : ℕ) (source : Source) where
  -- The check, behind the calls of the logger that others make before it.
  abbrev pub check_behind :
      List Call
      → TrafficStats × Option StreamStats
      → ℕ
      → Option CopyError × (TrafficStats × Option StreamStats)
  check_behind between (s, stats) n =
      copy_two_way_check now id log_traffic source (calls s between, stats) n

module _ {R W : Type 0} (read : R → ℕ → List ℕ × Option ReadError × R)
    (write : W → List ℕ → ℕ × Option ℕ × W) where
  module _ (now : TrafficStats → ℕ) (id : ℕ) (source : Source) where
    check-kicked :
        (s : TrafficStats) (stats : Option StreamStats) (n : ℕ)
        → s.kick_map id ≡ true
        → copy_two_way_check now id log_traffic source (s, stats) n ≡ (
          some disconnect,
          (record s { kick_map = update s.kick_map id false }, count_stream source (now s) n stats),
        )
    unfolding log_traffic
    check-kicked s stats n h = go source
      where
        go :
            (source : Source)
            → copy_two_way_check now id log_traffic source (s, stats) n ≡ (
              some disconnect,
              (
                record s { kick_map = update s.kick_map id false },
                count_stream source (now s) n stats,
              ),
            )
        go remote = rw h refl
        go server = rw h refl

    module _ (w : W) (s : TrafficStats) (stats : Option StreamStats) (between : List Call)
        (h : (calls s between).kick_map id ≡ true) where
      abbrev check :
          TrafficStats × Option StreamStats
          → ℕ
          → Option CopyError × (TrafficStats × Option StreamStats)
      check = check_behind now id source between

      abbrev Refused : Outcome × R × W × (TrafficStats × Option StreamStats) → Bool → Type 0
      Refused o quiet =
          (o.2 ≡ w)
          × (((quiet ≡ true) × (o.3 ≡ (s, stats)))
              ⊎ ((quiet ≡ false)
                  × (o.0 ≡ returns (some disconnect))
                  × (o.3.0 ≡ record (calls s between) {
                    kick_map = update (calls s between).kick_map id false;
                  })))

      round-Refused :
          (fuel level full : ℕ)
          → ((r : R)
              → Refused
                  (copy_rounds read write check fuel level full r w (s, stats))
                  (silent read fuel level r))
          → (answer : List ℕ × Option ReadError × R)
          → Refused
              (round read write check
                (λ l f r' w' c'. copy_rounds read write check fuel l f r' w' c')
                level
                full
                w
                (s, stats)
                answer)
              (silent_after read (silent read fuel level) answer)
      unfolding round pass_on
      round-Refused fuel level full ih (chunk, none, r) = elim (Bool-cases (length chunk == 0)) [
        | inl e ↦ rw e (ih r)
        | inr e ↦
            rw (e, check-kicked (calls s between) stats (length chunk) h)
              (refl, inr (refl, refl, refl))
      ]
      round-Refused fuel level full ih (chunk, some x, r) = elim (Bool-cases (length chunk == 0)) [
        | inl e ↦ rw e (refl, inl (refl, refl))
        | inr e ↦
            rw (e, check-kicked (calls s between) stats (length chunk) h)
              (refl, inr (refl, refl, refl))
      ]

      rounds-Refused :
          (fuel level full : ℕ) (r : R)
          → Refused
              (copy_rounds read write check fuel level full r w (s, stats))
              (silent read fuel level r)
      unfolding copy_rounds silent
      rounds-Refused zero level full r = (refl, inl (refl, refl))
      rounds-Refused (suc fuel) level full r =
          round-Refused fuel level full (rounds-Refused fuel level full) (read r (buf_size level))

    -- A copy in either direction for a user who is marked as kicked when its first chunk is checked writes
    -- nothing: it ends with `errDisconnect` at that chunk, which the logger does not count and which takes
    -- the mark away; and as long as the reader gives nothing, the copy changes neither the logger nor the
    -- counters of the stream. The calls of the logger that others make before that check are any that leave
    -- the mark: traffic of the user in another stream or direction would take it.
    pub copy_rounds-kicked :
        (fuel level full : ℕ) (r : R) (w : W) (s : TrafficStats) (stats : Option StreamStats)
        (between : List Call)
        → (calls s between).kick_map id ≡ true
        → (let o =
              copy_rounds read write
                (check_behind now id source between)
                fuel
                level
                full
                r
                w
                (s, stats) in
            (o.2 ≡ w)
            × (((silent read fuel level r ≡ true) × (o.3 ≡ (s, stats)))
                ⊎ ((silent read fuel level r ≡ false)
                    × (o.0 ≡ returns (some disconnect))
                    × (o.3.0 ≡ record (calls s between) {
                      kick_map = update (calls s between).kick_map id false;
                    }))))
    copy_rounds-kicked fuel level full r w s stats between h =
        rounds-Refused w s stats between h fuel level full r
