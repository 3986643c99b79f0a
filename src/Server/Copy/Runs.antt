-- ===== src/Server/Copy/Runs.antt =====
-- Runs of core/server/copy.go on small inputs.
use hysteria.Common.{
  ℕ, ◌+◌, ◌≤◌, ◌<◌, ◌≡◌, ◌⊎◌, inl, inr, refl, List, [], ◌∷◌, ◌++◌, Option, none, some, leb, length,
  take, drop, arith, take_all, take-append-drop, length-take, sym, true, false,
}
use hysteria.Server.Copy.{
  ReadError, eof, CopyError, disconnect, returns, log_check, copy_rounds, round, pass_on,
}
use hysteria.Server.Copy.Whole.{IsReader, write_all, count_all, copy_rounds_whole}
use hysteria.Server.Copy.TwoWay.{StreamStats, server, copy_two_way_check}
use hysteria.Server.Copy.Kicked.{silent, check_behind, copy_rounds-kicked}
use hysteria.Server.Sessions.{update}
use hysteria.Stats.{new_traffic_stats, log_traffic, Call, calls, call, kick, kicks, traffic}
use hysteria.Server.Copy.Checked.{IsWriter, counted, copy_rounds_checked}

-- A reader that gives two bytes at most, and the end with an empty read.
abbrev by_twos : List ℕ → ℕ → List ℕ × Option ReadError × List ℕ
by_twos [] n = ([], some eof, [])
by_twos (b ∷ bs) n = (take 2 (b ∷ bs), none, drop 2 (b ∷ bs))

-- The same, in reads of `n` bytes at most, as much as fits.
abbrev in_chunks : List ℕ → ℕ → List ℕ × Option ReadError × List ℕ
in_chunks [] n = ([], some eof, [])
in_chunks (b ∷ bs) n = (take n (b ∷ bs), none, drop n (b ∷ bs))

in_chunks-IsReader : IsReader in_chunks
in_chunks-IsReader = record { in_order = order; fits = fits'; progress = progress' }
  where
    order : (r : List ℕ) (n : ℕ) → r ≡ (in_chunks r n).0 ++ (in_chunks r n).2
    order [] n = refl
    order (b ∷ bs) n = sym (take-append-drop n (b ∷ bs))

    fits' : (r : List ℕ) (n : ℕ) → length ((in_chunks r n).0) ≤ n
    fits' [] n = omega arith
    fits' (b ∷ bs) n = omega (arith, length-take n (b ∷ bs))

    progress' :
        (r : List ℕ) (n : ℕ)
        → 0 < n
        → (((in_chunks r n).1 ≡ none) × (0 < length ((in_chunks r n).0)))
          ⊎ (((in_chunks r n).1 ≡ some eof) × ((in_chunks r n).2 ≡ []))
    progress' [] n h = inr (refl, refl)
    progress' (b ∷ bs) n h = inl (refl, omega (arith, length-take n (b ∷ bs)))

abbrev stream : List ℕ
stream = 1 ∷ 2 ∷ 3 ∷ 4 ∷ 5 ∷ []

copy_rounds_whole_example :
    copy_rounds in_chunks write_all count_all 6 0 0 stream (9 ∷ []) 10
    ≡ (returns none, [], 9 ∷ 1 ∷ 2 ∷ 3 ∷ 4 ∷ 5 ∷ [], 15)
copy_rounds_whole_example =
    copy_rounds_whole in_chunks 6 0 0 stream (9 ∷ []) 10 in_chunks-IsReader (omega arith)

-- A log that lets four bytes pass in all.
abbrev quota : ℕ → ℕ → Option CopyError × ℕ
quota = log_check (λ c n. (leb (c + n) 4, c + n))

-- The third chunk is refused, and not written.
quota_stops :
    copy_rounds by_twos write_all quota 6 0 0 stream [] 0
    ≡ (returns (some disconnect), [], 1 ∷ 2 ∷ 3 ∷ 4 ∷ [], 5)
unfolding copy_rounds round pass_on
quota_stops = refl

write_all-IsWriter : IsWriter write_all
write_all-IsWriter w bs = (length bs, whole)
  where
    whole : w ++ bs ≡ w ++ take (length bs) bs
    whole = rw (take_all (length bs) bs (omega arith)) refl

copy_rounds_checked_run :
    length ((copy_rounds by_twos write_all (counted quota) 6 0 0 stream [] (0, 0)).2)
    ≤ (copy_rounds by_twos write_all (counted quota) 6 0 0 stream [] (0, 0)).3.1
copy_rounds_checked_run =
    copy_rounds_checked by_twos write_all write_all-IsWriter quota 6 0 0 stream [] 0 0 (omega arith)

-- While a copy of user 7 waits, the user is kicked, and another user has traffic.
abbrev others : List Call
others = kicks (some (7 ∷ [])) ∷ traffic 3 (record { tx = 20; rx = 30 }) ∷ []

abbrev counters : StreamStats
counters = record { tx = 1; rx = 0; last_active_time = 4 }

others_kick : (calls new_traffic_stats others).kick_map 7 ≡ true
unfolding calls call kick log_traffic
others_kick = refl

copy_rounds-kicked_example :
    (let o =
        copy_rounds by_twos write_all
          (check_behind (λ s. 5) 7 server others)
          6
          0
          0
          stream
          []
          (new_traffic_stats, some counters) in
      (o.2 ≡ [])
      × (((silent by_twos 6 0 stream ≡ true) × (o.3 ≡ (new_traffic_stats, some counters)))
          ⊎ ((silent by_twos 6 0 stream ≡ false)
              × (o.0 ≡ returns (some disconnect))
              × (o.3.0 ≡ record (calls new_traffic_stats others) {
                kick_map = update (calls new_traffic_stats others).kick_map 7 false;
              }))))
copy_rounds-kicked_example =
    copy_rounds-kicked by_twos write_all (λ s. 5) 7 server 6 0 0 stream [] new_traffic_stats
      (some counters) others others_kick

-- A user who is not to be kicked gets the whole stream.
counted_stream :
    (copy_rounds by_twos write_all
      (copy_two_way_check (λ s. 5) 7 log_traffic server)
      6
      0
      0
      stream
      []
      (new_traffic_stats, some counters)).2
    ≡ stream
unfolding copy_rounds round pass_on log_traffic
counted_stream = refl
