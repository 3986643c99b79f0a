-- ===== src/Congestion/Window/Order.antt =====
-- The order that the estimates keep, where times come in order and the comparator compares a rank: the
-- largest rank for the maximum, the smallest for the minimum.
use hysteria.Common.{
  ℕ, ◌+◌, ◌-◌, ◌/◌, ◌%◌, ◌^◌, ◌≤◌, ◌<◌, ◌≡◌, refl, sym, ◌∙◌, ap, true, false, ltb, ◌||◌, ◌&&◌,
  if◌then◌else◌, inl, inr, arith, Bool-cases,
}
use hysteria.Congestion.Window.{
  Sign, max_filter, is_zero, at_least_zero, Entry, WindowedFilter, older, reset, place, promote,
  refresh, update,
}

-- The estimates at some time: the best first, the oldest first, and the comparator by rank.
pub record IsOrdered {V : Type 0} (rank : V → ℕ) (now : ℕ) (f : WindowedFilter V) : Type 0 where
  pub first_second : rank f.second.sample ≤ rank f.first.sample
  pub second_third : rank f.third.sample ≤ rank f.second.sample
  pub time_second : f.first.time ≤ f.second.time
  pub time_third : f.second.time ≤ f.third.time
  pub time_now : f.third.time ≤ now
  pub by_rank : (a b : V) → f.comparator a b ≡ max_filter (rank a) (rank b)

older_lem :
    (new_time time limit : ℕ)
    → time ≤ new_time
    → new_time < 2 ^ 64
    → older new_time time limit ≡ ltb limit (new_time - time)
older_lem new_time time limit h k =
    let e : (new_time + 2 ^ 64 - time) % 2 ^ 64 ≡ new_time - time = omega arith in ap (ltb limit) e

module _ {V : Type 0} (rank : V → ℕ) where
  -- What a comparison that holds, or fails, says of the ranks.
  at_least_zero-le :
      (s : Sign) (a b : V)
      → s ≡ max_filter (rank a) (rank b)
      → at_least_zero s ≡ true
      → rank b ≤ rank a
  at_least_zero-le s a b e h =
      let q : at_least_zero (max_filter (rank a) (rank b)) ≡ true = sym (ap at_least_zero e) ∙ h in
      ground (arith, q)

  at_least_zero-lt :
      (s : Sign) (a b : V)
      → s ≡ max_filter (rank a) (rank b)
      → at_least_zero s ≡ false
      → rank a < rank b
  at_least_zero-lt s a b e h =
      let q : at_least_zero (max_filter (rank a) (rank b)) ≡ false = sym (ap at_least_zero e) ∙ h in
      ground (arith, q)

  -- What `place` leaves as it was, and what it brings about.
  record IsPlaced (f : WindowedFilter V) (e : Entry V) (f' : WindowedFilter V) : Type 0 where
    ordered : IsOrdered rank e.time f'
    above_sample : rank e.sample ≤ rank f'.third.sample
    same_first : f'.first ≡ f.first
    same_length : f'.window_length ≡ f.window_length
    later_third : f.third.time ≤ f'.third.time

  place-IsPlaced :
      (f : WindowedFilter V) (e : Entry V)
      → IsOrdered rank e.time f
      → rank e.sample ≤ rank f.first.sample
      → IsPlaced f e (place f e)
  unfolding place
  place-IsPlaced f e o h =
      let second_sign = o.by_rank e.sample f.second.sample in
      let third_sign = o.by_rank e.sample f.third.sample in
      elim (Bool-cases (at_least_zero (f.comparator e.sample f.second.sample))) [
        | inl q ↦ rw q (record {
          ordered = record {
            first_second = h;
            second_third = omega arith;
            time_second = omega arith;
            time_third = omega arith;
            time_now = omega arith;
            by_rank = o.by_rank;
          };
          above_sample = omega arith;
          same_first = refl;
          same_length = refl;
          later_third = o.time_now;
        })
        | inr q ↦
            let under =
              at_least_zero-lt (f.comparator e.sample f.second.sample) e.sample f.second.sample
                second_sign q in
            elim (Bool-cases (at_least_zero (f.comparator e.sample f.third.sample))) [
              | inl p ↦
                  rw (q, p)
                    (record {
                      ordered = record {
                        first_second = o.first_second;
                        second_third = omega arith;
                        time_second = o.time_second;
                        time_third = omega arith;
                        time_now = omega arith;
                        by_rank = o.by_rank;
                      };
                      above_sample = omega arith;
                      same_first = refl;
                      same_length = refl;
                      later_third = o.time_now;
                    })
              | inr p ↦
                  rw (q, p)
                    (record {
                      ordered = o;
                      above_sample =
                          let low =
                            at_least_zero-lt (f.comparator e.sample f.third.sample) e.sample
                              f.third.sample third_sign p in
                          omega arith;
                      same_first = refl;
                      same_length = refl;
                      later_third = omega arith;
                    })
            ]
      ]

  -- After an update with an entry: the order, a best that is at least as good as the sample, and no
  -- estimate that has left the window.
  pub record IsUpdated (f : WindowedFilter V) (e : Entry V) (f' : WindowedFilter V) : Type 0 where
    pub ordered : IsOrdered rank e.time f'
    pub best : rank e.sample ≤ rank f'.first.sample
    pub recent : e.time ≤ f'.first.time + f'.window_length
    pub same_length : f'.window_length ≡ f.window_length

  promote-IsUpdated :
      (f : WindowedFilter V) (e : Entry V)
      → IsOrdered rank e.time f
      → rank e.sample ≤ rank f.third.sample
      → e.time ≤ f.third.time + f.window_length
      → e.time < 2 ^ 64
      → IsUpdated f e (promote f e)
  unfolding promote
  promote-IsUpdated f e o h k w =
      let age = older_lem e.time f.second.time f.window_length (omega arith) w in
      elim (Bool-cases (older e.time f.second.time f.window_length)) [
        | inl q ↦ rw q (record {
          ordered = record {
            first_second = h;
            second_third = omega arith;
            time_second = o.time_now;
            time_third = omega arith;
            time_now = omega arith;
            by_rank = o.by_rank;
          };
          best = h;
          recent = k;
          same_length = refl;
        })
        | inr q ↦ rw q (record {
          ordered = record {
            first_second = o.second_third;
            second_third = h;
            time_second = o.time_third;
            time_third = o.time_now;
            time_now = omega arith;
            by_rank = o.by_rank;
          };
          best = omega arith;
          recent = let young = sym age ∙ q in ground arith;
          same_length = refl;
        })
      ]

  refresh-IsUpdated :
      (f : WindowedFilter V) (e : Entry V)
      → IsOrdered rank e.time f
      → rank e.sample ≤ rank f.third.sample
      → e.time ≤ f.first.time + f.window_length
      → IsUpdated f e (refresh f e)
  unfolding refresh
  refresh-IsUpdated f e o h k =
      elim (Bool-cases (
        is_zero (f.comparator f.second.sample f.first.sample)
        && older e.time f.second.time (f.window_length / 4))) [
          | inl q ↦ rw q (record {
            ordered = record {
              first_second = omega arith;
              second_third = omega arith;
              time_second = omega arith;
              time_third = omega arith;
              time_now = omega arith;
              by_rank = o.by_rank;
            };
            best = omega arith;
            recent = k;
            same_length = refl;
          })
          | inr q ↦
              elim (Bool-cases (
                is_zero (f.comparator f.third.sample f.second.sample)
                && older e.time f.third.time (f.window_length / 2))) [
                  | inl p ↦
                      rw (q, p)
                        (record {
                          ordered = record {
                            first_second = o.first_second;
                            second_third = omega arith;
                            time_second = o.time_second;
                            time_third = omega arith;
                            time_now = omega arith;
                            by_rank = o.by_rank;
                          };
                          best = omega arith;
                          recent = k;
                          same_length = refl;
                        })
                  | inr p ↦
                      rw (q, p)
                        (record { ordered = o; best = omega arith; recent = k; same_length = refl })
                ]
        ]

  reset-IsUpdated :
      (f : WindowedFilter V) (e : Entry V)
      → ((a b : V) → f.comparator a b ≡ max_filter (rank a) (rank b))
      → IsUpdated f e (reset f e.sample e.time)
  reset-IsUpdated f e by = record {
    ordered = record {
      first_second = omega arith;
      second_third = omega arith;
      time_second = omega arith;
      time_third = omega arith;
      time_now = omega arith;
      by_rank = by;
    };
    best = omega arith;
    recent = omega arith;
    same_length = refl;
  }

  -- The two ways on from `place`.
  settled :
      (f f' : WindowedFilter V) (e : Entry V)
      → IsPlaced f e f'
      → IsOrdered rank e.time f
      → e.time ≤ f.third.time + f.window_length
      → e.time < 2 ^ 64
      → IsUpdated f e
          (if older e.time f'.first.time f'.window_length then promote f' e else refresh f' e)
  settled f f' e p o k w =
      let age = older_lem e.time f'.first.time f'.window_length (omega arith) w in
      elim (Bool-cases (older e.time f'.first.time f'.window_length)) [
        | inl q ↦
            let u = promote-IsUpdated f' e p.ordered p.above_sample (omega arith) w in
            rw q (record {
              ordered = u.ordered;
              best = u.best;
              recent = u.recent;
              same_length = u.same_length ∙ p.same_length;
            })
        | inr q ↦
            let young = sym age ∙ q in
            let u = refresh-IsUpdated f' e p.ordered p.above_sample (ground arith) in
            rw q (record {
              ordered = u.ordered;
              best = u.best;
              recent = u.recent;
              same_length = u.same_length ∙ p.same_length;
            })
      ]

  -- Where the estimates are in order up to the time of a sample, and the comparator compares a rank, an
  -- update with the sample keeps the order: the best first, the oldest first, none younger than now. The
  -- best is at least as good as the sample, and no estimate is older than the window.
  pub update-IsUpdated :
      (zero_value : V) (f : WindowedFilter V) (x : V) (now : ℕ)
      → IsOrdered rank now f
      → now < 2 ^ 64
      → IsUpdated f (record { sample = x; time = now }) (update zero_value f x now)
  unfolding update
  update-IsUpdated zero_value f x now o w =
      let e : Entry V = record { sample = x; time = now } in
      let age = older_lem now f.third.time f.window_length o.time_now w in
      let worse =
        at_least_zero-lt (f.comparator x f.first.sample) x f.first.sample
          (o.by_rank x f.first.sample) in
      elim (Bool-cases (
        is_zero (f.comparator f.first.sample zero_value)
        || at_least_zero (f.comparator x f.first.sample)
        || older now f.third.time f.window_length)) [
          | inl q ↦ rw q (reset-IsUpdated f e o.by_rank)
          | inr q ↦
              let under : rank x < rank f.first.sample = worse (ground (arith, q)) in
              let young : older now f.third.time f.window_length ≡ false = ground (arith, q) in
              let recent = sym age ∙ young in
              rw q (settled f (place f e) e (place-IsPlaced f e o (omega arith)) o (ground arith) w)
        ]
