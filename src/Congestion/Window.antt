-- ===== src/Congestion/Window.antt =====
-- core/internal/congestion/bbr/windowed_filter.go: the best three samples of a time window. The samples
-- are of any type with a comparator; times are of BBR's type for its rounds, 64 bits without a sign.
pub mod Order
use hysteria.Common.{
  ℕ, ◌+◌, ◌-◌, ◌*◌, ◌/◌, ◌%◌, ◌^◌, ◌≡◌, Bool, true, false, ltb, ◌==◌, ◌||◌, ◌&&◌, if◌then◌else◌,
}

-- What a comparator returns: 1, 0 or -1.
pub data Sign : Type 0 where
  above : Sign
  same_rank : Sign
  below : Sign

abbrev pub max_filter : ℕ → ℕ → Sign
max_filter a b = if ltb b a then above else if ltb a b then below else same_rank

abbrev pub min_filter : ℕ → ℕ → Sign
min_filter a b = if ltb a b then above else if ltb b a then below else same_rank

-- `== 0` and `>= 0` on a comparator's result.
abbrev pub is_zero : Sign → Bool
is_zero above = false
is_zero same_rank = true
is_zero below = false

abbrev pub at_least_zero : Sign → Bool
at_least_zero above = true
at_least_zero same_rank = true
at_least_zero below = false

pub record Entry (V : Type 0) : Type 0 where
  pub sample : V
  pub time : ℕ

pub record WindowedFilter (V : Type 0) : Type 0 where
  pub window_length : ℕ
  pub first : Entry V
  pub second : Entry V
  pub third : Entry V
  pub comparator : V → V → Sign

-- `newTime - time > limit` in 64 bits.
abbrev pub older : ℕ → ℕ → ℕ → Bool
older new_time time limit = ltb limit ((new_time + 2 ^ 64 - time) % 2 ^ 64)

module _ {V : Type 0} where
  -- `zero_value` is Go's zero value of the type of the samples.
  abbrev pub new_windowed_filter : V → ℕ → (V → V → Sign) → WindowedFilter V
  new_windowed_filter zero_value window_length comparator =
      let unset : Entry V = record { sample = zero_value; time = 0 } in
      record {
        window_length = window_length;
        first = unset;
        second = unset;
        third = unset;
        comparator = comparator;
      }

  abbrev pub set_window_length : WindowedFilter V → ℕ → WindowedFilter V
  set_window_length f window_length = record f { window_length = window_length }

  abbrev pub get_best : WindowedFilter V → V
  get_best f = f.first.sample

  abbrev pub get_second_best : WindowedFilter V → V
  get_second_best f = f.second.sample

  abbrev pub get_third_best : WindowedFilter V → V
  get_third_best f = f.third.sample

  abbrev pub reset : WindowedFilter V → V → ℕ → WindowedFilter V
  reset f new_sample new_time =
      let e : Entry V = record { sample = new_sample; time = new_time } in
      record f { first = e; second = e; third = e }

  abbrev pub clear : V → WindowedFilter V → WindowedFilter V
  clear zero_value f =
      let unset : Entry V = record { sample = zero_value; time = 0 } in
      record f { first = unset; second = unset; third = unset }

  -- Where the sample beats the second or the third estimate.
  unfoldable pub place : WindowedFilter V → Entry V → WindowedFilter V
  place f e =
      if at_least_zero (f.comparator e.sample f.second.sample)
      then record f { second = e; third = e }
      else if at_least_zero (f.comparator e.sample f.third.sample)
      then record f { third = e }
      else f

  -- The estimates move up, and once more where the new best is too old as well.
  unfoldable pub promote : WindowedFilter V → Entry V → WindowedFilter V
  promote f e =
      if older e.time f.second.time f.window_length
      then record f { first = f.third; second = e; third = e }
      else record f { first = f.second; second = f.third; third = e }

  -- The second estimate from the second quarter of the window, the third from its second half.
  unfoldable pub refresh : WindowedFilter V → Entry V → WindowedFilter V
  refresh f e =
      if is_zero (f.comparator f.second.sample f.first.sample)
        && older e.time f.second.time (f.window_length / 4)
      then record f { second = e; third = e }
      else if is_zero (f.comparator f.third.sample f.second.sample)
          && older e.time f.third.time (f.window_length / 2)
      then record f { third = e }
      else f

  unfoldable pub update : V → WindowedFilter V → V → ℕ → WindowedFilter V
  unfolding place promote refresh
  update zero_value f new_sample new_time =
      let e : Entry V = record { sample = new_sample; time = new_time } in
      if is_zero (f.comparator f.first.sample zero_value)
        || at_least_zero (f.comparator new_sample f.first.sample)
        || older new_time f.third.time f.window_length
      then reset f new_sample new_time
      else let f' = place f e in
        if older new_time f'.first.time f'.window_length then promote f' e else refresh f' e
