-- ===== src/Congestion/Ring.antt =====
-- core/internal/congestion/bbr/ringbuffer.go. `zero_value` is Go's zero value of the element type, and
-- `none` is a panic. Capacities are far below 2^63.
pub mod Window
pub mod Refine
pub mod History
pub mod Store
use hysteria.Common.{
  ℕ, ◌+◌, ◌-◌, ◌*◌, ◌%◌, List, [], ◌++◌, Option, none, some, Bool, true, false, not, ltb, leb, ◌==◌,
  ◌||◌, ◌&&◌, if◌then◌else◌, length, take, drop, set, get_elem?, replicate,
}
use hysteria.Common.Results.Panics.{◌>>=◌}

abbrev pub initial_ring_size : ℕ
initial_ring_size = 8

pub record RingBuffer {ℓ} (A : Type ℓ) : Type ℓ where
  pub ring : List A
  pub head_pos : ℕ
  pub tail_pos : ℕ
  pub full : Bool

module _ {ℓ} {A : Type ℓ} where
  -- `Init`, which ignores the size.
  abbrev pub init : ℕ → RingBuffer A
  init size = record { ring = []; head_pos = 0; tail_pos = 0; full = false }

  abbrev pub len : RingBuffer A → ℕ
  len r =
      if r.full
      then length r.ring
      else if leb r.head_pos r.tail_pos
      then r.tail_pos - r.head_pos
      else r.tail_pos + length r.ring - r.head_pos

  abbrev pub empty : RingBuffer A → Bool
  empty r = not r.full && (r.head_pos == r.tail_pos)

  -- `ring[i] = v`
  abbrev pub store : List A → ℕ → A → Option (List A)
  store ring i v = if ltb i (length ring) then some (set ring i v) else none

  -- The position behind `i`.
  abbrev pub next : List A → ℕ → ℕ
  next ring i = if i + 1 == length ring then 0 else i + 1

  -- The two copies fill the front of the new slice.
  unfoldable pub grow : A → RingBuffer A → RingBuffer A
  grow zero_value r =
      let new_size = if length r.ring == 0 then initial_ring_size else length r.ring * 2 in
      record {
        ring =
            (drop r.head_pos r.ring ++ take r.head_pos r.ring)
            ++ replicate (new_size - length r.ring) zero_value;
        head_pos = 0;
        tail_pos = length r.ring;
        full = false;
      }

  -- `PushBack` behind its call of `grow`.
  unfoldable pub push_room : RingBuffer A → A → Option (RingBuffer A)
  push_room r t = do
    ring ← store r.ring r.tail_pos t
    let tail = next ring r.tail_pos
    some (record r {
      ring = ring;
      tail_pos = tail;
      full = if tail == r.head_pos then true else r.full;
    })

  unfoldable pub push_back : A → RingBuffer A → A → Option (RingBuffer A)
  unfolding grow push_room
  push_back zero_value r t =
      if r.full || (length r.ring == 0) then push_room (grow zero_value r) t else push_room r t

  unfoldable pub pop_front : A → RingBuffer A → Option (A × RingBuffer A)
  pop_front zero_value r = if empty r then none else do
    t ← get_elem? r.ring r.head_pos
    ring ← store r.ring r.head_pos zero_value
    some (t, record r { ring = ring; head_pos = next ring r.head_pos; full = false })

  -- What the pointer that `Offset` returns points at.
  unfoldable pub offset : RingBuffer A → ℕ → Option A
  offset r index =
      if empty r || leb (len r) index
      then none
      else get_elem? r.ring ((r.head_pos + index) % length r.ring)

  unfoldable pub front : RingBuffer A → Option A
  front r = if empty r then none else get_elem? r.ring r.head_pos

  unfoldable pub back : RingBuffer A → Option A
  unfolding offset
  back r = if empty r then none else offset r (len r - 1)

  unfoldable pub clear : A → RingBuffer A → RingBuffer A
  clear zero_value r = record {
    ring = replicate (length r.ring) zero_value;
    head_pos = 0;
    tail_pos = 0;
    full = false;
  }
