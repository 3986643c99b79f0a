-- ===== src/Congestion/PacketQueue.antt =====
-- core/internal/congestion/bbr/packet_number_indexed_queue.go. A packet number stands as the number after it, so that
-- the invalid one, -1, is 0. `zero_value` is Go's zero value of the element type, and `none` is a panic.
pub mod Ledger
pub mod Slots
pub mod Clear
pub mod First
pub mod Entry
pub mod Emplace
pub mod Refine
use hysteria.Common.{
  ℕ, zero, suc, ◌+◌, ◌-◌, ◌%◌, List, Option, none, some, Bool, true, false, not, ltb, leb, ◌==◌,
  ◌||◌, ◌&&◌, if◌then◌else◌, length, set,
}
use hysteria.Common.Results.Panics.{◌>>=◌}
use hysteria.Congestion.Ring.{RingBuffer, init, len, empty, push_back, pop_front, offset, front}

abbrev pub invalid_packet_number : ℕ
invalid_packet_number = 0

pub record EntryWrapper (A : Type 0) : Type 0 where
  pub present : Bool
  pub entry : A

pub record PacketNumberIndexedQueue (A : Type 0) : Type 0 where
  pub entries : RingBuffer (EntryWrapper A)
  pub number_of_present_entries : ℕ
  pub first_packet : ℕ

abbrev pub less_one : Bool → ℕ → ℕ
less_one present n = if present then n - 1 else n

module _ {A : Type 0} where
  abbrev pub new_packet_number_indexed_queue : ℕ → PacketNumberIndexedQueue A
  new_packet_number_indexed_queue size = record {
    entries = init size;
    number_of_present_entries = 0;
    first_packet = invalid_packet_number;
  }

  abbrev pub is_empty : PacketNumberIndexedQueue A → Bool
  is_empty p = p.number_of_present_entries == 0

  abbrev pub entry_slots_used : PacketNumberIndexedQueue A → ℕ
  entry_slots_used p = len p.entries

  abbrev pub last_packet : PacketNumberIndexedQueue A → ℕ
  last_packet p = if is_empty p then invalid_packet_number else p.first_packet + len p.entries - 1

  -- `getEntryWraper`
  abbrev pub if_present : Option (EntryWrapper A) → Option (EntryWrapper A)
  if_present none = none
  if_present (some ew) = if ew.present then some ew else none

  unfoldable pub get_entry_wrapper : PacketNumberIndexedQueue A → ℕ → Option (EntryWrapper A)
  get_entry_wrapper p packet_number =
      if (packet_number == invalid_packet_number) || is_empty p || ltb packet_number p.first_packet
      then none
      else if leb (len p.entries) (packet_number - p.first_packet)
      then none
      else if_present (offset p.entries (packet_number - p.first_packet))

  abbrev pub entry_of : Option (EntryWrapper A) → Option A
  entry_of none = none
  entry_of (some ew) = some ew.entry

  -- `GetEntry`, with `none` for nil.
  unfoldable pub get_entry : PacketNumberIndexedQueue A → ℕ → Option A
  get_entry p packet_number = entry_of (get_entry_wrapper p packet_number)

  abbrev pub invalid_if_empty : PacketNumberIndexedQueue A → PacketNumberIndexedQueue A
  invalid_if_empty p =
      if empty p.entries then record p { first_packet = invalid_packet_number } else p

  -- `ew.present = false`, through the pointer into the ring.
  abbrev pub mark_absent :
      PacketNumberIndexedQueue A → ℕ → EntryWrapper A → PacketNumberIndexedQueue A
  mark_absent p index ew = record p {
    entries = record p.entries {
      ring =
          set p.entries.ring ((p.entries.head_pos + index) % length p.entries.ring)
            (record ew { present = false });
    };
    number_of_present_entries = p.number_of_present_entries - 1;
  }

  module _ (zero_value : A) where
    abbrev pub absent : EntryWrapper A
    absent = record { present = false; entry = zero_value }

    -- The loop that fills a gap.
    unfoldable pub push_gap : ℕ → RingBuffer (EntryWrapper A) → Option (RingBuffer (EntryWrapper A))
    push_gap zero r = some r
    push_gap (suc gap) r = do r ← push_back absent r absent; push_gap gap r

    abbrev pub emplace_first :
        PacketNumberIndexedQueue A → ℕ → A → Option (Bool × PacketNumberIndexedQueue A)
    emplace_first p packet_number entry = do
      r ← push_back absent p.entries (record { present = true; entry = entry })
      some (
        true,
        record { entries = r; number_of_present_entries = 1; first_packet = packet_number },
      )

    abbrev pub emplace_last :
        PacketNumberIndexedQueue A → ℕ → A → Option (Bool × PacketNumberIndexedQueue A)
    emplace_last p packet_number entry = do
      r ← push_gap (packet_number - p.first_packet - len p.entries) p.entries
      r ← push_back absent r (record { present = true; entry = entry })
      some (
        true,
        record p { entries = r; number_of_present_entries = p.number_of_present_entries + 1 },
      )

    unfoldable pub emplace :
        PacketNumberIndexedQueue A → ℕ → Option A → Option (Bool × PacketNumberIndexedQueue A)
    emplace p packet_number none = some (false, p)
    emplace p packet_number (some entry) =
        if packet_number == invalid_packet_number
        then some (false, p)
        else if is_empty p
        then emplace_first p packet_number entry
        else if leb packet_number (last_packet p)
        then some (false, p)
        else emplace_last p packet_number entry

    -- The loop of `clearup`, on fuel.
    unfoldable pub clear_front :
        ℕ → PacketNumberIndexedQueue A → Option (PacketNumberIndexedQueue A)
    clear_front zero p = some p
    clear_front (suc fuel) p =
        let cleared = pop_front absent p.entries >>= λ popped.
        clear_front fuel (record p { entries = popped.1; first_packet = p.first_packet + 1 }) in
        if empty p.entries
        then some p
        else (front p.entries >>= λ ew. if ew.present then some p else cleared)

    unfoldable pub clearup : PacketNumberIndexedQueue A → Option (PacketNumberIndexedQueue A)
    clearup p = do p ← clear_front (len p.entries) p; some (invalid_if_empty p)

    abbrev pub remove_wrapper :
        PacketNumberIndexedQueue A
        → ℕ
        → Option (EntryWrapper A)
        → Option (Option A × PacketNumberIndexedQueue A)
    remove_wrapper p packet_number none = some (none, p)
    remove_wrapper p packet_number (some ew) = do
      let removed = mark_absent p (packet_number - p.first_packet) ew
      p' ← (if packet_number == p.first_packet then clearup removed else some removed)
      some (some ew.entry, p')

    -- `Remove`: the entry that `f` is called with, if the result is true.
    unfoldable pub remove :
        PacketNumberIndexedQueue A → ℕ → Option (Option A × PacketNumberIndexedQueue A)
    remove p packet_number = remove_wrapper p packet_number (get_entry_wrapper p packet_number)

    -- The loop of `RemoveUpTo`, on fuel.
    unfoldable pub drop_front :
        ℕ → PacketNumberIndexedQueue A → ℕ → Option (PacketNumberIndexedQueue A)
    drop_front zero p packet_number = some p
    drop_front (suc fuel) p packet_number =
        let dropped = pop_front absent p.entries >>= λ popped.
        drop_front fuel
          (record {
            entries = popped.1;
            number_of_present_entries = less_one popped.0.present p.number_of_present_entries;
            first_packet = p.first_packet + 1;
          })
          packet_number in
        if not (empty p.entries)
          && not (p.first_packet == invalid_packet_number)
          && ltb p.first_packet packet_number
        then dropped
        else some p

    unfoldable pub remove_up_to :
        PacketNumberIndexedQueue A → ℕ → Option (PacketNumberIndexedQueue A)
    remove_up_to p packet_number = do p ← drop_front (len p.entries) p packet_number; clearup p
