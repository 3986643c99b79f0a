-- ===== src/Obfs/Gecko.antt =====
-- extras/obfs/gecko.go: the reassembly of fragments, the cutting into chunks, and the choice of padding. An
-- address is a number that stands for its string; times are numbers. A function of a source to its
-- count is the map `perSource`, 0 where it has no key. Of entries with the oldest deadline Go takes any,
-- here it is the first of the table.
pub mod Table
pub mod Bounded
pub mod History
pub mod Cutting
pub mod Collect
pub mod Reassemble
use hysteria.Common.{
  ℕ, zero, suc, ◌+◌, ◌-◌, ◌*◌, ◌/◌, ◌%◌, ◌^◌, max, List, [], ◌∷◌, ◌++◌, Option, none, some, Bool,
  true, false, ltb, leb, ◌==◌, ◌&&◌, ◌||◌, if◌then◌else◌, length, take, drop, set, get_elem?,
  replicate,
}
use hysteria.Obfs.GeckoFrame.{FrameHeader}
use hysteria.Server.Sessions.{update}

abbrev pub gecko_reassembly_ttl : ℕ
gecko_reassembly_ttl = 8 * 10 ^ 9

abbrev pub gecko_max_reassembly : ℕ
gecko_max_reassembly = 4096

abbrev pub gecko_max_per_source : ℕ
gecko_max_per_source = 8

-- `reassemblyEntry` with its key. A chunk that is nil is `none`.
pub record ReassemblyEntry : Type 0 where
  pub addr : ℕ
  pub msg_id : ℕ
  pub chunks : List (Option (List ℕ))
  pub received : ℕ
  pub total : ℕ
  pub deadline : ℕ

pub record GeckoConn : Type 0 where
  pub reassembly : List ReassemblyEntry
  pub per_source : ℕ → ℕ

abbrev pub new_gecko_conn : GeckoConn
new_gecko_conn = record { reassembly = []; per_source = λ addr. 0 }

abbrev pub has_key : ℕ → ℕ → ReassemblyEntry → Bool
has_key addr id e = (e.addr == addr) && (e.msg_id == id)

abbrev pub find : ℕ → ℕ → List ReassemblyEntry → Option ReassemblyEntry
find addr id [] = none
find addr id (e ∷ t) = if has_key addr id e then some e else find addr id t

-- `delete(g.reassembly, key)`
abbrev pub remove : ℕ → ℕ → List ReassemblyEntry → List ReassemblyEntry
remove addr id [] = []
remove addr id (e ∷ t) = if has_key addr id e then t else e ∷ remove addr id t

-- A write through the pointer to an entry.
abbrev pub replace : ReassemblyEntry → List ReassemblyEntry → List ReassemblyEntry
replace e' [] = []
replace e' (e ∷ t) = if has_key e'.addr e'.msg_id e then e' ∷ t else e ∷ replace e' t

unfoldable pub drop_entry : GeckoConn → ℕ → ℕ → GeckoConn
drop_entry g addr id = elim (find addr id g.reassembly) [
  | none ↦ g
  | some e ↦ record {
    reassembly = remove addr id g.reassembly;
    per_source = update g.per_source addr (g.per_source addr - 1);
  }
]

abbrev pub older : ReassemblyEntry → Option ReassemblyEntry → ReassemblyEntry
older e none = e
older e (some f) = if ltb f.deadline e.deadline then f else e

abbrev pub oldest : List ReassemblyEntry → Option ReassemblyEntry
oldest [] = none
oldest (e ∷ t) = some (older e (oldest t))

unfoldable pub evict_oldest : GeckoConn → GeckoConn
unfolding drop_entry
evict_oldest g = elim (oldest g.reassembly) [ none ↦ g | some e ↦ drop_entry g e.addr e.msg_id ]

-- The chunks one behind the other.
abbrev pub join : List (Option (List ℕ)) → List ℕ
join [] = []
join (none ∷ cs) = join cs
join (some c ∷ cs) = c ++ join cs

abbrev pub with_chunk : ReassemblyEntry → ℕ → List ℕ → ReassemblyEntry
with_chunk e idx payload = record e {
  chunks = set e.chunks idx (some payload);
  received = e.received + 1;
}

-- `acceptChunk` from the entry on.
unfoldable pub store_chunk :
    GeckoConn → ReassemblyEntry → FrameHeader → List ℕ → GeckoConn × Option (List ℕ)
unfolding drop_entry
store_chunk g e h payload = elim (get_elem? e.chunks h.chunk_idx) [
  | none ↦ (g, none)
  | some (some c) ↦ (g, none)
  | some none ↦
      let e' = with_chunk e h.chunk_idx payload in
      let g' : GeckoConn = record g { reassembly = replace e' g.reassembly } in
      if ltb e'.received e'.total
      then (g', none)
      else (drop_entry g' e'.addr e'.msg_id, some (join e'.chunks))
]

abbrev pub new_entry : ℕ → ℕ → FrameHeader → ReassemblyEntry
new_entry now addr h = record {
  addr = addr;
  msg_id = h.msg_id;
  chunks = replicate h.total_chunks none;
  received = 0;
  total = h.total_chunks;
  deadline = now + gecko_reassembly_ttl;
}

abbrev pub with_room : GeckoConn → GeckoConn
with_room g = if leb gecko_max_reassembly (length g.reassembly) then evict_oldest g else g

abbrev pub with_entry : GeckoConn → ReassemblyEntry → GeckoConn
with_entry g e = record {
  reassembly = e ∷ g.reassembly;
  per_source = update g.per_source e.addr (g.per_source e.addr + 1);
}

-- The message that the chunk completes, if any.
unfoldable pub accept_chunk : ℕ → GeckoConn → ℕ → FrameHeader → List ℕ → GeckoConn × Option (List ℕ)
unfolding store_chunk evict_oldest
accept_chunk now g addr h payload = elim (find addr h.msg_id g.reassembly) [
  | none ↦
      if leb gecko_max_per_source (g.per_source addr)
      then (g, none)
      else let e = new_entry now addr h in store_chunk (with_entry (with_room g) e) e h payload
  | some e ↦ if e.total == h.total_chunks then store_chunk g e h payload else (g, none)
]

-- The loop of `gcExpired` over the entries.
unfoldable pub gc_entries : ℕ → GeckoConn → List ReassemblyEntry → GeckoConn
unfolding drop_entry
gc_entries now g [] = g
gc_entries now g (e ∷ t) =
    let g' = if ltb e.deadline now then drop_entry g e.addr e.msg_id else g in gc_entries now g' t

unfoldable pub gc_expired : ℕ → GeckoConn → GeckoConn
unfolding gc_entries
gc_expired now g = gc_entries now g g.reassembly
