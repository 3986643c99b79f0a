-- ===== src/Server/Copy.antt =====
-- core/server/copy.go: the copying of streams with a check of every chunk. The reader, the writer and the
-- check are functions on states of their own. The state of a check has the embedder's logger in it, which the
-- copies of both directions and of other streams share: Kicked.antt has the calls that they make in between.
pub mod Whole
pub mod Checked
pub mod TwoWay
pub mod Kicked
mod Runs
use hysteria.Common.{
  ℕ, zero, suc, ◌+◌, ◌*◌, ◌^◌, List, Option, none, some, Bool, true, false, not, ltb, leb, ◌==◌,
  ◌&&◌, if◌then◌else◌, length,
}

abbrev pub copy_buf_min_shift : ℕ
copy_buf_min_shift = 12

abbrev pub copy_buf_levels : ℕ
copy_buf_levels = 4

abbrev pub copy_grow_reads : ℕ
copy_grow_reads = 2

-- The length of the buffers of a level.
abbrev pub buf_size : ℕ → ℕ
buf_size level = 2 ^ level * 2 ^ copy_buf_min_shift

-- `io.EOF`, or another error of a reader.
pub data ReadError : Type 0 where
  eof : ReadError
  read_failed : ℕ → ReadError

pub data CopyError : Type 0 where
  disconnect : CopyError
  stream_rejected : CopyError
  short_write : CopyError
  write_error : ℕ → CopyError
  read_error : ℕ → CopyError

pub data TrafficVerdict : Type 0 where
  accept : TrafficVerdict
  reject : TrafficVerdict
  disconnects : TrafficVerdict

-- `none` is no error.
abbrev pub stream_verdict_error : TrafficVerdict → Option CopyError
stream_verdict_error accept = none
stream_verdict_error reject = some stream_rejected
stream_verdict_error disconnects = some disconnect

-- The level and the count of full reads behind a read of `nr` bytes.
abbrev pub full_reads_after : ℕ → ℕ → ℕ → ℕ
full_reads_after level full_reads nr = if nr == buf_size level then full_reads + 1 else 0

abbrev pub grows : ℕ → ℕ → Bool
grows level full_reads = leb copy_grow_reads full_reads && ltb (level + 1) copy_buf_levels

-- The end of a round: a read error ends the copy.
abbrev pub end_of : ReadError → Option CopyError
end_of eof = none
end_of (read_failed e) = some (read_error e)

pub data Outcome : Type 0 where
  returns : Option CopyError → Outcome
  runs_on : Outcome

module _ {R W C : Type 0} (read : R → ℕ → List ℕ × Option ReadError × R)
    (write : W → List ℕ → ℕ × Option ℕ × W) (check : C → ℕ → Option CopyError × C) where
  -- The results of a write of `n` bytes, and of a check.
  abbrev pub after_write : ℕ → C → ℕ × Option ℕ × W → Option CopyError × W × C
  after_write n c (nw, some e, w) = (some (write_error e), w, c)
  after_write n c (nw, none, w) = if nw == n then (none, w, c) else (some short_write, w, c)

  abbrev pub after_check : W → List ℕ → Option CopyError × C → Option CopyError × W × C
  after_check w chunk (some e, c) = (some e, w, c)
  after_check w chunk (none, c) = after_write (length chunk) c (write w chunk)

  -- The check of a chunk and its write.
  unfoldable pub pass_on : W → C → List ℕ → Option CopyError × W × C
  pass_on w c chunk = after_check w chunk (check c (length chunk))

  -- What follows a chunk that was passed on or was empty.
  abbrev pub after_read : Option ReadError → R → W → C → Outcome × R × W × C → Outcome × R × W × C
  after_read none r w c rest = rest
  after_read (some x) r w c rest = (returns (end_of x), r, w, c)

  abbrev pub after_pass :
      Option ReadError → R → Option CopyError × W × C → Outcome × R × W × C → Outcome × R × W × C
  after_pass er r (some e, w, c) rest = (returns (some e), r, w, c)
  after_pass er r (none, w, c) rest = after_read er r w c rest

  -- One round of the loop, from the read on, where `go` is what follows it.
  unfoldable pub round :
      (ℕ → ℕ → R → W → C → Outcome × R × W × C)
      → ℕ
      → ℕ
      → W
      → C
      → List ℕ × Option ReadError × R
      → Outcome × R × W × C
  unfolding pass_on
  round go level full_reads w c (chunk, er, r) =
      let passed = pass_on w c chunk in
      let full = full_reads_after level full_reads (length chunk) in
      let grown = grows level full in
      if length chunk == 0
      then after_read er r w c (go level full_reads r w c)
      else after_pass er r passed (
          go (if grown then level + 1 else level) (if grown then 0 else full) r (passed.1)
            (passed.2))

  -- `copyBufferCheck` for a number of rounds: it returns, or runs on.
  unfoldable pub copy_rounds : ℕ → ℕ → ℕ → R → W → C → Outcome × R × W × C
  unfolding round
  copy_rounds zero level full_reads r w c = (runs_on, r, w, c)
  copy_rounds (suc fuel) level full_reads r w c =
      round (λ l f r' w' c'. copy_rounds fuel l f r' w' c') level full_reads w c
        (read r (buf_size level))

  abbrev pub copy_buffer_check : ℕ → R → W → C → Outcome × R × W × C
  copy_buffer_check fuel r w c = copy_rounds fuel 0 0 r w c

-- `copyBufferLog`: a log that returns false asks for a disconnect.
abbrev pub log_check : {C : Type 0} → (C → ℕ → Bool × C) → C → ℕ → Option CopyError × C
log_check log c n = let (ok, c') = log c n in (if ok then none else some disconnect, c')
