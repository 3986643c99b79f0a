-- ===== src/Protocol/Tcp/Read.antt =====
-- `ReadTCPRequest` and `ReadTCPResponse`. A reader is the list of bytes that it will still
-- deliver; a function returns what the reader still holds beside its own results.
use hysteria.Common.{
  ℕ, List, Bool, ltb, ◌==◌, ◌||◌, if◌then◌else◌, get_elem?, map_err, or_panic, Result, ok, err, [],
}
use hysteria.Common.Results.{◌>>=◌}
use hysteria.Common.Bytes.Readers.{read_full, discard}
use hysteria.Protocol.{
  Error, io, protocol_error, invalid_address_length, invalid_message_length, invalid_padding_length,
  max_address_length, max_message_length, max_padding_length,
}
use hysteria.Protocol.Varint.{QuicVarint}

module _ (qv : QuicVarint) where
  -- The padding length and the padding, which both functions read last and throw away.
  unfoldable pub read_padding : List ℕ → Result Error (List ℕ)
  read_padding r = do
    (padding_len, r) ← map_err io (qv.read r)
    if ltb max_padding_length padding_len
        then err (protocol_error invalid_padding_length)
        else if ltb 0 padding_len
        then map_err io (discard padding_len r)
        else ok r

  -- The address.
  unfoldable pub read_tcp_request : List ℕ → Result Error (List ℕ × List ℕ)
  read_tcp_request r = do
    (addr_len, r) ← map_err io (qv.read r)
    if addr_len == 0 || ltb max_address_length addr_len
        then err (protocol_error invalid_address_length)
        else do (addr, r) ← map_err io (read_full addr_len r); r ← read_padding r; ok (addr, r)

  -- `msgBuf`, which stays empty where the length is 0.
  unfoldable pub read_message : ℕ → List ℕ → Result Error (List ℕ × List ℕ)
  read_message msg_len r = if ltb 0 msg_len then map_err io (read_full msg_len r) else ok ([], r)

  -- Whether the status is 0, and the message.
  unfoldable pub read_tcp_response : List ℕ → Result Error (Bool × List ℕ × List ℕ)
  unfolding read_message
  read_tcp_response r = do
    (status, r) ← map_err io (read_full 1 r)
    (msg_len, r) ← map_err io (qv.read r)
    if ltb max_message_length msg_len then err (protocol_error invalid_message_length) else do
      (msg, r) ← read_message msg_len r
      r ← read_padding r
      s ← or_panic (get_elem? status 0)
      ok (s == 0, msg, r)
