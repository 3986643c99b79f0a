-- ===== src/Protocol/Tcp/Write.antt =====
-- `WriteTCPRequest` and `WriteTCPResponse`: the bytes handed to `w.Write`; `none` is a panic. The
-- padding, a random string, is an argument. Lengths are below 2^62, so that no sum of sizes wraps.
use hysteria.Common.{ℕ, ◌+◌, List, Option, some, Bool, if◌then◌else◌, length, replicate}
use hysteria.Common.Results.Panics.{◌>>=◌}
use hysteria.Common.Bytes.{copy, poke}
use hysteria.Protocol.{frame_type_tcp_request}
use hysteria.Protocol.Varint.{QuicVarint, varint_put}

module _ (qv : QuicVarint) (padding : List ℕ) where
  unfoldable pub write_tcp_request : List ℕ → Option (List ℕ)
  write_tcp_request addr = do
    let padding_len = length padding
    let addr_len = length addr
    let sz =
        qv.len frame_type_tcp_request
        + qv.len addr_len
        + addr_len
        + qv.len padding_len
        + padding_len
    (buf, n) ← varint_put (replicate sz 0) 0 frame_type_tcp_request
    (buf, k) ← varint_put buf n addr_len
    let i = n + k
    (buf, k) ← copy buf i addr
    let i = i + k
    (buf, k) ← varint_put buf i padding_len
    let i = i + k
    (buf, _) ← copy buf i padding
    some buf

  unfoldable pub write_tcp_response : Bool → List ℕ → Option (List ℕ)
  write_tcp_response ok msg = do
    let padding_len = length padding
    let msg_len = length msg
    let sz = 1 + qv.len msg_len + msg_len + qv.len padding_len + padding_len
    buf ← poke (replicate sz 0) 0 (if ok then 0 else 1)
    (buf, i) ← varint_put buf 1 msg_len
    (buf, k) ← copy buf (1 + i) msg
    let i = i + k
    (buf, k) ← varint_put buf (1 + i) padding_len
    let i = i + k
    (buf, _) ← copy buf (1 + i) padding
    some buf
