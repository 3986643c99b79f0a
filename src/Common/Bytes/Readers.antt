-- ===== src/Common/Bytes/Readers.antt =====
-- `io.Reader` over a finite input: what `io.ReadFull` and `io.CopyN(io.Discard, …)` do.
use hysteria.Common.Lists.{
  length, length-append, length-take, length-drop, take, drop, take-append_self, drop-append_self,
  take-append-drop,
}
use hysteria.Common.Tests.{leb, ◌==◌, if◌then◌else◌}
use hysteria.Common.Results.{Result, ok, err}
use Prim.Native.Nat.{ℕ, ◌+◌}
use mathlib.Core.Path.{◌≡◌}
use mathlib.Core.List.{List, ◌++◌}
use native.Mathlib.Omega.{arith}

pub data IoError : Type 0 where
  eof unexpected_eof : IoError

-- `io.ReadFull(r, buf)` with `len(buf) = n`: the bytes, and what the reader still holds.
unfoldable pub read_full : ℕ → List ℕ → Result IoError (List ℕ × List ℕ)
read_full n r =
    if leb n (length r)
    then ok (take n r, drop n r)
    else if length r == 0
    then err eof
    else err unexpected_eof

-- `io.CopyN(io.Discard, r, n)`
unfoldable pub discard : ℕ → List ℕ → Result IoError (List ℕ)
discard n r = if leb n (length r) then ok (drop n r) else err eof

pub read_full-append :
    (n : ℕ) (xs ys : List ℕ) → n ≡ length xs → read_full n (xs ++ ys) ≡ ok (xs, ys)
unfolding read_full
read_full-append n xs ys e =
    ground (arith, length-append xs ys, take-append_self xs ys, drop-append_self xs ys)

pub discard-append : (n : ℕ) (xs ys : List ℕ) → n ≡ length xs → discard n (xs ++ ys) ≡ ok ys
unfolding discard
discard-append n xs ys e = ground (arith, length-append xs ys, drop-append_self xs ys)

-- What a successful `io.ReadFull` returns is the front of the input.
pub read_full_ok :
    (n : ℕ) (r xs ys : List ℕ) → read_full n r ≡ ok (xs, ys) → (length xs ≡ n) × (xs ++ ys ≡ r)
unfolding read_full
read_full_ok n r xs ys e = ground (arith, length-take n r, take-append-drop n r)

pub discard_ok :
    (n : ℕ) (r ys : List ℕ) → discard n r ≡ ok ys → (length r ≡ n + length ys) × (ys ≡ drop n r)
unfolding discard
discard_ok n r ys e = ground (arith, length-drop n r)
