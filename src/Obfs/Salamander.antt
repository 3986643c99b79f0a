-- ===== src/Obfs/Salamander.antt =====
-- extras/obfs/salamander.go: the packets of Salamander. `hash` is `blake2b.Sum256`, and the salt is what the
-- random source puts into 8 bytes. `none` is a panic.
pub mod RoundTrip
use hysteria.Common.{
  ℕ, ◌+◌, ◌-◌, ◌%◌, bit_xor, List, [], ◌∷◌, ◌++◌, Option, none, some, ltb, leb, ◌==◌, ◌||◌,
  if◌then◌else◌, length, take, drop, get_elem?, replicate,
}
use hysteria.Common.Results.Panics.{◌>>=◌}
use hysteria.Common.Bytes.{poke, write, copy}

abbrev pub sm_psk_min_len : ℕ
sm_psk_min_len = 4

abbrev pub sm_salt_len : ℕ
sm_salt_len = 8

abbrev pub sm_key_len : ℕ
sm_key_len = 32

pub record SalamanderObfuscator : Type 0 where
  pub psk : List ℕ
  pub key_input : List ℕ

-- `none` is `ErrPSKTooShort`.
abbrev pub new_salamander_obfuscator : List ℕ → Option SalamanderObfuscator
new_salamander_obfuscator psk =
    if ltb (length psk) sm_psk_min_len
    then none
    else some (record { psk = psk; key_input = psk ++ replicate sm_salt_len 0 })

-- `c ^ key[i%smKeyLen]` for the bytes from `i` on, at `off` in `out`.
unfoldable pub xor_loop : List ℕ → List ℕ → ℕ → ℕ → List ℕ → Option (List ℕ)
xor_loop key out off i [] = some out
xor_loop key out off i (c ∷ cs) = do
  k ← get_elem? key (i % sm_key_len)
  out ← poke out (i + off) (bit_xor c k)
  xor_loop key out off (i + 1) cs

module _ (hash : List ℕ → List ℕ) where
  -- `keyLocked` on a salt of 8 bytes.
  unfoldable pub key_locked : SalamanderObfuscator → List ℕ → Option (SalamanderObfuscator × List ℕ)
  key_locked o salt = do
    copied ← copy o.key_input (length o.psk) salt
    some (record o { key_input = copied.0 }, hash (copied.0))

  -- The obfuscator, the new `out`, and the length.
  unfoldable pub obfuscate :
      List ℕ → SalamanderObfuscator → List ℕ → List ℕ → Option (SalamanderObfuscator × List ℕ × ℕ)
  unfolding key_locked xor_loop
  obfuscate salt o packet out =
      if ltb (length out) (length packet + sm_salt_len) then some (o, out, 0) else do
        out ← write out 0 salt
        keyed ← key_locked o (take sm_salt_len out)
        out ← xor_loop (keyed.1) out sm_salt_len 0 packet
        some (keyed.0, out, length packet + sm_salt_len)

  unfoldable pub deobfuscate :
      SalamanderObfuscator → List ℕ → List ℕ → Option (SalamanderObfuscator × List ℕ × ℕ)
  unfolding key_locked xor_loop
  deobfuscate o packet out =
      if leb (length packet) sm_salt_len || ltb (length out) (length packet - sm_salt_len)
      then some (o, out, 0)
      else do
        keyed ← key_locked o (take sm_salt_len packet)
        out ← xor_loop (keyed.1) out 0 0 (drop sm_salt_len packet)
        some (keyed.0, out, length packet - sm_salt_len)
