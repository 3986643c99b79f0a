-- ===== src/Obfs/Runs.antt =====
-- Runs of extras/obfs on small inputs.
use hysteria.Common.{
  ◌++◌, ℕ, ◌+◌, ◌≤◌, ◌<◌, ◌^◌, ◌≡◌, ◌⊎◌, refl, List, [], ◌∷◌, Option, none, some, take, replicate,
  ok, arith,
}
use hysteria.Obfs.GeckoFrame.{FrameHeader, encode_frame, decode_frame}
use hysteria.Obfs.GeckoFrame.RoundTrip.{InRange, decode_frame-encode_frame}
use hysteria.Obfs.Salamander.{SalamanderObfuscator, obfuscate, deobfuscate}
use hysteria.Obfs.Salamander.RoundTrip.{IsKeyed, deobfuscate-obfuscate}
use hysteria.Obfs.Gecko.{new_gecko_conn}
use hysteria.Obfs.Gecko.Bounded.{Inv}
use hysteria.Obfs.Gecko.History.{Event, chunk_at, expiry_at, run, run-Inv, new_gecko_conn-Inv}
use hysteria.Obfs.Gecko.Cutting.{random_pad_len, random_pad_len-bounds}
use hysteria.Obfs.Gecko.Reassemble.{accept_all, accept_all-chunks}

abbrev zeros : ℕ → Option (List ℕ)
zeros n = some (replicate n 0)

-- The second of three chunks, with two bytes of padding.
abbrev second_of_three : FrameHeader
second_of_three = record { pad_len = 2; msg_id = 9; chunk_idx = 1; total_chunks = 3 }

second_of_three-InRange : InRange second_of_three
second_of_three-InRange = record {
  two = omega arith;
  eight = omega arith;
  below = omega arith;
  pad = omega arith;
}

decode_frame-encode_frame_example :
    (buf : List ℕ) × (encode_frame zeros second_of_three (7 ∷ []) (replicate 10 1) ≡ ok (buf, 8))
    × (decode_frame (take 8 buf) ≡ ok (second_of_three, 7 ∷ []))
decode_frame-encode_frame_example =
    decode_frame-encode_frame zeros second_of_three (0 ∷ 0 ∷ []) (7 ∷ []) (replicate 10 1)
      second_of_three-InRange refl refl (omega arith)

abbrev some_events : List Event
some_events =
    chunk_at 100 1 second_of_three second_of_three-InRange (7 ∷ [])
    ∷ chunk_at 200 2 second_of_three second_of_three-InRange (8 ∷ [])
    ∷ expiry_at (10 ^ 11)
    ∷ []

run-Inv_example : Inv (run new_gecko_conn some_events)
run-Inv_example = run-Inv new_gecko_conn some_events new_gecko_conn-Inv

abbrev packet : List ℕ
packet = 1 ∷ 2 ∷ 3 ∷ 4 ∷ 5 ∷ 6 ∷ 7 ∷ []

-- Three chunks of seven bytes arrive as 2, 0, 1, and expired entries are collected behind each.
abbrev collected : ℕ → List ℕ
collected i = (200 + i) ∷ []

accept_all-chunks_example :
    (accept_all 1 9 3 packet (λ i. 100 + i) (λ i. i) collected new_gecko_conn (2 ∷ 0 ∷ 1 ∷ [])).1
    ≡ none ∷ none ∷ some packet ∷ []
accept_all-chunks_example =
    accept_all-chunks 1 9 3 packet (λ i. 100 + i) (λ i. i) collected new_gecko_conn (2 ∷ 0 ∷ 1 ∷ [])
      refl (omega arith) (omega arith) (ground arith) (omega arith)

random_pad_len-bounds_run :
    ((13 + 300 ≤ 1200)
      × (512 ≤ 13 + 300 + random_pad_len 77777 512 1200 300)
      × (13 + 300 + random_pad_len 77777 512 1200 300 ≤ 1200))
    ⊎ ((1200 < 13 + 300) × (random_pad_len 77777 512 1200 300 ≡ 0))
random_pad_len-bounds_run = random_pad_len-bounds 77777 512 1200 300 (omega arith) (omega arith)

-- A hash that is 32 copies of the last byte.
abbrev last_byte : List ℕ → ℕ
last_byte [] = 0
last_byte (b ∷ []) = b
last_byte (b ∷ c ∷ bs) = last_byte (c ∷ bs)

abbrev toy_hash : List ℕ → List ℕ
toy_hash bs = replicate 32 (last_byte bs)

abbrev obfuscator : SalamanderObfuscator
obfuscator = record { psk = 1 ∷ 2 ∷ 3 ∷ 4 ∷ []; key_input = (1 ∷ 2 ∷ 3 ∷ 4 ∷ []) ++ replicate 8 0 }

obfuscator-IsKeyed : IsKeyed obfuscator
obfuscator-IsKeyed = (replicate 8 0, refl, refl)

abbrev salt : List ℕ
salt = replicate 8 77

deobfuscate-obfuscate_example :
    (o1 : SalamanderObfuscator) × (buf : List ℕ) × (obfuscate toy_hash salt obfuscator packet
        (replicate 20 0)
      ≡ some (o1, buf, 15))
    × IsKeyed o1
    × ((o2 : SalamanderObfuscator) × (buf' : List ℕ) × (deobfuscate toy_hash obfuscator
            (take 15 buf)
            (replicate 9 0)
          ≡ some (o2, buf', 7))
        × IsKeyed o2
        × (take 7 buf' ≡ packet))
deobfuscate-obfuscate_example =
    deobfuscate-obfuscate toy_hash obfuscator obfuscator salt packet (replicate 20 0)
      (replicate 9 0) (λ bs. refl) obfuscator-IsKeyed obfuscator-IsKeyed refl refl (omega arith)
      (omega arith) (omega arith)
