-- ===== src/Obfs/Salamander/RoundTrip.antt =====
-- `Deobfuscate` undoes `Obfuscate`.
use hysteria.Common.{
  ℕ, suc, ◌+◌, ◌-◌, ◌%◌, ◌≤◌, ◌<◌, ◌≡◌, refl, sym, ◌∙◌, ap, ap₂, subst, bit_xor, List, [], ◌∷◌,
  ◌++◌, some, false, ltb, leb, ◌||◌, length, take, drop, get_elem?, get_or, arith, append_assoc,
  append-nil, length-append, take-append_self, drop-append_self, drop_all, length-drop,
  get_elem?-eq-get_or,
}
use hysteria.Common.Xor.{bit_xor-twice}
use hysteria.Common.Bytes.{poke, write, copy}
use hysteria.Common.Bytes.Writes.{copy-append, poke-append, write-append}
use hysteria.Obfs.Salamander.{SalamanderObfuscator, xor_loop, key_locked, obfuscate, deobfuscate}

-- Bytes from `i` on, each with its byte of the key.
abbrev pub xored : List ℕ → ℕ → List ℕ → List ℕ
xored key i [] = []
xored key i (c ∷ cs) = bit_xor c (get_or key (i % 32) 0) ∷ xored key (i + 1) cs

xored-twice : (key : List ℕ) (i : ℕ) (cs : List ℕ) → xored key i (xored key i cs) ≡ cs
xored-twice key i [] = refl
xored-twice key i (c ∷ cs) =
    ap₂ (◌∷◌) (bit_xor-twice c (get_or key (i % 32) 0)) (xored-twice key (i + 1) cs)

length-xored : (key : List ℕ) (i : ℕ) (cs : List ℕ) → length (xored key i cs) ≡ length cs
length-xored key i [] = refl
length-xored key i (c ∷ cs) = ap suc (length-xored key (i + 1) cs)

-- The loop writes them behind what is there.
xor_loop-append :
    (key front todo : List ℕ) (off i : ℕ) (cs : List ℕ)
    → length key ≡ 32
    → i + off ≡ length front
    → length cs ≤ length todo
    → xor_loop key (front ++ todo) off i cs
      ≡ some ((front ++ xored key i cs) ++ drop (length cs) todo)
unfolding xor_loop
xor_loop-append key front todo off i [] l e h =
    ap some (ap (λ x. x ++ todo) (sym (append-nil front)))
xor_loop-append key front [] off i (c ∷ cs) l e h = absurd (omega arith)
xor_loop-append key front (x ∷ todo) off i (c ∷ cs) l e h =
    let v = bit_xor c (get_or key (i % 32) 0) in
    let at : get_elem? key (i % 32) ≡ some (get_or key (i % 32) 0) =
      get_elem?-eq-get_or key (i % 32) 0 (omega (arith, l)) in
    let put : poke (front ++ (x ∷ todo)) (i + off) v ≡ some ((front ++ (v ∷ [])) ++ todo) =
      poke-append front todo (i + off) v x e ∙ ap some (sym (append_assoc front (v ∷ []) todo)) in
    let rest =
      xor_loop-append key (front ++ (v ∷ [])) todo off (i + 1) cs l
        (omega (arith, length-append front (v ∷ []))) (omega arith) in
    rw (at, put)
      (rest
        ∙ ap (λ y. some (y ++ drop (length cs) todo))
            (append_assoc front (v ∷ []) (xored key (i + 1) cs)))

-- The key's input with a salt in it.
abbrev pub IsKeyed : SalamanderObfuscator → Type 0
IsKeyed o = (rest : List ℕ) × (o.key_input ≡ o.psk ++ rest) × (length rest ≡ 8)

key_locked_lem :
    (hash : List ℕ → List ℕ) (o : SalamanderObfuscator) (salt : List ℕ)
    → IsKeyed o
    → length salt ≡ 8
    → key_locked hash o salt ≡ some (record o { key_input = o.psk ++ salt }, hash (o.psk ++ salt))
unfolding key_locked
key_locked_lem hash o salt (rest, e, l) h =
    let copied : copy o.key_input (length o.psk) salt
        ≡ some ((o.psk ++ salt) ++ drop (length salt) rest, length salt) =
      ap (λ x. copy x (length o.psk) salt) e
      ∙ copy-append o.psk rest salt (length o.psk) refl (omega (arith, l, h)) in
    let nothing : (o.psk ++ salt) ++ drop (length salt) rest ≡ o.psk ++ salt =
      ap (λ x. (o.psk ++ salt) ++ x) (drop_all (length salt) rest (omega (arith, l, h)))
      ∙ append-nil (o.psk ++ salt) in
    rw (copied, nothing) refl

-- What `Deobfuscate` makes of a salt and what follows it.
deobfuscate_lem :
    (hash : List ℕ → List ℕ) (o : SalamanderObfuscator) (salt cipher out : List ℕ)
    → ((bs : List ℕ) → length (hash bs) ≡ 32)
    → IsKeyed o
    → length salt ≡ 8
    → 0 < length cipher
    → length cipher ≤ length out
    → deobfuscate hash o (salt ++ cipher) out
      ≡ some (
        record o { key_input = o.psk ++ salt },
        xored (hash (o.psk ++ salt)) 0 cipher ++ drop (length cipher) out,
        length cipher,
      )
unfolding deobfuscate
deobfuscate_lem hash o salt cipher out size keyed h pos room =
    let total : length (salt ++ cipher) ≡ length cipher + 8 =
      omega (arith, h, length-append salt cipher) in
    let fits : (leb (length (salt ++ cipher)) 8 || ltb (length out) (length (salt ++ cipher) - 8))
        ≡ false =
      ground (arith, total, pos, room) in
    let count : length (salt ++ cipher) - 8 ≡ length cipher = omega (arith, total) in
    let front : take 8 (salt ++ cipher) ≡ salt =
      subst (λ n. take n (salt ++ cipher) ≡ salt) h (take-append_self salt cipher) in
    let behind : drop 8 (salt ++ cipher) ≡ cipher =
      subst (λ n. drop n (salt ++ cipher) ≡ cipher) h (drop-append_self salt cipher) in
    let made =
      xor_loop-append (hash (o.psk ++ salt)) [] out 0 0 cipher (size (o.psk ++ salt)) (omega arith)
        room in
    rw (fits, front, key_locked_lem hash o salt keyed h, behind, made, count) refl

-- Two obfuscators of one key: what `Obfuscate` writes, with any salt, `Deobfuscate` turns back into the
-- packet, in any buffers with room. Both are as ready for the next packet as before. The hash has 32
-- bytes, the salt 8, and the packet is not empty.
pub deobfuscate-obfuscate :
    (hash : List ℕ → List ℕ) (o o' : SalamanderObfuscator) (salt packet out out' : List ℕ)
    → ((bs : List ℕ) → length (hash bs) ≡ 32)
    → IsKeyed o
    → IsKeyed o'
    → o.psk ≡ o'.psk
    → length salt ≡ 8
    → 0 < length packet
    → length packet + 8 ≤ length out
    → length packet ≤ length out'
    → (o1 : SalamanderObfuscator) × (buf : List ℕ) × (obfuscate hash salt o packet out
        ≡ some (o1, buf, length packet + 8))
      × IsKeyed o1
      × ((o2 : SalamanderObfuscator) × (buf' : List ℕ) × (deobfuscate hash o'
              (take (length packet + 8) buf)
              out'
            ≡ some (o2, buf', length packet))
          × IsKeyed o2
          × (take (length packet) buf' ≡ packet))
unfolding obfuscate deobfuscate
deobfuscate-obfuscate hash o o' salt packet out out' size keyed keyed' same_psk h pos room room' =
    let key = hash (o.psk ++ salt) in
    let wire = salt ++ xored key 0 packet in
    let cipher = xored key 0 packet in
    let fits : ltb (length out) (length packet + 8) ≡ false = ground (arith, room) in
    let salted : write out 0 salt ≡ some (salt ++ drop 8 out) =
      write-append [] out salt 0 refl (omega (arith, h, room))
      ∙ ap (λ n. some (salt ++ drop n out)) h in
    let salt_of : take 8 (salt ++ drop 8 out) ≡ salt =
      subst (λ n. take n (salt ++ drop 8 out) ≡ salt) h (take-append_self salt (drop 8 out)) in
    let made =
      xor_loop-append key salt (drop 8 out) 8 0 packet (size (o.psk ++ salt)) (sym h)
        (omega (arith, room, length-drop 8 out)) in
    let buf = wire ++ drop (length packet) (drop 8 out) in
    let wire_size : length wire ≡ length packet + 8 =
      omega (arith, h, length-append salt cipher, length-xored key 0 packet) in
    let sent : take (length packet + 8) buf ≡ wire =
      subst (λ n. take n buf ≡ wire) wire_size
        (take-append_self wire (drop (length packet) (drop 8 out))) in
    let count : length cipher ≡ length packet = length-xored key 0 packet in
    let received =
      deobfuscate_lem hash o' salt cipher out' size keyed' h (omega (arith, count, pos))
        (omega (arith, count, room')) in
    let same_key : hash (o'.psk ++ salt) ≡ key = ap (λ k. hash (k ++ salt)) (sym same_psk) in
    let plain : xored key 0 cipher ≡ packet = xored-twice key 0 packet in
    let back : deobfuscate hash o' (take (length packet + 8) buf) out'
        ≡ some (
          record o' { key_input = o'.psk ++ salt },
          packet ++ drop (length packet) out',
          length packet,
        ) =
      ap (λ w. deobfuscate hash o' w out') sent ∙ received ∙ rw (same_key, plain, count) refl in
    (
      record o { key_input = o.psk ++ salt },
      buf,
      rw (fits, salted, salt_of, key_locked_lem hash o salt keyed h, made) refl,
      (salt, refl, h),
      (
        record o' { key_input = o'.psk ++ salt },
        packet ++ drop (length packet) out',
        back,
        (salt, refl, h),
        take-append_self packet (drop (length packet) out'),
      ),
    )
