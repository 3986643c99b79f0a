-- ===== src/Server/Copy/Whole.antt =====
-- What a copy hands over.
use hysteria.Common.{
  ℕ, zero, suc, ◌+◌, ◌^◌, ◌≤◌, ◌<◌, ◌≡◌, ◌⊎◌, inl, inr, refl, sym, ◌∙◌, ap, ap₂, List, [], ◌∷◌,
  ◌++◌, Option, none, some, true, false, ◌==◌, if◌then◌else◌, length, arith, append_assoc,
  append-nil, length-append,
}
use hysteria.Server.Copy.{
  ReadError, eof, CopyError, buf_size, full_reads_after, grows, Outcome, returns, round, pass_on,
  copy_rounds,
}
use native.Mathlib.Nat.{one-le-pow}

-- A reader of a stream whose state is what it has not given out: it gives a chunk that fits, and
-- `io.EOF` at the end, with the last chunk or behind it.
pub record IsReader (read : List ℕ → ℕ → List ℕ × Option ReadError × List ℕ) : Type 0 where
  pub in_order : (r : List ℕ) (n : ℕ) → r ≡ (read r n).0 ++ (read r n).2
  pub fits : (r : List ℕ) (n : ℕ) → length ((read r n).0) ≤ n
  pub progress :
      (r : List ℕ) (n : ℕ)
      → 0 < n
      → (((read r n).1 ≡ none) × (0 < length ((read r n).0)))
        ⊎ (((read r n).1 ≡ some eof) × ((read r n).2 ≡ []))

-- A writer that takes everything.
abbrev pub write_all : List ℕ → List ℕ → ℕ × Option ℕ × List ℕ
write_all w bs = (length bs, none, w ++ bs)

-- A check that counts.
abbrev pub count_all : ℕ → ℕ → Option CopyError × ℕ
count_all c n = (none, c + n)

buf_size_pos : (level : ℕ) → 0 < buf_size level
buf_size_pos level = let p : 1 ≤ 2 ^ level = one-le-pow level 2 (omega arith) in omega arith

module _ (read : List ℕ → ℕ → List ℕ × Option ReadError × List ℕ) where
  pass_on_all :
      (w : List ℕ) (c : ℕ) (chunk : List ℕ)
      → pass_on read write_all count_all w c chunk ≡ (none, w ++ chunk, c + length chunk)
  unfolding pass_on
  pass_on_all w c chunk =
      let self : (length chunk == length chunk) ≡ true = ground arith in rw self refl

  abbrev Go : Type 0
  Go = ℕ → ℕ → List ℕ → List ℕ → ℕ → Outcome × List ℕ × List ℕ × ℕ

  -- The last round.
  last_round :
      (go : Go) (level full : ℕ) (w chunk : List ℕ) (c : ℕ)
      → round read write_all count_all go level full w c (chunk, some eof, [])
        ≡ (returns none, [], w ++ chunk, c + length chunk)
  unfolding round
  last_round go level full w [] c =
      let same_count : c + 0 ≡ c = omega arith in rw (append-nil w, same_count) refl
  last_round go level full w (b ∷ chunk) c =
      let more : (length (b ∷ chunk) == 0) ≡ false = ground arith in
      rw (more, pass_on_all w c (b ∷ chunk)) refl

  -- A round that is not the last.
  next_round :
      (go : Go) (level full : ℕ) (w chunk r : List ℕ) (c : ℕ)
      → 0 < length chunk
      → (level' : ℕ) × (full' : ℕ) × (round read write_all count_all go level full w c
            (chunk, none, r)
          ≡ go level' full' r (w ++ chunk) (c + length chunk))
  unfolding round
  next_round go level full w chunk r c pos =
      let more : (length chunk == 0) ≡ false = ground (arith, pos) in
      let f = full_reads_after level full (length chunk) in
      let g = grows level f in
      (if g then level + 1 else level, if g then 0 else f, rw (more, pass_on_all w c chunk) refl)

  -- Where nothing fails, a copy ends with success, in no more rounds than the stream has bytes and one: the
  -- writer has the whole stream then, and the check has seen its length. The reader cuts the stream as it
  -- likes, but gives a byte at least in each read until it says `io.EOF`, with the last chunk or behind it,
  -- and no other error; the writer takes all that it is given; and the check refuses nothing.
  pub copy_rounds_whole :
      (fuel level full : ℕ) (r w : List ℕ) (c : ℕ)
      → IsReader read
      → length r < fuel
      → copy_rounds read write_all count_all fuel level full r w c
        ≡ (returns none, [], w ++ r, c + length r)
  unfolding copy_rounds
  copy_rounds_whole zero level full r w c is h = absurd (omega arith)
  copy_rounds_whole (suc fuel) level full r w c is h =
      let answer = read r (buf_size level) in
      let chunk = answer.0 in
      let r' = answer.2 in
      let joined : r ≡ chunk ++ r' = is.in_order r (buf_size level) in
      let go : Go = λ l f x y z. copy_rounds read write_all count_all fuel l f x y z in
      let result : List ℕ → ℕ → Outcome × List ℕ × List ℕ × ℕ = λ x n. (returns none, [], x, n) in
      elim (is.progress r (buf_size level) (buf_size_pos level)) [
        | inl (q, pos) ↦
            let (level', full', step) = next_round go level full w chunk r' c pos in
            let rest =
              copy_rounds_whole fuel level' full' r' (w ++ chunk) (c + length chunk) is
                (omega (arith, ap length joined, length-append chunk r')) in
            ap (λ x. round read write_all count_all go level full w c (chunk, x, r')) q
            ∙ step
            ∙ rest
            ∙ ap₂ result (append_assoc w chunk r' ∙ ap (λ x. w ++ x) (sym joined))
                (omega (arith, ap length joined, length-append chunk r'))
        | inr (q, end) ↦
            let all : r ≡ chunk = joined ∙ ap (λ x. chunk ++ x) end ∙ append-nil chunk in
            ap₂ (λ x y. round read write_all count_all go level full w c (chunk, x, y)) q end
            ∙ last_round go level full w chunk c
            ∙ ap (λ x. result (w ++ x) (c + length x)) (sym all)
      ]
