-- ===== src/Server/Copy/Checked.antt =====
-- A copy writes nothing that its check has not let pass.
use hysteria.Common.{
  ℕ, zero, suc, ◌+◌, ◌≤◌, ◌≡◌, inl, inr, ap, List, ◌++◌, Option, none, some, ◌==◌, if◌then◌else◌,
  length, take, arith, length-append, length-take, Bool-cases,
}
use hysteria.Server.Copy.{
  ReadError, CopyError, full_reads_after, grows, buf_size, Outcome, after_read, after_pass,
  after_write, after_check, pass_on, round, copy_rounds,
}

-- A writer that appends some of what it is given, all of it or a part, with an error or without.
abbrev pub IsWriter : (List ℕ → List ℕ → ℕ × Option ℕ × List ℕ) → Type 0
IsWriter write = (w bs : List ℕ) → (k : ℕ) × ((write w bs).2 ≡ w ++ take k bs)

-- Any check, with the number of bytes that it has let pass.
abbrev pub count_passed : {C : Type 0} → ℕ → ℕ → Option CopyError × C → Option CopyError × (C × ℕ)
count_passed passed n (none, c) = (none, (c, passed + n))
count_passed passed n (some x, c) = (some x, (c, passed))

abbrev pub counted :
    {C : Type 0} → (C → ℕ → Option CopyError × C) → C × ℕ → ℕ → Option CopyError × (C × ℕ)
counted check (c, passed) n = count_passed passed n (check c n)

module _ {R C : Type 0} (read : R → ℕ → List ℕ × Option ReadError × R)
    (write : List ℕ → List ℕ → ℕ × Option ℕ × List ℕ) (is : IsWriter write)
    (check : C → ℕ → Option CopyError × C) where
  -- No more bytes are written than were let pass.
  abbrev pub Bounded : List ℕ → C × ℕ → Type 0
  Bounded w c = length w ≤ c.1

  after_write-Bounded :
      (n : ℕ) (c : C × ℕ) (answer : ℕ × Option ℕ × List ℕ)
      → Bounded (answer.2) c
      → Bounded
          ((after_write read write (counted check) n c answer).1)
          ((after_write read write (counted check) n c answer).2)
  after_write-Bounded n c (nw, some e, w) h = h
  after_write-Bounded n c (nw, none, w) h = elim (Bool-cases (nw == n)) [
    | inl q ↦ rw q h
    | inr q ↦ rw q h
  ]

  after_check-Bounded :
      (w chunk : List ℕ) (passed : ℕ) (answer : Option CopyError × C)
      → length w ≤ passed
      → let o =
          after_check read write
            (counted check)
            w
            chunk
            (count_passed passed (length chunk) answer) in
        Bounded (o.1) (o.2)
  after_check-Bounded w chunk passed (some e, c) h = h
  after_check-Bounded w chunk passed (none, c) h =
      let (k, e) = is w chunk in
      after_write-Bounded (length chunk) (c, passed + length chunk) (write w chunk)
        (omega (arith, ap length e, length-append w (take k chunk), length-take k chunk))

  abbrev Result' : Type 0
  Result' = Outcome × R × List ℕ × (C × ℕ)

  abbrev Fine : Result' → Type 0
  Fine (o, r, w, c) = Bounded w c

  after_read-Fine :
      (er : Option ReadError) (r : R) (w : List ℕ) (c : C × ℕ) (rest : Result')
      → Bounded w c
      → Fine rest
      → Fine (after_read read write (counted check) er r w c rest)
  after_read-Fine none r w c rest h k = k
  after_read-Fine (some x) r w c rest h k = h

  after_pass-Fine :
      (er : Option ReadError) (r : R) (passed : Option CopyError × List ℕ × (C × ℕ))
      (rest : Result')
      → Bounded (passed.1) (passed.2)
      → Fine rest
      → Fine (after_pass read write (counted check) er r passed rest)
  after_pass-Fine er r (some e, w, c) rest h k = h
  after_pass-Fine er r (none, w, c) rest h k = after_read-Fine er r w c rest h k

  round-Fine :
      (go : ℕ → ℕ → R → List ℕ → C × ℕ → Result')
      → ((l f : ℕ) (r : R) (w : List ℕ) (c : C × ℕ) → Bounded w c → Fine (go l f r w c))
      → (level full : ℕ) (w : List ℕ) (c : C) (passed : ℕ) (answer : List ℕ × Option ReadError × R)
      → length w ≤ passed
      → Fine (round read write (counted check) go level full w (c, passed) answer)
  unfolding round pass_on
  round-Fine go ih level full w c passed (chunk, er, r) h =
      let o = pass_on read write (counted check) w (c, passed) chunk in
      let b = after_check-Bounded w chunk passed (check c (length chunk)) h in
      let f = full_reads_after level full (length chunk) in
      let g = grows level f in
      elim (Bool-cases (length chunk == 0)) [
        | inl q ↦ rw q (
            after_read-Fine er r w (c, passed) (go level full r w (c, passed)) h
              (ih level full r w (c, passed) h))
        | inr q ↦
            let l' = if g then level + 1 else level in
            let f' = if g then 0 else f in
            rw q (after_pass-Fine er r o (go l' f' r (o.1) (o.2)) b (ih l' f' r (o.1) (o.2) b))
      ]

  -- A copy never writes more than its check has let pass, whatever the reader gives, however much the
  -- writer takes, with errors or without, and however many rounds it makes: a chunk is checked first.
  pub copy_rounds_checked :
      (fuel level full : ℕ) (r : R) (w : List ℕ) (c : C) (passed : ℕ)
      → length w ≤ passed
      → length ((copy_rounds read write (counted check) fuel level full r w (c, passed)).2)
        ≤ (copy_rounds read write (counted check) fuel level full r w (c, passed)).3.1
  unfolding copy_rounds round
  copy_rounds_checked fuel level full r w c passed h = rounds fuel level full r w (c, passed) h
    where
      rounds :
          (fuel level full : ℕ) (r : R) (w : List ℕ) (c : C × ℕ)
          → Bounded w c
          → Fine (copy_rounds read write (counted check) fuel level full r w c)
      rounds zero level full r w c h = h
      rounds (suc fuel) level full r w (c, passed) h =
          round-Fine (λ l f r' w' c'. copy_rounds read write (counted check) fuel l f r' w' c')
            (λ l f r' w' c' h'. rounds fuel l f r' w' c' h') level full w c passed
            (read r (buf_size level)) h
