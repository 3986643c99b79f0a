-- ===== src/Protocol/Tcp/Inversion.antt =====
-- The readers on any input, well formed or not.
use hysteria.Common.{
  ℕ, ◌+◌, ◌≤◌, ◌<◌, ◌≡◌, refl, sym, subst, ap₂, ◌∙◌, append_assoc, take, drop, take-append-drop, ok,
  ◌++◌, List, [], ◌∷◌, Bool, arith, ap, length, length-append, length-drop, get_elem?, map_err,
  or_panic, ltb, ◌==◌, ◌||◌,
}
use hysteria.Common.Results.Ensures.{
  Ensures, returns, fails, Ensures-intro, Ensures-if, Ensures-map_err, Ensures-bind, weaken,
}
use hysteria.Common.Bytes.Readers.{read_full, discard, read_full_ok, discard_ok}
use hysteria.Protocol.{Error, io, max_address_length, max_message_length, max_padding_length}
use hysteria.Protocol.Varint.{QuicVarint, IsRfc9000}
use hysteria.Protocol.Tcp.Read.{read_padding, read_tcp_request, read_message, read_tcp_response}

-- What a read of `n` bytes from `r` returns.
abbrev Took : ℕ → List ℕ → List ℕ × List ℕ → Type 0
Took n r (xs, ys) = (length xs ≡ n) × (length xs + length ys ≡ length r) × (xs ++ ys ≡ r)

-- What is left of an input, behind something that was read.
abbrev pub IsRest : List ℕ → List ℕ → Type 0
IsRest r rest = (front : List ℕ) × (r ≡ front ++ rest)

IsRest-drop : (n : ℕ) (r : List ℕ) → IsRest r (drop n r)
IsRest-drop n r = (take n r, sym (take-append-drop n r))

IsRest-trans : (r s t : List ℕ) → IsRest r s → IsRest s t → IsRest r t
IsRest-trans r s t (x, e) (y, f) = (x ++ y, e ∙ ap (λ l. x ++ l) f ∙ sym (append_assoc x y t))

read_full-Ensures : (n : ℕ) (r : List ℕ) → Ensures (Took n r) (map_err io (read_full n r))
unfolding read_full
read_full-Ensures n r = Ensures-map_err io (
    Ensures-intro (read_full n r) (λ e. ground arith)
      λ (xs, ys) e.
        let (l, q) = read_full_ok n r xs ys e in
        (l, omega (arith, ap length q, length-append xs ys), q))

discard-Ensures :
    (n : ℕ) (r : List ℕ)
    → Ensures (λ ys. (length ys ≤ length r) × IsRest r ys) (map_err io (discard n r))
unfolding discard
discard-Ensures n r = Ensures-map_err io (
    Ensures-intro (discard n r) (λ e. ground arith)
      λ ys e.
        let (l, q) = discard_ok n r ys e in
        (omega (arith, l), subst (IsRest r) (sym q) (IsRest-drop n r)))

-- An address with what is left: the address stands in the input behind its length.
abbrev pub IsTaken : QuicVarint → List ℕ → List ℕ × List ℕ → Type 0
IsTaken qv r (addr, rest) =
    (0 < length addr)
    × (length addr ≤ max_address_length)
    × (length addr + length rest ≤ length r)
    × ((front : List ℕ) × (padding : List ℕ) × (r ≡ front ++ (addr ++ (padding ++ rest)))
        × (qv.read r ≡ ok (length addr, addr ++ (padding ++ rest))))

module _ {qv : QuicVarint} (rfc : IsRfc9000 qv) where
  read-Ensures :
      (r : List ℕ)
      → Ensures
          (λ (p : ℕ × List ℕ). (qv.read r ≡ ok p) × (length p.1 ≤ length r) × IsRest r p.1)
          (map_err io (qv.read r))
  read-Ensures r = Ensures-map_err io (
      Ensures-intro (qv.read r) (rfc.read_total r) λ (v, rest) e.
        let (n, p, q) = rfc.parse_read r rest v e in
        (
          e,
          omega (arith, ap length q, length-drop n r),
          subst (IsRest r) (sym q) (IsRest-drop n r),
        ))

  read_padding-Ensures :
      (r : List ℕ) → Ensures (λ rest. (length rest ≤ length r) × IsRest r rest) (read_padding qv r)
  unfolding read_padding
  read_padding-Ensures r = Ensures-bind _ (read-Ensures r) λ (n, r') (e, h, f).
      Ensures-if (ltb max_padding_length n) (λ _. fails _)
        λ _.
          Ensures-if (ltb 0 n)
            (λ _.
              weaken (discard-Ensures n r') (λ ys (k, g). (omega arith, IsRest-trans r r' ys f g)))
            (λ _. returns r' (h, f))

  -- On any input `ReadTCPRequest` returns an error or an address of 1 to 2048 bytes, and never panics: the
  -- input starts with the length of the address, the address stands right behind it, and what is left is
  -- the end of the input behind that.
  pub read_tcp_request-Ensures : (r : List ℕ) → Ensures (IsTaken qv r) (read_tcp_request qv r)
  unfolding read_tcp_request
  read_tcp_request-Ensures r = Ensures-bind _ (read-Ensures r) λ (n, r') (e, h, (front, f)).
      Ensures-if (n == 0 || ltb max_address_length n) (λ _. fails _)
        λ b. Ensures-bind _ (read_full-Ensures n r') λ (addr, r'') (size, k, whole).
          Ensures-bind _ (read_padding-Ensures r'') λ rest (l, (padding, g)).
            let behind : r' ≡ addr ++ (padding ++ rest) = sym whole ∙ ap (λ t. addr ++ t) g in
            returns _ (
              ground arith,
              ground arith,
              omega arith,
              (
                front,
                padding,
                f ∙ ap (λ t. front ++ t) behind,
                e ∙ ap₂ (λ x t. ok (x, t)) (sym size) behind,
              ),
            )

  read_message-Ensures : (n : ℕ) (r : List ℕ) → Ensures (Took n r) (read_message qv n r)
  unfolding read_message
  read_message-Ensures n r =
      Ensures-if (ltb 0 n) (λ _. read_full-Ensures n r)
        (λ b. returns ([], r) (ground arith, omega arith, refl))

  -- On any input `ReadTCPResponse` returns an error, or a message of at most 2048 bytes, which are
  -- taken from the input behind the status byte: it never panics.
  pub read_tcp_response-Ensures :
      (r : List ℕ)
      → Ensures
          (λ (p : Bool × List ℕ × List ℕ).
            (length p.1 ≤ max_message_length) × (1 + length p.1 + length p.2 ≤ length r))
          (read_tcp_response qv r)
  unfolding read_tcp_response
  read_tcp_response-Ensures r = Ensures-bind _ (read_full-Ensures 1 r) λ (status, r₁) (s, t, _).
      Ensures-bind _ (read-Ensures r₁) λ (n, r₂) (e, h, _).
        Ensures-if (ltb max_message_length n) (λ _. fails _)
          λ b. Ensures-bind _ (read_message-Ensures n r₂) λ (msg, r₃) (k, k', _).
            Ensures-bind _ (read_padding-Ensures r₃) λ rest (l, _).
              Ensures-bind _ (first status s) λ c _. returns _ (ground arith, omega arith)
    where
      first :
          (xs : List ℕ)
          → length xs ≡ 1
          → Ensures (λ c. Unit {0}) (or_panic {E = Error} (get_elem? xs 0))
      first [] e = absurd (omega arith)
      first (x ∷ xs) e = returns x tt
