-- ===== src/Protocol/Varint/Rfc9000.antt =====
-- A concrete decoder, which shows that the laws asked of `quicvarint` can be met.
use hysteria.Common.{
  ℕ, suc, ◌+◌, ◌-◌, ◌*◌, ◌^◌, ◌≤◌, ◌<◌, ◌≡◌, ◌≢◌, refl, ap, List, [], ◌∷◌, arith, Bool, true, false,
  ltb, lt→ltb, if◌then◌else◌, length, drop, Result, ok, err, panic,
}
use hysteria.Common.Results.{◌>>=◌}
use hysteria.Common.Bytes.Readers.{IoError, eof, unexpected_eof}
use hysteria.Protocol.Varint.{QuicVarint, IsRfc9000}

abbrev len : ℕ → ℕ
len i = if ltb i 64 then 1 else if ltb i 16384 then 2 else if ltb i 1073741824 then 4 else 8

two : ℕ → List ℕ → Result IoError (ℕ × ℕ)
two a (b ∷ r) = ok (a * 2 ^ 8 + b, 2)
two a _ = err unexpected_eof

four : ℕ → List ℕ → Result IoError (ℕ × ℕ)
four a (b ∷ c ∷ d ∷ r) = ok (a * 2 ^ 24 + b * 2 ^ 16 + c * 2 ^ 8 + d, 4)
four a _ = err unexpected_eof

eight : ℕ → List ℕ → Result IoError (ℕ × ℕ)
eight a (b ∷ c ∷ d ∷ e ∷ f ∷ g ∷ h ∷ r) = ok (
  a * 2 ^ 56 + b * 2 ^ 48 + c * 2 ^ 40 + d * 2 ^ 32 + (e * 2 ^ 24 + f * 2 ^ 16 + g * 2 ^ 8 + h),
  8,
)
eight a _ = err unexpected_eof

parse : List ℕ → Result IoError (ℕ × ℕ)
unfolding two four eight
parse [] = err eof
parse (b ∷ r) =
    if ltb b 64
    then ok (b, 1)
    else if ltb b 128
    then two (b - 64) r
    else if ltb b 192
    then four (b - 128) r
    else eight (b - 192) r

read : List ℕ → Result IoError (ℕ × List ℕ)
unfolding parse
read bs = do (v, n) ← parse bs; ok (v, drop n bs)

-- A decoder that takes at most `k` bytes of those that follow the first.
abbrev Within : (List ℕ → Result IoError (ℕ × ℕ)) → Type 0
Within f = (r : List ℕ) → (f r ≢ panic) × ((v n : ℕ) → f r ≡ ok (v, n) → n ≤ suc (length r))

two-Within : (a : ℕ) → Within (two a)
unfolding two
two-Within a (b ∷ r) = (λ e. cc, λ v n e. ground arith)
two-Within a _ = (λ e. cc, λ v n e. cc)

four-Within : (a : ℕ) → Within (four a)
unfolding four
four-Within a (b ∷ c ∷ d ∷ r) = (λ e. cc, λ v n e. ground arith)
four-Within a _ = (λ e. cc, λ v n e. cc)

eight-Within : (a : ℕ) → Within (eight a)
unfolding eight
eight-Within a (b ∷ c ∷ d ∷ e ∷ f ∷ g ∷ h ∷ r) = (λ x. cc, λ v n x. ground arith)
eight-Within a _ = (λ e. cc, λ v n e. cc)

Within-if :
    (b : Bool) {f g : List ℕ → Result IoError (ℕ × ℕ)}
    → Within f
    → Within g
    → Within (λ r. if b then f r else g r)
Within-if true hf hg = hf
Within-if false hf hg = hg

parse_rest :
    (b : ℕ) (r : List ℕ)
    → (parse (b ∷ r) ≢ panic) × ((v n : ℕ) → parse (b ∷ r) ≡ ok (v, n) → n ≤ length (b ∷ r))
unfolding parse
parse_rest b r =
    Within-if (ltb b 64) {f = λ r. ok (b, 1)} (λ r. (λ e. cc, λ v n e. ground arith))
      (Within-if (ltb b 128) (two-Within (b - 64))
        (Within-if (ltb b 192) (four-Within (b - 128)) (eight-Within (b - 192))))
      r

parse-Within : (bs : List ℕ) (v n : ℕ) → parse bs ≡ ok (v, n) → n ≤ length bs
parse-Within [] v n e = absurd (unfold parse in cc e)
parse-Within (b ∷ r) v n e = (parse_rest b r).1 v n e

parse-ne-panic : (bs : List ℕ) → parse bs ≢ panic
parse-ne-panic [] e = absurd (unfold parse in cc e)
parse-ne-panic (b ∷ r) e = (parse_rest b r).0 e

-- `read` at a result of `parse`.
abbrev rest_of : List ℕ → Result IoError (ℕ × ℕ) → Result IoError (ℕ × List ℕ)
rest_of bs m = m >>= λ (v, n). ok (v, drop n bs)

rest_of_ok :
    (bs r : List ℕ) (v : ℕ) (m : Result IoError (ℕ × ℕ))
    → rest_of bs m ≡ ok (v, r)
    → (n : ℕ) × (m ≡ ok (v, n)) × (r ≡ drop n bs)
rest_of_ok bs r v (ok (w, n)) e = (n, ground arith, ground arith)
rest_of_ok bs r v (err x) e = absurd (cc e)
rest_of_ok bs r v panic e = absurd (cc e)

rest_of-ne-panic : (bs : List ℕ) (m : Result IoError (ℕ × ℕ)) → m ≢ panic → rest_of bs m ≢ panic
rest_of-ne-panic bs (ok (w, n)) h e = cc
rest_of-ne-panic bs (err x) h e = cc
rest_of-ne-panic bs panic h e = h refl

pub rfc9000 : QuicVarint
rfc9000 = record { len = len; read = read; parse = parse }

parse_1 : (a : ℕ) (r : List ℕ) → a < 64 → parse (a ∷ r) ≡ ok (a, 1)
unfolding parse
parse_1 a r h = rw (lt→ltb _ _ h)

-- The first byte with the two high bits `t`.
high : (a t : ℕ) → 64 * t + a - 64 * t ≡ a
high a t = omega arith

parse_2 : (a b : ℕ) (r : List ℕ) → a < 64 → parse ((64 + a) ∷ b ∷ r) ≡ ok (a * 2 ^ 8 + b, 2)
unfolding parse
parse_2 a b r h = ground (arith, high a 1)

parse_4 :
    (a b c d : ℕ) (r : List ℕ)
    → a < 64
    → parse ((128 + a) ∷ b ∷ c ∷ d ∷ r) ≡ ok (a * 2 ^ 24 + b * 2 ^ 16 + c * 2 ^ 8 + d, 4)
unfolding parse
parse_4 a b c d r l = ground (arith, high a 2)

parse_8 :
    (a b c d e f g h : ℕ) (r : List ℕ)
    → a < 64
    → parse ((192 + a) ∷ b ∷ c ∷ d ∷ e ∷ f ∷ g ∷ h ∷ r)
      ≡ ok (
        a * 2 ^ 56
            + b * 2 ^ 48
            + c * 2 ^ 40
            + d * 2 ^ 32
            + (e * 2 ^ 24 + f * 2 ^ 16 + g * 2 ^ 8 + h),
        8,
      )
unfolding parse
parse_8 a b c d e f g h r l = ground (arith, high a 3)

pub rfc9000-IsRfc9000 : IsRfc9000 rfc9000
unfolding rfc9000
rfc9000-IsRfc9000 = record {
  len_1 = λ i h. ground arith;
  len_2 = λ i l h. ground arith;
  len_4 = λ i l h. ground arith;
  len_8 = λ i l h. ground arith;
  parse_1 = parse_1;
  parse_2 = parse_2;
  parse_4 = parse_4;
  parse_8 = parse_8;
  parse_within = parse-Within;
  parse_total = parse-ne-panic;
  read_parse = λ bs v n e. unfold read in (ap (rest_of bs) e);
  parse_read = λ bs r v e. rest_of_ok bs r v (parse bs) (unfold read in e);
  read_total = λ bs e. rest_of-ne-panic bs (parse bs) (parse-ne-panic bs) (unfold read in e);
}
