-- ===== src/Protocol/Padding.antt =====
-- core/internal/protocol/padding.go. The random source is an argument: `extra` is the result of
-- `rand.Intn(p.Max - p.Min)`, and `draw i` the one of the call for the i-th character.
use hysteria.Common.{
  ℕ, zero, suc, ◌+◌, ◌-◌, ◌≤◌, ◌<◌, ◌≡◌, arith, List, [], ◌∷◌, length, get_or, All, Bool, ◌||◌,
  ◌&&◌, leb, true, refl, Bool-cases, inl, inr,
}
use Prim.Native.String.{String}
use Prim.Native.Char.{code}

pub record Padding : Type 0 where
  pub min : ℕ
  pub max : ℕ

-- The code points of a text.
abbrev pub codes : String → List ℕ
codes String.[] = []
codes (String.◌∷◌ c s) = code c ∷ codes s

abbrev pub padding_chars : List ℕ
padding_chars = codes "abcdefghijklmnopqrstuvwxyzABCDEFGHIJKLMNOPQRSTUVWXYZ0123456789"

-- The loop over `bs`, from index `i` on, with `n` bytes to go.
fill : (ℕ → ℕ) → ℕ → ℕ → List ℕ
fill draw i zero = []
fill draw i (suc n) = get_or padding_chars (draw i) 0 ∷ fill draw (i + 1) n

unfoldable pub string : Padding → ℕ → (ℕ → ℕ) → List ℕ
unfolding fill
string p extra draw = fill draw 0 (p.min + extra)

abbrev pub auth_request_padding : Padding
auth_request_padding = record { min = 256; max = 2048 }

abbrev pub auth_response_padding : Padding
auth_response_padding = record { min = 256; max = 2048 }

abbrev pub tcp_request_padding : Padding
tcp_request_padding = record { min = 64; max = 512 }

abbrev pub tcp_response_padding : Padding
tcp_response_padding = record { min = 128; max = 1024 }

-- An ASCII letter or digit.
abbrev pub is_alphanumeric : ℕ → Bool
is_alphanumeric c =
    (leb b'a' c && leb c b'z') || (leb b'A' c && leb c b'Z') || (leb b'0' c && leb c b'9')

abbrev pub IsAlphanumeric : ℕ → Type 0
IsAlphanumeric c = is_alphanumeric c ≡ true

get_or-All :
    (cs : List ℕ) (i : ℕ) → All IsAlphanumeric cs → i < length cs → IsAlphanumeric (get_or cs i 0)
get_or-All [] i a h = absurd (omega arith)
get_or-All (c ∷ cs) zero a h = a.0
get_or-All (c ∷ cs) (suc i) a h = get_or-All cs i a.1 (omega arith)

fill-length : (draw : ℕ → ℕ) (i n : ℕ) → length (fill draw i n) ≡ n
unfolding fill
fill-length draw i zero = omega arith
fill-length draw i (suc n) = omega (arith, fill-length draw (i + 1) n)

all_alphanumeric : List ℕ → Bool
all_alphanumeric [] = true
all_alphanumeric (c ∷ cs) = is_alphanumeric c && all_alphanumeric cs

All-of_test : (cs : List ℕ) → all_alphanumeric cs ≡ true → All IsAlphanumeric cs
unfolding all_alphanumeric
All-of_test [] h = tt
All-of_test (c ∷ cs) h = elim (Bool-cases (is_alphanumeric c)) [
  | inl e ↦ (e, All-of_test cs (rw e at h))
  | inr e ↦ absurd (cc (e, h))
]

padding_chars-All : All IsAlphanumeric padding_chars
unfolding all_alphanumeric
padding_chars-All = All-of_test padding_chars refl

fill-All :
    (draw : ℕ → ℕ) (i n : ℕ)
    → ((k : ℕ) → draw k < length padding_chars)
    → All IsAlphanumeric (fill draw i n)
unfolding fill
fill-All draw i zero h = tt
fill-All draw i (suc n) h =
    (get_or-All padding_chars (draw i) padding_chars-All (h i), fill-All draw (i + 1) n h)

-- The length of a padding is in `[Min, Max)`, and it holds ASCII letters and digits only, where the
-- random numbers are below the bounds that they are drawn with.
pub string_shape :
    (p : Padding) (extra : ℕ) (draw : ℕ → ℕ)
    → extra < p.max - p.min
    → ((k : ℕ) → draw k < length padding_chars)
    → (p.min ≤ length (string p extra draw))
      × (length (string p extra draw) < p.max)
      × All IsAlphanumeric (string p extra draw)
unfolding string
string_shape p extra draw h hd = (
  omega (arith, fill-length draw 0 (p.min + extra)),
  omega (arith, fill-length draw 0 (p.min + extra)),
  fill-All draw 0 (p.min + extra) hd,
)
