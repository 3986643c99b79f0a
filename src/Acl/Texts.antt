-- ===== src/Acl/Texts.antt =====
-- What extras/outbounds/acl uses of Go's `strings` package, on lists of bytes.
use hysteria.Common.{
  ℕ, ◌+◌, ◌-◌, ◌*◌, ◌≡◌, refl, ap, List, [], ◌∷◌, Bool, true, false, ◌&&◌, ltb, leb, ◌==◌,
  if◌then◌else◌, length, drop,
}
use Prim.Native.Char.{code}
use Prim.Native.String.{String}
use hysteria.Common.Bytes.{same, same_iff}

-- The bytes of an ASCII text.
abbrev pub codes : String → List ℕ
codes String.[] = []
codes (String.◌∷◌ c s) = code c ∷ codes s

-- Whether a text is in the list.
unfoldable pub has : List (List ℕ) → List ℕ → Bool
unfolding same
has [] s = false
has (t ∷ ts) s = if same s t then true else has ts s

-- `strings.HasPrefix(s, prefix)`
unfoldable pub has_prefix : List ℕ → List ℕ → Bool
has_prefix s [] = true
has_prefix [] (p ∷ ps) = false
has_prefix (c ∷ s) (p ∷ ps) = if c == p then has_prefix s ps else false

-- `strings.HasSuffix(s, suffix)`
unfoldable pub has_suffix : List ℕ → List ℕ → Bool
unfolding same
has_suffix s suffix =
    leb (length suffix) (length s) && same (drop (length s - length suffix) s) suffix

-- `strings.Contains(s, substr)`
unfoldable pub contains : List ℕ → List ℕ → Bool
unfolding has_prefix
contains [] substr = has_prefix [] substr
contains (c ∷ s) substr = if has_prefix (c ∷ s) substr then true else contains s substr

-- `strings.TrimRight(s, ".")`
unfoldable pub trim_dots : List ℕ → List ℕ
trim_dots [] = []
trim_dots (c ∷ s) = trim_front c (trim_dots s)
  where
    trim_front : ℕ → List ℕ → List ℕ
    trim_front c [] = if c == b'.' then [] else c ∷ []
    trim_front c (d ∷ r) = c ∷ d ∷ r

pub same-length : (s t : List ℕ) → same s t ≡ true → length s ≡ length t
same-length s t h = ap length ((same_iff s t).0 h)

-- `[]rune(s)`, with U+FFFD for each byte that starts no valid sequence.
abbrev pub is_tail : ℕ → Bool
is_tail b = leb 0x80 b && leb b 0xbf

abbrev pub two_bytes : ℕ → ℕ → Bool
two_bytes a b = leb 0xc2 a && leb a 0xdf && is_tail b

abbrev pub three_bytes : ℕ → ℕ → ℕ → Bool
three_bytes a b c =
    leb 0xe0 a
    && leb a 0xef
    && leb (if a == 0xe0 then 0xa0 else 0x80) b
    && leb b (if a == 0xed then 0x9f else 0xbf)
    && is_tail c

abbrev pub four_bytes : ℕ → ℕ → ℕ → ℕ → Bool
four_bytes a b c d =
    leb 0xf0 a
    && leb a 0xf4
    && leb (if a == 0xf0 then 0x90 else 0x80) b
    && leb b (if a == 0xf4 then 0x8f else 0xbf)
    && is_tail c
    && is_tail d

abbrev pub one_rune : ℕ → ℕ
one_rune a = if ltb a 0x80 then a else 0xfffd

abbrev pub two_rune : ℕ → ℕ → ℕ
two_rune a b = (a - 0xc0) * 64 + (b - 0x80)

abbrev pub three_rune : ℕ → ℕ → ℕ → ℕ
three_rune a b c = ((a - 0xe0) * 64 + (b - 0x80)) * 64 + (c - 0x80)

abbrev pub four_rune : ℕ → ℕ → ℕ → ℕ → ℕ
four_rune a b c d = (((a - 0xf0) * 64 + (b - 0x80)) * 64 + (c - 0x80)) * 64 + (d - 0x80)

unfoldable pub runes : List ℕ → List ℕ
runes [] = []
runes (a ∷ []) = one_rune a ∷ []
runes (a ∷ b ∷ []) =
    let one = one_rune a ∷ runes (b ∷ []) in if two_bytes a b then two_rune a b ∷ [] else one
runes (a ∷ b ∷ c ∷ []) =
    let one = one_rune a ∷ runes (b ∷ c ∷ []) in
    let two = two_rune a b ∷ runes (c ∷ []) in
    if two_bytes a b then two else if three_bytes a b c then three_rune a b c ∷ [] else one
runes (a ∷ b ∷ c ∷ d ∷ s) =
    let one = one_rune a ∷ runes (b ∷ c ∷ d ∷ s) in
    let two = two_rune a b ∷ runes (c ∷ d ∷ s) in
    let three = three_rune a b c ∷ runes (d ∷ s) in
    let four = four_rune a b c d ∷ runes s in
    if two_bytes a b
    then two
    else if three_bytes a b c
    then three
    else if four_bytes a b c d
    then four
    else one

-- "aé€😀" and a stray byte.
runes_test :
    runes (0x61 ∷ 0xc3 ∷ 0xa9 ∷ 0xe2 ∷ 0x82 ∷ 0xac ∷ 0xf0 ∷ 0x9f ∷ 0x98 ∷ 0x80 ∷ 0xff ∷ [])
    ≡ 0x61 ∷ 0xe9 ∷ 0x20ac ∷ 0x1f600 ∷ 0xfffd ∷ []
unfolding runes
runes_test = refl
