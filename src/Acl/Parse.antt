-- ===== src/Acl/Parse.antt =====
-- extras/outbounds/acl/parse.go. The pattern of a line is written out: what Go's regexp finds for it. `strings.TrimSpace`
-- is the parameter `trim_space`. A group that takes part in no match is empty.
pub mod RoundTrip
use hysteria.Common.{
  ℕ, ◌+◌, List, [], ◌∷◌, ◌++◌, Option, none, some, Bool, true, false, ◌&&◌, ◌||◌, leb, ◌==◌,
  if◌then◌else◌,
}
use hysteria.Common.Results.Panics.{◌>>=◌}
use hysteria.PortUnion.Parse.{split}

pub record TextRule : Type 0 where
  pub outbound : List ℕ
  pub address : List ℕ
  pub proto_port : List ℕ
  pub hijack_address : List ℕ
  pub line_num : ℕ

-- `\w`
abbrev pub is_word : ℕ → Bool
is_word c =
    (leb b'0' c && leb c b'9')
    || (leb b'A' c && leb c b'Z')
    || (leb b'a' c && leb c b'z')
    || (c == b'_')

-- `\s`
abbrev pub is_blank : ℕ → Bool
is_blank c = (c == 0x20) || (c == 0x09) || (c == 0x0a) || (c == 0x0c) || (c == 0x0d)

abbrev pub push_first : ℕ → List ℕ × List ℕ → List ℕ × List ℕ
push_first c (w, rest) = (c ∷ w, rest)

-- The longest beginning of word characters, and the rest.
unfoldable pub take_word : List ℕ → List ℕ × List ℕ
take_word [] = ([], [])
take_word (c ∷ s) = let more = push_first c (take_word s) in if is_word c then more else ([], c ∷ s)

unfoldable pub skip_blanks : List ℕ → List ℕ
skip_blanks [] = []
skip_blanks (c ∷ s) = let rest = skip_blanks s in if is_blank c then rest else c ∷ s

-- The text before the parenthesis that it ends in.
abbrev pub cons_front : ℕ → Option (List ℕ) → Option (List ℕ)
cons_front c none = none
cons_front c (some s) = some (c ∷ s)

unfoldable pub before_close : List ℕ → Option (List ℕ)
before_close [] = none
before_close (c ∷ []) = if c == b')' then some [] else none
before_close (c ∷ d ∷ s) = cons_front c (before_close (d ∷ s))

-- The groups between the commas.
abbrev pub groups : List ℕ → List (List ℕ) → Option TextRule
groups outbound ((a ∷ as') ∷ []) = some (record {
  outbound = outbound;
  address = a ∷ as';
  proto_port = [];
  hijack_address = [];
  line_num = 0;
})
groups outbound ((a ∷ as') ∷ (p ∷ ps) ∷ []) = some (record {
  outbound = outbound;
  address = a ∷ as';
  proto_port = p ∷ ps;
  hijack_address = [];
  line_num = 0;
})
groups outbound ((a ∷ as') ∷ (p ∷ ps) ∷ (h ∷ hs) ∷ []) = some (record {
  outbound = outbound;
  address = a ∷ as';
  proto_port = p ∷ ps;
  hijack_address = h ∷ hs;
  line_num = 0;
})
groups outbound parts = none

abbrev pub after_blanks : List ℕ → List ℕ → Option TextRule
after_blanks outbound [] = none
after_blanks outbound (c ∷ s) =
    if c == b'(' then (before_close s >>= λ body. groups outbound (split b',' body)) else none

abbrev pub after_word : List ℕ × List ℕ → Option TextRule
after_word ([], s) = none
after_word (c ∷ w, s) = after_blanks (c ∷ w) (skip_blanks s)

-- `linePattern.FindStringSubmatch`
unfoldable pub find_groups : List ℕ → Option TextRule
unfolding take_word skip_blanks before_close split
find_groups line = after_word (take_word line)

-- The text before the first `#`.
unfoldable pub uncommented : List ℕ → List ℕ
uncommented [] = []
uncommented (c ∷ s) = if c == b'#' then [] else c ∷ uncommented s

pub data ParseResult : Type 0 where
  parsed : List TextRule → ParseResult
  -- `InvalidSyntaxError`
  invalid_syntax : List ℕ → ℕ → ParseResult

abbrev pub cons_rule : TextRule → ParseResult → ParseResult
cons_rule r (parsed rules) = parsed (r ∷ rules)
cons_rule r (invalid_syntax line num) = invalid_syntax line num

module _ (trim_space : List ℕ → List ℕ) where
  unfoldable pub parse_line : List ℕ → ℕ → Option TextRule
  unfolding find_groups
  parse_line line num = do
    r ← find_groups line
    some (record {
      outbound = r.outbound;
      address = trim_space r.address;
      proto_port = trim_space r.proto_port;
      hijack_address = trim_space r.hijack_address;
      line_num = num;
    })

  abbrev pub after_parse : List ℕ → ℕ → Option TextRule → ParseResult → ParseResult
  after_parse line num none rest = invalid_syntax line num
  after_parse line num (some rule) rest = cons_rule rule rest

  abbrev pub of_line : List ℕ → ℕ → ParseResult → ParseResult
  of_line [] num rest = rest
  of_line (c ∷ line) num rest = after_parse (c ∷ line) num (parse_line (c ∷ line) num) rest

  -- The loop, from line `num` on.
  unfoldable pub parse_lines : List (List ℕ) → ℕ → ParseResult
  unfolding parse_line uncommented
  parse_lines [] num = parsed []
  parse_lines (line ∷ lines) num =
      of_line (trim_space (uncommented line)) num (parse_lines lines (num + 1))

  unfoldable pub parse_text_rules : List ℕ → ParseResult
  unfolding parse_lines split
  parse_text_rules text = parse_lines (split b'\n' text) 1
