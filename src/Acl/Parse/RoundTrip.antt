-- ===== src/Acl/Parse/RoundTrip.antt =====
-- Rules written out by hand and read by extras/outbounds/acl/parse.go.
use hysteria.Common.{
  ℕ, ◌+◌, ◌≡◌, ◌⊎◌, inl, inr, refl, ap, ◌∙◌, List, [], ◌∷◌, ◌++◌, map, some, true, false, ◌==◌, All,
  arith,
}
use hysteria.PortUnion.Parse.{split}
use hysteria.PortUnion.Split.{Lacks, split-Lacks, split-append}
use hysteria.Acl.Parse.{
  TextRule, is_word, push_first, take_word, skip_blanks, cons_front, before_close, groups,
  after_blanks, after_word, find_groups, uncommented, ParseResult, parsed, parse_line, after_parse,
  of_line, parse_lines, parse_text_rules,
}

take_word-append :
    (w : List ℕ) (c : ℕ) (s : List ℕ)
    → All (λ c. is_word c ≡ true) w
    → is_word c ≡ false
    → take_word (w ++ (c ∷ s)) ≡ (w, c ∷ s)
unfolding take_word
take_word-append [] c s h e = rw e refl
take_word-append (x ∷ w) c s h e = rw (h.0) (ap (push_first x) (take_word-append w c s h.1 e))

before_close-append : (s : List ℕ) → before_close (s ++ (b')' ∷ [])) ≡ some s
unfolding before_close
before_close-append [] = refl
before_close-append (c ∷ []) = refl
before_close-append (c ∷ d ∷ s) = ap (cons_front c) (before_close-append (d ∷ s))

uncommented-Lacks : (s : List ℕ) → Lacks b'#' s → uncommented s ≡ s
unfolding uncommented
uncommented-Lacks [] h = refl
uncommented-Lacks (c ∷ s) h =
    let other : (c == b'#') ≡ false = ground (arith, h.0) in
    rw other (ap (◌∷◌ c) (uncommented-Lacks s h.1))

-- The fields between the parentheses: the address, and the others as far as they are given.
abbrev pub join_fields : List ℕ → List ℕ → List ℕ → List ℕ
join_fields a [] h = a
join_fields a (c ∷ p) [] = a ++ (b',' ∷ (c ∷ p))
join_fields a (c ∷ p) (d ∷ h) = a ++ (b',' ∷ ((c ∷ p) ++ (b',' ∷ (d ∷ h))))

abbrev pub fields : TextRule → List ℕ
fields r = join_fields r.address r.proto_port r.hijack_address

unfoldable pub print_rule : TextRule → List ℕ
print_rule r = r.outbound ++ (b'(' ∷ (fields r ++ (b')' ∷ [])))

abbrev IsCons : List ℕ → Type 0
IsCons [] = ⊥
IsCons (c ∷ s) = Unit {0}

-- A rule that can be written: a name of word characters and an address, alone, with a protocol, or with that and
-- an address to hijack to; no commas, line breaks or `#` in them, and nothing blank at their ends.
pub record IsWritable (trim_space : List ℕ → List ℕ) (r : TextRule) : Type 0 where
  pub named : IsCons r.outbound
  pub word : All (λ c. is_word c ≡ true) r.outbound
  pub given :
      IsCons r.address × (IsCons r.proto_port ⊎ ((r.proto_port ≡ []) × (r.hijack_address ≡ [])))
  pub commas : Lacks b',' r.address × Lacks b',' r.proto_port × Lacks b',' r.hijack_address
  pub one_line : Lacks b'\n' (print_rule r)
  pub no_comment : Lacks b'#' (print_rule r)
  pub trimmed :
      (trim_space r.address ≡ r.address)
      × (trim_space r.proto_port ≡ r.proto_port)
      × (trim_space r.hijack_address ≡ r.hijack_address)
      × (trim_space (print_rule r) ≡ print_rule r)

IsCons-append : (s t : List ℕ) → IsCons s → IsCons (s ++ t)
IsCons-append [] t h = absurd h
IsCons-append (c ∷ s) t h = tt

abbrev three : List ℕ → List ℕ → List ℕ → List ℕ → TextRule
three o a p h = record {
  outbound = o;
  address = a;
  proto_port = p;
  hijack_address = h;
  line_num = 0;
}

groups-join_fields :
    (o a p h : List ℕ)
    → IsCons a
    → IsCons p ⊎ ((p ≡ []) × (h ≡ []))
    → Lacks b',' a
    → Lacks b',' p
    → Lacks b',' h
    → groups o (split b',' (join_fields a p h)) ≡ some (three o a p h)
groups-join_fields o [] p h ia ip la lp lh = absurd ia
groups-join_fields o (x ∷ a) [] [] ia ip la lp lh = rw (split-Lacks b',' (x ∷ a) la) refl
groups-join_fields o (x ∷ a) [] (z ∷ h) ia (inl ip) la lp lh = absurd ip
groups-join_fields o (x ∷ a) [] (z ∷ h) ia (inr (ep, eh)) la lp lh = absurd (cc eh)
groups-join_fields o (x ∷ a) (y ∷ p) [] ia ip la lp lh =
    rw (split-append b',' (x ∷ a) (y ∷ p) la, split-Lacks b',' (y ∷ p) lp) refl
groups-join_fields o (x ∷ a) (y ∷ p) (z ∷ h) ia ip la lp lh =
    rw
      (
        split-append b',' (x ∷ a) ((y ∷ p) ++ (b',' ∷ (z ∷ h))) la,
        split-append b',' (y ∷ p) (z ∷ h) lp,
        split-Lacks b',' (z ∷ h) lh,
      )
      refl

after_word-cons : (o s : List ℕ) → IsCons o → after_word (o, s) ≡ after_blanks o (skip_blanks s)
after_word-cons [] s h = absurd h
after_word-cons (c ∷ o) s h = refl

find_groups-print :
    (trim_space : List ℕ → List ℕ) (r : TextRule)
    → IsWritable trim_space r
    → find_groups (print_rule r) ≡ some (three r.outbound r.address r.proto_port r.hijack_address)
unfolding find_groups print_rule
find_groups-print trim_space r w =
    let (ca, cp, ch) = w.commas in
    rw (take_word-append r.outbound b'(' (fields r ++ (b')' ∷ [])) w.word refl) rw
      (after_word-cons r.outbound (b'(' ∷ (fields r ++ (b')' ∷ []))) w.named) rw
      (before_close-append (fields r))
      (groups-join_fields r.outbound r.address r.proto_port r.hijack_address w.given.0 w.given.1 ca
        cp ch)

parse_line-print :
    (trim_space : List ℕ → List ℕ) (r : TextRule) (num : ℕ)
    → IsWritable trim_space r
    → parse_line trim_space (print_rule r) num ≡ some (record r { line_num = num })
unfolding parse_line
parse_line-print trim_space r num w =
    let (ta, tp, th, tl) = w.trimmed in rw (find_groups-print trim_space r w) rw ta rw tp rw th refl

-- A text of the lines.
unfoldable pub join_lines : List ℕ → List (List ℕ) → List ℕ
join_lines line [] = line
join_lines line (next ∷ lines) = line ++ (b'\n' ∷ join_lines next lines)

unfoldable pub print_rules : TextRule → List TextRule → List ℕ
unfolding join_lines print_rule
print_rules r rs = join_lines (print_rule r) (map print_rule rs)

-- The rules with the numbers of their lines.
unfoldable pub numbered : List TextRule → ℕ → List TextRule
numbered [] num = []
numbered (r ∷ rs) num = record r { line_num = num } ∷ numbered rs (num + 1)

split-join_lines :
    (line : List ℕ) (lines : List (List ℕ))
    → Lacks b'\n' line
    → All (Lacks b'\n') lines
    → split b'\n' (join_lines line lines) ≡ line ∷ lines
unfolding join_lines
split-join_lines line [] h hs = split-Lacks b'\n' line h
split-join_lines line (next ∷ lines) h hs =
    split-append b'\n' line (join_lines next lines) h
    ∙ ap (◌∷◌ line) (split-join_lines next lines hs.0 hs.1)

module _ (trim_space : List ℕ → List ℕ) where
  print-one_line :
      (rs : List TextRule) → All (IsWritable trim_space) rs → All (Lacks b'\n') (map print_rule rs)
  print-one_line [] w = tt
  print-one_line (r ∷ rs) w = (w.0.one_line, print-one_line rs w.1)

  print_rule-IsCons : (r : TextRule) → IsCons r.outbound → IsCons (print_rule r)
  unfolding print_rule
  print_rule-IsCons r h = IsCons-append r.outbound _ h

  of_line-cons :
      (line : List ℕ) (num : ℕ) (rest : ParseResult)
      → IsCons line
      → of_line trim_space line num rest
        ≡ after_parse trim_space line num (parse_line trim_space line num) rest
  of_line-cons [] num rest h = absurd h
  of_line-cons (c ∷ line) num rest h = refl

  parse_lines-print :
      (rs : List TextRule) (num : ℕ)
      → All (IsWritable trim_space) rs
      → parse_lines trim_space (map print_rule rs) num ≡ parsed (numbered rs num)
  unfolding parse_lines numbered
  parse_lines-print [] num w = refl
  parse_lines-print (r ∷ rs) num (w, ws) =
      let line : trim_space (uncommented (print_rule r)) ≡ print_rule r =
        ap trim_space (uncommented-Lacks (print_rule r) w.no_comment) ∙ w.trimmed.3 in
      rw line rw
        (of_line-cons (print_rule r) num (parse_lines trim_space (map print_rule rs) (num + 1))
          (print_rule-IsCons r w.named))
        rw (parse_line-print trim_space r num w) rw (parse_lines-print rs (num + 1) ws) refl

  -- Rules that can be written, one to a line, are parsed into themselves, each with the number of its line: a
  -- name and an address, alone, with a protocol and ports, or with these and an address to hijack to. No
  -- part has a comma, a line break or a `#` in it, or blanks at its ends.
  pub parse_text_rules-print :
      (r : TextRule) (rs : List TextRule)
      → IsWritable trim_space r
      → All (IsWritable trim_space) rs
      → parse_text_rules trim_space (print_rules r rs) ≡ parsed (numbered (r ∷ rs) 1)
  unfolding parse_text_rules print_rules
  parse_text_rules-print r rs w ws =
      ap (λ lines. parse_lines trim_space lines 1)
        (split-join_lines (print_rule r) (map print_rule rs) w.one_line (print-one_line rs ws))
      ∙ parse_lines-print (r ∷ rs) 1 (w, ws)
