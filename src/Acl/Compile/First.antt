-- ===== src/Acl/Compile/First.antt =====
-- The errors of `Compile` of extras/outbounds/acl/compile.go.
use hysteria.Common.{ℕ, ◌≡◌, refl, ap, subst, List, [], ◌∷◌, ◌++◌, Option, ◌⊎◌, inl, inr}
use hysteria.Common.Results.{Result, ok, err, panic}
use hysteria.Acl.Rules.{CompiledRule}
use hysteria.Acl.Parse.{TextRule}
use hysteria.Acl.Compile.NoPanic.{NoPanic, rule-NoPanic}
use hysteria.Acl.Compile.Meaning.{Means}
use hysteria.Acl.Compile.Rule.{compile_rule-Means}
use hysteria.Acl.Compile.{Library, CompileError, compile_rule, compile}

module _ {O : Type 0} (lib : Library) (outbounds : List ℕ → Option O) where
  -- Each rule means the one at its place.
  unfoldable pub Compiles : List TextRule → List (CompiledRule O) → Type 0
  Compiles [] [] = Unit {0}
  Compiles [] (r ∷ rs) = ⊥
  Compiles (t ∷ ts) [] = ⊥
  Compiles (t ∷ ts) (r ∷ rs) = Means lib outbounds t (ok r) × Compiles ts rs

  -- The rules before the first that is not compiled, that rule, and its error.
  pub record FirstError (rules : List TextRule) : Type 0 where
    pub before : List TextRule
    pub rule : TextRule
    pub after : List TextRule
    pub error : CompileError
    pub compiled : List (CompiledRule O)
    pub splits : rules ≡ before ++ (rule ∷ after)
    pub fine : Compiles before compiled
    pub fails : Means lib outbounds rule (err error)

  -- All rules are compiled, or one is the first that is not.
  abbrev pub Outcome : List TextRule → Type 0
  Outcome rules =
      ((rs : List (CompiledRule O)) × (compile lib outbounds rules ≡ ok rs) × Compiles rules rs)
      ⊎ ((f : FirstError rules) × (compile lib outbounds rules ≡ err (f.rule.line_num, f.error)))

  rule-cases :
      (t : TextRule)
      → ((r : CompiledRule O) × (compile_rule lib outbounds t ≡ ok r))
        ⊎ ((e : CompileError) × (compile_rule lib outbounds t ≡ err e))
  rule-cases t = go (compile_rule lib outbounds t) (rule-NoPanic lib outbounds t)
    where
      go :
          (m : Result CompileError (CompiledRule O))
          → NoPanic m
          → ((r : CompiledRule O) × (m ≡ ok r)) ⊎ ((e : CompileError) × (m ≡ err e))
      go (ok r) h = inl (r, refl)
      go (err e) h = inr (e, refl)
      go panic h = absurd h

  first_here :
      (t : TextRule) (ts : List TextRule) (e : CompileError)
      → compile_rule lib outbounds t ≡ err e
      → FirstError (t ∷ ts)
  unfolding Compiles
  first_here t ts e q = record {
    before = [];
    rule = t;
    after = ts;
    error = e;
    compiled = [];
    splits = refl;
    fine = tt;
    fails = subst (Means lib outbounds t) q (compile_rule-Means lib outbounds t);
  }

  first_later :
      (t : TextRule) (ts : List TextRule) (r : CompiledRule O)
      → compile_rule lib outbounds t ≡ ok r
      → FirstError ts
      → FirstError (t ∷ ts)
  unfolding Compiles
  first_later t ts r q f = record {
    before = t ∷ f.before;
    rule = f.rule;
    after = f.after;
    error = f.error;
    compiled = r ∷ f.compiled;
    splits = ap (◌∷◌ t) f.splits;
    fine = (subst (Means lib outbounds t) q (compile_rule-Means lib outbounds t), f.fine);
    fails = f.fails;
  }

  -- `Compile` turns each rule into what it means, at its place, or returns the error of the first rule that has
  -- one, with the line of that rule. A rule means the outbound of its name in lower case; every host, the
  -- country, the site, the suffix, the net, the address, the wildcard or the name that its address says; the
  -- protocol and the ports that are parsed; and the address to hijack to, if one is given. The errors are
  -- those of the first of these parts that is not well formed or not found.
  pub compile_outcome : (rules : List TextRule) → Outcome rules
  unfolding compile Compiles first_later first_here
  compile_outcome [] = inl ([], refl, tt)
  compile_outcome (t ∷ ts) = elim (rule-cases t) [
    | inr (e, q) ↦ inr (first_here t ts e q, rw q refl)
    | inl (r, q) ↦ elim (compile_outcome ts) [
      | inl (rs, p, all) ↦ inl (
        r ∷ rs,
        rw q rw p refl,
        (subst (Means lib outbounds t) q (compile_rule-Means lib outbounds t), all),
      )
      | inr (f, p) ↦ inr (first_later t ts r q f, rw q rw p refl)
    ]
  ]
