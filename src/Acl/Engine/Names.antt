-- ===== src/Acl/Engine/Names.antt =====
-- The names of outbounds in extras/outbounds/acl.go.
use hysteria.Common.{
  ℕ, ◌≡◌, refl, sym, ap, ◌∙◌, List, [], ◌∷◌, Option, none, some, Bool, true, false, if◌then◌else◌,
  Bool-cases, Option-cases, inl, inr,
}
use hysteria.Common.Bytes.{same}
use hysteria.Common.Bytes.{same_iff}
use hysteria.Acl.Engine.{
  OutboundEntry, text_direct, text_reject, text_default, put, put_entries, or_put, put_missing,
  first_or, outbounds_to_map,
}

module _ {Out : Type 0} (to_lower : List ℕ → List ℕ) where
  -- The last entry of a name.
  unfoldable pub last_entry : List (OutboundEntry Out) → List ℕ → Option Out
  last_entry [] k = none
  last_entry (ob ∷ outbounds) k = elim (last_entry outbounds k) [
    | some v ↦ some v
    | none ↦ if same k (to_lower ob.name) then some ob.outbound else none
  ]

  abbrev pub or_else : Option Out → Option Out → Option Out
  or_else (some v) w = some v
  or_else none w = w

  -- The first entry, or what stands for it where there is none.
  abbrev pub first_entry : List (OutboundEntry Out) → Option Out → Option Out
  first_entry [] other = other
  first_entry (ob ∷ outbounds) other = some ob.outbound

  first_or-first_entry :
      (outbounds : List (OutboundEntry Out)) (other : Option Out)
      → first_or outbounds other ≡ first_entry outbounds other
  first_or-first_entry [] other = refl
  first_or-first_entry (ob ∷ outbounds) other = refl

  -- What a name stands for when no entry has it.
  unfoldable pub built_in : Out → Out → List (OutboundEntry Out) → List ℕ → Option Out
  unfolding last_entry same
  built_in new_direct reject_outbound outbounds k =
      if same k text_direct
      then some new_direct
      else if same k text_reject
      then some reject_outbound
      else if same k text_default
      then first_entry outbounds (or_else (last_entry outbounds text_direct) (some new_direct))
      else none

  later_wins :
      (o : Option Out) (b : Bool) (v : Out) (m : Option Out)
      → or_else o (if b then some v else m)
        ≡ or_else (elim o [ some w ↦ some w | none ↦ if b then some v else none ]) m
  later_wins (some w) b v m = refl
  later_wins none true v m = refl
  later_wins none false v m = refl

  or_else-none : (o : Option Out) → or_else o none ≡ o
  or_else-none none = refl
  or_else-none (some v) = refl

  put_entries-last :
      (outbounds : List (OutboundEntry Out)) (ob_map : List ℕ → Option Out) (k : List ℕ)
      → put_entries to_lower ob_map outbounds k ≡ or_else (last_entry outbounds k) (ob_map k)
  unfolding put_entries last_entry
  put_entries-last [] ob_map k = refl
  put_entries-last (ob ∷ outbounds) ob_map k =
      put_entries-last outbounds (put ob_map (to_lower ob.name) ob.outbound) k
      ∙ later_wins (last_entry outbounds k) (same k (to_lower ob.name)) ob.outbound (ob_map k)

  put_missing-lookup :
      (m : List ℕ → Option Out) (key : List ℕ) (v : Option Out) (k : List ℕ)
      → put_missing m key v k ≡ or_else (m k) (if same k key then v else none)
  put_missing-lookup m key v k = elim (Bool-cases (same k key)) [
    | inl e ↦
        let q : k ≡ key = (same_iff k key).0 e in
        elim (Option-cases (m key)) [
          | inr (w, f) ↦ rw f rw e rw (ap m q) rw f refl
          | inl f ↦ rw f rw e rw (ap m q) rw f (put_here m key v k e (ap m q ∙ f))
        ]
    | inr e ↦ elim (Option-cases (m key)) [
      | inr (w, f) ↦ rw f rw e (sym (or_else-none (m k)))
      | inl f ↦ rw f rw e (put_elsewhere m key v k e ∙ sym (or_else-none (m k)))
    ]
  ]
    where
      put_here :
          (m : List ℕ → Option Out) (key : List ℕ) (v : Option Out) (k : List ℕ)
          → same k key ≡ true
          → m k ≡ none
          → or_put none m key v k ≡ v
      put_here m key none k e f = f
      put_here m key (some v) k e f = rw e refl

      put_elsewhere :
          (m : List ℕ → Option Out) (key : List ℕ) (v : Option Out) (k : List ℕ)
          → same k key ≡ false
          → or_put none m key v k ≡ m k
      put_elsewhere m key none k e = refl
      put_elsewhere m key (some v) k e = rw e refl

  in_turn :
      (o : Option Out) (b c e : Bool) (x y z : Option Out)
      → (b ≡ true → (d : Out) × (x ≡ some d))
      → or_else
          (or_else (or_else o (if b then x else none)) (if c then y else none))
          (if e then z else none)
        ≡ or_else o (
            if b then x else if c then or_else y (if e then z else none) else if e then z else none)
  in_turn (some w) b c e x y z h = refl
  in_turn none true c e x y z h = let (d, q) = h refl in rw q refl
  in_turn none false true e x y z h = refl
  in_turn none false false e x y z h = refl

  -- The map of the engine holds for each name the last entry with it; without one, `direct` and `reject` are the
  -- built-in outbounds, and `default` is the first entry or, where there is none, what `direct` stands for.
  pub outbounds_to_map_lem :
      (new_direct reject_outbound : Out) (outbounds : List (OutboundEntry Out)) (k : List ℕ)
      → outbounds_to_map to_lower new_direct reject_outbound outbounds k
        ≡ or_else (last_entry outbounds k) (built_in new_direct reject_outbound outbounds k)
  unfolding outbounds_to_map built_in
  outbounds_to_map_lem d r outbounds k =
      let named = put_entries to_lower (λ s. none) outbounds in
      let with_direct = put_missing named text_direct (some d) in
      let with_reject = put_missing with_direct text_reject (some r) in
      let n : (j : List ℕ) → named j ≡ last_entry outbounds j =
        λ j. put_entries-last outbounds (λ s. none) j ∙ or_else-none (last_entry outbounds j) in
      let both : (j : List ℕ)
          → with_reject j
            ≡ or_else
                (or_else (last_entry outbounds j) (if same j text_direct then some d else none))
                (if same j text_reject then some r else none) =
        λ j.
          put_missing-lookup with_direct text_reject (some r) j
          ∙ ap (λ o. or_else o (if same j text_reject then some r else none))
              (put_missing-lookup named text_direct (some d) j
                ∙ ap (λ o. or_else o (if same j text_direct then some d else none)) (n j)) in
      let direct : with_reject text_direct ≡ or_else (last_entry outbounds text_direct) (some d) =
        both text_direct ∙ or_else-none (or_else (last_entry outbounds text_direct) (some d)) in
      put_missing-lookup with_reject text_default (first_or outbounds (with_reject text_direct)) k
      ∙ ap (λ v. or_else (with_reject k) (if same k text_default then v else none))
          (ap (first_or outbounds) direct
            ∙ first_or-first_entry outbounds (or_else (last_entry outbounds text_direct) (some d)))
      ∙ ap
          (λ o. or_else o (
            if same k text_default
            then first_entry outbounds (or_else (last_entry outbounds text_direct) (some d))
            else none))
          (both k)
      ∙ in_turn (last_entry outbounds k) (same k text_direct) (same k text_reject)
          (same k text_default) (some d) (some r)
          (first_entry outbounds (or_else (last_entry outbounds text_direct) (some d)))
          (λ e. (d, refl))
