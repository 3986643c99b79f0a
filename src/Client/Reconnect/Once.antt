-- ===== src/Client/Reconnect/Once.antt =====
-- Sequences of what goroutines do with one client, in any order.
use hysteria.Common.{
  ℕ, zero, suc, ◌+◌, ◌≡◌, ◌≢◌, inl, inr, refl, ◌∙◌, ap, List, [], ◌∷◌, ◌++◌, Option, none, some,
  true, false, ◌==◌, if◌then◌else◌, All, All-append, arith, Bool-cases, Option-cases,
}
use hysteria.Client.Reconnect.{
  Error, closed_error, other_error, Dial, config_fails, client_fails, connects, Event, client_close,
  connected_func, ReconnectableClient, close_events, reconnect, Begun, refused, calls,
  after_reconnect, begin_do, is_client, finish_do, close,
}

-- One hold of the lock: the first or the second part of `clientDo`, or `Close`.
pub data Part : Type 0 where
  begins : Dial → Part
  finishes : ℕ → Option Error → Part
  closes : Part

abbrev pub part : ReconnectableClient → Part → ReconnectableClient × List Begun × List Event
part rc (begins dial) = let (rc', b, events) = begin_do rc dial in (rc', b ∷ [], events)
part rc (finishes c e) = (finish_do rc c e, [], [])
part rc closes = let (rc', events) = close rc in (rc', [], events)

abbrev pub parts : ReconnectableClient → List Part → ReconnectableClient × List Begun × List Event
parts rc [] = (rc, [], [])
parts rc (p ∷ ps) =
    let (rc', begun, events) = part rc p in
    let (rc'', begun', events') = parts rc' ps in (rc'', begun ++ begun', events ++ events')

-- The numbers that `connectedFunc` is called with.
abbrev pub numbers : List Event → List ℕ
numbers [] = []
numbers (client_close c ∷ events) = numbers events
numbers (connected_func c n ∷ events) = n ∷ numbers events

-- The numbers from one behind `n` on.
abbrev pub count_from : ℕ → ℕ → List ℕ
count_from n zero = []
count_from n (suc k) = suc n ∷ count_from (suc n) k

numbers-append : (xs bs : List Event) → numbers (xs ++ bs) ≡ numbers xs ++ numbers bs
numbers-append [] bs = refl
numbers-append (client_close c ∷ xs) bs = numbers-append xs bs
numbers-append (connected_func c n ∷ xs) bs = ap (λ l. n ∷ l) (numbers-append xs bs)

numbers-close_events : (c : Option ℕ) → numbers (close_events c) ≡ []
numbers-close_events none = refl
numbers-close_events (some c) = refl

finish_do-keeps :
    (rc : ReconnectableClient) (c : ℕ) (e : Option Error)
    → ((finish_do rc c e).closed ≡ rc.closed) × ((finish_do rc c e).count ≡ rc.count)
unfolding finish_do
finish_do-keeps rc c none = (refl, refl)
finish_do-keeps rc c (some (other_error e)) = (refl, refl)
finish_do-keeps rc c (some closed_error) = elim (Bool-cases (is_client rc.client c)) [
  | inl q ↦ rw q (refl, refl)
  | inr q ↦ rw q (refl, refl)
]

abbrev IsRefused : Begun → Type 0
IsRefused b = b ≡ refused closed_error

-- What one part does once the client is closed.
part_closed :
    (rc : ReconnectableClient) (p : Part)
    → rc.closed ≡ true
    → ((part rc p).0.closed ≡ true) × All IsRefused ((part rc p).1) × (numbers ((part rc p).2) ≡ [])
unfolding begin_do close
part_closed rc (begins dial) h = rw h (refl, (refl, tt), refl)
part_closed rc (finishes c e) h = ((finish_do-keeps rc c e).0 ∙ h, tt, refl)
part_closed rc closes h = (refl, tt, numbers-close_events rc.client)

-- After `Close`, whatever goroutines go on to do, nothing connects anew: every call is refused with
-- `ClosedError`, `connectedFunc` is not called, and the client stays closed.
pub parts_closed :
    (rc : ReconnectableClient) (ps : List Part)
    → rc.closed ≡ true
    → ((parts rc ps).0.closed ≡ true)
      × All (λ b. b ≡ refused closed_error) ((parts rc ps).1)
      × (numbers ((parts rc ps).2) ≡ [])
parts_closed rc [] h = (h, tt, refl)
parts_closed rc (p ∷ ps) h =
    let (a, b, c) = part_closed rc p h in
    let (a', b', c') = parts_closed ((part rc p).0) ps a in
    (
      a',
      All-append IsRefused ((part rc p).1) ((parts ((part rc p).0) ps).1) b b',
      numbers-append ((part rc p).2) ((parts ((part rc p).0) ps).2) ∙ rw (c, c') refl,
    )

count_from-add : (n j k : ℕ) → count_from n j ++ count_from (n + j) k ≡ count_from n (j + k)
count_from-add n zero k =
    let a : n + 0 ≡ n = omega arith in let b : 0 + k ≡ k = omega arith in rw (a, b) refl
count_from-add n (suc j) k =
    let a : n + suc j ≡ suc n + j = omega arith in
    let b : suc j + k ≡ suc (j + k) = omega arith in
    rw (a, b) (ap (λ l. suc n ∷ l) (count_from-add (suc n) j k))

abbrev Counts : ReconnectableClient → ReconnectableClient → List Event → Type 0
Counts rc rc' events =
    (k : ℕ) × (rc'.count ≡ rc.count + k) × (numbers events ≡ count_from rc.count k)

-- A connection counts by one, a failure not at all.
reconnect-Counts :
    (rc : ReconnectableClient) (dial : Dial)
    → Counts rc ((after_reconnect (reconnect rc dial)).0) ((after_reconnect (reconnect rc dial)).2)
unfolding reconnect
reconnect-Counts rc (config_fails e) = (0, omega arith, numbers-close_events rc.client)
reconnect-Counts rc (client_fails e) = (0, omega arith, numbers-close_events rc.client)
reconnect-Counts rc (connects c) =
    let n : rc.count + 1 ≡ suc rc.count = omega arith in
    (
      1,
      refl,
      numbers-append (close_events rc.client) (connected_func c (rc.count + 1) ∷ [])
          ∙ rw (numbers-close_events rc.client, n) refl,
    )

part-Counts : (rc : ReconnectableClient) (p : Part) → Counts rc ((part rc p).0) ((part rc p).2)
unfolding begin_do close
part-Counts rc (begins dial) = elim (Bool-cases rc.closed) [
  | inl q ↦ rw q (0, omega arith, refl)
  | inr q ↦ elim (Option-cases rc.client) [
    | inl r ↦ rw (q, r) (reconnect-Counts rc dial)
    | inr (c, r) ↦ rw (q, r) (0, omega arith, refl)
  ]
]
part-Counts rc (finishes c e) = (0, (finish_do-keeps rc c e).1 ∙ omega arith, refl)
part-Counts rc closes = (0, omega arith, numbers-close_events rc.client)

-- Whatever goroutines do with a client, `connectedFunc` is called with the numbers that follow its
-- count, one after the other and none twice, and the count ends at the last of them.
pub parts-Counts :
    (rc : ReconnectableClient) (ps : List Part)
    → (k : ℕ) × ((parts rc ps).0.count ≡ rc.count + k)
      × (numbers ((parts rc ps).2) ≡ count_from rc.count k)
parts-Counts rc [] = (0, omega arith, refl)
parts-Counts rc (p ∷ ps) =
    let (j, a, b) = part-Counts rc p in
    let (k, a', b') = parts-Counts ((part rc p).0) ps in
    (
      j + k,
      omega arith,
      numbers-append ((part rc p).2) ((parts ((part rc p).0) ps).2)
          ∙ rw (b, b', a) (count_from-add rc.count j k),
    )

-- When a call reports that the current client `c` is closed, and the wrapper is not, the next call connects
-- anew and uses the new client `d`, which is counted and announced; `c` is not closed once more. A second
-- call that reports the same of `c` then leaves the new client in place.
pub closed_error-reconnects :
    (rc : ReconnectableClient) (c d : ℕ)
    → rc.client ≡ some c
    → rc.closed ≡ false
    → c ≢ d
    → let rc' : ReconnectableClient = record rc { client = some d; count = rc.count + 1 } in
      (begin_do (finish_do rc c (some closed_error)) (connects d)
        ≡ (rc', calls (some d), connected_func d (rc.count + 1) ∷ []))
      × (finish_do rc' c (some closed_error) ≡ rc')
unfolding begin_do finish_do reconnect
closed_error-reconnects rc c d at is_open apart =
    let self : is_client rc.client c ≡ true = ap (λ o. is_client o c) at ∙ ground arith in
    let other : (d == c) ≡ false = ground arith in
    let dropped : ReconnectableClient = record rc { client = none } in
    let again : ReconnectableClient = record rc { client = some d; count = rc.count + 1 } in
    let fails : ReconnectableClient × Begun × List Event = (dropped, refused closed_error, []) in
    let goes_on : ReconnectableClient × Begun × List Event =
      (again, calls (some d), connected_func d (rc.count + 1) ∷ []) in
    let drop_it : finish_do rc c (some closed_error) ≡ dropped =
      ap (λ b. if b then dropped else rc) self in
    let dial : begin_do dropped (connects d) ≡ goes_on =
      ap (λ b. if b then fails else goes_on) is_open in
    (
      ap (λ x. begin_do x (connects d)) drop_it ∙ dial,
      ap (λ b. if b then record again { client = none } else again) other,
    )
