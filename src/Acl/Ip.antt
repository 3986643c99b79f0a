-- ===== src/Acl/Ip.antt =====
-- What extras/outbounds/acl uses of Go's `net.IP` and `net.IPNet`.
use hysteria.Common.{
  ℕ, List, [], ◌∷◌, Option, none, some, Bool, true, false, ◌&&◌, ltb, ◌==◌, if◌then◌else◌, length,
  drop, take, bit_and,
}
use hysteria.Common.Bytes.{same}

abbrev pub v4_in_v6_prefix : List ℕ
v4_in_v6_prefix = 0 ∷ 0 ∷ 0 ∷ 0 ∷ 0 ∷ 0 ∷ 0 ∷ 0 ∷ 0 ∷ 0 ∷ 255 ∷ 255 ∷ []

-- `IP.To4`, with `none` for nil.
unfoldable pub to4 : List ℕ → Option (List ℕ)
unfolding same
to4 ip =
    if length ip == 4
    then some ip
    else if (length ip == 16) && same (take 12 ip) v4_in_v6_prefix
    then some (drop 12 ip)
    else none

-- An address in its 4-byte form, where it has one.
abbrev pub or_self : List ℕ → Option (List ℕ) → List ℕ
or_self ip none = ip
or_self ip (some ip4) = ip4

unfoldable pub short_form : List ℕ → List ℕ
short_form ip = or_self ip (to4 ip)

-- `IP.Equal`
unfoldable pub ip_equal : List ℕ → List ℕ → Bool
unfolding same
ip_equal ip x =
    if length ip == length x
    then same ip x
    else if (length ip == 4) && (length x == 16)
    then same (take 12 x) v4_in_v6_prefix && same ip (drop 12 x)
    else if (length ip == 16) && (length x == 4)
    then same (take 12 ip) v4_in_v6_prefix && same (drop 12 ip) x
    else false

-- `bytes.Compare(a, b) < 0`
unfoldable pub less : List ℕ → List ℕ → Bool
less a [] = false
less [] (y ∷ b) = true
less (x ∷ a) (y ∷ b) = if x == y then less a b else ltb x y

pub record IpNet : Type 0 where
  pub ip : List ℕ
  pub mask : List ℕ

-- `networkNumberAndMask`
unfoldable pub network_number_and_mask : IpNet → List ℕ × List ℕ
unfolding short_form
network_number_and_mask n =
    let ip = short_form n.ip in
    if (length ip == 4) && (length n.mask == 4)
    then (ip, n.mask)
    else if (length ip == 4) && (length n.mask == 16)
    then (ip, drop 12 n.mask)
    else if (length ip == 16) && (length n.mask == 16)
    then (ip, n.mask)
    else ([], [])

-- The loop of `Contains` over addresses of one length.
unfoldable pub masked_equal : List ℕ → List ℕ → List ℕ → Bool
masked_equal [] m ip = true
masked_equal (n ∷ nn) m [] = true
masked_equal (n ∷ nn) [] (i ∷ ip) = true
masked_equal (n ∷ nn) (b ∷ m) (i ∷ ip) =
    if bit_and n b == bit_and i b then masked_equal nn m ip else false

-- What `Contains` does with the network and the short form of the address.
abbrev pub in_net : List ℕ × List ℕ → List ℕ → Bool
in_net (nn, m) ip = if length ip == length nn then masked_equal nn m ip else false

-- `IPNet.Contains`
unfoldable pub contains : IpNet → List ℕ → Bool
unfolding network_number_and_mask masked_equal
contains n ip = in_net (network_number_and_mask n) (short_form ip)
