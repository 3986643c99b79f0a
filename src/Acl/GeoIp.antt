-- ===== src/Acl/GeoIp.antt =====
-- The GeoIP matcher of extras/outbounds/acl/matchers_v2geo.go. `sort.Slice` of Go's library is the parameter
-- `sort_slice`. A missing address of a host is the empty list.
pub mod Search
use hysteria.Common.{
  ℕ, zero, suc, ◌+◌, ◌-◌, ◌/◌, ◌%◌, ◌^◌, ◌*◌, ◌≡◌, List, [], ◌∷◌, ◌++◌, Option, none, some, Bool,
  true, false, not, ◌==◌, leb, ltb, if◌then◌else◌, length, get_elem?, replicate, All,
}
use mathlib.Core.List.{Permᴰ}
use hysteria.Common.Results.Panics.{◌>>=◌}
use hysteria.Acl.Ip.{IpNet, to4, less, contains}

pub record GeoipMatcher : Type 0 where
  pub n4 : List IpNet
  pub n6 : List IpNet
  pub inverse : Bool

-- The loop, where `stop` is `right + 1`; `none` is an index out of range.
unfoldable pub search : ℕ → List IpNet → List ℕ → ℕ → ℕ → Option Bool
search zero n ip left stop = some false
search (suc fuel) n ip left stop =
    let mid = (left + stop - 1) / 2 in
    let down = search fuel n ip left mid in
    let up = search fuel n ip (mid + 1) stop in
    if ltb left stop
    then (get_elem? n mid >>= λ net.
        if contains net ip then some true else if less net.ip ip then up else down)
    else some false

-- The nets of the family of an address, and the address as they hold it.
abbrev pub family : GeoipMatcher → List ℕ → Option (List ℕ) → List IpNet × List ℕ
family m ip none = (m.n6, ip)
family m ip (some ip4) = (m.n4, ip4)

abbrev pub search_all : List IpNet × List ℕ → Option Bool
search_all (n, ip) = search (length n) n ip 0 (length n)

unfoldable pub match_ip : GeoipMatcher → List ℕ → Option Bool
unfolding search
match_ip m ip = search_all (family m ip (to4 ip))

abbrev pub is_nil : List ℕ → Bool
is_nil [] = true
is_nil (b ∷ ip) = false

abbrev pub match_present : GeoipMatcher → List ℕ → Option Bool
match_present m ip = if is_nil ip then some false else match_ip m ip

unfoldable pub match : GeoipMatcher → List ℕ → List ℕ → Option Bool
unfolding match_ip
match m ipv4 ipv6 = do
  by_ipv4 ← match_present m ipv4
  by_ipv6 ← (if by_ipv4 then some true else match_present m ipv6)
  some (if by_ipv6 then not m.inverse else m.inverse)

pub record Cidr : Type 0 where
  pub ip : List ℕ
  pub prefix : ℕ

-- `net.CIDRMask(ones, bits)`, with nil for `ones` out of range.
abbrev pub mask_byte : ℕ → ℕ
mask_byte ones = if leb 8 ones then 255 else 256 - 2 ^ (8 - ones)

abbrev pub mask_bytes : ℕ → ℕ → List ℕ
mask_bytes zero ones = []
mask_bytes (suc n) ones = mask_byte ones ∷ mask_bytes n (ones - 8)

unfoldable pub cidr_mask : ℕ → ℕ → List ℕ
cidr_mask ones size = if leb ones (8 * size) then mask_bytes size ones else []

-- The loop over the list of the database: the nets of each family, or `none` for an error.
abbrev pub put_cidr : Cidr → List IpNet × List IpNet → Option (List IpNet × List IpNet)
put_cidr cidr (n4, n6) =
    if length cidr.ip == 4
    then some (record { ip = cidr.ip; mask = cidr_mask cidr.prefix 4 } ∷ n4, n6)
    else if length cidr.ip == 16
    then some (n4, record { ip = cidr.ip; mask = cidr_mask cidr.prefix 16 } ∷ n6)
    else none

unfoldable pub split_cidrs : List Cidr → Option (List IpNet × List IpNet)
unfolding cidr_mask
split_cidrs [] = some ([], [])
split_cidrs (cidr ∷ rest) = do nets ← split_cidrs rest; put_cidr cidr nets

unfoldable pub new_geoip_matcher :
    (List IpNet → List IpNet) → List Cidr → Bool → Option GeoipMatcher
unfolding split_cidrs
new_geoip_matcher sort_slice list inverse_match = do
  (n4, n6) ← split_cidrs list
  some (record { n4 = sort_slice n4; n6 = sort_slice n6; inverse = inverse_match })

-- The documentation of `sort.Slice` for the order by the nets' addresses.
abbrev pub Sorted : List IpNet → Type 0
Sorted [] = Unit {0}
Sorted (a ∷ n) = All (λ b. less b.ip a.ip ≡ false) n × Sorted n

pub record Sorts (sort_slice : List IpNet → List IpNet) : Type 0 where
  pub permutes : (n : List IpNet) → Permᴰ (sort_slice n) n
  pub orders : (n : List IpNet) → Sorted (sort_slice n)
