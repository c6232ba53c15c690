-- ===== src/Incus/Addresses.antt =====
-- IPv4 addresses as numbers below 2 ^ 32: the parts of Go's package net that internal/incusclient/network.go uses
-- (`ParseIP`, `ParseCIDR`, `IP.String`), on IPv4 notation, and its own `parseHostFromCIDR` and `ipv4Netmask`.
pub mod Free
use goincus.Base.{
  ℕ, zero, suc, ◌+◌, ◌-◌, ◌*◌, ◌/◌, ◌%◌, ◌^◌, String, ◌<>◌, ◌≡◌, refl, Bool, true, false, not, ◌&&◌,
  ◌||◌, Option, none, some, List, [], ◌∷◌, ◌==◌, String-Eq, ℕ-Eq, ltb, leb, contains, if◌then◌else◌,
}
use Prim.Native.String.{len}
use goincus.Base.Int.{ℤ, pos, negsuc}
use goincus.Base.Decimal.{decimal}
use goincus.Base.Split.{cut, split_on, parse_digits, scan_number}
use goincus.Base.Result.{Result, ok, err, failure}

-- One to three digits without a leading zero, at most 255.
unfoldable pub octet : String → Option ℕ
octet s = elim (parse_digits s) [
  | none ↦ none
  | some n ↦ if ltb 255 n || not (decimal n == s) then none else some n
]

-- Four octets as a number.
abbrev pub quad : (a b c d : ℕ) → ℕ
quad a b c d = a * 16_777_216 + b * 65_536 + c * 256 + d

abbrev combine : Option ℕ → Option ℕ → Option ℕ → Option ℕ → Option ℕ
combine (some a) (some b) (some c) (some d) = some (quad a b c d)
combine _ _ _ _ = none

octets : List String → Option ℕ
unfolding octet
octets (a ∷ b ∷ c ∷ d ∷ []) = combine (octet a) (octet b) (octet c) (octet d)
octets _ = none

-- `net.ParseIP`
unfoldable pub parse_ip : String → Option ℕ
unfolding octets
parse_ip s = octets (split_on b'.' s)

-- `net.IP.String`
unfoldable pub ip_text : ℕ → String
ip_text n =
    decimal (n / 16_777_216 % 256)
    <> ("."
        <> (decimal (n / 65_536 % 256)
            <> ("." <> (decimal (n / 256 % 256) <> ("." <> decimal (n % 256))))))

-- The network of an address: the address and the length of the prefix.
pub record IpNet : Type 0 where
  pub ip : ℕ
  pub ones : ℕ

masked : ℕ → ℕ → IpNet
masked address ones = record { ip = address - address % 2 ^ (32 - ones); ones = ones }

-- `net.ParseCIDR`, the network part.
unfoldable pub parse_cidr : String → Option IpNet
unfolding parse_ip masked
parse_cidr s =
    let (host, prefix) = cut b'/' s in
    elim prefix [
      | none ↦ none
      | some length ↦ elim (parse_ip host) [
        | none ↦ none
        | some address ↦ elim (parse_digits length) [
          | none ↦ none
          | some ones ↦ if ltb 32 ones then none else some (masked address ones)
        ]
      ]
    ]

-- `parseHostFromCIDR`: what stands before the first slash, and the text up to the second one.
unfoldable pub parse_host_from_cidr : String → Result (String × String)
parse_host_from_cidr cidr = elim (split_on b'/' cidr) [
  | [] ↦ err (failure "bad cidr")
  | host ∷ rest ↦
      if host == ""
      then err (failure "bad cidr")
      else elim rest [ [] ↦ ok (host, "24") | mask ∷ more ↦ ok (host, mask) ]
]

-- `ipv4Netmask`
unfoldable pub ipv4_netmask : String → String
unfolding ip_text
ipv4_netmask prefix_len = elim (scan_number prefix_len) [
  | none ↦ "255.255.255.0"
  | some (negsuc n) ↦ "255.255.255.0"
  | some (pos bits) ↦ if ltb 32 bits then "255.255.255.0" else ip_text (2 ^ 32 - 2 ^ (32 - bits))
]

-- The candidates from the `host`-th address of the network on, `n` of them; the first one that is not
-- used. The sum is a `uint32`.
unfoldable pub first_unused : (used : List String) → (net : ℕ) → (host n : ℕ) → Option String
unfolding ip_text
first_unused used net host zero = none
first_unused used net host (suc n) =
    let later = first_unused used net (host + 1) n in
    let cand = ip_text ((net + host) % 2 ^ 32) in if contains used cand then later else some cand

-- The number of rounds of `for host := 2; host < maxHosts-1 && host < 250`.
unfoldable pub host_count : (ones : ℕ) → ℕ
host_count ones =
    let max_hosts = 2 ^ (32 - ones) in (if ltb (max_hosts - 1) 250 then max_hosts - 1 else 250) - 2

parses : parse_ip "10.72.160.1" ≡ some 172531713
unfolding parse_ip parse_digits split_on decimal
parses = refl

prints : ip_text 172531713 ≡ "10.72.160.1"
unfolding ip_text decimal
prints = refl

mask_of_24 : ipv4_netmask "24" ≡ "255.255.255.0"
unfolding ipv4_netmask scan_number decimal
mask_of_24 = refl
