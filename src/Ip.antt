-- ===== src/Ip.antt =====
-- microtun-core/src/ip.rs: addresses, the validated inner IP header, and canonical addresses.
-- A packet is the list of its bytes; an address is the list of its octets.
pub mod Header
use native.Mathlib.Decide.{ℕ_discrete}
use microtun.Prelude.Partial.{◌>>=◌, ◌>>◌, guard, get_range, be16}
use microtun.Prelude.{
  ℕ, zero, suc, ◌+◌, ◌-◌, ◌*◌, ◌/◌, ◌%◌, ◌≤◌, Bool, true, false, not, ◌&&◌, ◌||◌, Option, none,
  some, List, [], ◌∷◌, arith, ltb, leb, ◌==◌, if◌then◌else◌, length, get_elem?, take, drop,
}

pub data IpAddr : Type 0 where
  v4 : List ℕ → IpAddr
  v6 : List ℕ → IpAddr

unfoldable pub IpAddr-discrete : Discrete IpAddr
unfolding ℕ_discrete
IpAddr-discrete = hlevel ℕ_discrete

abbrev pub is_ipv4 : IpAddr → Bool
is_ipv4 (v4 o) = true
is_ipv4 (v6 o) = false

-- `Ipv6Addr::to_ipv4_mapped`: ::ffff:a.b.c.d
unfoldable pub to_ipv4_mapped : List ℕ → Option (List ℕ)
to_ipv4_mapped (o0 ∷ o1 ∷ o2 ∷ o3 ∷ o4 ∷ o5 ∷ o6 ∷ o7 ∷ o8 ∷ o9 ∷ o10 ∷ o11 ∷ a ∷ b ∷ c ∷ d ∷ []) =
    if (o0 + o1 + o2 + o3 + o4 + o5 + o6 + o7 + o8 + o9 == 0) && (o10 == 0xff) && (o11 == 0xff)
    then some (a ∷ b ∷ c ∷ d ∷ [])
    else none
to_ipv4_mapped other = none

unfoldable pub unmap_ip : IpAddr → IpAddr
unmap_ip (v6 o) = elim (to_ipv4_mapped o) [ none ↦ v6 o | some a ↦ v4 a ]
unmap_ip (v4 o) = v4 o

pub record IpHeader : Type 0 where
  pub src : IpAddr
  pub dst : IpAddr
  pub protocol : ℕ
  pub header_len : ℕ
  pub total_len : ℕ

-- `first >> 4` is `first / 16` and `first & 0x0f` is `first % 16`.
unfoldable pub parse_v4_header : List ℕ → Option IpHeader
parse_v4_header packet = do
  first ← get_elem? packet 0
  guard (not (ltb (length packet) 20) && (first / 16 == 4))
  let header_len = first % 16 * 4
  guard (leb 20 header_len && leb header_len (length packet))
  hi ← get_elem? packet 2
  lo ← get_elem? packet 3
  let total_len = be16 hi lo
  guard (leb header_len total_len && leb total_len (length packet))
  src ← get_range packet 12 16
  dst ← get_range packet 16 20
  protocol ← get_elem? packet 9
  some (record {
    src = v4 src;
    dst = v4 dst;
    protocol = protocol;
    header_len = header_len;
    total_len = total_len;
  })

unfoldable pub parse_v6_header : List ℕ → Option IpHeader
parse_v6_header packet = do
  first ← get_elem? packet 0
  guard (not (ltb (length packet) 40) && (first / 16 == 6))
  hi ← get_elem? packet 4
  lo ← get_elem? packet 5
  let total_len = 40 + be16 hi lo
  guard (leb total_len (length packet))
  src ← get_range packet 8 24
  dst ← get_range packet 24 40
  protocol ← get_elem? packet 6
  some (record {
    src = v6 src;
    dst = v6 dst;
    protocol = protocol;
    header_len = 40;
    total_len = total_len;
  })

pub by_version : ℕ → List ℕ → Option IpHeader
by_version version packet =
    if version == 4
    then parse_v4_header packet
    else if version == 6
    then parse_v6_header packet
    else none

unfoldable pub parse_header : List ℕ → Option IpHeader
unfolding by_version
parse_header packet = do first ← get_elem? packet 0; by_version (first / 16) packet

-- `... & 0x3fff != 0` on the flags and the offset; a short packet is no fragment.
unfoldable pub is_v4_fragment : List ℕ → Bool
is_v4_fragment packet = elim (get_elem? packet 0) [
  | none ↦ false
  | some first ↦ elim (get_elem? packet 6) [
    | none ↦ false
    | some hi ↦ elim (get_elem? packet 7) [
      | none ↦ false
      | some lo ↦ leb 20 (length packet) && (first / 16 == 4) && not (be16 hi lo % 0x4000 == 0)
    ]
  ]
]
