-- ===== src/Ip/Header.antt =====
-- What `parse_header` of microtun-core/src/ip.rs guarantees of a header that it returns.
use microtun.Prelude.Partial.{get_elem?-take, get_range-take}
use microtun.Prelude.{ℕ, ◌≤◌, ◌≡◌, some, List, arith, length, take, length-take, inl, inr, ◌⊎◌}
use microtun.Ip.{IpAddr, v4, v6, IpHeader, parse_v4_header, parse_v6_header, parse_header}

-- The octets of an address of the header.
abbrev pub octets : IpAddr → ℕ
octets (v4 o) = length o
octets (v6 o) = length o

-- The lengths agree with the packet, so `packet[..total_len]` and everything below it can be read.
pub record IsWithin (packet : List ℕ) (h : IpHeader) : Type 0 where
  pub fixed : 20 ≤ h.header_len
  pub header : h.header_len ≤ h.total_len
  pub total : h.total_len ≤ length packet

v4_header-IsWithin :
    (packet : List ℕ) {h : IpHeader} → parse_v4_header packet ≡ some h → IsWithin packet h
unfolding parse_v4_header
v4_header-IsWithin packet e = ground arith

v6_header-IsWithin :
    (packet : List ℕ) {h : IpHeader} → parse_v6_header packet ≡ some h → IsWithin packet h
unfolding parse_v6_header
v6_header-IsWithin packet e = ground arith

parse_cases :
    (packet : List ℕ) {h : IpHeader}
    → parse_header packet ≡ some h
    → (parse_v4_header packet ≡ some h) ⊎ (parse_v6_header packet ≡ some h)
unfolding parse_header
parse_cases packet e = ground arith

-- A header that parses lies in the packet: at least 20 bytes of header, then the payload, all of
-- it present.
pub parse_header-IsWithin :
    (packet : List ℕ) (h : IpHeader) → parse_header packet ≡ some h → IsWithin packet h
parse_header-IsWithin packet h e = elim (parse_cases packet e) [
  | inl p ↦ v4_header-IsWithin packet p
  | inr p ↦ v6_header-IsWithin packet p
]

v4_trim :
    (packet : List ℕ) (h : IpHeader)
    → parse_v4_header packet ≡ some h
    → parse_v4_header (take h.total_len packet) ≡ some h
unfolding parse_v4_header
v4_trim packet h e =
    let w = v4_header-IsWithin packet e in
    let n = h.total_len in
    rw
      (
        get_elem?-take n 0 packet (omega arith),
        get_elem?-take n 2 packet (omega arith),
        get_elem?-take n 3 packet (omega arith),
        get_elem?-take n 9 packet (omega arith),
        get_range-take n 12 16 packet (omega arith),
        get_range-take n 16 20 packet (omega arith),
        length-take n packet,
      )
      (ground arith)

v6_trim :
    (packet : List ℕ) (h : IpHeader)
    → parse_v6_header packet ≡ some h
    → parse_v6_header (take h.total_len packet) ≡ some h
unfolding parse_v6_header
v6_trim packet h e =
    let w = v6_header-IsWithin packet e in
    let n = h.total_len in
    let wide : 40 ≤ n = ground arith in
    rw
      (
        get_elem?-take n 0 packet (omega arith),
        get_elem?-take n 4 packet (omega arith),
        get_elem?-take n 5 packet (omega arith),
        get_elem?-take n 6 packet (omega arith),
        get_range-take n 8 24 packet (omega arith),
        get_range-take n 24 40 packet (omega arith),
        length-take n packet,
      )
      (ground arith)

-- Trimming a packet to its own length, which drops the padding of the tunnel, changes nothing that
-- the parser reads: the delivery path and the firewall see one packet.
pub parse_header_trim :
    (packet : List ℕ) (h : IpHeader)
    → parse_header packet ≡ some h
    → parse_header (take h.total_len packet) ≡ some h
unfolding parse_header
parse_header_trim packet h e =
    let w = parse_header-IsWithin packet h e in
    rw (get_elem?-take h.total_len 0 packet (omega arith))
      (ground (arith, v4_trim packet h, v6_trim packet h))
