-- ===== src/Firewall/Packet.antt =====
-- Flows of microtun-core/src/firewall.rs: their keys, the kinds of packets, and the parser of TCP
-- and UDP segments.
use native.Mathlib.Decide.{ℕ_discrete}
use microtun.Prelude.Partial.{◌>>=◌, ◌>>◌, guard, get_range, be16}
use microtun.Prelude.{
  refl, ◌≡◌, arith, ℕ, ◌+◌, Bool, true, false, not, ◌&&◌, Option, none, some, List, leb, ◌==◌,
  if◌then◌else◌, get_elem?, bit_and, bit_or,
}
use microtun.Ip.{IpAddr, IpAddr-discrete}
use mathlib.Core.Bool.{decide}

abbrev pub ipproto_icmp : ℕ
ipproto_icmp = 1

abbrev pub ipproto_tcp : ℕ
ipproto_tcp = 6

abbrev pub ipproto_udp : ℕ
ipproto_udp = 17

abbrev pub ipproto_icmpv6 : ℕ
ipproto_icmpv6 = 58

abbrev pub tcp_fin : ℕ
tcp_fin = 0x01

abbrev pub tcp_syn : ℕ
tcp_syn = 0x02

abbrev pub tcp_rst : ℕ
tcp_rst = 0x04

abbrev pub tcp_ack : ℕ
tcp_ack = 0x10

abbrev pub icmp_header_len : ℕ
icmp_header_len = 8

pub record FlowKey : Type 0 where
  pub src : IpAddr
  pub dst : IpAddr
  pub protocol : ℕ
  pub src_port : ℕ
  pub dst_port : ℕ

unfoldable pub FlowKey-discrete : Discrete FlowKey
unfolding ℕ_discrete IpAddr-discrete
FlowKey-discrete = hlevel (ℕ_discrete, IpAddr-discrete)

unfoldable pub same_address : IpAddr → IpAddr → Bool
same_address a b = decide (IpAddr-discrete a b)

pub same_address_refl : (a : IpAddr) → same_address a a ≡ true
unfolding same_address decide
same_address_refl a = elim (IpAddr-discrete a a) [
  | yes p ↦ ground (arith, p)
  | no n ↦ absurd (n refl)
]

unfoldable pub is_reverse_of : FlowKey → FlowKey → Bool
unfolding same_address
is_reverse_of self other =
    (self.protocol == other.protocol)
    && same_address self.src other.dst
    && same_address self.dst other.src
    && (self.src_port == other.dst_port)
    && (self.dst_port == other.src_port)

pub data Kind : Type 0 where
  tcp : ℕ → Kind
  udp echo_request echo_reply error : Kind

pub record Parsed : Type 0 where
  pub key : FlowKey
  pub kind : Kind

-- `flags & TCP_SYN != 0 && flags & TCP_ACK == 0`
unfoldable pub bare_syn : ℕ → Bool
bare_syn flags = not (bit_and flags tcp_syn == 0) && (bit_and flags tcp_ack == 0)

pub opens : Kind → Bool
unfolding bare_syn
opens udp = true
opens echo_request = true
opens (tcp flags) = bare_syn flags
opens _ = false

unfoldable pub opens_new_flow : Parsed → Bool
unfolding opens
opens_new_flow self = opens self.kind

pub closes : Kind → Bool
closes (tcp flags) = not (bit_and flags (bit_or tcp_fin tcp_rst) == 0)
closes _ = false

unfoldable pub is_closing : Parsed → Bool
unfolding closes
is_closing self = closes self.kind

unfoldable pub plausible_tcp_flags : ℕ → Bool
plausible_tcp_flags f =
    not (bit_and f (bit_or tcp_syn tcp_fin) == bit_or tcp_syn tcp_fin)
    && not (bit_and f (bit_or tcp_syn tcp_rst) == bit_or tcp_syn tcp_rst)
    && not (bit_and f (bit_or tcp_fin tcp_rst) == bit_or tcp_fin tcp_rst)
    && not (bit_and f (bit_or (bit_or tcp_syn tcp_fin) (bit_or tcp_rst tcp_ack)) == 0)

-- The kind of a TCP or UDP segment; `none` for flags that no conforming stack sends.
pub transport_kind : ℕ → List ℕ → Option Kind
transport_kind protocol transport =
    if protocol == ipproto_tcp
    then (get_elem? transport 13 >>= λ flags. guard (plausible_tcp_flags flags) >> some (tcp flags))
    else some udp

unfoldable pub parse_transport : List ℕ → ℕ → ℕ → IpAddr → IpAddr → ℕ → Option Parsed
unfolding transport_kind
parse_transport packet total_len offset src dst protocol = do
  minimum ←
      if protocol == ipproto_tcp then some 20 else if protocol == ipproto_udp then some 8 else none
  guard (leb (offset + minimum) total_len)
  transport ← get_range packet offset (offset + minimum)
  s0 ← get_elem? transport 0
  s1 ← get_elem? transport 1
  d0 ← get_elem? transport 2
  d1 ← get_elem? transport 3
  kind ← transport_kind protocol transport
  some (record {
    key = record {
      src = src;
      dst = dst;
      protocol = protocol;
      src_port = be16 s0 s1;
      dst_port = be16 d0 d1;
    };
    kind = kind;
  })
