-- ===== src/Firewall/Icmp.antt =====
-- The rest of the packet parser of microtun-core/src/firewall.rs: ICMP messages with the packets
-- that they quote, and the dispatch on the protocol of an inner packet.
use microtun.Prelude.Partial.{◌>>=◌, ◌>>◌, guard, get_range, be16}
use microtun.Prelude.{
  ℕ, ◌+◌, ◌*◌, ◌/◌, ◌%◌, Bool, not, ◌&&◌, ◌||◌, Option, none, some, List, leb, ◌==◌, if◌then◌else◌,
  get_elem?,
}
use microtun.Ip.{IpAddr, v4, v6, is_ipv4, IpHeader, parse_header, is_v4_fragment}
use microtun.Firewall.Packet.{
  ipproto_icmp, ipproto_tcp, ipproto_udp, ipproto_icmpv6, icmp_header_len, FlowKey, same_address,
  Kind, echo_request, echo_reply, error, Parsed, parse_transport,
}

abbrev pub icmp4_echo_reply : ℕ
icmp4_echo_reply = 0

abbrev pub icmp4_dest_unreachable : ℕ
icmp4_dest_unreachable = 3

abbrev pub icmp4_echo_request : ℕ
icmp4_echo_request = 8

abbrev pub icmp4_time_exceeded : ℕ
icmp4_time_exceeded = 11

abbrev pub icmp4_parameter_problem : ℕ
icmp4_parameter_problem = 12

abbrev pub icmp6_dest_unreachable : ℕ
icmp6_dest_unreachable = 1

abbrev pub icmp6_packet_too_big : ℕ
icmp6_packet_too_big = 2

abbrev pub icmp6_time_exceeded : ℕ
icmp6_time_exceeded = 3

abbrev pub icmp6_parameter_problem : ℕ
icmp6_parameter_problem = 4

abbrev pub icmp6_echo_request : ℕ
icmp6_echo_request = 128

abbrev pub icmp6_echo_reply : ℕ
icmp6_echo_reply = 129

-- The addresses and the protocol of a quoted packet, and where its transport header starts.
pub record Quoted : Type 0 where
  pub src : IpAddr
  pub dst : IpAddr
  pub protocol : ℕ
  pub offset : ℕ

unfoldable pub quoted_v4 : List ℕ → Option Quoted
quoted_v4 quoted = do
  header ← get_range quoted 0 20
  first ← get_elem? header 0
  let ihl = first % 16 * 4
  guard (leb 20 ihl)
  hi ← get_elem? header 6
  lo ← get_elem? header 7
  guard (be16 hi lo % 0x2000 == 0)
  src ← get_range header 12 16
  dst ← get_range header 16 20
  protocol ← get_elem? header 9
  some (record { src = v4 src; dst = v4 dst; protocol = protocol; offset = ihl })

unfoldable pub quoted_v6 : List ℕ → Option Quoted
quoted_v6 quoted = do
  header ← get_range quoted 0 40
  src ← get_range header 8 24
  dst ← get_range header 24 40
  protocol ← get_elem? header 6
  some (record { src = v6 src; dst = v6 dst; protocol = protocol; offset = 40 })

-- The ports of a quoted TCP or UDP header, or the identifier of a quoted echo request.
unfoldable pub quoted_segment_ports : List ℕ → ℕ → Option (ℕ × ℕ)
quoted_segment_ports quoted offset = do
  a ← get_range quoted offset (offset + 4)
  s0 ← get_elem? a 0
  s1 ← get_elem? a 1
  d0 ← get_elem? a 2
  d1 ← get_elem? a 3
  some (be16 s0 s1, be16 d0 d1)

unfoldable pub quoted_echo_ports : List ℕ → ℕ → ℕ → Option (ℕ × ℕ)
quoted_echo_ports quoted offset protocol = do
  a ← get_range quoted offset (offset + 6)
  message_type ← get_elem? a 0
  guard (
      ((protocol == ipproto_icmp) && (message_type == icmp4_echo_request))
      || ((protocol == ipproto_icmpv6) && (message_type == icmp6_echo_request)))
  hi ← get_elem? a 4
  lo ← get_elem? a 5
  some (be16 hi lo, be16 hi lo)

unfoldable pub quoted_ports : List ℕ → ℕ → ℕ → Option (ℕ × ℕ)
quoted_ports quoted offset protocol =
    if (protocol == ipproto_tcp) || (protocol == ipproto_udp)
    then quoted_segment_ports quoted offset
    else if (protocol == ipproto_icmp) || (protocol == ipproto_icmpv6)
    then quoted_echo_ports quoted offset protocol
    else none

quoted_header : List ℕ → ℕ → Option Quoted
quoted_header quoted version = if version == 4 then quoted_v4 quoted else quoted_v6 quoted

unfoldable pub parse_quoted : List ℕ → ℕ → Option FlowKey
unfolding quoted_header
parse_quoted quoted version = do
  first ← get_elem? quoted 0
  guard (first / 16 == version)
  header ← quoted_header quoted version
  ports ← quoted_ports quoted header.offset header.protocol
  some (record {
    src = header.src;
    dst = header.dst;
    protocol = header.protocol;
    src_port = ports.0;
    dst_port = ports.1;
  })

unfoldable pub is_error_type : ℕ → ℕ → Bool
is_error_type version icmp_type =
    if version == 4
    then (icmp_type == icmp4_dest_unreachable)
      || (icmp_type == icmp4_time_exceeded)
      || (icmp_type == icmp4_parameter_problem)
    else (icmp_type == icmp6_dest_unreachable)
      || (icmp_type == icmp6_packet_too_big)
      || (icmp_type == icmp6_time_exceeded)
      || (icmp_type == icmp6_parameter_problem)

unfoldable pub icmp_echo : List ℕ → IpAddr → IpAddr → ℕ → Kind → Option Parsed
icmp_echo icmp src dst protocol kind = do
  hi ← get_elem? icmp 4
  lo ← get_elem? icmp 5
  some (record {
    key = record {
      src = src;
      dst = dst;
      protocol = protocol;
      src_port = be16 hi lo;
      dst_port = be16 hi lo;
    };
    kind = kind;
  })

unfoldable pub icmp_error : List ℕ → ℕ → ℕ → IpAddr → ℕ → Option Parsed
icmp_error packet total_len offset dst version = do
  quoted ← get_range packet (offset + icmp_header_len) total_len
  key ← parse_quoted quoted version
  guard (same_address key.src dst)
  some (record { key = key; kind = error })

icmp_by_type : List ℕ → List ℕ → ℕ → ℕ → IpAddr → IpAddr → ℕ → ℕ → Option Parsed
icmp_by_type packet icmp total_len offset src dst version icmp_type =
    let protocol = if version == 4 then ipproto_icmp else ipproto_icmpv6 in
    let request = if version == 4 then icmp4_echo_request else icmp6_echo_request in
    let reply = if version == 4 then icmp4_echo_reply else icmp6_echo_reply in
    if icmp_type == request
    then icmp_echo icmp src dst protocol echo_request
    else if icmp_type == reply
    then icmp_echo icmp src dst protocol echo_reply
    else if is_error_type version icmp_type
    then icmp_error packet total_len offset dst version
    else none

unfoldable pub parse_icmp : List ℕ → ℕ → ℕ → IpAddr → IpAddr → ℕ → Option Parsed
unfolding icmp_by_type
parse_icmp packet total_len offset src dst version = do
  guard (leb (offset + icmp_header_len) total_len)
  icmp ← get_range packet offset (offset + icmp_header_len)
  icmp_type ← get_elem? icmp 0
  icmp_by_type packet icmp total_len offset src dst version icmp_type

-- Each family admits its own ICMP only.
pub by_protocol : List ℕ → IpHeader → Option Parsed
by_protocol packet h =
    if (h.protocol == ipproto_tcp) || (h.protocol == ipproto_udp)
    then parse_transport packet h.total_len h.header_len h.src h.dst h.protocol
    else if (h.protocol == ipproto_icmp) && is_ipv4 h.src
    then parse_icmp packet h.total_len h.header_len h.src h.dst 4
    else if (h.protocol == ipproto_icmpv6) && not (is_ipv4 h.src)
    then parse_icmp packet h.total_len h.header_len h.src h.dst 6
    else none

unfoldable pub parse_flow : List ℕ → Option Parsed
unfolding by_protocol
parse_flow packet = do
  header ← parse_header packet
  guard (not (is_v4_fragment packet))
  by_protocol packet header
