-- ===== src/Firewall/Inbound.antt =====
-- Packets of tracked flows in microtun-core/src/firewall.rs: what refreshes an entry, and the
-- decision on an inbound packet.
use microtun.Prelude.{
  ℕ, Bool, true, false, ◌&&◌, ◌||◌, none, some, List, ◌==◌, if◌then◌else◌, get_elem?, set,
}
use microtun.Time.{Instant, saturating_add}
use microtun.Firewall.Packet.{
  FlowKey, is_reverse_of, tcp, echo_request, error, Parsed, bare_syn, is_closing,
}
use microtun.Firewall.Icmp.{parse_flow}
use microtun.Firewall.Entries.{
  PeerIdx, Entry, Firewall, effective_timeout, position, is_live, same_flow,
}

-- What a packet of a tracked flow does to its entry.
unfoldable pub refreshed : Firewall → Parsed → Instant → Entry → Entry
refreshed self parsed now entry =
    let seen : Entry = record entry {
      last_seen = now;
      closing = entry.closing || is_closing parsed;
    } in
    record seen { expires = saturating_add now (effective_timeout self seen) }

unfoldable pub refresh : Firewall → Parsed → Instant → ℕ → Firewall
refresh self parsed now at = elim (get_elem? self.entries at) [
  | none ↦ self
  | some entry ↦ record self { entries = set self.entries at (refreshed self parsed now entry) }
]

unfoldable pub fresh : Firewall → PeerIdx → Parsed → Instant → Entry
fresh self peer parsed now =
    let entry : Entry = record {
      peer = peer;
      flow = parsed.key;
      expires = now;
      last_seen = now;
      closing = false;
    } in
    record entry { expires = saturating_add now (effective_timeout self entry) }

unfoldable pub owns : PeerIdx → Instant → FlowKey → Entry → Bool
owns peer now key e = (e.peer == peer) && is_live now e && same_flow e.flow key

unfoldable pub answers : PeerIdx → Instant → FlowKey → Entry → Bool
answers peer now key e = (e.peer == peer) && is_live now e && is_reverse_of key e.flow

-- The reply to a flow: its entry is refreshed.
unfoldable pub admit_reply : Firewall → PeerIdx → Parsed → Instant → Firewall × Bool
admit_reply self peer parsed now = elim (position (answers peer now parsed.key) self.entries) [
  | none ↦ (self, false)
  | some at ↦ (refresh self parsed now at, true)
]

unfoldable pub is_related : Firewall → PeerIdx → FlowKey → Instant → Bool
is_related self peer key now = elim (position (owns peer now key) self.entries) [
  | none ↦ false
  | some at ↦ true
]

unfoldable pub allow_parsed : Firewall → PeerIdx → Parsed → Instant → Firewall × Bool
allow_parsed self peer parsed now = elim parsed.kind [
  | error ↦ (self, is_related self peer parsed.key now)
  | echo_request ↦ (self, false)
  | tcp flags ↦ if bare_syn flags then (self, false) else admit_reply self peer parsed now
  | _ ↦ admit_reply self peer parsed now
]

unfoldable pub allows_inbound : Firewall → PeerIdx → List ℕ → Instant → Firewall × Bool
allows_inbound self peer packet now = elim (parse_flow packet) [
  | none ↦ (self, false)
  | some parsed ↦ allow_parsed self peer parsed now
]
