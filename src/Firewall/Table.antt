-- ===== src/Firewall/Table.antt =====
-- The table of flows of microtun-core/src/firewall.rs: its counts of the entries of each peer,
-- outbound packets, and the removal of a peer. The entries are a `Vec` (the heap backend), and
-- `peer_counts` has one `u16` for each of the `max_peers` places of the peer table.
use microtun.Prelude.{
  ℕ, ◌-◌, min, not, Option, none, some, List, [], ◌∷◌, ◌++◌, ltb, leb, ◌==◌, if◌then◌else◌, length,
  get_elem?, set, get_or, replicate, sat_add16,
}
use microtun.Time.{Instant, Duration}
use microtun.Firewall.Packet.{error, Parsed, opens_new_flow}
use microtun.Firewall.Icmp.{parse_flow}
use microtun.Firewall.Entries.{
  PeerIdx, Entry, Firewall, position, retain, is_live, victim_owned_by, largest_owner,
}
use microtun.Firewall.Inbound.{refresh, fresh, owns}

module _ (max_peers : ℕ) where
  unfoldable pub with_limits_and_timeouts :
      ℕ → ℕ → ℕ → Duration → Duration → Duration → Duration → Firewall
  with_limits_and_timeouts max_flows max_entries per_peer udp_time icmp_time tcp_time closing_time =
      record {
        udp_timeout = udp_time;
        icmp_timeout = icmp_time;
        tcp_timeout = tcp_time;
        tcp_closing_timeout = closing_time;
        max_entries = min max_entries max_flows;
        max_entries_per_peer = min (min per_peer max_entries) max_flows;
        entries = [];
        peer_counts = replicate max_peers 0;
      }

  unfoldable pub peer_position : PeerIdx → Option ℕ
  peer_position peer = if ltb peer max_peers then some peer else none

  unfoldable pub peer_count : Firewall → PeerIdx → ℕ
  peer_count self peer = elim (peer_position peer) [
    | none ↦ 0
    | some at ↦ get_or self.peer_counts at 0
  ]

  unfoldable pub increment : List ℕ → PeerIdx → List ℕ
  increment counts peer = elim (peer_position peer) [
    | none ↦ counts
    | some at ↦ set counts at (sat_add16 (get_or counts at 0) 1)
  ]

  unfoldable pub decrement : List ℕ → PeerIdx → List ℕ
  decrement counts peer = elim (peer_position peer) [
    | none ↦ counts
    | some at ↦ set counts at (get_or counts at 0 - 1)
  ]

  unfoldable pub recount : List Entry → List ℕ → List ℕ
  recount [] counts = counts
  recount (e ∷ es) counts = recount es (increment counts e.peer)

  unfoldable pub rebuild_peer_counts : Firewall → Firewall
  rebuild_peer_counts self = record self {
    peer_counts = recount self.entries (replicate (length self.peer_counts) 0);
  }

  unfoldable pub collect_expired : Instant → Firewall → Firewall
  collect_expired now self =
      let kept = retain (is_live now) self.entries in
      let self' : Firewall = record self { entries = kept } in
      if length kept == length self.entries then self' else rebuild_peer_counts self'

  unfoldable pub fair_victim : Firewall → PeerIdx → Option ℕ
  fair_victim self requester =
      let own = victim_owned_by self requester in
      if leb self.max_entries_per_peer (peer_count self requester)
      then own
      else elim (largest_owner 0 (peer_count self requester) none self.peer_counts) [
        | none ↦ own
        | some owner ↦ elim (victim_owned_by self owner) [ none ↦ own | some at ↦ some at ]
      ]

  unfoldable pub replace : Firewall → ℕ → Entry → Firewall
  replace self at entry = elim (get_elem? self.entries at) [
    | none ↦ self
    | some previous ↦ record self {
      entries = set self.entries at entry;
      peer_counts =
          if previous.peer == entry.peer
          then self.peer_counts
          else increment (decrement self.peer_counts previous.peer) entry.peer;
    }
  ]

  -- `none` when the table is full.
  unfoldable pub push : Firewall → Entry → Option Firewall
  push self entry =
      if leb self.max_entries (length self.entries)
      then none
      else some (record self {
        entries = self.entries ++ entry ∷ [];
        peer_counts = increment self.peer_counts entry.peer;
      })

  unfoldable pub recycle : Firewall → Entry → Firewall
  recycle self entry = elim (fair_victim self entry.peer) [
    | none ↦ self
    | some at ↦ replace self at entry
  ]

  -- The end of `observe_outbound`, once the expired entries are gone.
  unfoldable pub store : Firewall → Entry → Firewall
  store self entry =
      if ltb (peer_count self entry.peer) self.max_entries_per_peer
      then elim (push self entry) [ none ↦ recycle self entry | some self' ↦ self' ]
      else recycle self entry

  unfoldable pub open_flow : Firewall → PeerIdx → Parsed → Instant → Firewall
  open_flow self peer parsed now =
      if opens_new_flow parsed
      then store (collect_expired now self) (fresh self peer parsed now)
      else self

  unfoldable pub track : Firewall → PeerIdx → Parsed → Instant → Firewall
  track self peer parsed now = elim (position (owns peer now parsed.key) self.entries) [
    | some at ↦ refresh self parsed now at
    | none ↦ open_flow self peer parsed now
  ]

  unfoldable pub observe_parsed : Firewall → PeerIdx → Parsed → Instant → Firewall
  observe_parsed self peer parsed now = elim parsed.kind [
    | error ↦ self
    | _ ↦ track self peer parsed now
  ]

  unfoldable pub observe_outbound : Firewall → PeerIdx → List ℕ → Instant → Firewall
  observe_outbound self peer packet now = elim (peer_position peer) [
    | none ↦ self
    | some at ↦ elim (parse_flow packet) [
      | none ↦ self
      | some parsed ↦ observe_parsed self peer parsed now
    ]
  ]

  unfoldable pub remove_peer : Firewall → PeerIdx → Firewall
  remove_peer self peer = record self {
    entries = retain (λ e. not (e.peer == peer)) self.entries;
    peer_counts = elim (peer_position peer) [
      | none ↦ self.peer_counts
      | some at ↦ set self.peer_counts at 0
    ];
  }
