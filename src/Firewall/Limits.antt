-- ===== src/Firewall/Limits.antt =====
-- The limits and the counts of the table of microtun-core/src/firewall.rs over a history: inbound
-- packets, the removal of a peer, and a new firewall.
use microtun.Prelude.{
  ℕ, ◌≤◌, ◌≡◌, Bool, not, List, [], ◌∷◌, arith, ◌==◌, Option-cases, inl, inr, if◌then◌else◌,
  u16_max, length-set, length-replicate, get_or-replicate, get_or-set_self, get_or-set_ne,
}
use microtun.Time.{Instant, Duration}
use microtun.Firewall.Packet.{Parsed}
use microtun.Firewall.Icmp.{parse_flow}
use microtun.Firewall.Entries.{PeerIdx, Entry, Firewall, position, retain}
use microtun.Firewall.Inbound.{answers, admit_reply, allow_parsed, allows_inbound}
use microtun.Firewall.Table.{with_limits_and_timeouts, peer_position, remove_peer}
use microtun.Firewall.Search.{Every-retain}
use microtun.Firewall.Owned.{owned, owned-retain, owned_removed, length-retain}
use microtun.Firewall.Victim.{IsConsistent}
use microtun.Firewall.History.{Event, outbound, inbound, removed, step, run}
use microtun.Firewall.Bounds.{refresh-IsConsistent, observe_outbound-IsConsistent}

module _ (max_peers : ℕ) where
  admit_reply-IsConsistent :
      (self : Firewall) (peer : PeerIdx) (parsed : Parsed) (now : Instant)
      → IsConsistent max_peers self
      → IsConsistent max_peers (admit_reply self peer parsed now).0
  unfolding admit_reply
  admit_reply-IsConsistent self peer parsed now c =
      elim (Option-cases (position (answers peer now parsed.key) self.entries)) [
        | inl n ↦ ground (arith, c)
        | inr (at, p) ↦ ground (arith, refresh-IsConsistent max_peers self parsed now at c)
      ]

  pub allows_inbound-IsConsistent :
      (self : Firewall) (peer : PeerIdx) (packet : List ℕ) (now : Instant)
      → IsConsistent max_peers self
      → IsConsistent max_peers (allows_inbound self peer packet now).0
  unfolding allows_inbound allow_parsed
  allows_inbound-IsConsistent self peer packet now c = elim (Option-cases (parse_flow packet)) [
    | inl n ↦ ground (arith, c)
    | inr (parsed, h) ↦ ground (arith, c, admit_reply-IsConsistent self peer parsed now c)
  ]

  pub remove_peer-IsConsistent :
      (self : Firewall) (peer : PeerIdx)
      → IsConsistent max_peers self
      → IsConsistent max_peers (remove_peer max_peers self peer)
  unfolding remove_peer peer_position
  remove_peer-IsConsistent self peer c =
      let keep : Entry → Bool = λ e. not (e.peer == peer) in
      let left : (p : PeerIdx)
          → owned p (retain keep self.entries) ≡ (if p == peer then 0 else owned p self.entries) =
        λ p. owned_removed p peer self.entries in
      record {
        word = c.word;
        size = omega (arith, c.size, length-retain keep self.entries);
        quota = λ p. omega (arith, c.quota p, owned-retain p keep self.entries);
        placed = Every-retain _ keep self.entries c.placed;
        counts = record {
          counted = ground (arith, c.counts.counted, length-set self.peer_counts peer 0);
          exact = λ p l. ground (
            arith,
            left p,
            c.counts.exact p l,
            c.counts.counted,
            get_or-set_self self.peer_counts peer 0 0,
            get_or-set_ne self.peer_counts peer p 0 0,
          );
        };
      }

  step-IsConsistent :
      (self : Firewall) (e : Event)
      → IsConsistent max_peers self
      → IsConsistent max_peers (step max_peers self e)
  unfolding step
  step-IsConsistent self (outbound peer packet now) c =
      observe_outbound-IsConsistent max_peers self peer packet now c
  step-IsConsistent self (inbound peer packet now) c =
      allows_inbound-IsConsistent self peer packet now c
  step-IsConsistent self (removed peer) c = remove_peer-IsConsistent self peer c

  pub with_limits-IsConsistent :
      (max_flows max_entries per_peer : ℕ) (udp_time icmp_time tcp_time closing_time : Duration)
      → max_flows ≤ u16_max
      → IsConsistent max_peers (
          with_limits_and_timeouts max_peers max_flows max_entries per_peer udp_time icmp_time
            tcp_time closing_time)
  unfolding with_limits_and_timeouts owned
  with_limits-IsConsistent max_flows max_entries per_peer udp_time icmp_time tcp_time closing_time
        h =
      record {
        word = omega arith;
        size = omega arith;
        quota = λ p. omega arith;
        placed = tt;
        counts = record {
          counted = length-replicate max_peers 0;
          exact = λ p l. get_or-replicate max_peers p 0;
        };
      }

  -- Whatever packets are sent and received and whichever peers are removed, the table of a new
  -- firewall stays within `max_entries`, no peer owns more entries than its quota, and
  -- `peer_counts` says exactly how many entries each peer owns, where the compile-time ceiling
  -- fits a `u16`.
  pub run-IsConsistent :
      (max_flows max_entries per_peer : ℕ) (udp_time icmp_time tcp_time closing_time : Duration)
      (history : List Event)
      → max_flows ≤ u16_max
      → IsConsistent max_peers (
          run max_peers
            (with_limits_and_timeouts max_peers max_flows max_entries per_peer udp_time icmp_time
              tcp_time closing_time)
            history)
  unfolding run
  run-IsConsistent max_flows max_entries per_peer udp_time icmp_time tcp_time closing_time [] h =
      with_limits-IsConsistent max_flows max_entries per_peer udp_time icmp_time tcp_time
        closing_time h
  run-IsConsistent max_flows max_entries per_peer udp_time icmp_time tcp_time closing_time (e ∷ es)
        h =
      step-IsConsistent _ e (
        run-IsConsistent max_flows max_entries per_peer udp_time icmp_time tcp_time closing_time es
          h)
