-- ===== src/Firewall/Tests.antt =====
-- Runs of the firewall of microtun-core/src/firewall.rs: a DNS query, its answer and a stranger.
use microtun.Prelude.Partial.{get_range}
use microtun.Prelude.{ℕ, ◌≡◌, ◌≢◌, ◌⊎◌, refl, true, some, List, [], ◌∷◌, arith, inl}
use microtun.Ip.{v4, parse_header, parse_v4_header, is_v4_fragment}
use microtun.Firewall.Packet.{
  FlowKey, udp, error, Parsed, parse_transport, is_reverse_of, same_address_refl, opens_new_flow,
}
use microtun.Firewall.Icmp.{parse_flow}
use microtun.Firewall.Entries.{Firewall, retain}
use microtun.Firewall.Inbound.{allows_inbound}
use microtun.Firewall.Table.{with_limits_and_timeouts, observe_outbound}
use microtun.Firewall.Owned.{owned}
use microtun.Firewall.Victim.{IsConsistent}
use microtun.Firewall.Limits.{with_limits-IsConsistent, run-IsConsistent}
use microtun.Firewall.Fairness.{flows, flows-observe_outbound}
use microtun.Firewall.Replies.{reply_after_outbound}
use microtun.Firewall.History.{Event, outbound, inbound, removed, step, run, Opened}
use microtun.Firewall.Effect.{Refreshes, allows_inbound_effect}
use microtun.Firewall.Established.{Established, allows_inbound-Established}

abbrev query : List ℕ
query =
    0x45 ∷ 0 ∷ 0 ∷ 28 ∷ 0 ∷ 0 ∷ 0 ∷ 0 ∷ 64 ∷ 17 ∷ 0 ∷ 0 ∷ 10 ∷ 0 ∷ 0 ∷ 1 ∷ 10 ∷ 0 ∷ 0 ∷ 2 ∷ 4 ∷ 0
    ∷ 0 ∷ 53 ∷ 0 ∷ 8 ∷ 0 ∷ 0 ∷ []

abbrev answer : List ℕ
answer =
    0x45 ∷ 0 ∷ 0 ∷ 28 ∷ 0 ∷ 0 ∷ 0 ∷ 0 ∷ 64 ∷ 17 ∷ 0 ∷ 0 ∷ 10 ∷ 0 ∷ 0 ∷ 2 ∷ 10 ∷ 0 ∷ 0 ∷ 1 ∷ 0 ∷ 53
    ∷ 4 ∷ 0 ∷ 0 ∷ 8 ∷ 0 ∷ 0 ∷ []

abbrev there : FlowKey
there = record {
  src = v4 (10 ∷ 0 ∷ 0 ∷ 1 ∷ []);
  dst = v4 (10 ∷ 0 ∷ 0 ∷ 2 ∷ []);
  protocol = 17;
  src_port = 1024;
  dst_port = 53;
}

abbrev back : FlowKey
back = record {
  src = v4 (10 ∷ 0 ∷ 0 ∷ 2 ∷ []);
  dst = v4 (10 ∷ 0 ∷ 0 ∷ 1 ∷ []);
  protocol = 17;
  src_port = 53;
  dst_port = 1024;
}

abbrev sent : Parsed
sent = record { key = there; kind = udp }

abbrev received : Parsed
received = record { key = back; kind = udp }

-- Four peers, two entries, one for each peer.
abbrev start : Firewall
start = with_limits_and_timeouts 4 64 2 1 60000 30000 1800000 30000

sent_lem : parse_flow query ≡ some sent
unfolding parse_flow parse_header parse_v4_header is_v4_fragment parse_transport get_range
sent_lem = refl

received_lem : parse_flow answer ≡ some received
unfolding parse_flow parse_header parse_v4_header is_v4_fragment parse_transport get_range
received_lem = refl

start-IsConsistent : IsConsistent 4 start
start-IsConsistent = with_limits-IsConsistent 4 64 2 1 60000 30000 1800000 30000 (omega arith)

abbrev events : List Event
events = inbound 3 answer 6 ∷ outbound 3 query 5 ∷ removed 3 ∷ outbound 3 query 1 ∷ []

run-IsConsistent_example : IsConsistent 4 (run 4 start events)
run-IsConsistent_example = run-IsConsistent 4 64 2 1 60000 30000 1800000 30000 events (omega arith)

reverse_lem : is_reverse_of back there ≡ true
unfolding is_reverse_of
reverse_lem = ground (
  arith,
  same_address_refl (v4 (10 ∷ 0 ∷ 0 ∷ 1 ∷ [])),
  same_address_refl (v4 (10 ∷ 0 ∷ 0 ∷ 2 ∷ [])),
)

reply_after_outbound_example :
    (allows_inbound (observe_outbound 4 start 3 query 5) 3 answer 900).1 ≡ true
unfolding with_limits_and_timeouts opens_new_flow
reply_after_outbound_example =
    reply_after_outbound 4 start 3 sent received query answer 5 900 30000 start-IsConsistent
      (omega arith) (omega arith) (omega arith) (omega arith)
      (record {
        udp_time = omega arith;
        icmp_time = omega arith;
        tcp_time = omega arith;
        closing_time = omega arith;
      })
      sent_lem refl received_lem refl reverse_lem (omega arith)

flows-observe_outbound_example : flows 2 5 (observe_outbound 4 start 3 query 5) ≡ flows 2 5 start
unfolding with_limits_and_timeouts retain owned
flows-observe_outbound_example =
    flows-observe_outbound 4 2 5 start 3 query start-IsConsistent (λ e. cc) (inl (omega arith))

answered : (allows_inbound (run 4 start (outbound 3 query 5 ∷ [])) 3 answer 900).1 ≡ true
unfolding run step observe_outbound
answered = reply_after_outbound_example

allows_inbound-Established_example :
    (parsed : Parsed) × (parse_flow answer ≡ some parsed)
    × Established (λ key. Opened 3 key (outbound 3 query 5 ∷ [])) parsed
allows_inbound-Established_example =
    allows_inbound-Established 4 64 2 1 60000 30000 1800000 30000 (outbound 3 query 5 ∷ []) 3 answer
      900 answered

allows_inbound_effect_example :
    let r = allows_inbound start 3 answer 900 in
    (r.0 ≡ start)
    ⊎ ((r.1 ≡ true)
        × ((parsed : Parsed) × (parse_flow answer ≡ some parsed)
            × (parsed.kind ≢ error)
            × Refreshes start 3 parsed 900 r.0))
allows_inbound_effect_example = allows_inbound_effect start 3 answer 900
