-- ===== src/Firewall/Established.antt =====
-- `InboundPolicy::EstablishedOnly` of microtun-core/src/firewall.rs, over any history of the firewall.
use mathlib.Core.Bool.{decide}
use microtun.Prelude.All.{Every-get_elem?, Every-map}
use microtun.Prelude.{
  ℕ, ◌≡◌, refl, subst, true, some, List, [], ◌∷◌, arith, ◌⊎◌, Option-cases, inl, inr,
}
use microtun.Time.{Instant, Duration}
use microtun.Firewall.Packet.{
  FlowKey, FlowKey-discrete, is_reverse_of, Kind, tcp, udp, echo_request, echo_reply, error, Parsed,
}
use microtun.Firewall.Icmp.{parse_flow}
use microtun.Firewall.Entries.{PeerIdx, Entry, Firewall, position, same_flow}
use microtun.Firewall.Inbound.{owns, answers, admit_reply, is_related, allow_parsed, allows_inbound}
use microtun.Firewall.Table.{with_limits_and_timeouts, remove_peer}
use microtun.Firewall.Search.{position_sound, Every-retain_map}
use microtun.Firewall.Tracked.{Tracked, observe_outbound-Tracked, allows_inbound-Tracked}
use microtun.Firewall.History.{Event, outbound, inbound, removed, step, run, Opened}

-- Every entry was opened.
step-Opened :
    (max_peers : ℕ) (self : Firewall) (e : Event) (es : List Event)
    → Tracked (λ p k. Opened p k es) self
    → Tracked (λ p k. Opened p k (e ∷ es)) (step max_peers self e)
unfolding step remove_peer
step-Opened max_peers self (outbound peer packet now) es t =
    observe_outbound-Tracked _ max_peers self peer packet now
      (Every-map _ _ self.entries (λ x o. inr o) t) (λ key o. inl (refl, o))
step-Opened max_peers self (inbound peer packet now) es t =
    allows_inbound-Tracked _ self peer packet now t
step-Opened max_peers self (removed peer) es t =
    Every-retain_map _ _ _ self.entries (λ e k o. (ground arith, o)) t

run-Opened :
    (max_peers : ℕ) (self : Firewall) (es : List Event)
    → self.entries ≡ []
    → Tracked (λ p k. Opened p k es) (run max_peers self es)
unfolding run
run-Opened max_peers self [] h = rw h tt
run-Opened max_peers self (e ∷ es) h = step-Opened max_peers _ e es (run-Opened max_peers self es h)

-- What lets a packet in, where `history` says which flows the peer has.
abbrev pub Established : (FlowKey → Type 0) → Parsed → Type 0
Established opened parsed =
    ((parsed.kind ≡ error) × opened parsed.key)
    ⊎ ((flow : FlowKey) × (is_reverse_of parsed.key flow ≡ true) × opened flow)

pub owns_sound :
    (peer : PeerIdx) (now : Instant) (key : FlowKey) (e : Entry)
    → owns peer now key e ≡ true
    → (e.peer ≡ peer) × (e.flow ≡ key)
unfolding owns same_flow decide
owns_sound peer now key e h = elim (FlowKey-discrete e.flow key) [
  | yes p ↦ ground (arith, p)
  | no p ↦ absurd (ground arith)
]

pub answers_sound :
    (peer : PeerIdx) (now : Instant) (key : FlowKey) (e : Entry)
    → answers peer now key e ≡ true
    → (e.peer ≡ peer) × (is_reverse_of key e.flow ≡ true)
unfolding answers
answers_sound peer now key e h = ground arith

-- `P` is what is known of every entry.
module _ (P : PeerIdx → FlowKey → Type 0) where
  related_why :
      (self : Firewall) (peer : PeerIdx) (key : FlowKey) (now : Instant)
      → Tracked P self
      → is_related self peer key now ≡ true
      → P peer key
  unfolding is_related
  related_why self peer key now t h =
      elim (Option-cases (position (owns peer now key) self.entries)) [
        | inl n ↦ absurd (ground arith)
        | inr (at, p) ↦
            let (e, here, m) = position_sound _ self.entries at p in
            let (same_peer, same_key) = owns_sound peer now key e m in
            subst (λ k. P peer k) same_key
              (subst (λ q. P q e.flow) same_peer (Every-get_elem? _ self.entries at t here))
      ]

  reply_why :
      (self : Firewall) (peer : PeerIdx) (parsed : Parsed) (now : Instant)
      → Tracked P self
      → (admit_reply self peer parsed now).1 ≡ true
      → (flow : FlowKey) × (is_reverse_of parsed.key flow ≡ true) × P peer flow
  unfolding admit_reply
  reply_why self peer parsed now t h =
      elim (Option-cases (position (answers peer now parsed.key) self.entries)) [
        | inl n ↦ absurd (ground arith)
        | inr (at, p) ↦
            let (e, here, m) = position_sound _ self.entries at p in
            let (same_peer, reverse) = answers_sound peer now parsed.key e m in
            (
              e.flow,
              reverse,
              subst (λ q. P q e.flow) same_peer (Every-get_elem? _ self.entries at t here),
            )
      ]

  kind_why :
      (self : Firewall) (peer : PeerIdx) (parsed : Parsed) (now : Instant) (kind : Kind)
      → Tracked P self
      → parsed.kind ≡ kind
      → (allow_parsed self peer parsed now).1 ≡ true
      → Established (P peer) parsed
  unfolding allow_parsed
  kind_why self peer parsed now error t k h =
      inl (k, related_why self peer parsed.key now t (ground arith))
  kind_why self peer parsed now echo_request t k h = absurd (ground arith)
  kind_why self peer parsed now echo_reply t k h =
      inr (reply_why self peer parsed now t (ground arith))
  kind_why self peer parsed now udp t k h = inr (reply_why self peer parsed now t (ground arith))
  kind_why self peer parsed now (tcp flags) t k h =
      inr (reply_why self peer parsed now t (ground arith))

  allowed_why :
      (self : Firewall) (peer : PeerIdx) (packet : List ℕ) (now : Instant)
      → Tracked P self
      → (allows_inbound self peer packet now).1 ≡ true
      → (parsed : Parsed) × (parse_flow packet ≡ some parsed) × Established (P peer) parsed
  unfolding allows_inbound
  allowed_why self peer packet now t h = elim (Option-cases (parse_flow packet)) [
    | inl n ↦ absurd (ground arith)
    | inr (parsed, e) ↦ (parsed, e, kind_why self peer parsed now parsed.kind t refl (ground arith))
  ]

-- After any history of a new firewall, a packet from a peer is let in only if a packet that was
-- sent to that peer before, with no removal of the peer since, opened the flow that it answers, or,
-- for an ICMP error, the flow of the packet that it quotes.
pub allows_inbound-Established :
    (max_peers max_flows max_entries per_peer : ℕ)
    (udp_time icmp_time tcp_time closing_time : Duration) (history : List Event) (peer : PeerIdx)
    (packet : List ℕ) (now : Instant)
    → let start =
        with_limits_and_timeouts max_peers max_flows max_entries per_peer udp_time icmp_time
          tcp_time closing_time in
      (allows_inbound (run max_peers start history) peer packet now).1 ≡ true
      → (parsed : Parsed) × (parse_flow packet ≡ some parsed)
        × Established (λ key. Opened peer key history) parsed
allows_inbound-Established max_peers max_flows max_entries per_peer udp_time icmp_time tcp_time
      closing_time history peer packet now h =
    let start =
      with_limits_and_timeouts max_peers max_flows max_entries per_peer udp_time icmp_time tcp_time
        closing_time in
    let empty : start.entries ≡ [] = unfold with_limits_and_timeouts in refl in
    allowed_why (λ p k. Opened p k history) _ peer packet now
      (run-Opened max_peers start history empty) h
