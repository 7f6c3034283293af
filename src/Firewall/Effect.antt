-- ===== src/Firewall/Effect.antt =====
-- What an inbound packet may change of the table of microtun-core/src/firewall.rs.
use microtun.Prelude.{
  ℕ, ◌≡◌, ◌≢◌, ◌<◌, refl, Bool, true, ◌||◌, some, List, arith, ◌⊎◌, get_elem?, set, Option-cases,
  inl, inr,
}
use microtun.Time.{Instant}
use microtun.Firewall.Packet.{
  Kind, error, udp, echo_request, echo_reply, tcp, Parsed, is_closing, is_reverse_of,
}
use microtun.Firewall.Icmp.{parse_flow}
use microtun.Firewall.Entries.{PeerIdx, Entry, Firewall, position, is_live}
use microtun.Firewall.Inbound.{
  refreshed, refresh, answers, admit_reply, allow_parsed, allows_inbound,
}
use microtun.Firewall.Search.{position_sound}

-- One live entry of the peer, whose flow the packet answers, is refreshed and nothing else: it
-- keeps its owner and its flow, and once closing it stays so.
pub record Refreshes (self : Firewall) (peer : PeerIdx) (parsed : Parsed) (now : Instant)
    (self' : Firewall) : Type 0 where
  pub at : ℕ
  pub entry : Entry
  pub entry' : Entry
  pub here : get_elem? self.entries at ≡ some entry
  pub owner : entry.peer ≡ peer
  pub live : now < entry.expires
  pub answered : is_reverse_of parsed.key entry.flow ≡ true
  pub after : self' ≡ record self { entries = set self.entries at entry' }
  pub same_owner : entry'.peer ≡ entry.peer
  pub same_flow : entry'.flow ≡ entry.flow
  pub seen : entry'.last_seen ≡ now
  pub sticky : entry'.closing ≡ (entry.closing || is_closing parsed)

answers-live :
    (peer : PeerIdx) (now : Instant) (parsed : Parsed) (e : Entry)
    → answers peer now parsed.key e ≡ true
    → (e.peer ≡ peer) × (now < e.expires) × (is_reverse_of parsed.key e.flow ≡ true)
unfolding answers is_live
answers-live peer now parsed e h = ground arith

-- Admitting a reply.
abbrev pub Outcome : Firewall → PeerIdx → Parsed → Instant → Firewall × Bool → Type 0
Outcome self peer parsed now r = (r.0 ≡ self) ⊎ ((r.1 ≡ true) × Refreshes self peer parsed now r.0)

admit_reply-Outcome :
    (self : Firewall) (peer : PeerIdx) (parsed : Parsed) (now : Instant)
    → Outcome self peer parsed now (admit_reply self peer parsed now)
unfolding admit_reply
admit_reply-Outcome self peer parsed now =
    elim (Option-cases (position (answers peer now parsed.key) self.entries)) [
      | inl n ↦ inl (ground arith)
      | inr (at, p) ↦
          let (e, here, m) = position_sound (answers peer now parsed.key) self.entries at p in
          let (owner, live, answered) = answers-live peer now parsed e m in
          inr (
            ground arith,
            record {
              at = at;
              entry = e;
              entry' = refreshed self parsed now e;
              here = here;
              owner = owner;
              live = live;
              answered = answered;
              after = unfold refresh in ground arith;
              same_owner = unfold refreshed in refl;
              same_flow = unfold refreshed in refl;
              seen = unfold refreshed in refl;
              sticky = unfold refreshed in refl;
            },
          )
    ]

allow_parsed-Outcome :
    (self : Firewall) (peer : PeerIdx) (parsed : Parsed) (now : Instant)
    → Outcome self peer parsed now (allow_parsed self peer parsed now)
unfolding allow_parsed
allow_parsed-Outcome self peer parsed now = ground (arith, admit_reply-Outcome self peer parsed now)

Kind-error : (k : Kind) → (k ≡ error) ⊎ (k ≢ error)
Kind-error error = inl refl
Kind-error udp = inr (λ e. cc)
Kind-error echo_request = inr (λ e. cc)
Kind-error echo_reply = inr (λ e. cc)
Kind-error (tcp flags) = inr (λ e. cc)

-- An ICMP error changes nothing.
error_unchanged :
    (self : Firewall) (peer : PeerIdx) (parsed : Parsed) (now : Instant)
    → parsed.kind ≡ error
    → (allow_parsed self peer parsed now).0 ≡ self
unfolding allow_parsed
error_unchanged self peer parsed now k = ground arith

-- An inbound packet leaves the table as it was, or it is let in, is no ICMP error, and refreshes
-- one live entry of its peer whose flow it answers: the entry keeps its owner and its flow, a
-- closing flow stays closing, and no other entry, no count and no limit changes.
pub allows_inbound_effect :
    (self : Firewall) (peer : PeerIdx) (packet : List ℕ) (now : Instant)
    → let r = allows_inbound self peer packet now in
      (r.0 ≡ self)
      ⊎ ((r.1 ≡ true)
          × ((parsed : Parsed) × (parse_flow packet ≡ some parsed)
              × (parsed.kind ≢ error)
              × Refreshes self peer parsed now r.0))
unfolding allows_inbound
allows_inbound_effect self peer packet now = elim (Option-cases (parse_flow packet)) [
  | inl n ↦ inl (ground arith)
  | inr (parsed, h) ↦ elim (Kind-error parsed.kind) [
    | inl k ↦ inl (ground (arith, error_unchanged self peer parsed now k))
    | inr k ↦ elim (allow_parsed-Outcome self peer parsed now) [
      | inl same ↦ inl (ground arith)
      | inr (allowed, r) ↦ inr (ground arith, (parsed, h, k, rw (allows_inbound, h) r))
    ]
  ]
]
