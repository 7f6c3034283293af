-- ===== src/Firewall/Lifetime.antt =====
-- How long an entry of microtun-core/src/firewall.rs lives, and the replies it lets in.
use microtun.Prelude.{
  ℕ, ◌≤◌, ◌<◌, ◌≡◌, refl, sym, subst, Bool, true, false, not, ◌||◌, some, List, arith, get_elem?,
}
use microtun.Time.{Instant, Duration, saturating_add}
use microtun.Firewall.Packet.{
  FlowKey, Kind, tcp, udp, echo_request, echo_reply, error, Parsed, is_closing, is_reverse_of,
  bare_syn,
}
use microtun.Firewall.Icmp.{parse_flow}
use microtun.Firewall.Entries.{PeerIdx, Entry, Firewall, effective_timeout, is_live}
use microtun.Firewall.Inbound.{refreshed, fresh, answers, admit_reply, allow_parsed, allows_inbound}
use microtun.Firewall.Search.{position_complete}

-- A live entry of the flow `key` of `peer` is in the table, and it lives until `t` at least.
pub record IsTracked (self : Firewall) (peer : PeerIdx) (key : FlowKey) (t : Instant) : Type 0 where
  pub at : ℕ
  pub entry : Entry
  pub here : get_elem? self.entries at ≡ some entry
  pub owner : entry.peer ≡ peer
  pub same : entry.flow ≡ key
  pub lives : t ≤ entry.expires

-- The kinds of packets that may answer a flow.
abbrev pub is_reply : Kind → Bool
is_reply error = false
is_reply echo_request = false
is_reply echo_reply = true
is_reply udp = true
is_reply (tcp flags) = not (bare_syn flags)

-- Each of the timeouts is at least `d`.
pub record AtLeast (self : Firewall) (d : Duration) : Type 0 where
  pub udp_time : d ≤ self.udp_timeout
  pub icmp_time : d ≤ self.icmp_timeout
  pub tcp_time : d ≤ self.tcp_timeout
  pub closing_time : d ≤ self.tcp_closing_timeout

timeout_le :
    (self : Firewall) (e : Entry) (d : Duration) → AtLeast self d → d ≤ effective_timeout self e
unfolding effective_timeout
timeout_le self e d a = ground arith

pub refreshed_lem :
    (self : Firewall) (parsed : Parsed) (now : Instant) (e : Entry) (d : Duration)
    → AtLeast self d
    → let e' = refreshed self parsed now e in
      (e'.peer ≡ e.peer) × (e'.flow ≡ e.flow) × (saturating_add now d ≤ e'.expires)
unfolding refreshed
refreshed_lem self parsed now e d a =
    let seen : Entry = record e { last_seen = now; closing = e.closing || is_closing parsed } in
    let enough = timeout_le self seen d a in (refl, refl, omega arith)

pub fresh_lem :
    (self : Firewall) (peer : PeerIdx) (parsed : Parsed) (now : Instant) (d : Duration)
    → AtLeast self d
    → let e = fresh self peer parsed now in
      (e.peer ≡ peer) × (e.flow ≡ parsed.key) × (saturating_add now d ≤ e.expires)
unfolding fresh
fresh_lem self peer parsed now d a = (refl, refl, omega (arith, timeout_le self _ d a))

answers_complete :
    (peer : PeerIdx) (now : Instant) (key : FlowKey) (e : Entry)
    → e.peer ≡ peer
    → now < e.expires
    → is_reverse_of key e.flow ≡ true
    → answers peer now key e ≡ true
unfolding answers is_live
answers_complete peer now key e o l r = ground arith

-- The reply to a flow that is tracked is let in.
pub reply_allowed :
    (self : Firewall) (peer : PeerIdx) (back : Parsed) (packet : List ℕ) (key : FlowKey)
    (t now : Instant)
    → IsTracked self peer key t
    → now < t
    → parse_flow packet ≡ some back
    → is_reply back.kind ≡ true
    → is_reverse_of back.key key ≡ true
    → (allows_inbound self peer packet now).1 ≡ true
unfolding allows_inbound allow_parsed admit_reply
reply_allowed self peer back packet key t now k before p reply reverse =
    let answered =
      answers_complete peer now back.key k.entry k.owner (omega (arith, k.lives))
        (subst (λ f. is_reverse_of back.key f ≡ true) (sym k.same) reverse) in
    let (i, found) =
      position_complete (answers peer now back.key) self.entries k.at k.entry k.here answered in
    ground arith
