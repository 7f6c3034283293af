-- ===== src/Firewall/Replies.antt =====
-- What microtun-core/src/firewall.rs lets in once a flow is open.
use microtun.Prelude.{
  ℕ, suc, ◌≤◌, ◌<◌, ◌≡◌, refl, ◌∙◌, true, ◌&&◌, some, List, [], ◌∷◌, arith, ltb, length, get_elem?,
  Bool-cases, Option-cases, inl, inr, u32_max, get_elem?-append, get_elem?-set_self,
  get_elem?_inside,
}
use microtun.Time.{Instant, Duration, saturating_add}
use microtun.Firewall.Packet.{Parsed, opens_new_flow, is_reverse_of}
use microtun.Firewall.Icmp.{parse_flow}
use microtun.Firewall.Entries.{PeerIdx, Entry, Firewall, position}
use microtun.Firewall.Inbound.{refreshed, refresh, fresh, owns, allows_inbound}
use microtun.Firewall.Table.{
  peer_position, collect_expired, fair_victim, replace, push, recycle, store, open_flow, track,
  observe_parsed, observe_outbound, peer_count,
}
use microtun.Firewall.Search.{position_sound}
use microtun.Firewall.Owned.{owned_le}
use microtun.Firewall.Victim.{IsConsistent, peer_count-owned, fair_victim-IsFair, fair_victim-some}
use microtun.Firewall.Bounds.{collect_expired_lem, collect_expired-IsConsistent}
use microtun.Firewall.Established.{owns_sound}
use microtun.Firewall.Lifetime.{
  IsTracked, is_reply, AtLeast, refreshed_lem, fresh_lem, reply_allowed,
}

module _ (max_peers : ℕ) where
  recycle_present :
      (self : Firewall) (e : Entry) (at : ℕ) (old : Entry)
      → fair_victim max_peers self e.peer ≡ some at
      → get_elem? self.entries at ≡ some old
      → get_elem? (recycle max_peers self e).entries at ≡ some e
  unfolding recycle replace
  recycle_present self e at old v here =
      let inside = get_elem?_inside self.entries at old here in
      ground (arith, get_elem?-set_self self.entries at e inside)

  -- The entry is stored, whatever the table holds.
  store_present :
      (self : Firewall) (e : Entry)
      → IsConsistent max_peers self
      → e.peer < max_peers
      → max_peers ≤ suc u32_max
      → 0 < self.max_entries
      → 0 < self.max_entries_per_peer
      → (at : ℕ) × (get_elem? (store max_peers self e).entries at ≡ some e)
  unfolding store push
  store_present self e c l fits room quota =
      let n = length self.entries in
      let last = get_elem?-append self.entries (e ∷ []) n 0 n refl (omega arith) in
      let below = ltb (peer_count max_peers self e.peer) self.max_entries_per_peer in
      elim (Bool-cases (below && ltb n self.max_entries)) [
        | inl b ↦ (n, ground (arith, last))
        | inr b ↦
            let count = peer_count-owned max_peers self e.peer c.counts l in
            let busy : 0 < n = ground (arith, count, owned_le e.peer self.entries) in
            let (at, v) = fair_victim-some max_peers self e.peer c l fits quota busy in
            let (old, here, fair) = fair_victim-IsFair max_peers self e.peer at c.counts l v in
            (at, ground (arith, recycle_present self e at old v here))
      ]

  open_flow-IsTracked :
      (self : Firewall) (peer : PeerIdx) (parsed : Parsed) (now : Instant) (d : Duration)
      → IsConsistent max_peers self
      → peer < max_peers
      → max_peers ≤ suc u32_max
      → 0 < self.max_entries
      → 0 < self.max_entries_per_peer
      → AtLeast self d
      → opens_new_flow parsed ≡ true
      → IsTracked (open_flow max_peers self peer parsed now) peer parsed.key (saturating_add now d)
  unfolding open_flow
  open_flow-IsTracked self peer parsed now d c l fits room quota a o =
      let e = fresh self peer parsed now in
      let (owner, same, lives) = fresh_lem self peer parsed now d a in
      let (es, m, q) = collect_expired_lem max_peers now self in
      let (at, here) =
        store_present (collect_expired max_peers now self) e
          (collect_expired-IsConsistent max_peers now self c) (omega (arith, owner)) fits
          (omega (arith, m)) (omega (arith, q)) in
      record { at = at; entry = e; here = rw o here; owner = owner; same = same; lives = lives }

  refresh-IsTracked :
      (self : Firewall) (peer : PeerIdx) (parsed : Parsed) (now : Instant) (d : Duration) (at : ℕ)
      → AtLeast self d
      → position (owns peer now parsed.key) self.entries ≡ some at
      → IsTracked (refresh self parsed now at) peer parsed.key (saturating_add now d)
  unfolding refresh
  refresh-IsTracked self peer parsed now d at a p =
      let (e, here, m) = position_sound (owns peer now parsed.key) self.entries at p in
      let (owner, flow) = owns_sound peer now parsed.key e m in
      let e' = refreshed self parsed now e in
      let (peer_kept, flow_kept, lives) = refreshed_lem self parsed now e d a in
      let inside = get_elem?_inside self.entries at e here in
      record {
        at = at;
        entry = e';
        here = ground (arith, get_elem?-set_self self.entries at e' inside);
        owner = peer_kept ∙ owner;
        same = flow_kept ∙ flow;
        lives = lives;
      }

  observe_opening :
      (self : Firewall) (peer : PeerIdx) (out : Parsed) (packet : List ℕ) (now : Instant)
      → peer < max_peers
      → parse_flow packet ≡ some out
      → opens_new_flow out ≡ true
      → observe_outbound max_peers self peer packet now ≡ track max_peers self peer out now
  unfolding observe_outbound observe_parsed peer_position opens_new_flow
  observe_opening self peer out packet now l p o = ground arith

  track-IsTracked :
      (self : Firewall) (peer : PeerIdx) (out : Parsed) (now : Instant) (d : Duration)
      → IsConsistent max_peers self
      → peer < max_peers
      → max_peers ≤ suc u32_max
      → 0 < self.max_entries
      → 0 < self.max_entries_per_peer
      → AtLeast self d
      → opens_new_flow out ≡ true
      → IsTracked (track max_peers self peer out now) peer out.key (saturating_add now d)
  unfolding track
  track-IsTracked self peer out now d c l fits room quota a o =
      elim (Option-cases (position (owns peer now out.key) self.entries)) [
        | inl n ↦ rw (track, n) (open_flow-IsTracked self peer out now d c l fits room quota a o)
        | inr (at, e) ↦ rw (track, e) (refresh-IsTracked self peer out now d at a e)
      ]

  observe_outbound-IsTracked :
      (self : Firewall) (peer : PeerIdx) (out : Parsed) (packet : List ℕ) (now : Instant)
      (d : Duration)
      → IsConsistent max_peers self
      → peer < max_peers
      → max_peers ≤ suc u32_max
      → 0 < self.max_entries
      → 0 < self.max_entries_per_peer
      → AtLeast self d
      → parse_flow packet ≡ some out
      → opens_new_flow out ≡ true
      → IsTracked
          (observe_outbound max_peers self peer packet now)
          peer
          out.key
          (saturating_add now d)
  observe_outbound-IsTracked self peer out packet now d c l fits room quota a p o =
      rw (observe_opening self peer out packet now l p o)
        (track-IsTracked self peer out now d c l fits room quota a o)

  pub reply_after_outbound :
      (self : Firewall) (peer : PeerIdx) (out back : Parsed) (packet reply : List ℕ)
      (now later : Instant) (d : Duration)
      → IsConsistent max_peers self
      → peer < max_peers
      → max_peers ≤ suc u32_max
      → 0 < self.max_entries
      → 0 < self.max_entries_per_peer
      → AtLeast self d
      → parse_flow packet ≡ some out
      → opens_new_flow out ≡ true
      → parse_flow reply ≡ some back
      → is_reply back.kind ≡ true
      → is_reverse_of back.key out.key ≡ true
      → later < saturating_add now d
      → (allows_inbound (observe_outbound max_peers self peer packet now) peer reply later).1 ≡ true
  reply_after_outbound self peer out back packet reply now later d c l fits room quota a p o r k rev
        t =
      reply_allowed _ peer back reply out.key (saturating_add now d) later
        (observe_outbound-IsTracked self peer out packet now d c l fits room quota a p o) t r k rev
