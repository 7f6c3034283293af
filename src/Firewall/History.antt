-- ===== src/Firewall/History.antt =====
-- What the engine does with the firewall of microtun-core/src/firewall.rs over time: packets that
-- it sent, packets that came in, and peers that it removed.
use microtun.Prelude.{ℕ, ◌≡◌, ◌≢◌, List, [], ◌∷◌, ◌⊎◌}
use microtun.Time.{Instant}
use microtun.Firewall.Packet.{FlowKey}
use microtun.Firewall.Entries.{PeerIdx, Firewall}
use microtun.Firewall.Inbound.{allows_inbound}
use microtun.Firewall.Table.{observe_outbound, remove_peer}
use microtun.Firewall.Tracked.{Opens}

pub data Event : Type 0 where
  outbound : PeerIdx → List ℕ → Instant → Event
  inbound : PeerIdx → List ℕ → Instant → Event
  removed : PeerIdx → Event

unfoldable pub step : ℕ → Firewall → Event → Firewall
step max_peers self (outbound peer packet now) = observe_outbound max_peers self peer packet now
step max_peers self (inbound peer packet now) = (allows_inbound self peer packet now).0
step max_peers self (removed peer) = remove_peer max_peers self peer

-- The events, the latest first.
unfoldable pub run : ℕ → Firewall → List Event → Firewall
run max_peers self [] = self
run max_peers self (e ∷ es) = step max_peers (run max_peers self es) e

-- A packet that opens the flow was sent to the peer, and the peer was not removed since.
abbrev pub Opened : PeerIdx → FlowKey → List Event → Type 0
Opened peer key [] = ⊥
Opened peer key (outbound q packet now ∷ es) = ((q ≡ peer) × Opens packet key) ⊎ Opened peer key es
Opened peer key (inbound q packet now ∷ es) = Opened peer key es
Opened peer key (removed q ∷ es) = (q ≢ peer) × Opened peer key es
