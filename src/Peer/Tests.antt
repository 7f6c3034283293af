-- ===== src/Peer/Tests.antt =====
-- Runs of the session generations of microtun-core/src/peer.rs.
use microtun.Prelude.{List, [], ◌∷◌, some, inl, refl, ◌≡◌, ◌≤◌, ◌+◌, ◌==◌, if◌then◌else◌}
use microtun.Peer.{
  PeerSessions, default, install_initiator, confirm_responder, unlink, begin_handshake,
}
use microtun.Peer.Slots.{
  Step, begun, installed, respond, confirmed, unlinked, run, links, released, IsDistinct,
  generations-IsDistinct, step,
}

-- An initiation that succeeds, then a session that the peer initiates.
abbrev story : List Step
story = begun 3 500 ∷ installed 3 ∷ respond 4 ∷ confirmed 4 ∷ unlinked 3 ∷ []

abbrev running : PeerSessions
running = record default { current = some 4; previous = some 3; handshake = some 7 }

generations-IsDistinct_example :
    let self = run default story in
    let (by_initiator, out) = install_initiator self 7 in
    let (by_responder, out') = confirm_responder self 7 in
    IsDistinct self
    × (links by_initiator 4 + released out 4 ≤ 1)
    × (links by_responder 4 + released out' 4 ≤ 1)
    × (links (unlink self 7) 4 ≡ (if 4 == 7 then 0 else links self 4))
unfolding links step default begin_handshake install_initiator
generations-IsDistinct_example =
    generations-IsDistinct story 7 4 (refl, (tt, (inl refl, (tt, (tt, tt)))))
