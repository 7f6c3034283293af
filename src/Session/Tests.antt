-- ===== src/Session/Tests.antt =====
-- Runs of the session limits of microtun-core/src/session.rs.
use microtun.Prelude.{◌+◌, ◌≡◌, true, false, [], ◌∷◌, refl}
use microtun.Session.{Session, TransportKeys, initiator, responder, can_send}
use microtun.Session
use microtun.Constants.{reject_after_time}

abbrev keys : TransportKeys
keys = record { send = 1 ∷ []; recv = 2 ∷ [] }

abbrev session : Session
session = Session.new 2 keys initiator 7 9 1000

-- An initiator may send until the session is too old; a responder waits to be confirmed.
sends :
    (can_send session 5000 ≡ true)
    × (can_send session (1000 + reject_after_time) ≡ false)
    × (can_send (Session.new 2 keys responder 7 9 1000) 5000 ≡ false)
unfolding Session.new can_send Session.expired
sends = (refl, refl, refl)
