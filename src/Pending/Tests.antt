-- ===== src/Pending/Tests.antt =====
-- Runs of the pool of microtun-core/src/pending.rs.
use microtun.Prelude.{◌≡◌, true, some, [], ◌∷◌, arith}
use microtun.Pending.{PendingPacket, PendingPool, handshake, park}
use microtun.Pending.Parking.{Parks, park-Parks}

abbrev syn : PendingPacket
syn = record { buf = 1 ∷ 2 ∷ []; wait = handshake 3; deadline = 700 }

abbrev dns : PendingPacket
dns = record { buf = 5 ∷ []; wait = handshake 4; deadline = 600 }

abbrev pool : PendingPool
pool = record { slots = some syn ∷ some dns ∷ [] }

park-Parks_example :
    ((park pool (9 ∷ []) (handshake 3) 900).1 ≡ true)
    × Parks pool.slots
        (record { buf = 9 ∷ []; wait = handshake 3; deadline = 900 })
        (park pool (9 ∷ []) (handshake 3) 900).0.slots
park-Parks_example = park-Parks pool (9 ∷ []) (handshake 3) 900 (omega arith) (omega arith)
