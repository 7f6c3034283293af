-- ===== src/Tests/Transport.antt =====
-- Runs of the timer cache and of the parsers of datagrams.
use microtun.Prelude.{ℕ, ◌≡◌, ◌↔◌, refl, some, List, [], ◌∷◌, ◌++◌, replicate, arith, length}
use microtun.Time.Cache.{TimerCache, Event, install, clear, recompute, Covers, run-Covers}
use microtun.Time.Cache
use microtun.Messages.{classify, data_message, write_type}
use microtun.Messages.Layout.{classify_as_written, type_byte, Fits}
use microtun.Relay.{Envelope, parse, write_header, inner_plausible}
use microtun.Relay.RoundTrip.{parse-write_header}
use microtun.Prelude.Partial.{get_range}
use microtun.Ip.{IpHeader, v4, parse_header, parse_v4_header}
use microtun.Ip.Header.{parse_header-IsWithin, IsWithin}

abbrev timers : List Event
timers = install 500 ∷ install 200 ∷ clear 0 ∷ recompute ∷ install 300 ∷ clear 1 ∷ []

run-Covers_example :
    Covers (Cache.run (Cache.new, []) timers).0.at (Cache.run (Cache.new, []) timers).1
run-Covers_example = run-Covers Cache.new [] timers tt

abbrev zeros : ℕ → List ℕ
zeros n = replicate n 0

classify_as_written_example :
    let buf = 4 ∷ 0 ∷ 0 ∷ 0 ∷ zeros 28 in
    (classify buf ≡ some data_message)
    ↔ ((write_type buf (type_byte data_message) ≡ some buf) × Fits data_message (length buf))
classify_as_written_example = classify_as_written (4 ∷ 0 ∷ 0 ∷ 0 ∷ zeros 28) data_message

abbrev destination : List ℕ
destination = replicate 32 7

-- A keepalive: type 4, receiver, counter and the tag.
abbrev inner : List ℕ
inner = 4 ∷ 0 ∷ 0 ∷ 0 ∷ zeros 28

parse-write_header_example :
    parse (destination ++ (32 ∷ 0 ∷ 0 ∷ 0 ∷ []) ++ inner ++ zeros 12)
    ≡ some (record { destination = destination; inner = inner })
unfolding write_header inner_plausible classify
parse-write_header_example =
    parse-write_header destination inner refl (omega arith) (zeros 36)
      (destination ++ (32 ∷ 0 ∷ 0 ∷ 0 ∷ []) ++ inner ++ zeros 12) refl refl refl

abbrev envelope : Envelope
envelope = record { destination = destination; inner = inner }

abbrev packet : List ℕ
packet =
    0x45 ∷ 0 ∷ 0 ∷ 22 ∷ 0 ∷ 0 ∷ 0 ∷ 0 ∷ 64 ∷ 17 ∷ 0 ∷ 0 ∷ 10 ∷ 0 ∷ 0 ∷ 1 ∷ 10 ∷ 0 ∷ 0 ∷ 2 ∷ 5 ∷ 6
    ∷ 0 ∷ 0 ∷ []

abbrev header : IpHeader
header = record {
  src = v4 (10 ∷ 0 ∷ 0 ∷ 1 ∷ []);
  dst = v4 (10 ∷ 0 ∷ 0 ∷ 2 ∷ []);
  protocol = 17;
  header_len = 20;
  total_len = 22;
}

parse_header-IsWithin_example : IsWithin packet header
unfolding parse_header parse_v4_header get_range
parse_header-IsWithin_example = parse_header-IsWithin packet header refl
