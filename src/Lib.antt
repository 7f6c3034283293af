-- ===== src/Lib.antt =====
-- Microtun, verified: the allocation-light core of the tunnel (microtun-core/src), with the framing
-- of its WebSocket transport (microtun-ws/src), the lexer and the line editor of its command line
-- (microtun-cli/src), and the TELNET codec and the YMODEM file transfer that its tools speak over
-- serial lines (microtun-telnet/src, microtun-ymodem/src), modelled in pure functions over lists of
-- bytes and native numbers.
--
-- The engine (microtun-core/src/lib.rs) owns a table of peers, a pool of sessions and a handful of
-- small components. A datagram that arrives is classified by its first bytes (Messages). A
-- handshake message of a loaded engine is charged to its source (Rate). A transport message is
-- found by its receiver index (SessionIndex), opened, and its counter is checked against the replay
-- window of its session (Replay, Session). Its plaintext is an IP packet, whose header is validated
-- (Ip) and which the ingress firewall may refuse (Firewall), or a relay envelope for another peer
-- (Relay). Outbound packets pass the firewall too, which records the flows that they open, or wait
-- in a pool until a session is there (Pending); a peer keeps a current, a previous and a next
-- session (Peer). All deadlines of the engine are summarised by one cached bound (Time/Cache).
--
-- The files, and the code that they model:
--   Prelude        words, Boolean tests, lists, bits, `Option` chains and byte slices
--   Time           microtun-core/src/time.rs: `Instant`, `Duration`, `TimerCache`
--   Constants      microtun-core/src/constants.rs and crypto.rs: timers, limits, sizes
--   Replay         microtun-core/src/replay.rs: `ReplayWindow`; Replay/Spec is the filter that
--                  remembers every counter, Replay/Represents and Replay/Refine relate the two
--   Session        microtun-core/src/session.rs: `Session`, its age and message limits
--   Ip             microtun-core/src/ip.rs: `parse_header`, `is_v4_fragment`, `unmap_ip`
--   Messages       microtun-core/src/messages.rs: `write_type`, `classify`
--   Relay          microtun-core/src/relay.rs: `write_header`, `parse`
--   Rate           microtun-core/src/rate.rs: `TokenBucket`, `RateLimiter`; Rate/Interval is
--                  `IntervalBudget`
--   Firewall       microtun-core/src/firewall.rs: Firewall/Packet and Firewall/Icmp are the parser
--                  (`parse_flow` and below), Firewall/Entries the record `Firewall` and its searches,
--                  Firewall/Inbound `allows_inbound`, Firewall/Table `observe_outbound`,
--                  `remove_peer` and the counts; Firewall/History is a run of these
--   Peer           microtun-core/src/peer.rs: `PeerSessions`, the session generations of a peer
--   Pending        microtun-core/src/pending.rs: `PendingPool`
--   SessionIndex   microtun-core/src/session_index.rs: `SessionIndexMap`; the hash map is the record
--                  `Table` of operations and laws
--   Ws             microtun-ws/src/frame.rs: the headers of WebSocket frames; Ws/Mask is mask.rs
--   Lexer          microtun-cli/src/lexer.rs: `lex`; Lexer/InPlace and Lexer/Loops follow the buffer
--                  that is read and written at once, Lexer/Escaped a line of escaped
--                  bytes; Lexer/Unbounded has the loops of the source as relations
--   Editor         microtun-cli/src/editor.rs: `Editor` with its history, its edits and
--                  `replace_range`; Editor/Keys is `feed`; Editor/Text is a line as the text
--                  on both sides of the cursor, Editor/Erasing and Editor/Words
--                  the erasure of a word
--   Telnet         microtun-telnet/src/lib.rs: `Telnet` and the state of an option by RFC 1143
--                  (`request_state`, `receive_positive`, `receive_negative`); Telnet/Options is the
--                  slots of the options, the requests and `negotiate`, Telnet/Codec is `feed` and
--                  `push_subnegotiation`; Telnet/Binary is binary.rs: `write_data_unflushed`
--                  and `BinaryMode`; Telnet/Serial is serial.rs, the messages
--                  of the COM port option; Telnet/Negotiation is a pair of endpoints
--                  that negotiate one option, with what is in flight between them
--   Ymodem         microtun-ymodem/src/lib.rs and the records and parsers of receive.rs;
--                  Ymodem/Receive and Ymodem/Rounds are `receive_with`, a round for each of its three
--                  loops; Ymodem/Send is `send_with` of send.rs; Ymodem/Transcript is what goes over the
--                  line for a file, to which Ymodem/Sending and Ymodem/EndToEnd relate both ends;
--                  Ymodem/Taken is a file by the blocks that arrived, Ymodem/Noise a sender that
--                  sends none
--   Tests          runs on concrete inputs, beside the Tests of each component
-- The other modules hold the lemmas and are named for what they prove.
--
-- Conventions. A method that takes `&mut self` is a function from the record to the record, with
-- its result beside it. An early return of `None` or `false` is a branch of the definition.
-- Integers are native numbers: a saturating operation is written with `min` and the limit of the
-- word, a shift or a mask with division and remainder, and a subtraction on numbers stops at 0 as
-- the saturating one of the source does. A byte is a number, and no theorem needs it to be below
-- 256 unless it says so. The loops of the source are bounded by the list or the count that they run
-- over, and are recursions on it: `clear_blocks` of Replay recurses on the number of rounds, which
-- the code caps at the number of words. The loops of the lexer take fuel: the length of the
-- line, which is enough for each of them, since every round of every loop reads a byte. So do the
-- three loops of `receive_with`, where more fuel than there are events to arrive is enough, since every
-- round reads a byte, the loop of `send` over the blocks, where the file size is, and the loops of the
-- editor that erase a word, where the cursor is.
--
-- A serial or TELNET transport is the list of what its reads give and the list of what was written to
-- it. The end of the list is the end of the stream; an interrupted read, a timeout and an error are
-- elements of it. A write to it succeeds. The checksum of the `crc` crate is a parameter of the YMODEM
-- model, and the only assumption on it is that it is a function. The receiver's sink is the crate's
-- own `BufferSink`, and the observer of the sender's events never fails. A push or an extension of a
-- `heapless` vector that does not fit changes nothing, as that crate documents.
--
-- The models are of one build where the source has two: the firewall has the heap backend, a `Vec`
-- of entries, and so has the pool of pending packets; the rate limiter has the inline backend, an
-- array of at most 64 buckets. A `usize` is 64 bits wide.
--
-- Not modelled: the engine's own dispatch and its handshakes, which rest on cryptography of other
-- crates; the routing table, the resolver, the cookie mechanism, the configuration; and the
-- programs around the core (the command line beyond its lexer and its line editor, the TELNET server
-- and client, the connections of WebSocket, the runners, the firmware). Of the editor, `remember` is
-- left out, which rests on the validation and trimming of text by the standard library.
pub mod Prelude
pub mod Time
pub mod Constants
pub mod Replay
pub mod Session
pub mod Ip
pub mod Messages
pub mod Relay
pub mod Rate
pub mod Firewall
pub mod Peer
pub mod Pending
pub mod SessionIndex
pub mod Ws
pub mod Lexer
pub mod Editor
pub mod Tests
pub mod Telnet
pub mod Ymodem
