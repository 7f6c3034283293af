-- ===== src/Ymodem/Answered.antt =====
-- The steps of `send` of microtun-ymodem/src/send.rs, on answers that take what was sent.
use microtun.Prelude.{
  ℕ, zero, suc, ◌+◌, ◌-◌, ◌<◌, ◌≡◌, refl, ap, false, List, [], ◌∷◌, ◌++◌, map, arith, leb, ltb,
  if◌then◌else◌, length, inl, inr, take, drop, ◌==◌,
}
use microtun.Ymodem.{Config, Arrival, arrived, ack, crc_request}
use microtun.Ymodem.Send.{
  SendEvent, progress, Supply, gave, Sender, M, ◌>>=◌, notify, wait_for_crc_request, fill,
  send_packet,
}
use microtun.Ymodem.Wire.{frame_of}
use microtun.Ymodem.Transcript.{wanted}

-- A source that fills each block with one read
unfoldable pub reads : ℕ → ℕ → ℕ → List ℕ → List Supply
reads zero size done file = []
reads (suc fuel) size done file =
    let rest = reads fuel size (done + wanted size done) file in
    if leb size done then [] else gave (take (wanted size done) (drop done file)) ∷ rest

abbrev pub state : List ℕ → List Arrival → List ℕ → List Supply → List SendEvent → Sender
state bytes rest sent source events = record {
  incoming = map arrived bytes ++ rest;
  sent = sent;
  source = source;
  events = events;
}

pub bind_ok :
    {A B : Type 0} (m : M A) (f : A → M B) (s : Sender) {s' : Sender} {a : A}
    → m s ≡ (s', inr a)
    → (m >>= f) s ≡ f a s'
bind_ok m f s h = ap (λ r. elim r.1 [ inl e ↦ (r.0, inl e) | inr a ↦ f a r.0 ]) h

-- The events of the blocks
unfoldable pub reports : ℕ → ℕ → ℕ → List SendEvent
reports zero size done = []
reports (suc fuel) size done =
    let rest = reports fuel size (done + wanted size done) in
    if leb size done then [] else progress (done + wanted size done) size ∷ rest

pub fill_lem :
    (n : ℕ) (block : List ℕ) (supplies : List Supply) (s : Sender)
    → length block ≡ n
    → 0 < n
    → fill n [] (gave block ∷ supplies) s ≡ (record s { source = supplies }, inr block)
unfolding fill
fill_lem zero block supplies s h k = absurd (omega arith)
fill_lem (suc n) block supplies s h k =
    let some_bytes : (length block == 0) ≡ false = ground arith in
    let fits : ltb (suc n) (length block) ≡ false = ground arith in
    let full : suc n - length block ≡ 0 = omega arith in rw some_bytes (rw fits (rw full refl))

pub notify_lem :
    (event : SendEvent) (s : Sender)
    → notify event s ≡ (record s { events = s.events ++ event ∷ [] }, inr tt)
unfolding notify
notify_lem event s = refl

pub wait_for_crc_request-hears :
    (config : Config) (bytes : List ℕ) (rest : List Arrival) (sent : List ℕ) (source : List Supply)
    (events : List SendEvent)
    → 0 < config.start_retries
    → wait_for_crc_request config (state (crc_request ∷ bytes) rest sent source events)
      ≡ (state bytes rest sent source events, inr tt)
unfolding wait_for_crc_request
wait_for_crc_request-hears config bytes rest sent source events h =
    let some_retries : (config.start_retries == 0) ≡ false = ground arith in rw some_retries refl

pub send_packet-hears :
    (crc16 : List ℕ → ℕ) (config : Config) (control number : ℕ) (block bytes : List ℕ)
    (rest : List Arrival) (sent : List ℕ) (source : List Supply) (events : List SendEvent)
    → send_packet crc16 config control number block (state (ack ∷ bytes) rest sent source events)
      ≡ (state bytes rest (sent ++ (control ∷ frame_of crc16 number block)) source events, inr tt)
unfolding send_packet
send_packet-hears crc16 config control number block bytes rest sent source events = refl
