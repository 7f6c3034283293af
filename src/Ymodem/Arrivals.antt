-- ===== src/Ymodem/Arrivals.antt =====
-- The steps of the receiver of microtun-ymodem/src/receive.rs that read and write the line.
use microtun.Prelude.{
  ℕ, zero, suc, ◌<◌, ◌≡◌, refl, ap, sym, subst, length-append, List, [], ◌∷◌, ◌++◌, arith, ltb,
  length, Bool-cases, ◌⊎◌, inl, inr, sat_add8,
}
use microtun.Ymodem.{
  nak, can, Config, Arrival, arrived, interrupted, failed, read_byte, ReadByteError, io, timeout,
  eof, crc_request,
}
use microtun.Ymodem.Receive.{
  Error, io_error, end_of_stream, protocol, Receiver, M, pure, ◌>>=◌, send, abort, next_byte,
  read_block, refuse, first_control, read_error,
}
use microtun.Ymodem.Triples.{
  HasCancelled, IsAt, IsBelow, IsTold, Post, Post-map, Triple, Triple-bind, Fact, Passes, Window,
  bytes_of, IsAt-map, IsAt-passed, Window-append,
}

-- What a read passes over, and the byte that it gives
pub read_byte-passed :
    (xs : List Arrival)
    → (ys : List Arrival) × (ys ++ (read_byte xs).0 ≡ xs)
      × ((b : ℕ) → (read_byte xs).1 ≡ inr b → bytes_of ys ≡ b ∷ [])
unfolding read_byte bytes_of
read_byte-passed [] = ([], refl, λ b e. absurd (cc))
read_byte-passed (arrived b ∷ xs) = (arrived b ∷ [], refl, λ c e. ground arith)
read_byte-passed (interrupted ∷ xs) =
    let (ys, e, f) = read_byte-passed xs in (interrupted ∷ ys, ap (λ zs. interrupted ∷ zs) e, f)
read_byte-passed (Arrival.timed_out ∷ xs) = (Arrival.timed_out ∷ [], refl, λ b e. absurd (cc))
read_byte-passed (failed ∷ xs) = (failed ∷ [], refl, λ b e. absurd (cc))

pub read_error-IsTold : (e : ReadByteError) (s : Receiver) → IsTold (read_error e) s
read_error-IsTold io s = tt
read_error-IsTold timeout s = tt
read_error-IsTold eof s = tt

-- After `ys` was read
pub IsAt-read :
    {base : List ℕ} {P : Fact} {k : ℕ} (s : Receiver) (ys rest : List Arrival)
    → ys ++ rest ≡ s.incoming
    → IsAt base P k s
    → IsAt base (Window P (bytes_of ys)) k (record s { incoming = rest })
IsAt-read {P = P} s ys rest e p = record {
  file = p.file;
  holds = p.holds;
  fact = (ys, refl, subst (P p.file) (sym e) p.fact);
  left = omega (arith, p.left, ap length e, length-append {0} ys rest);
}

some_arrived : (ys : List Arrival) (b : ℕ) → bytes_of ys ≡ b ∷ [] → 0 < length ys
unfolding bytes_of
some_arrived [] b e = absurd (cc)
some_arrived (y ∷ ys) b e = omega arith

module _ (base : List ℕ) (k : ℕ) where
  pub next_at :
      (P : Fact) (s : Receiver) (ys rest : List Arrival) (r : ReadByteError ⊎ ℕ)
      → ys ++ rest ≡ s.incoming
      → ((b : ℕ) → r ≡ inr b → bytes_of ys ≡ b ∷ [])
      → IsAt base P k s
      → Post {A = ℕ}
          (λ b. IsBelow base (Window P (b ∷ [])) k)
          IsTold
          (elim r [
            | inl e ↦ (record s { incoming = rest }, inl (read_error e))
            | inr b ↦ (record s { incoming = rest }, inr b)
          ])
  next_at P s ys rest (inl e) h f p = read_error-IsTold e (record s { incoming = rest })
  next_at P s ys rest (inr b) h f p =
      let at =
        subst (λ bs. IsAt base (Window P bs) k (record s { incoming = rest })) (f b refl)
          (IsAt-read s ys rest h p) in
      (
        at,
        omega (arith, p.left, ap length h, length-append {0} ys rest, some_arrived ys b (f b refl)),
      )

  pub next_byte-Window :
      (P : Fact) → Triple (IsAt base P k) next_byte (λ b. IsBelow base (Window P (b ∷ [])) k) IsTold
  unfolding next_byte
  next_byte-Window P s p =
      let (ys, e, f) = read_byte-passed s.incoming in
      next_at P s ys (read_byte s.incoming).0 (read_byte s.incoming).1 e f p

  -- A block that is read has the length asked for, and its bytes arrived one after the other.
  abbrev pub IsRead : Fact → ℕ → List ℕ → Receiver → Type 0
  IsRead P n bs s = IsAt base (Window P bs) k s × (length bs ≡ n)

  pub read_block-IsRead :
      (P : Fact) (n : ℕ) → Triple (IsAt base P k) (read_block n) (IsRead P n) IsTold
  unfolding read_block bytes_of
  read_block-IsRead P zero s p = (IsAt-map s (λ file rest q. ([], refl, q)) p, refl)
  read_block-IsRead P (suc n) s p =
      Triple-bind IsTold (IsAt base P k) (λ b. IsAt base (Window P (b ∷ [])) k) (IsRead P (suc n))
        next_byte (λ b. read_block n >>= λ bs. pure (b ∷ bs))
        (λ s p.
          Post-map IsTold (λ b. IsBelow base (Window P (b ∷ [])) k)
            (λ b. IsAt base (Window P (b ∷ [])) k) (next_byte s) (λ b t q. q.0)
            (next_byte-Window P s p))
        (λ b.
          Triple-bind IsTold (IsAt base (Window P (b ∷ [])) k) (IsRead (Window P (b ∷ [])) n)
            (IsRead P (suc n)) (read_block n) (λ bs. pure (b ∷ bs))
            (read_block-IsRead (Window P (b ∷ [])) n)
            (λ bs t q. (IsAt-map t (Window-append P (b ∷ []) bs) q.0, ap suc q.1)))
        s p

module _ (base : List ℕ) (P : Fact) (pass : Passes P) (k : ℕ) where
  pub send-IsAt : (bytes : List ℕ) → Triple (IsAt base P k) (send bytes) (λ u. IsAt base P k) IsTold
  unfolding send
  send-IsAt bytes s p = record { file = p.file; holds = p.holds; fact = p.fact; left = p.left }

  pub abort-IsTold :
      {A : Type 0} (Q : A → Receiver → Type 0) (e : Error)
      → ((s : Receiver) → HasCancelled s → IsTold e s)
      → Triple (IsAt base P k) (abort e) Q IsTold
  unfolding abort
  abort-IsTold Q e told s p = told (record s { sent = s.sent ++ can ∷ can ∷ [] }) (s.sent, refl)

  pub next_byte-IsBelow : Triple (IsAt base P k) next_byte (λ b. IsBelow base P k) IsTold
  next_byte-IsBelow s p =
      Post-map IsTold (λ b. IsBelow base (Window P (b ∷ [])) k) (λ b. IsBelow base P k)
        (next_byte s) (λ b t q. (IsAt-passed (b ∷ []) t pass q.0, q.1))
        (next_byte-Window base k P s p)

  pub next_byte-IsAt : Triple (IsAt base P k) next_byte (λ b. IsAt base P k) IsTold
  next_byte-IsAt s p =
      Post-map IsTold (λ b. IsBelow base P k) (λ b. IsAt base P k) (next_byte s) (λ b t q. q.0)
        (next_byte-IsBelow s p)

  pub send_next_lem :
      {A : Type 0} (Q : A → Receiver → Type 0) (bytes : List ℕ) (f : ℕ → A)
      → ((b : ℕ) (s : Receiver) → IsBelow base P k s → Q (f b) s)
      → Triple (IsAt base P k) (send bytes >>= λ u. next_byte >>= λ b. pure (f b)) Q IsTold
  send_next_lem Q bytes f q =
      Triple-bind IsTold (IsAt base P k) (λ u. IsAt base P k) Q (send bytes)
        (λ u. next_byte >>= λ b. pure (f b)) (send-IsAt bytes)
        (λ u.
          Triple-bind IsTold (IsAt base P k) (λ b. IsBelow base P k) Q next_byte (λ b. pure (f b))
            next_byte-IsBelow q)

  pub refuse_lem :
      {A : Type 0} (Q : A → Receiver → Type 0) (config : Config) (retries : ℕ) (again : ℕ → ℕ → A)
      → ((r b : ℕ) (s : Receiver) → IsBelow base P k s → Q (again r b) s)
      → Triple (IsAt base P k) (refuse config retries again) Q IsTold
  unfolding refuse
  refuse_lem {A} Q config retries again q s p =
      elim (Bool-cases (ltb config.max_retries (sat_add8 retries 1))) [
        | inl e ↦ rw e (abort-IsTold {A = A} Q protocol (λ s c. c) s p)
        | inr e ↦ rw e (
            send_next_lem Q (nak ∷ []) (λ b. again (sat_add8 retries 1) b) (q (sat_add8 retries 1))
              s p)
      ]

  pub asked-IsAt :
      (s : Receiver) (ys rest : List Arrival) (r : ReadByteError ⊎ ℕ) (again : M ℕ)
      → IsAt base P k s
      → ys ++ rest ≡ s.incoming
      → Triple (IsAt base P k) again (λ b. IsAt base P k) IsTold
      → Post {A = ℕ}
          (λ b. IsAt base P k)
          IsTold
          (elim r [
            | inr b ↦ (record s { incoming = rest }, inr b)
            | inl timeout ↦ again (record s { incoming = rest })
            | inl eof ↦ (record s { incoming = rest }, inl end_of_stream)
            | inl io ↦ (record s { incoming = rest }, inl io_error)
          ])
  asked-IsAt s ys rest (inr b) again p h t =
      IsAt-passed (bytes_of ys) (record s { incoming = rest }) pass (IsAt-read s ys rest h p)
  asked-IsAt s ys rest (inl timeout) again p h t =
      t (record s { incoming = rest })
        (IsAt-passed (bytes_of ys) (record s { incoming = rest }) pass (IsAt-read s ys rest h p))
  asked-IsAt s ys rest (inl eof) again p h t = tt
  asked-IsAt s ys rest (inl io) again p h t = tt

  pub first_control-IsAt :
      (n : ℕ) → Triple (IsAt base P k) (first_control n) (λ b. IsAt base P k) IsTold
  unfolding first_control
  first_control-IsAt zero s p = tt
  first_control-IsAt (suc n) s p =
      let asked = (send (crc_request ∷ []) s).0 in
      let p' = send-IsAt (crc_request ∷ []) s p in
      let (ys, e, f) = read_byte-passed asked.incoming in
      asked-IsAt asked ys (read_byte asked.incoming).0 (read_byte asked.incoming).1
        (first_control n) p' e (first_control-IsAt n)
