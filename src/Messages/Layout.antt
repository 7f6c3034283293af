-- ===== src/Messages/Layout.antt =====
-- The shape of each class of datagram of microtun-core/src/messages.rs.
use microtun.Prelude.{
  ℕ, ◌≤◌, ◌≡◌, ◌↔◌, some, List, [], ◌∷◌, arith, length, drop, length-drop, refl, subst,
}
use microtun.Messages.{
  Message, initiation, response, cookie_reply, data_message, relay_data, classify, write_type,
  msg_initiation, msg_response, msg_cookie_reply, msg_data, msg_relay, prefix_len,
}

-- The type byte of a class, and the lengths that it may have.
abbrev pub type_byte : Message → ℕ
type_byte initiation = msg_initiation
type_byte response = msg_response
type_byte cookie_reply = msg_cookie_reply
type_byte data_message = msg_data
type_byte relay_data = msg_relay

abbrev pub Fits : Message → ℕ → Type 0
Fits initiation n = n ≡ 148
Fits response n = n ≡ 92
Fits cookie_reply n = n ≡ 64
Fits data_message n = 32 ≤ n
Fits relay_data n = 32 ≤ n

head_shape :
    (t r0 r1 r2 : ℕ) (body : List ℕ) (m : Message)
    → let buf = t ∷ r0 ∷ r1 ∷ r2 ∷ body in
      (classify buf ≡ some m)
      ↔ ((t ≡ type_byte m) × (r0 ≡ 0) × (r1 ≡ 0) × (r2 ≡ 0) × Fits m (length buf))
unfolding classify
head_shape t r0 r1 r2 body initiation = ground arith
head_shape t r0 r1 r2 body _ = ground arith

-- What `write_type` writes over a datagram of the right length is classified as the class meant.
classify-write_type :
    (buf out : List ℕ) (m : Message)
    → Fits m (length buf)
    → write_type buf (type_byte m) ≡ some out
    → classify out ≡ some m
unfolding classify write_type
classify-write_type buf out m fits e =
    let room : 4 ≤ length buf = ground arith in
    let body = drop prefix_len buf in
    let written : type_byte m ∷ 0 ∷ 0 ∷ 0 ∷ body ≡ out = ground arith in
    let same : length buf ≡ length (type_byte m ∷ 0 ∷ 0 ∷ 0 ∷ body) =
      omega (arith, length-drop prefix_len buf) in
    subst (λ b. classify b ≡ some m) written
      ((head_shape (type_byte m) 0 0 0 body m).1 (refl, refl, refl, refl, subst (Fits m) same fits))

-- A datagram that is classified is left as it is by writing the class's type over it, and has a
-- length of the class.
classified_is_written :
    (buf : List ℕ) (m : Message)
    → classify buf ≡ some m
    → (write_type buf (type_byte m) ≡ some buf) × Fits m (length buf)
unfolding write_type
classified_is_written [] m e = absurd (unfold classify in cc)
classified_is_written (t ∷ []) m e = absurd (unfold classify in cc)
classified_is_written (t ∷ r0 ∷ []) m e = absurd (unfold classify in cc)
classified_is_written (t ∷ r0 ∷ r1 ∷ []) m e = absurd (unfold classify in cc)
classified_is_written (t ∷ r0 ∷ r1 ∷ r2 ∷ body) m e =
    let (a, b, c, d, fits) = (head_shape t r0 r1 r2 body m).0 e in (ground arith, fits)

-- Reading and writing the type of a datagram agree, for a datagram of any length, the empty one
-- included: it is classified as `m` exactly when `write_type` of the type of `m` succeeds on it
-- and leaves it as it is, and it has the length of the layout of `m` (148, 92 and 64 bytes for
-- the handshake messages, 32 or more for transport data and for the relay).
pub classify_as_written :
    (buf : List ℕ) (m : Message)
    → (classify buf ≡ some m) ↔ ((write_type buf (type_byte m) ≡ some buf) × Fits m (length buf))
classify_as_written buf m =
    (classified_is_written buf m, λ (w, fits). classify-write_type buf buf m fits w)
