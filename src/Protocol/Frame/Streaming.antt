-- ===== src/Protocol/Frame/Streaming.antt =====
-- `decode` over a buffer that grows: an answer that it has given does not change when more bytes
-- come, it takes whole frames only, and it agrees with `decode_exact`.
use mathlib.Core.List.{append-nil}
use rustgo.Prelude.{
  ℕ, ◌+◌, ◌-◌, ◌<◌, ◌^◌, ◌≤◌, ◌≡◌, ◌≢◌, refl, ap, ◌∙◌, subst, false, Option, none, some, [], ◌++◌,
  length, drop, take, ltb, Result, ok, err, map_err, arith, guard-eq-ok, >>=-eq-ok, ok-injective,
  length-append, length-drop, drop-append_left, slice-append_left, take-append-drop, Bool-cases,
  inl, inr, ◌⊎◌, Result-cases,
}
use rustgo.Prelude.Bytes.{Bytes, slice, eq_bytes, from_be}
use rustgo.Protocol.Version.{ProtocolVersion}
use rustgo.Protocol.MessageId.{try_from}
use rustgo.Protocol.Message.{Message}
use rustgo.Protocol.FrameError.{FrameError, unknown_message}
use rustgo.Protocol.Externals.{BufMut, Postcard}
use rustgo.Protocol.PayloadCodec.{decode_payload, IsTyped}
use rustgo.Protocol.Frame.{
  header_len, Frame, FrameCodec, Header, Decoded, encode, header_fields, inspect_header,
  validate_flags, validate_payload_length, magic, decode, decode_frame, advance, frame_of,
}
use rustgo.Protocol.Frame.RoundTrip.{
  IsVersion, Fits, validate_payload_length_iff, frame, decode-encode,
}

header_fields-append :
    (c : FrameCodec) (input more : Bytes)
    → 16 ≤ length input
    → header_fields c (input ++ more) ≡ header_fields c input
unfolding header_fields
header_fields-append c input more h = rw (
  slice-append_left 0 4 input more (omega arith),
  slice-append_left 4 2 input more (omega arith),
  slice-append_left 6 2 input more (omega arith),
  slice-append_left 8 2 input more (omega arith),
  slice-append_left 10 2 input more (omega arith),
  slice-append_left 12 4 input more (omega arith),
)

inspect_header-append :
    (c : FrameCodec) (input more : Bytes)
    → 16 ≤ length input
    → inspect_header c (input ++ more) ≡ inspect_header c input
unfolding inspect_header
inspect_header-append c input more h =
    let short : ltb (length input) header_len ≡ false = ground arith in
    let short' : ltb (length (input ++ more)) header_len ≡ false =
      ground (arith, length-append input more) in
    rw (short, short', header_fields-append c input more h)

pub inspect_header_short :
    (c : FrameCodec) (input : Bytes) → length input < 16 → inspect_header c input ≡ ok none
unfolding inspect_header
inspect_header_short c input h = ground arith

advance-append :
    (r : Result FrameError Message) (header : Header) (n : ℕ) (input more : Bytes)
    → n ≤ length input
    → advance r header n (input ++ more)
      ≡ ((advance r header n input).0, (advance r header n input).1 ++ more)
unfolding advance
advance-append (ok m) header n input more h = rw (drop-append_left n input more h)
advance-append (err e) header n input more h = refl

decode_frame-append :
    (x : Postcard) (r : Result FrameError (Option Header)) (input more : Bytes)
    → (decode_frame x r input).0 ≢ ok none
    → decode_frame x r (input ++ more)
      ≡ ((decode_frame x r input).0, (decode_frame x r input).1 ++ more)
unfolding decode_frame
decode_frame-append x (err e) input more h = refl
decode_frame-append x (ok none) input more h = absurd (h refl)
decode_frame-append x (ok (some header)) input more h =
    let n = 16 + header.payload_len in
    elim (Bool-cases (ltb (length input) n)) [
      | inl short ↦ absurd (h (rw short))
      | inr long ↦
          let long' : ltb (length (input ++ more)) n ≡ false =
            ground (arith, length-append input more) in
          let fits : n ≤ length input = ground arith in
          rw (long, long', slice-append_left 16 (n - 16) input more (omega arith))
            (advance-append (decode_payload x header.message_id (slice 16 n input)) header n input
              more fits)
    ]

-- What `decode` has answered, a frame or an error, is its answer however many bytes follow, and
-- the bytes that follow are left in the buffer.
pub decode-append :
    (c : FrameCodec) (x : Postcard) (input more : Bytes)
    → (decode c x input).0 ≢ ok none
    → decode c x (input ++ more) ≡ ((decode c x input).0, (decode c x input).1 ++ more)
unfolding decode
decode-append c x input more h = elim (Bool-cases (ltb (length input) 16)) [
  | inl short ↦ absurd (h (rw (inspect_header_short c input (ground arith))))
  | inr long ↦
      rw (inspect_header-append c input more (ground arith))
        (decode_frame-append x (inspect_header c input) input more h)
]

header_fields-Fits :
    (c : FrameCodec) (input : Bytes) (header : Header)
    → header_fields c input ≡ ok header
    → Fits c header.message_id header.payload_len
unfolding header_fields
header_fields-Fits c input header h =
    let (magic_ok, h1) = guard-eq-ok (eq_bytes (slice 0 4 input) magic) _ _ h in
    let (i, i_eq, h2) =
      >>=-eq-ok (map_err unknown_message (try_from (from_be (slice 8 10 input)))) _ h1 in
    let (u, flags_ok, h3) = >>=-eq-ok (validate_flags (from_be (slice 10 12 input))) _ h2 in
    let n = from_be (slice 12 16 input) in
    let (w, fits, e) = >>=-eq-ok (validate_payload_length c i n) _ h3 in
    subst (λ k. Fits c k.message_id k.payload_len) (ok-injective e)
      ((validate_payload_length_iff c i n).1 fits)

pub inspect_header-Fits :
    (c : FrameCodec) (input : Bytes) (header : Header)
    → inspect_header c input ≡ ok (some header)
    → (16 ≤ length input) × Fits c header.message_id header.payload_len
unfolding inspect_header
inspect_header-Fits c input header h = elim (Bool-cases (ltb (length input) 16)) [
  | inl short ↦ cc (rw (short, inspect_header) at h)
  | inr long ↦
      let (k, fields, e) = >>=-eq-ok (header_fields c input) _ (rw (long, inspect_header) at h) in
      let same : k ≡ header = cc in
      (ground arith, header_fields-Fits c input header (fields ∙ ap ok same))
]

-- What `decode` answered is what it left in the buffer: all of it, unless it gave a frame.
pub decode_frame-kept :
    (x : Postcard) (r : Result FrameError (Option Header)) (input : Bytes)
    → ((f : Frame) → (decode_frame x r input).0 ≢ ok (some f))
    → (decode_frame x r input).1 ≡ input
unfolding decode_frame advance
decode_frame-kept x (err e) input h = refl
decode_frame-kept x (ok none) input h = refl
decode_frame-kept x (ok (some header)) input h =
    let n = 16 + header.payload_len in
    elim (Bool-cases (ltb (length input) n)) [
      | inl short ↦ rw short
      | inr long ↦ elim (Result-cases (decode_payload x header.message_id (slice 16 n input))) [
        | inl (m, decoded) ↦ absurd (h (frame_of header m) (rw (long, decoded)))
        | inr (e, failed) ↦ rw (long, failed)
      ]
    ]

none_or_not : (r : Result FrameError (Option Frame)) → (r ≡ ok none) ⊎ (r ≢ ok none)
none_or_not (ok none) = inl refl
none_or_not (ok (some f)) = inr (λ e. cc)
none_or_not (err e) = inr (λ p. cc)

pub Decoded-eq :
    {d : Decoded} {r : Result FrameError (Option Frame)} {rest : Bytes}
    → d.0 ≡ r
    → d.1 ≡ rest
    → d ≡ (r, rest)
Decoded-eq p q = λ i. (p i, q i)

-- A prefix of a frame that is decoded whole is no answer yet.
decode-prefix :
    (c : FrameCodec) (x : Postcard) (input more : Bytes) (f : Frame)
    → decode c x (input ++ more) ≡ (ok (some f), [])
    → 0 < length more
    → decode c x input ≡ (ok none, input)
unfolding decode
decode-prefix c x input more f h some_more = elim (none_or_not (decode c x input).0) [
  | inl waits ↦ Decoded-eq waits (decode_frame-kept x (inspect_header c input) input (λ g e. cc))
  | inr answered ↦
      let left : (decode c x input).1 ++ more ≡ [] =
        cc (decode-append c x input more answered, h) in
      absurd (omega (arith, length-append (decode c x input).1 more, ap length left))
]

-- Of a message that its types allow and that `encode` accepts, with a version of two u16 numbers
-- and flags of a u16: until the last byte of the encoded frame has come, `decode` asks for more
-- and takes nothing.
pub decode-take-encode :
    (c : FrameCodec) (buf : BufMut) (x : Postcard) (v : ProtocolVersion) (flags : ℕ) (m : Message)
    (bytes : Bytes) (k : ℕ)
    → IsVersion v
    → flags < 2 ^ 16
    → IsTyped m
    → encode c buf x v flags m ≡ ok bytes
    → k < length bytes
    → decode c x (take k bytes) ≡ (ok none, take k bytes)
decode-take-encode c buf x v flags m bytes k version range typed h lt =
    decode-prefix c x (take k bytes) (drop k bytes) (frame v m)
      (rw (take-append-drop k bytes)
        (rw append-nil at (decode-encode c buf x v flags m bytes [] version range typed h)))
      (omega (arith, length-drop k bytes))
