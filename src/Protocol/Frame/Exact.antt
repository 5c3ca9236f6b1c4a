-- ===== src/Protocol/Frame/Exact.antt =====
-- What `decode` takes from the buffer, and that `decode_exact` accepts an input exactly if `decode`
-- takes the whole of it.
use rustgo.Prelude.{
  ℕ, ◌+◌, ◌-◌, ◌<◌, ◌≤◌, ◌≡◌, ◌≢◌, ◌↔◌, refl, ap, ◌∙◌, false, Option, none, some, [], length, drop,
  ltb, Result, ok, err, ◌>>=◌, arith, length-drop, Bool-cases, inl, inr, Result-cases, drop_all,
  take_all, map_err, >>=-eq-ok, ok-injective, guard-eq-ok, subst,
}
use rustgo.Prelude.Bytes.{Bytes, slice, from_be, eq_bytes}
use rustgo.Protocol.Version.{new}
use rustgo.Protocol.MessageId.{max_payload, as_u16, try_from, try_from-as_u16}
use rustgo.Protocol.Message.{Message, id}
use rustgo.Protocol.FrameError.{FrameError, unknown_message}
use rustgo.Protocol.Externals.{Postcard}
use rustgo.Protocol.PayloadCodec.{decode_payload}
use rustgo.Protocol.PayloadCodec.Laws.{decode_payload-id}
use rustgo.Protocol.Frame.{
  Frame, FrameCodec, Header, magic, validate_flags, validate_payload_length, Decoded, header_fields,
  inspect_header, decode, decode_frame, advance, frame_of, decode_exact, exact_header, exact_frame,
}
use rustgo.Protocol.Frame.RoundTrip.{Fits}
use rustgo.Protocol.Frame.Streaming.{
  inspect_header-Fits, decode_frame-kept, Decoded-eq, inspect_header_short,
}

-- The fields of a header are the numbers that stand at their places in the input.
record Fields (header : Header) (input : Bytes) : Type 0 where
  version : header.version ≡ new (from_be (slice 4 6 input)) (from_be (slice 6 8 input))
  number : as_u16 header.message_id ≡ from_be (slice 8 10 input)
  flags : header.flags ≡ from_be (slice 10 12 input)
  size : header.payload_len ≡ from_be (slice 12 16 input)

map_err-ok : {A B E : Type 0} (f : E → B) (r : Result E A) (a : A) → map_err f r ≡ ok a → r ≡ ok a
map_err-ok f (ok a') a h = ground arith
map_err-ok f (err e) a h = cc

header_fields-Fields :
    (c : FrameCodec) (input : Bytes) (header : Header)
    → header_fields c input ≡ ok header
    → Fields header input
unfolding header_fields
header_fields-Fields c input header h =
    let (_, h1) = guard-eq-ok (eq_bytes (slice 0 4 input) magic) _ _ h in
    let raw = from_be (slice 8 10 input) in
    let (i, named, h2) = >>=-eq-ok (map_err unknown_message (try_from raw)) _ h1 in
    let (_, _, h3) = >>=-eq-ok (validate_flags (from_be (slice 10 12 input))) _ h2 in
    let n = from_be (slice 12 16 input) in
    let (_, _, e) = >>=-eq-ok (validate_payload_length c i n) _ h3 in
    subst (λ k. Fields k input) (ok-injective e)
      (record {
        version = refl;
        number = try_from-as_u16.1 raw i (map_err-ok unknown_message (try_from raw) i named);
        flags = refl;
        size = refl;
      })

inspect_header-Fields :
    (c : FrameCodec) (input : Bytes) (header : Header)
    → inspect_header c input ≡ ok (some header)
    → Fields header input
unfolding inspect_header
inspect_header-Fields c input header h = elim (Bool-cases (ltb (length input) 16)) [
  | inl short ↦ cc (rw (short, inspect_header) at h)
  | inr long ↦
      let (k, fields, e) = >>=-eq-ok (header_fields c input) _ (rw (long, inspect_header) at h) in
      let same : k ≡ header = cc in header_fields-Fields c input header (fields ∙ ap ok same)
]

-- The length that the header at the front of an input declares: bytes 12 to 15.
abbrev pub declared : Bytes → ℕ
declared input = from_be (slice 12 16 input)

-- A frame that `decode` gave is the header and the payload at the front of the buffer: its version,
-- its flags and the number of its message are those in the header; its message is what the bytes of
-- the declared length behind the header decode to; that length is within the limits of the codec
-- and of the message; and exactly the header and the payload are gone.
pub record Took (c : FrameCodec) (x : Postcard) (f : Frame) (input rest : Bytes) : Type 0 where
  pub within_codec : declared input ≤ c.max_payload
  pub within_message : declared input ≤ max_payload (id f.message)
  pub arrived : 16 + declared input ≤ length input
  pub version : f.version ≡ new (from_be (slice 4 6 input)) (from_be (slice 6 8 input))
  pub number : as_u16 (id f.message) ≡ from_be (slice 8 10 input)
  pub flags : f.flags ≡ from_be (slice 10 12 input)
  pub payload :
      decode_payload x (id f.message) (slice 16 (16 + declared input) input) ≡ ok f.message
  pub taken : rest ≡ drop (16 + declared input) input

Took-frame_of :
    (c : FrameCodec) (x : Postcard) (input : Bytes) (header : Header) (m : Message)
    → Fields header input
    → Fits c header.message_id header.payload_len
    → 16 + header.payload_len ≤ length input
    → decode_payload x header.message_id (slice 16 (16 + header.payload_len) input) ≡ ok m
    → Took c x (frame_of header m) input (drop (16 + header.payload_len) input)
unfolding frame_of
Took-frame_of c x input header m fields fits long decoded =
    let n = header.payload_len in
    let named : id m ≡ header.message_id =
      decode_payload-id x header.message_id (slice 16 (16 + n) input) m decoded in
    record {
      within_codec = rw (← fields.size) fits.0;
      within_message = rw (← fields.size, named) fits.1;
      arrived = rw (← fields.size) long;
      version = fields.version;
      number = ap as_u16 named ∙ fields.number;
      flags = fields.flags;
      payload = rw (← fields.size, named) decoded;
      taken = ap (λ k. drop (16 + k) input) fields.size;
    }

Took-of :
    (c : FrameCodec) (x : Postcard) (input rest : Bytes) (f : Frame) (header : Header)
    → inspect_header c input ≡ ok (some header)
    → decode_frame x (ok (some header)) input ≡ (ok (some f), rest)
    → Took c x f input rest
unfolding decode_frame advance
Took-of c x input rest f header head h =
    let n = 16 + header.payload_len in
    let (_, fits) = inspect_header-Fits c input header head in
    elim (Bool-cases (ltb (length input) n)) [
      | inl short ↦ cc (rw (short, decode_frame) at h)
      | inr long ↦ elim (Result-cases (decode_payload x header.message_id (slice 16 n input))) [
        | inl (m, decoded) ↦
            let e : ◌≡◌ {A = Decoded} (ok (some (frame_of header m)), drop n input)
                (ok (some f), rest) =
              rw (long, decoded, decode_frame, advance) at h in
            let frame_eq : frame_of header m ≡ f = cc in
            let rest_eq : drop n input ≡ rest = cc in
            rw (← frame_eq, ← rest_eq)
              (Took-frame_of c x input header m (inspect_header-Fields c input header head) fits
                (ground arith) decoded)
        | inr (e, failed) ↦ cc (rw (long, failed, decode_frame, advance) at h)
      ]
    ]

took :
    (c : FrameCodec) (x : Postcard) (input : Bytes) (f : Frame)
    (r : Result FrameError (Option Header))
    → inspect_header c input ≡ r
    → (decode_frame x r input).0 ≡ ok (some f)
    → Took c x f input (decode_frame x r input).1
unfolding decode_frame
took c x input f (err e) i h = cc
took c x input f (ok none) i h = cc
took c x input f (ok (some header)) i h =
    Took-of c x input (decode_frame x (ok (some header)) input).1 f header i (Decoded-eq h refl)

-- The bytes stay in the buffer if `decode` gives no frame, because of an error or because the frame
-- is not complete.
pub decode_kept :
    (c : FrameCodec) (x : Postcard) (input : Bytes)
    → ((f : Frame) → (decode c x input).0 ≢ ok (some f))
    → (decode c x input).1 ≡ input
unfolding decode
decode_kept c x input h = decode_frame-kept x (inspect_header c input) input h

-- If `decode` gives a frame, it has taken from the front of the buffer exactly a header of 16 bytes
-- and the payload of the length that this header declares. The payload had arrived, its length is
-- within the limits of the codec and of the message, the frame's message is what it decodes to, and
-- the frame's version, flags and message number are those of the header.
pub decode-Took :
    (c : FrameCodec) (x : Postcard) (input : Bytes) (f : Frame)
    → (decode c x input).0 ≡ ok (some f)
    → Took c x f input (decode c x input).1
unfolding decode
decode-Took c x input f h = took c x input f (inspect_header c input) refl h

-- An input that `decode_exact` has found to be long enough has a header or an error.
inspect_header-ne-none :
    (c : FrameCodec) (input : Bytes)
    → ltb (length input) 16 ≡ false
    → inspect_header c input ≢ ok none
unfolding inspect_header
inspect_header-ne-none c input long h = elim (Result-cases (header_fields c input)) [
  | inl (k, fields) ↦ cc (rw (long, fields, inspect_header) at h)
  | inr (e, failed) ↦ cc (rw (long, failed, inspect_header) at h)
]

-- Where the input is longer than the frame, `decode` leaves the rest.
advance_leaves :
    (r : Result FrameError Message) (header : Header) (n : ℕ) (input : Bytes) (f : Frame)
    → n < length input
    → advance r header n input ≢ (ok (some f), [])
unfolding advance
advance_leaves (ok m) header n input f lt h =
    let nothing : drop n input ≡ [] = cc in omega (arith, length-drop n input, ap length nothing)
advance_leaves (err e) header n input f lt h = cc

advance_all :
    (r : Result FrameError Message) (header : Header) (n : ℕ) (input : Bytes) (f : Frame)
    → drop n input ≡ []
    → ((r >>= λ m. ok (frame_of header m)) ≡ ok f) ↔ (advance r header n input ≡ (ok (some f), []))
unfolding advance
advance_all (ok m) header n input f nothing = (λ h. ground arith, λ h. ground arith)
advance_all (err e) header n input f nothing = (λ h. cc, λ h. cc)

exact-decode_frame :
    (x : Postcard) (header : Header) (input : Bytes) (f : Frame)
    → 16 ≤ length input
    → (exact_frame x header input ≡ ok f)
      ↔ (decode_frame x (ok (some header)) input ≡ (ok (some f), []))
unfolding exact_frame decode_frame
exact-decode_frame x header input f enough =
    let n = 16 + header.payload_len in
    let payload = drop 16 input in
    elim (Bool-cases (ltb (length input) n)) [
      | inl short ↦ rw short (λ h. cc, λ h. cc)
      | inr long ↦ elim (Bool-cases (ltb n (length input))) [
        | inl more ↦
            rw (long, more)
              (
                λ h. cc,
                λ h. absurd (
                    advance_leaves (decode_payload x header.message_id (slice 16 n input)) header n
                      input f (ground arith) h),
              )
        | inr exact ↦
            let whole : slice 16 n input ≡ payload =
              take_all (n - 16) payload (ground (arith, length-drop 16 input)) in
            rw (long, exact, whole)
              (advance_all (decode_payload x header.message_id payload) header n input f
                (drop_all n input (ground arith)))
      ]
    ]

exact-inspected :
    (x : Postcard) (r : Result FrameError (Option Header)) (input : Bytes)
    → 16 ≤ length input
    → r ≢ ok none
    → (exact_header x r input ≢ none)
      × ((f : Frame)
          → (exact_header x r input ≡ some (ok f)) ↔ (decode_frame x r input ≡ (ok (some f), [])))
unfolding exact_header decode_frame
exact-inspected x (err e) input enough h = (λ p. cc, λ f. (λ p. cc, λ p. cc))
exact-inspected x (ok none) input enough h = absurd (h refl)
exact-inspected x (ok (some header)) input enough h = (
  λ p. cc,
  λ f.
      let same = exact-decode_frame x header input f enough in
      (λ p. same.0 (cc), λ p. ap some (same.1 p)),
)

-- `decode_exact` never panics, and it accepts an input as a frame exactly if `decode` gives that
-- frame and leaves nothing.
pub decode_exact-decode :
    (c : FrameCodec) (x : Postcard) (input : Bytes)
    → (decode_exact c x input ≢ none)
      × ((f : Frame)
          → (decode_exact c x input ≡ some (ok f)) ↔ (decode c x input ≡ (ok (some f), [])))
unfolding decode_exact decode
decode_exact-decode c x input = elim (Bool-cases (ltb (length input) 16)) [
  | inl short ↦
      rw (short, inspect_header_short c input (ground arith)) (λ p. cc, λ f. (λ p. cc, λ p. cc))
  | inr long ↦ rw long (
      exact-inspected x (inspect_header c input) input (ground arith)
        (inspect_header-ne-none c input long))
]
