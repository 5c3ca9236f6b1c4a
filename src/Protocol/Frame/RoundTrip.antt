-- ===== src/Protocol/Frame/RoundTrip.antt =====
-- A frame that was encoded is decoded to itself, whatever follows it in the buffer.
use mathlib.Core.List.{append_assoc}
use rustgo.Prelude.{
  ℕ, ◌+◌, ◌-◌, ◌<◌, ◌%◌, ◌^◌, ◌≤◌, ◌≡◌, refl, ap, sym, ◌∙◌, false, some, ◌++◌, length, drop, ltb,
  ◌==◌, ok, arith, ok-injective, guard-eq-ok, >>=-eq-ok, length-append, drop-drop,
  drop-append_length, take-append_length, ==_iff,
}
use rustgo.Prelude.Bytes.{Bytes, to_be, from_be-to_be, eq_bytes_refl, slice}
use rustgo.Protocol.Version.{ProtocolVersion}
use rustgo.Protocol.MessageId.{MessageId, max_payload, as_u16, try_from-as_u16}
use rustgo.Protocol.Message.{Message, id}
use rustgo.Protocol.Externals.{BufMut, Postcard}
use rustgo.Protocol.PayloadCodec.{encode_payload, decode_payload, IsTyped}
use rustgo.Protocol.PayloadCodec.Laws.{decode_payload-encode_payload}
use rustgo.Protocol.Frame.{
  magic, header_len, Frame, FrameCodec, Header, validate_flags, validate_payload_length, put_header,
  encode, header_fields, inspect_header, decode, decode_frame, advance, frame_of,
}

abbrev pub IsVersion : ProtocolVersion → Type 0
IsVersion v = (v.major < 2 ^ 16) × (v.minor < 2 ^ 16)

record HeaderLayout (p : Bytes) (version : ProtocolVersion) (i flags n : ℕ) (rest : Bytes)
    : Type 0 where
  magic_eq : slice 0 4 p ≡ magic
  major_eq : slice 4 6 p ≡ to_be 2 version.major
  minor_eq : slice 6 8 p ≡ to_be 2 version.minor
  id_eq : slice 8 10 p ≡ to_be 2 i
  flags_eq : slice 10 12 p ≡ to_be 2 flags
  declared_eq : slice 12 16 p ≡ to_be 4 n
  length_eq : length p ≡ 16 + length rest
  rest_eq : drop 16 p ≡ rest

put_header-HeaderLayout :
    (buf : BufMut) (version : ProtocolVersion) (i flags n : ℕ) (rest : Bytes)
    → HeaderLayout (put_header buf version i flags n ++ rest) version i flags n rest
unfolding put_header to_be
put_header-HeaderLayout buf version i flags n rest =
    rw
      (
        buf.put_u16_lem version.major,
        buf.put_u16_lem version.minor,
        buf.put_u16_lem i,
        buf.put_u16_lem flags,
        buf.put_u32_lem n,
      )
      (record {
        magic_eq = refl;
        major_eq = refl;
        minor_eq = refl;
        id_eq = refl;
        flags_eq = refl;
        declared_eq = refl;
        length_eq = omega arith;
        rest_eq = refl;
      })

as_u16-lt : (m : MessageId) → as_u16 m < 256
unfolding as_u16
as_u16-lt MessageId.client_hello = omega arith
as_u16-lt _ = omega arith

-- The length test, and the limits of the codec and of the message.
abbrev pub Fits : FrameCodec → MessageId → ℕ → Type 0
Fits c i n = (n ≤ c.max_payload) × (n ≤ max_payload i)

pub validate_payload_length_iff :
    (c : FrameCodec) (i : MessageId) (n : ℕ)
    → (Fits c i n → validate_payload_length c i n ≡ ok tt)
      × (validate_payload_length c i n ≡ ok tt → Fits c i n)
unfolding validate_payload_length
validate_payload_length_iff c i n = (λ f. ground arith, λ h. ground arith)

header_fields-HeaderLayout :
    (c : FrameCodec) (p : Bytes) (version : ProtocolVersion) (i : MessageId) (n : ℕ) (rest : Bytes)
    → IsVersion version
    → Fits c i n
    → n < 2 ^ 32
    → HeaderLayout p version (as_u16 i) 0 n rest
    → header_fields c p
      ≡ ok (record { version = version; message_id = i; flags = 0; payload_len = n })
unfolding header_fields validate_flags
header_fields-HeaderLayout c p version i n rest v f small l = rw (
  l.magic_eq,
  eq_bytes_refl magic,
  l.major_eq,
  l.minor_eq,
  l.id_eq,
  l.flags_eq,
  l.declared_eq,
  from_be-to_be 2 version.major v.0,
  from_be-to_be 2 version.minor v.1,
  from_be-to_be 2 (as_u16 i) (omega (arith, as_u16-lt i)),
  from_be-to_be 2 0 (omega arith),
  from_be-to_be 4 n small,
  try_from-as_u16.0 i,
  (validate_payload_length_iff c i n).0 f,
)

-- What a message has passed that was encoded.
record Encoded (c : FrameCodec) (buf : BufMut) (x : Postcard) (v : ProtocolVersion) (flags : ℕ)
    (m : Message) (bytes : Bytes) : Type 0 where
  flags_eq : flags % 2 ^ 16 ≡ 0
  payload : Bytes
  payload_eq : encode_payload buf x m ≡ ok payload
  fits : Fits c (id m) (length payload)
  small : length payload < 2 ^ 32
  bytes_eq : bytes ≡ put_header buf v (as_u16 (id m)) flags (length payload) ++ payload

encode-Encoded :
    (c : FrameCodec) (buf : BufMut) (x : Postcard) (v : ProtocolVersion) (flags : ℕ) (m : Message)
    (bytes : Bytes)
    → encode c buf x v flags m ≡ ok bytes
    → Encoded c buf x v flags m bytes
unfolding encode validate_flags
encode-Encoded c buf x v flags m bytes h =
    let (flags_ok, h1) = guard-eq-ok (flags % 2 ^ 16 == 0) _ _ h in
    let (payload, payload_eq, h2) = >>=-eq-ok (encode_payload buf x m) _ h1 in
    let (u, valid, h3) = >>=-eq-ok (validate_payload_length c (id m) (length payload)) _ h2 in
    let (small, e) = guard-eq-ok (ltb (length payload) (2 ^ 32)) _ _ h3 in
    record {
      flags_eq = (==_iff (flags % 2 ^ 16) 0).0 flags_ok;
      payload = payload;
      payload_eq = payload_eq;
      fits = (validate_payload_length_iff c (id m) (length payload)).1 valid;
      small = ground arith;
      bytes_eq = sym (ok-injective e);
    }

-- The frame that a message is decoded to.
abbrev pub frame : ProtocolVersion → Message → Frame
frame version message = record { version = version; flags = 0; message = message }

header_of : ProtocolVersion → MessageId → ℕ → Header
header_of version i n = record { version = version; message_id = i; flags = 0; payload_len = n }

-- An input that begins with a header of no flags.
module _ (c : FrameCodec) (buf : BufMut) (v : ProtocolVersion) (i : MessageId) (n : ℕ)
    (rest : Bytes) (version : IsVersion v) (fits : Fits c i n) (small : n < 2 ^ 32) where
  abbrev input : Bytes
  input = put_header buf v (as_u16 i) 0 n ++ rest

  layout : HeaderLayout input v (as_u16 i) 0 n rest
  layout = put_header-HeaderLayout buf v (as_u16 i) 0 n rest

  inspect_header-put_header : inspect_header c input ≡ ok (some (header_of v i n))
  unfolding inspect_header header_of
  inspect_header-put_header =
      let long : ltb (length input) header_len ≡ false = ground (arith, layout.length_eq) in
      rw (long, header_fields-HeaderLayout c input v i n rest version fits small layout)

decode_frame-whole :
    (x : Postcard) (v : ProtocolVersion) (m : Message) (p rest input : Bytes)
    → decode_payload x (id m) p ≡ ok m
    → length input ≡ 16 + length (p ++ rest)
    → drop 16 input ≡ p ++ rest
    → decode_frame x (ok (some (header_of v (id m) (length p)))) input
      ≡ (ok (some (frame v m)), rest)
unfolding decode_frame advance header_of frame_of
decode_frame-whole x v m p rest input back long tail =
    let enough : ltb (length input) (16 + length p) ≡ false =
      ground (arith, length-append p rest) in
    let width : 16 + length p - 16 ≡ length p = omega arith in
    let after : drop (16 + length p) input ≡ rest =
      sym (drop-drop 16 (length p) input)
      ∙ (ap (drop (length p)) tail ∙ drop-append_length p rest) in
    rw (enough, width, tail, take-append_length p rest, back, after)

-- A message that its types allow and that `encode` accepts, with a version of two u16 numbers
-- and flags of a u16, is decoded from the front of any buffer that begins with its bytes: to a
-- frame of that version, with no flags and that message. Exactly those bytes are taken from the
-- buffer.
pub decode-encode :
    (c : FrameCodec) (buf : BufMut) (x : Postcard) (v : ProtocolVersion) (flags : ℕ) (m : Message)
    (bytes rest : Bytes)
    → IsVersion v
    → flags < 2 ^ 16
    → IsTyped m
    → encode c buf x v flags m ≡ ok bytes
    → decode c x (bytes ++ rest) ≡ (ok (some (frame v m)), rest)
unfolding decode
decode-encode c buf x v flags m bytes rest version range typed h =
    let e = encode-Encoded c buf x v flags m bytes h in
    let no_flags : flags ≡ 0 = omega (arith, e.flags_eq) in
    let i = id m in
    let n = length e.payload in
    let l = layout c buf v i n (e.payload ++ rest) version e.fits e.small in
    let back = decode_payload-encode_payload buf x m e.payload typed e.payload_eq in
    rw
      (
        e.bytes_eq,
        no_flags,
        append_assoc,
        inspect_header-put_header c buf v i n (e.payload ++ rest) version e.fits e.small,
      )
      (decode_frame-whole x v m e.payload rest _ back l.length_eq l.rest_eq)
