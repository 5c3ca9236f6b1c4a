-- ===== src/Protocol/Frame.antt =====
-- crates/rustgo-protocol/src/frame.rs: the frame codec. A frame is a header of 16 bytes (magic,
-- major and minor version, message identifier, flags, payload length) and the payload. The input
-- buffer of `decode` is a list of bytes, which it returns advanced or as it was.
pub mod RoundTrip
pub mod Streaming
pub mod Exact
mod Tests
use rustgo.Prelude.{
  ℕ, ◌+◌, ◌-◌, ◌<◌, ◌%◌, ◌^◌, ◌≤◌, Bool, not, Option, none, some, List, [], ◌∷◌, ◌++◌, length, drop,
  ltb, leb, ◌==◌, if◌then◌else◌, Result, ok, err, ◌>>=◌, ◌>>◌, guard, map_err,
}
use rustgo.Prelude.Bytes.{Bytes, from_be, eq_bytes, slice}
use rustgo.Protocol.Version.{ProtocolVersion, new}
use rustgo.Protocol.MessageId
use rustgo.Protocol.MessageId.{MessageId, max_payload, try_from}
use rustgo.Protocol.Message.{Message, id}
use rustgo.Protocol.FrameError.{
  FrameError, invalid_magic, unknown_message, unsupported_flags, payload_too_large,
  message_payload_too_large, truncated, trailing_bytes, length_overflow,
}
use rustgo.Protocol.Externals.{BufMut, Postcard}
use rustgo.Protocol.PayloadCodec.{encode_payload, decode_payload}

-- b"RSGO"
abbrev pub magic : Bytes
magic = b'R' ∷ b'S' ∷ b'G' ∷ b'O' ∷ []

abbrev pub header_len : ℕ
header_len = 16

pub record Frame : Type 0 where
  pub version : ProtocolVersion
  pub flags : ℕ
  pub message : Message

pub record FrameCodec : Type 0 where
  pub max_payload : ℕ

pub record Header : Type 0 where
  pub version : ProtocolVersion
  pub message_id : MessageId
  pub flags : ℕ
  pub payload_len : ℕ

-- `flags & !SUPPORTED_FLAGS`: no flag is supported, so the mask is all ones over a u16.
pub validate_flags : ℕ → Result FrameError (Unit {0})
validate_flags flags =
    let unsupported = flags % 2 ^ 16 in guard (unsupported == 0) (unsupported_flags unsupported)

pub validate_payload_length : FrameCodec → MessageId → ℕ → Result FrameError (Unit {0})
validate_payload_length self message declared = do
  guard (leb declared self.max_payload) (payload_too_large declared self.max_payload)
  let message_max = max_payload message
  guard (leb declared message_max) (message_payload_too_large message declared message_max)

-- The sixteen bytes of a header.
pub put_header : BufMut → ProtocolVersion → ℕ → ℕ → ℕ → Bytes
put_header buf version message_id flags payload_len =
    magic
    ++ (buf.put_u16 version.major
        ++ (buf.put_u16 version.minor
            ++ (buf.put_u16 message_id ++ (buf.put_u16 flags ++ buf.put_u32 payload_len))))

pub encode :
    FrameCodec → BufMut → Postcard → ProtocolVersion → ℕ → Message → Result FrameError Bytes
encode self buf x version flags message = do
  validate_flags flags
  let message_id = id message
  payload ← encode_payload buf x message
  validate_payload_length self message_id (length payload)
  guard (ltb (length payload) (2 ^ 32)) length_overflow
  ok (put_header buf version (MessageId.as_u16 message_id) flags (length payload) ++ payload)

-- The fields of a header, from an input of at least 16 bytes. `usize::try_from(declared)` is exact,
-- since a `usize` holds every u32 on the supported targets.
pub header_fields : FrameCodec → Bytes → Result FrameError Header
header_fields self input = do
  guard (eq_bytes (slice 0 4 input) magic) invalid_magic
  let major = from_be (slice 4 6 input)
  let minor = from_be (slice 6 8 input)
  let raw_message_id = from_be (slice 8 10 input)
  message_id ← map_err unknown_message (try_from raw_message_id)
  let flags = from_be (slice 10 12 input)
  validate_flags flags
  let payload_len = from_be (slice 12 16 input)
  validate_payload_length self message_id payload_len
  ok (record {
    version = new major minor;
    message_id = message_id;
    flags = flags;
    payload_len = payload_len;
  })

pub inspect_header : FrameCodec → Bytes → Result FrameError (Option Header)
inspect_header self input =
    if ltb (length input) header_len
    then ok none
    else (do h ← header_fields self input; ok (some h))

pub frame_of : Header → Message → Frame
frame_of header message = record {
  version = header.version;
  flags = header.flags;
  message = message;
}

-- What `decode` returns, and what it leaves in the buffer.
abbrev pub Decoded : Type 0
Decoded = Result FrameError (Option Frame) × Bytes

-- Only a frame that was decoded whole advances the buffer.
pub advance : Result FrameError Message → Header → ℕ → Bytes → Decoded
advance (ok message) header frame_len input =
    (ok (some (frame_of header message)), drop frame_len input)
advance (err e) header frame_len input = (err e, input)

pub decode_frame : Postcard → Result FrameError (Option Header) → Bytes → Decoded
decode_frame x (err e) input = (err e, input)
decode_frame x (ok none) input = (ok none, input)
decode_frame x (ok (some header)) input =
    let frame_len = header_len + header.payload_len in
    if ltb (length input) frame_len
    then (ok none, input)
    else advance (decode_payload x header.message_id (slice header_len frame_len input)) header
        frame_len input

pub decode : FrameCodec → Postcard → Bytes → Decoded
unfolding decode_frame advance frame_of
decode self x input = decode_frame x (inspect_header self input) input

pub exact_frame : Postcard → Header → Bytes → Result FrameError Frame
exact_frame x header input = do
  let frame_len = header_len + header.payload_len
  guard (not (ltb (length input) frame_len)) (truncated frame_len (length input))
  guard (not (ltb frame_len (length input))) (trailing_bytes (length input - frame_len))
  message ← decode_payload x header.message_id (drop header_len input)
  ok (frame_of header message)

-- `none` is the panic of `expect` on a header that is not there.
pub exact_header :
    Postcard → Result FrameError (Option Header) → Bytes → Option (Result FrameError Frame)
exact_header x (err e) input = some (err e)
exact_header x (ok none) input = none
exact_header x (ok (some header)) input = some (exact_frame x header input)

pub decode_exact : FrameCodec → Postcard → Bytes → Option (Result FrameError Frame)
unfolding exact_header exact_frame frame_of
decode_exact self x input =
    if ltb (length input) header_len
    then some (err (truncated header_len (length input)))
    else exact_header x (inspect_header self input) input
