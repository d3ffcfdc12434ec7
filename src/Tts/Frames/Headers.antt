-- ===== src/Tts/Frames/Headers.antt =====
-- src/ssa/adapters/doubao_tts_protocol.py: the header of a frame is read back.
use zero_hdsc.Base.{ℕ, ◌+◌, ◌*◌, ◌/◌, ◌%◌, ◌<◌, ◌≡◌, refl, some, arith, ok}
use zero_hdsc.Tts.{
  MsgType, Flags, Serialization, Compression, Message, blank_message, msg_type_code, msg_type_of,
  flags_code, flags_of, serialization_code, serialization_of, compression_code, compression_of,
}
use zero_hdsc.Tts.Frames.{read_header}

msg_type_of-msg_type_code : (t : MsgType) → msg_type_of (msg_type_code t) ≡ some t
unfolding msg_type_of msg_type_code
msg_type_of-msg_type_code MsgType.invalid = refl
msg_type_of-msg_type_code MsgType.full_client_request = refl
msg_type_of-msg_type_code MsgType.audio_only_client = refl
msg_type_of-msg_type_code MsgType.full_server_response = refl
msg_type_of-msg_type_code MsgType.audio_only_server = refl
msg_type_of-msg_type_code MsgType.frontend_result_server = refl
msg_type_of-msg_type_code MsgType.error = refl

flags_of-flags_code : (t : Flags) → flags_of (flags_code t) ≡ some t
unfolding flags_of flags_code
flags_of-flags_code Flags.no_sequence = refl
flags_of-flags_code Flags.positive_sequence = refl
flags_of-flags_code Flags.last_no_sequence = refl
flags_of-flags_code Flags.negative_sequence = refl
flags_of-flags_code Flags.with_event = refl

msg_type_code-lt : (t : MsgType) → msg_type_code t < 16
unfolding msg_type_code
msg_type_code-lt MsgType.invalid = omega arith
msg_type_code-lt MsgType.full_client_request = omega arith
msg_type_code-lt MsgType.audio_only_client = omega arith
msg_type_code-lt MsgType.full_server_response = omega arith
msg_type_code-lt MsgType.audio_only_server = omega arith
msg_type_code-lt MsgType.frontend_result_server = omega arith
msg_type_code-lt MsgType.error = omega arith

flags_code-lt : (t : Flags) → flags_code t < 16
unfolding flags_code
flags_code-lt Flags.no_sequence = omega arith
flags_code-lt Flags.positive_sequence = omega arith
flags_code-lt Flags.last_no_sequence = omega arith
flags_code-lt Flags.negative_sequence = omega arith
flags_code-lt Flags.with_event = omega arith

serialization_of-serialization_code :
    (t : Serialization) → serialization_of (serialization_code t) ≡ some t
unfolding serialization_of serialization_code
serialization_of-serialization_code Serialization.raw = refl
serialization_of-serialization_code Serialization.json = refl

compression_of-compression_code : (t : Compression) → compression_of (compression_code t) ≡ some t
unfolding compression_of compression_code
compression_of-compression_code Compression.uncompressed = refl
compression_of-compression_code Compression.gzip = refl

compression_code-lt : (t : Compression) → compression_code t < 16
unfolding compression_code
compression_code-lt Compression.uncompressed = omega arith
compression_code-lt Compression.gzip = omega arith

high_half : (a b : ℕ) → b < 16 → (a * 16 + b) / 16 ≡ a
high_half a b h = omega arith

low_half : (a b : ℕ) → b < 16 → (a * 16 + b) % 16 ≡ b
low_half a b h = omega arith

-- The message of the header alone.
unfoldable pub headed : Message → Message
headed m = record blank_message {
  type = m.type;
  flag = m.flag;
  serialization = m.serialization;
  compression = m.compression;
}

pub read_header-header :
    (m : Message)
    → read_header
        (msg_type_code m.type * 16 + flags_code m.flag)
        (serialization_code m.serialization * 16 + compression_code m.compression)
      ≡ ok (headed m)
unfolding read_header headed
read_header-header m =
    rw
      (
        high_half (msg_type_code m.type) (flags_code m.flag) (flags_code-lt m.flag),
        low_half (msg_type_code m.type) (flags_code m.flag) (flags_code-lt m.flag),
        high_half (serialization_code m.serialization) (compression_code m.compression)
            (compression_code-lt m.compression),
        low_half (serialization_code m.serialization) (compression_code m.compression)
            (compression_code-lt m.compression),
        msg_type_of-msg_type_code m.type,
        flags_of-flags_code m.flag,
        serialization_of-serialization_code m.serialization,
        compression_of-compression_code m.compression,
      )
      refl
