-- ===== src/Tts/Frames.antt =====
-- src/ssa/adapters/doubao_tts_protocol.py: `marshal` and `unmarshal`.
pub mod Reads
mod Headers
mod Parts
pub mod RoundTrip
mod Examples
use zero_hdsc.Base.{
  ℕ, ◌+◌, ◌-◌, ◌*◌, ◌/◌, ◌%◌, ◌^◌, String, Bool, true, false, not, ◌&&◌, ◌||◌, Option, none, some,
  List, [], ◌∷◌, ◌++◌, ltb, ◌==◌, if◌then◌else◌, length, take, drop, ℤ, low_32, fits_32, signed_32,
  be_bytes, from_be, Result, ok, err, or_raise, protocol_error, struct_error, ◌>>=◌,
}
use zero_hdsc.Tts.{
  MsgType, Flags, Serialization, Compression, Message, blank_message, msg_type_code, msg_type_of,
  flags_code, flags_of, serialization_code, serialization_of, compression_code, compression_of,
  is_connection_event, is_with_event, is_sequenced, is_error, is_server_response,
}

-- struct.pack(">i", n)
unfoldable pub pack_signed : ℤ → Result (List ℕ)
pack_signed n = if fits_32 n then ok (be_bytes (low_32 n)) else err struct_error

-- struct.pack(">I", n)
unfoldable pub pack_unsigned : ℕ → Result (List ℕ)
pack_unsigned n = if ltb n (2 ^ 32) then ok (be_bytes n) else err struct_error

-- A length and the bytes.
unfoldable pub sized : List ℕ → Result (List ℕ)
unfolding pack_unsigned
sized bytes = do n ← pack_unsigned (length bytes); ok (n ++ bytes)

unfoldable pub code_part : Message → Result (List ℕ)
code_part m =
    if is_error m.type
    then ok (be_bytes (low_32 m.error_code))
    else if is_sequenced m.flag
    then pack_signed m.sequence
    else ok []

-- The four bytes of the header. The low half of a byte is below 16, so `|` is `+`.
unfoldable pub header : Message → List ℕ
header m =
    (1 * 16 + 1)
    ∷ (msg_type_code m.type * 16 + flags_code m.flag)
    ∷ (serialization_code m.serialization * 16 + compression_code m.compression)
    ∷ 0
    ∷ []

module _ (encode : String → List ℕ) where
  unfoldable pub session_part : Message → Result (List ℕ)
  session_part m = if not (is_connection_event m.event) then sized (encode m.session_id) else ok []

  unfoldable pub event_part : Message → Result (List ℕ)
  event_part m =
      if is_with_event m.flag
      then (do e ← pack_signed m.event; s ← session_part m; ok (e ++ s))
      else ok []

  unfoldable pub marshal : Message → Result (List ℕ)
  marshal m = do
    e ← event_part m
    c ← code_part m
    p ← sized m.payload
    ok (header m ++ (e ++ (c ++ p)))

-- _read_exact: the bytes read, and the rest of the buffer
unfoldable pub read_exact : ℕ → List ℕ → Result (List ℕ × List ℕ)
read_exact size buffer =
    if length (take size buffer) == size
    then ok (take size buffer, drop size buffer)
    else err protocol_error

unfoldable pub read_unsigned : List ℕ → Result (ℕ × List ℕ)
read_unsigned buffer = read_exact 4 buffer >>= λ (bytes, rest). ok (from_be bytes, rest)

unfoldable pub read_signed : List ℕ → Result (ℤ × List ℕ)
read_signed buffer = read_exact 4 buffer >>= λ (bytes, rest). ok (signed_32 (from_be bytes), rest)

-- A length, and as many bytes, if it is not 0.
unfoldable pub read_sized : List ℕ → Result (List ℕ × List ℕ)
read_sized buffer = read_unsigned buffer >>= λ (size, rest).
    if size == 0 then ok ([], rest) else read_exact size rest

unfoldable pub read_code : Message → List ℕ → Result (Message × List ℕ)
read_code m buffer =
    if is_error m.type
    then (read_unsigned buffer >>= λ (code, rest). ok (record m { error_code = ℤ.pos code }, rest))
    else if is_sequenced m.flag
    then (read_signed buffer >>= λ (n, rest). ok (record m { sequence = n }, rest))
    else ok (m, buffer)

-- What is left of the buffer after the payload is not read.
unfoldable pub read_payload : Message → List ℕ → Result Message
read_payload m buffer = read_sized buffer >>= λ (bytes, rest). ok (record m { payload = bytes })

-- The header values, each of which must name a member.
unfoldable pub read_header : ℕ → ℕ → Result Message
read_header b1 b2 = do
  type ← or_raise (msg_type_of (b1 / 16)) protocol_error
  flag ← or_raise (flags_of (b1 % 16)) protocol_error
  serialization ← or_raise (serialization_of (b2 / 16)) protocol_error
  compression ← or_raise (compression_of (b2 % 16)) protocol_error
  ok (record blank_message {
    type = type;
    flag = flag;
    serialization = serialization;
    compression = compression;
  })

module _ (decode : List ℕ → String) where
  -- The text of a part; a part of length 0 leaves the field at its default.
  unfoldable pub read_text : List ℕ → Result (String × List ℕ)
  read_text buffer = read_sized buffer >>= λ (bytes, rest).
      ok (if length bytes == 0 then "" else decode bytes, rest)

  unfoldable pub read_ids : Message → List ℕ → Result (Message × List ℕ)
  read_ids m buffer =
      if not (is_connection_event m.event)
      then (read_text buffer >>= λ (text, rest). ok (record m { session_id = text }, rest))
      else if is_server_response m.type
      then (read_text buffer >>= λ (text, rest). ok (record m { connect_id = text }, rest))
      else ok (m, buffer)

  unfoldable pub read_event : Message → List ℕ → Result (Message × List ℕ)
  read_event m buffer =
      if is_with_event m.flag
      then (read_signed buffer >>= λ (event, rest). read_ids (record m { event = event }) rest)
      else ok (m, buffer)

  unfoldable pub read_body : Message → List ℕ → Result Message
  read_body m buffer = read_event m buffer >>= λ (m', rest).
      read_code m' rest >>= λ (m'', rest'). read_payload m'' rest'

  unfoldable pub unmarshal : List ℕ → Result Message
  unmarshal (b0 ∷ b1 ∷ b2 ∷ b3 ∷ rest) =
      let frame = b0 ∷ b1 ∷ b2 ∷ b3 ∷ rest in
      let size = b0 % 16 * 4 in
      if not (b0 / 16 == 1) || (ltb size 4 || ltb (length frame) size)
      then err protocol_error
      else (do m ← read_header b1 b2; read_body m (drop size frame))
  unmarshal _ = err protocol_error
