-- ===== src/Tts/Frames/RoundTrip.antt =====
-- src/ssa/adapters/doubao_tts_protocol.py: a frame that is written is read back.
use zero_hdsc.Base.{
  ℕ, ◌<◌, ◌^◌, String, ◌≡◌, refl, true, false, ◌&&◌, List, [], ◌++◌, arith, length, low_32, fits_32,
  be_bytes, from_be, ok, err, protocol_error,
}
use mathlib.Core.List.{append_assoc}
use zero_hdsc.Tts.{MsgType, Flags, Message, is_connection_event, is_with_event, is_server_response}
use zero_hdsc.Tts.Frames.{
  sized, session_part, event_part, code_part, header, marshal, read_ids, read_event, read_code,
  read_payload, read_body, unmarshal, read_sized, read_text, read_unsigned, read_exact,
}
use zero_hdsc.Tts.Frames.Reads.{read_signed-append, pack_signed-ok}
use zero_hdsc.Tts.Frames.Headers.{headed, read_header-header}
use zero_hdsc.Tts.Frames.Parts.{
  received, read_code-code_part, read_payload-payload, read_event-event_part,
}

module _ (decode : List ℕ → String) where
  unmarshal-header :
      (m : Message) (rest : List ℕ)
      → unmarshal decode (header m ++ rest) ≡ read_body decode (headed m) rest
  unfolding unmarshal header
  unmarshal-header m rest = rw (read_header-header m) (ground arith)

module _ (encode : String → List ℕ) (decode : List ℕ → String)
    (decode_encode : (text : String) → decode (encode text) ≡ text)
    (decode_nil : decode [] ≡ "") where
  -- A message whose event and sequence are 32-bit integers, whose session, in UTF-8, and payload
  -- are shorter than 2^32 bytes, and which is not a server response with a connection event, is
  -- marshalled without an error, and unmarshalling the bytes gives the message back with every
  -- field that the frame does not carry at its default and the error code reduced to 32 bits.
  pub unmarshal-marshal :
      (m : Message)
      → fits_32 m.event ≡ true
      → fits_32 m.sequence ≡ true
      → length (encode m.session_id) < 2 ^ 32
      → length m.payload < 2 ^ 32
      → is_with_event m.flag && (is_connection_event m.event && is_server_response m.type) ≡ false
      → (bytes : List ℕ) × ((marshal encode m ≡ ok bytes)
          × (unmarshal decode bytes ≡ ok (received m)))
  unfolding marshal read_body
  unmarshal-marshal m he hs hl hp k =
      let (e, (e_ok, e_read)) =
        read_event-event_part encode decode decode_encode decode_nil m he hl k in
      let (c, (c_ok, c_read)) = read_code-code_part m hs in
      let (p, (p_ok, p_read)) = read_payload-payload m hp in
      (
        header m ++ (e ++ (c ++ p)),
        (
          rw (e_ok, c_ok, p_ok) refl,
          rw (unmarshal-header decode m (e ++ (c ++ p)), e_read (c ++ p), c_read p) p_read,
        ),
      )

read_text-nothing : (decode : List ℕ → String) → read_text decode (be_bytes 0 ++ []) ≡ ok ("", [])
unfolding read_text read_sized read_unsigned read_exact be_bytes from_be
read_text-nothing decode = refl

read_sized-nil : read_sized [] ≡ err protocol_error
unfolding read_sized read_unsigned read_exact
read_sized-nil = refl

-- A server response with a connection event, an empty payload and no error is marshalled without
-- its connect id, and unmarshalling the bytes raises a protocol error.
pub connection_response-protocol_error :
    (encode : String → List ℕ) (decode : List ℕ → String) (m : Message)
    → fits_32 m.event ≡ true
    → m.type ≡ MsgType.full_server_response
    → m.flag ≡ Flags.with_event
    → is_connection_event m.event ≡ true
    → m.payload ≡ []
    → (bytes : List ℕ) × ((marshal encode m ≡ ok bytes)
        × (unmarshal decode bytes ≡ err protocol_error))
unfolding marshal event_part session_part code_part read_body read_event read_ids headed read_code
    read_payload sized
connection_response-protocol_error encode decode m h t f c p = (
  header m ++ ((be_bytes (low_32 m.event) ++ []) ++ ([] ++ (be_bytes 0 ++ []))),
  (
    rw (f, c, p, t, pack_signed-ok m.event h) refl,
    rw
        (
          unmarshal-header decode m
              ((be_bytes (low_32 m.event) ++ []) ++ ([] ++ (be_bytes 0 ++ []))),
          f,
          t,
          append_assoc (be_bytes (low_32 m.event)) [] (be_bytes 0 ++ []),
          read_signed-append m.event (be_bytes 0 ++ []) h,
          c,
        )
        (rw (read_text-nothing decode, read_sized-nil) refl),
  ),
)
