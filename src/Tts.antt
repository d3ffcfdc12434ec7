-- ===== src/Tts.antt =====
-- src/ssa/adapters/doubao_tts_protocol.py: the binary frames of the speech service. A byte is a
-- number below 256. UTF-8 is a parameter: `encode` is `str.encode("utf-8")`, and `decode` is
-- `bytes.decode("utf-8", errors="replace")`.
pub mod Frames
use zero_hdsc.Base.{
  ℕ, String, Bool, true, false, ◌||◌, Option, none, some, List, [], ◌==◌, if◌then◌else◌, ℤ, pos,
  negsuc,
}

pub data MsgType : Type 0 where
  invalid full_client_request audio_only_client full_server_response : MsgType
  audio_only_server frontend_result_server error : MsgType

unfoldable pub msg_type_code : MsgType → ℕ
msg_type_code invalid = 0
msg_type_code full_client_request = 1
msg_type_code audio_only_client = 2
msg_type_code full_server_response = 9
msg_type_code audio_only_server = 11
msg_type_code frontend_result_server = 12
msg_type_code error = 15

-- MsgType(value); `none` is a ValueError
unfoldable pub msg_type_of : ℕ → Option MsgType
msg_type_of n =
    if n == 0
    then some invalid
    else if n == 1
    then some full_client_request
    else if n == 2
    then some audio_only_client
    else if n == 9
    then some full_server_response
    else if n == 11
    then some audio_only_server
    else if n == 12
    then some frontend_result_server
    else if n == 15
    then some error
    else none

pub data Flags : Type 0 where
  no_sequence positive_sequence last_no_sequence negative_sequence with_event : Flags

unfoldable pub flags_code : Flags → ℕ
flags_code no_sequence = 0
flags_code positive_sequence = 1
flags_code last_no_sequence = 2
flags_code negative_sequence = 3
flags_code with_event = 4

unfoldable pub flags_of : ℕ → Option Flags
flags_of n =
    if n == 0
    then some no_sequence
    else if n == 1
    then some positive_sequence
    else if n == 2
    then some last_no_sequence
    else if n == 3
    then some negative_sequence
    else if n == 4
    then some with_event
    else none

pub data Serialization : Type 0 where
  raw json : Serialization

unfoldable pub serialization_code : Serialization → ℕ
serialization_code raw = 0
serialization_code json = 1

unfoldable pub serialization_of : ℕ → Option Serialization
serialization_of n = if n == 0 then some raw else if n == 1 then some json else none

pub data Compression : Type 0 where
  uncompressed gzip : Compression

unfoldable pub compression_code : Compression → ℕ
compression_code uncompressed = 0
compression_code gzip = 1

unfoldable pub compression_of : ℕ → Option Compression
compression_of n = if n == 0 then some uncompressed else if n == 1 then some gzip else none

-- An event is an `EventType` or another integer; the two compare as integers.
abbrev pub EventType : Type 0
EventType = ℤ

-- event in _CONNECTION_EVENTS
unfoldable pub is_connection_event : EventType → Bool
is_connection_event (pos n) = n == 1 || (n == 2 || (n == 50 || (n == 51 || n == 52)))
is_connection_event (negsuc n) = false

pub record Message : Type 0 where
  pub type : MsgType
  pub flag : Flags
  pub serialization : Serialization
  pub compression : Compression
  pub event : EventType
  pub session_id : String
  pub connect_id : String
  pub sequence : ℤ
  pub error_code : ℤ
  pub payload : List ℕ

-- The defaults of the fields.
abbrev pub blank_message : Message
blank_message = record {
  type = invalid;
  flag = no_sequence;
  serialization = json;
  compression = uncompressed;
  event = pos 0;
  session_id = "";
  connect_id = "";
  sequence = pos 0;
  error_code = pos 0;
  payload = [];
}

unfoldable pub client_event : EventType → String → List ℕ → Message
client_event event session payload = record blank_message {
  type = full_client_request;
  flag = with_event;
  event = event;
  session_id = session;
  payload = payload;
}

abbrev pub is_with_event : Flags → Bool
is_with_event with_event = true
is_with_event _ = false

abbrev pub is_sequenced : Flags → Bool
is_sequenced positive_sequence = true
is_sequenced negative_sequence = true
is_sequenced _ = false

abbrev pub is_error : MsgType → Bool
is_error error = true
is_error _ = false

abbrev pub is_server_response : MsgType → Bool
is_server_response full_server_response = true
is_server_response _ = false
