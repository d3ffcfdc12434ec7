-- ===== src/Tts/Frames/Examples.antt =====
-- Runs of `marshal` and `unmarshal`, with the characters' numbers for UTF-8.
use Prim.Native.Nat.{compare, Ordering}
use Prim.Native.Char.{Char, char, nul, IsLt, IsScalar}
use Prim.Native.String.{[] as no_text, ◌∷◌ as ◌▸◌}
use zero_hdsc.Base.{
  ℕ, String, ◌≡◌, refl, List, [], ◌∷◌, arith, be_bytes, low_32, pos, ok, err, protocol_error,
}
use zero_hdsc.Tts.{
  msg_type_code, flags_code, serialization_code, compression_code, is_connection_event, Message,
  blank_message, client_event, MsgType, Flags,
}
use zero_hdsc.Tts.Frames.{
  event_part, code_part, session_part, sized, header, pack_signed, pack_unsigned, marshal,
  unmarshal,
}
use zero_hdsc.Tts.Frames.Parts.{received}
use zero_hdsc.Tts.Frames.RoundTrip.{unmarshal-marshal, connection_response-protocol_error}

-- A number is the number of a character, by the comparisons of `IsScalar`.
abbrev Between : Ordering → Ordering → Type 0
Between Ordering.lt o = IsLt o
Between Ordering.eq _ = ⊥
Between Ordering.gt _ = ⊥

abbrev ScalarBy : Ordering → Ordering → Ordering → Type 0
ScalarBy Ordering.lt _ _ = Unit
ScalarBy Ordering.eq o p = Between o p
ScalarBy Ordering.gt o p = Between o p

abbrev pick_between : (o p : Ordering) → (Between o p → Char) → Char
pick_between Ordering.lt Ordering.lt f = f tt
pick_between Ordering.lt Ordering.eq f = nul
pick_between Ordering.lt Ordering.gt f = nul
pick_between Ordering.eq p f = nul
pick_between Ordering.gt p f = nul

abbrev pick : (o p q : Ordering) → (ScalarBy o p q → Char) → Char
pick Ordering.lt p q f = f tt
pick Ordering.eq p q f = pick_between p q f
pick Ordering.gt p q f = pick_between p q f

pick_between-eq :
    (o p : Ordering) (f : Between o p → Char) (h : Between o p) → pick_between o p f ≡ f h
pick_between-eq Ordering.lt Ordering.lt f h = refl
pick_between-eq Ordering.lt Ordering.eq f h = elim h [ ]
pick_between-eq Ordering.lt Ordering.gt f h = elim h [ ]
pick_between-eq Ordering.eq p f h = elim h [ ]
pick_between-eq Ordering.gt p f h = elim h [ ]

pick-eq : (o p q : Ordering) (f : ScalarBy o p q → Char) (h : ScalarBy o p q) → pick o p q f ≡ f h
pick-eq Ordering.lt p q f h = refl
pick-eq Ordering.eq p q f h = pick_between-eq p q f h
pick-eq Ordering.gt p q f h = pick_between-eq p q f h

abbrev char_of : ℕ → Char
char_of n = pick (compare n 55296) (compare 57343 n) (compare n 1114112) (λ h. char n h)

char_of-code : (n : ℕ) (h : IsScalar n) → char_of n ≡ char n h
char_of-code n h = pick-eq (compare n 55296) (compare 57343 n) (compare n 1114112) (λ k. char n k) h

abbrev codes : String → List ℕ
codes no_text = []
codes (char n h ▸ s) = n ∷ codes s

abbrev text_of_codes : List ℕ → String
text_of_codes [] = ""
text_of_codes (n ∷ ns) = char_of n ▸ text_of_codes ns

text_of_codes-codes : (text : String) → text_of_codes (codes text) ≡ text
text_of_codes-codes no_text = refl
text_of_codes-codes (char n h ▸ s) = rw (char_of-code n h, text_of_codes-codes s) refl

abbrev start_session : Message
unfolding client_event
start_session = client_event (pos 100) "ab" (123 ∷ 125 ∷ [])

start_session-bytes :
    marshal codes start_session
    ≡ ok (
        17 ∷ 20 ∷ 16 ∷ 0 ∷ 0 ∷ 0 ∷ 0 ∷ 100 ∷ 0 ∷ 0 ∷ 0 ∷ 2 ∷ 97 ∷ 98 ∷ 0 ∷ 0 ∷ 0 ∷ 2 ∷ 123 ∷ 125
        ∷ [])
unfolding marshal event_part code_part session_part sized header start_session is_connection_event
    pack_signed pack_unsigned be_bytes low_32 msg_type_code flags_code serialization_code
    compression_code
start_session-bytes = refl

unmarshal-marshal_example :
    (bytes : List ℕ) × ((marshal codes start_session ≡ ok bytes)
      × (unmarshal text_of_codes bytes ≡ ok (received start_session)))
unfolding start_session is_connection_event
unmarshal-marshal_example =
    unmarshal-marshal codes text_of_codes text_of_codes-codes refl start_session refl refl
      (omega arith) (omega arith) refl

abbrev connection_started : Message
connection_started = record blank_message {
  type = MsgType.full_server_response;
  flag = Flags.with_event;
  event = pos 50;
}

connection_response-protocol_error_example :
    (bytes : List ℕ) × ((marshal codes connection_started ≡ ok bytes)
      × (unmarshal text_of_codes bytes ≡ err protocol_error))
unfolding is_connection_event
connection_response-protocol_error_example =
    connection_response-protocol_error codes text_of_codes connection_started refl refl refl refl
      refl
