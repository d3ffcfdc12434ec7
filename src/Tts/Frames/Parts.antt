-- ===== src/Tts/Frames/Parts.antt =====
-- src/ssa/adapters/doubao_tts_protocol.py: each part of a frame behind its header is read back.
use zero_hdsc.Base.{
  ℕ, ◌<◌, ◌^◌, String, ◌≡◌, refl, true, false, not, ◌&&◌, List, [], ◌++◌, arith, if◌then◌else◌,
  length, pos, low_32, fits_32, be_bytes, low_32-lt, ok, Bool-cases,
}
use mathlib.Core.Path.{subst}
use mathlib.Core.Logic.{inl, inr}
use mathlib.Core.List.{append_assoc, append-nil}
use zero_hdsc.Tts.{
  Message, is_connection_event, is_with_event, is_sequenced, is_error, is_server_response,
}
use zero_hdsc.Tts.Frames.{
  sized, session_part, event_part, code_part, read_ids, read_event, read_code, read_payload,
  read_sized,
}
use zero_hdsc.Tts.Frames.Reads.{
  read_unsigned-append, read_signed-append, pack_signed-ok, sized-ok, read_sized-append,
  read_text-append,
}
use zero_hdsc.Tts.Frames.Headers.{headed}

-- The values that the frame carries; every other field comes out at its default.
unfoldable pub received : Message → Message
received m = record m {
  event = if is_with_event m.flag then m.event else pos 0;
  session_id =
      if is_with_event m.flag && not (is_connection_event m.event) then m.session_id else "";
  connect_id = "";
  sequence = if not (is_error m.type) && is_sequenced m.flag then m.sequence else pos 0;
  error_code = if is_error m.type then pos (low_32 m.error_code) else pos 0;
}

-- With the event and the session that the frame carries.
unfoldable pub evented : Message → Message
unfolding headed
evented m = record (headed m) {
  event = if is_with_event m.flag then m.event else pos 0;
  session_id =
      if is_with_event m.flag && not (is_connection_event m.event) then m.session_id else "";
}

-- With the sequence or the error code that the frame carries.
unfoldable pub coded : Message → Message
unfolding evented
coded m = record (evented m) {
  sequence = if not (is_error m.type) && is_sequenced m.flag then m.sequence else pos 0;
  error_code = if is_error m.type then pos (low_32 m.error_code) else pos 0;
}

pub read_code-code_part :
    (m : Message)
    → fits_32 m.sequence ≡ true
    → (c : List ℕ) × ((code_part m ≡ ok c)
        × ((rest : List ℕ) → read_code (evented m) (c ++ rest) ≡ ok (coded m, rest)))
unfolding code_part read_code evented headed coded
read_code-code_part m h = elim (Bool-cases (is_error m.type)) [
  | inl e ↦ (
    be_bytes (low_32 m.error_code),
    (
      rw e refl,
      λ rest. rw (e, read_unsigned-append (low_32 m.error_code) rest (low_32-lt m.error_code)) refl,
    ),
  )
  | inr e ↦ elim (Bool-cases (is_sequenced m.flag)) [
    | inl q ↦ (
      be_bytes (low_32 m.sequence),
      (
        rw (e, q, pack_signed-ok m.sequence h) refl,
        λ rest. rw (e, q, read_signed-append m.sequence rest h) refl,
      ),
    )
    | inr q ↦ ([], (rw (e, q) refl, λ rest. rw (e, q) refl))
  ]
]

read_sized-all :
    (bytes : List ℕ)
    → length bytes < 2 ^ 32
    → read_sized (be_bytes (length bytes) ++ bytes) ≡ ok (bytes, [])
read_sized-all bytes h =
    subst (λ b. read_sized b ≡ ok (bytes, [])) (append-nil (be_bytes (length bytes) ++ bytes))
      (read_sized-append bytes [] h)

pub read_payload-payload :
    (m : Message)
    → length m.payload < 2 ^ 32
    → (p : List ℕ) × ((sized m.payload ≡ ok p) × (read_payload (coded m) p ≡ ok (received m)))
unfolding read_payload coded evented headed received
read_payload-payload m h = (
  be_bytes (length m.payload) ++ m.payload,
  (sized-ok m.payload h, rw (read_sized-all m.payload h) refl),
)

module _ (encode : String → List ℕ) (decode : List ℕ → String)
    (decode_encode : (text : String) → decode (encode text) ≡ text)
    (decode_nil : decode [] ≡ "") where
  pub read_event-event_part :
      (m : Message)
      → fits_32 m.event ≡ true
      → length (encode m.session_id) < 2 ^ 32
      → is_with_event m.flag && (is_connection_event m.event && is_server_response m.type) ≡ false
      → (e : List ℕ) × ((event_part encode m ≡ ok e)
          × ((rest : List ℕ) → read_event decode (headed m) (e ++ rest) ≡ ok (evented m, rest)))
  unfolding event_part session_part read_event read_ids evented headed
  read_event-event_part m h s k = elim (Bool-cases (is_with_event m.flag)) [
    | inl w ↦ elim (Bool-cases (is_connection_event m.event)) [
      | inl c ↦
          let r : is_server_response m.type ≡ false = ground (arith, w, c, k) in
          (
            be_bytes (low_32 m.event) ++ [],
            (
              rw (w, c, pack_signed-ok m.event h) refl,
              λ rest.
                  rw
                    (
                      w,
                      append_assoc (be_bytes (low_32 m.event)) [] rest,
                      read_signed-append m.event rest h,
                      c,
                      r,
                    )
                    refl,
            ),
          )
      | inr c ↦ (
        be_bytes (low_32 m.event)
            ++ (be_bytes (length (encode m.session_id)) ++ encode m.session_id),
        (
          rw (w, c, pack_signed-ok m.event h, sized-ok (encode m.session_id) s) refl,
          λ rest.
              rw
                (
                  w,
                  append_assoc (be_bytes (low_32 m.event))
                      (be_bytes (length (encode m.session_id)) ++ encode m.session_id) rest,
                  read_signed-append m.event
                      ((be_bytes (length (encode m.session_id)) ++ encode m.session_id) ++ rest) h,
                  c,
                  read_text-append encode decode decode_encode decode_nil m.session_id rest s,
                )
                refl,
        ),
      )
    ]
    | inr w ↦ ([], (rw w refl, λ rest. rw w refl))
  ]
