-- ===== src/Tts/Frames/Reads.antt =====
-- src/ssa/adapters/doubao_tts_protocol.py: what is written in front of a buffer is read back.
use zero_hdsc.Base.{
  ℕ, ◌<◌, ◌^◌, String, ◌≡◌, refl, sym, true, List, [], ◌∷◌, ◌++◌, arith, ◌==◌, if◌then◌else◌,
  length, take_all_append, drop_all_append, ℤ, low_32, fits_32, be_bytes, from_be-be_bytes,
  low_32-lt, signed_32-low_32, ok,
}
use mathlib.Core.List.{append_assoc}
use zero_hdsc.Tts.Frames.{
  pack_signed, sized, read_exact, read_unsigned, read_signed, read_sized, read_text,
}

pub read_exact-append :
    (bytes rest : List ℕ) → read_exact (length bytes) (bytes ++ rest) ≡ ok (bytes, rest)
unfolding read_exact
read_exact-append bytes rest =
    rw (take_all_append bytes rest, drop_all_append bytes rest) (ground arith)

read_exact-four :
    (u : ℕ) (rest : List ℕ) → read_exact 4 (be_bytes u ++ rest) ≡ ok (be_bytes u, rest)
unfolding be_bytes
read_exact-four u rest = read_exact-append (be_bytes u) rest

pub read_unsigned-append :
    (u : ℕ) (rest : List ℕ) → u < 2 ^ 32 → read_unsigned (be_bytes u ++ rest) ≡ ok (u, rest)
unfolding read_unsigned
read_unsigned-append u rest h = rw (read_exact-four u rest) (rw (from_be-be_bytes u h))

pub read_signed-append :
    (n : ℤ) (rest : List ℕ)
    → fits_32 n ≡ true
    → read_signed (be_bytes (low_32 n) ++ rest) ≡ ok (n, rest)
unfolding read_signed
read_signed-append n rest h =
    rw (read_exact-four (low_32 n) rest)
      (rw (from_be-be_bytes (low_32 n) (low_32-lt n)) (rw (signed_32-low_32 n h)))

pub pack_signed-ok : (n : ℤ) → fits_32 n ≡ true → pack_signed n ≡ ok (be_bytes (low_32 n))
unfolding pack_signed
pack_signed-ok n h = rw h

pub sized-ok :
    (bytes : List ℕ) → length bytes < 2 ^ 32 → sized bytes ≡ ok (be_bytes (length bytes) ++ bytes)
unfolding sized
sized-ok bytes h = ground arith

pub read_sized-append :
    (bytes rest : List ℕ)
    → length bytes < 2 ^ 32
    → read_sized ((be_bytes (length bytes) ++ bytes) ++ rest) ≡ ok (bytes, rest)
unfolding read_sized
read_sized-append [] rest h =
    rw (append_assoc (be_bytes 0) [] rest) (rw (read_unsigned-append 0 rest h))
read_sized-append (b ∷ bytes) rest h =
    rw (append_assoc (be_bytes (length (b ∷ bytes))) (b ∷ bytes) rest) (
      rw (read_unsigned-append (length (b ∷ bytes)) (b ∷ bytes ++ rest) h)
        (ground (arith, read_exact-append (b ∷ bytes) rest)))

text_of :
    (decode : List ℕ → String) (bytes : List ℕ)
    → decode [] ≡ ""
    → (if length bytes == 0 then "" else decode bytes) ≡ decode bytes
text_of decode [] h = sym h
text_of decode (b ∷ bytes) h = ground arith

module _ (encode : String → List ℕ) (decode : List ℕ → String)
    (decode_encode : (text : String) → decode (encode text) ≡ text)
    (decode_nil : decode [] ≡ "") where
  pub read_text-append :
      (text : String) (rest : List ℕ)
      → length (encode text) < 2 ^ 32
      → read_text decode ((be_bytes (length (encode text)) ++ encode text) ++ rest)
        ≡ ok (text, rest)
  unfolding read_text
  read_text-append text rest h =
      rw (read_sized-append (encode text) rest h)
        (rw (text_of decode (encode text) decode_nil, decode_encode text) refl)
