-- ===== src/Tcpros/Data.antt =====
-- Messages as bytes: serialize, read_data, read_byte, encode_byte, encode_str and read_error of
-- aioros/_node/_tcpros/_protocol.py. A message is what `message.serialize` writes, its body.
pub mod Stream
pub mod Received
use aioros.Common.{
  ℕ, suc, ◌≡◌, refl, sym, ◌∙◌, ap, List, [], ◌∷◌, ◌++◌, append_assoc, Str, length, ltb, Result, ok,
  err, ok_path, >>=-eq-ok, struct_error, ◌>>=◌, if◌then◌else◌, ◌==◌,
}
use aioros.Tcpros.{receive_exactly}
use aioros.Tcpros.Words.{Bytes, pack_u32, unpack_u32, IsWord, pack_u32-IsWord}
use aioros.Tcpros.RoundTrip.{receive_exactly-append}

-- serialize(message), for a message that writes `body`
unfoldable pub serialize : Bytes → Result Bytes
unfolding pack_u32
serialize body = do size ← pack_u32 (length body); ok (size ++ body)

-- read_data(buffered_stream), with the stream after it
unfoldable pub read_data : Bytes → Result (Bytes × Bytes)
unfolding receive_exactly unpack_u32
read_data stream = do
  (size_bytes, stream') ← receive_exactly 4 stream
  size ← unpack_u32 size_bytes
  receive_exactly size stream'

-- struct.Struct("<B")
unfoldable pub encode_byte : ℕ → Result Bytes
encode_byte value = if ltb value 256 then ok (value ∷ []) else err struct_error

abbrev unpack_byte : Bytes → Result ℕ
unpack_byte (b ∷ []) = ok b
unpack_byte _ = err struct_error

unfoldable pub read_byte : Bytes → Result (ℕ × Bytes)
unfolding receive_exactly
read_byte stream = do
  (bytes, stream') ← receive_exactly 1 stream
  value ← unpack_byte bytes
  ok (value, stream')

-- encode_str: the bytes of the text, and no size
abbrev pub encode_str : (Str → Bytes) → Str → Bytes
encode_str encode value = encode value

-- unpack(f"<{size}s", bytes)[0]
abbrev unpack_text : ℕ → Bytes → Result Bytes
unpack_text size bytes = if length bytes == size then ok bytes else err struct_error

-- read_error: a size, and then bytes with a size of its own
unfoldable pub read_error : Bytes → Result (Bytes × Bytes)
unfolding read_data receive_exactly unpack_u32
read_error stream = do
  (size_bytes, stream') ← receive_exactly 4 stream
  size ← unpack_u32 size_bytes
  (bytes, stream'') ← read_data stream'
  error ← unpack_text size bytes
  ok (error, stream'')

-- Data that was serialized is read back from the stream, and what follows it is left.
pub read_data-serialize :
    (body bytes rest : Bytes)
    → serialize body ≡ ok bytes
    → read_data (bytes ++ rest) ≡ ok (body, rest)
unfolding serialize read_data unpack_u32
read_data-serialize body bytes rest h =
    let (p, e, h1) = >>=-eq-ok (pack_u32 (length body)) _ h in
    let w = pack_u32-IsWord (length body) p e in
    let whole : bytes ≡ p ++ body = sym (ok_path h1) in
    rw (whole, w.form)
      (rw (receive_exactly-append (w.b0 ∷ w.b1 ∷ w.b2 ∷ w.b3 ∷ []) (body ++ rest))
        (rw (w.value) (receive_exactly-append body rest)))

pub read_byte-cons : (b : ℕ) (rest : Bytes) → read_byte (b ∷ rest) ≡ ok (b, rest)
unfolding read_byte
read_byte-cons b rest = rw (receive_exactly-append (b ∷ []) rest) refl
