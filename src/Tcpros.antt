-- ===== src/Tcpros.antt =====
-- The connection header of TCPROS: aioros/_node/_tcpros/_protocol.py. Python's UTF-8 codec is the
-- parameter `encode`, `decode`; a stream is the bytes that are still to come.
pub mod Words
pub mod Fields
pub mod Sorted
pub mod RoundTrip
pub mod Ends
pub mod Checks
pub mod Data
mod Examples
use aioros.Common.{
  ℕ, suc, zero, Bool, true, false, ◌&&◌, ◌||◌, List, [], ◌∷◌, ◌++◌, Option, none, some, Str, str_lt,
  leb, ◌==◌, is_empty, length, take, drop, Result, ok, err, end_of_stream, ◌>>=◌, if◌then◌else◌,
}
use aioros.Dict.{Dict, put}
use aioros.Tcpros.Words.{Bytes, pack_u32, unpack_u32}

-- c.isspace()
abbrev pub is_space : ℕ → Bool
is_space c =
    leb 9 c && leb c 13
    || leb 28 c && leb c 32
    || c == 133
    || c == 160
    || c == 5760
    || leb 8192 c && leb c 8202
    || c == 8232
    || c == 8233
    || c == 8239
    || c == 8287
    || c == 12288

unfoldable pub left_strip : Str → Str
left_strip [] = []
left_strip (c ∷ s) = let rest = left_strip s in if is_space c then rest else c ∷ s

unfoldable pub right_strip : Str → Str
right_strip [] = []
right_strip (c ∷ s) =
    let rest = right_strip s in if is_space c && is_empty rest then [] else c ∷ rest

-- s.strip()
abbrev pub strip : Str → Str
strip s = right_strip (left_strip s)

-- what is before and after the first "="
unfoldable pub cut : Str → Option (Str × Str)
cut [] = none
cut (c ∷ s) =
    if c == b'='
    then some ([], s)
    else elim (cut s) [ none ↦ none | some (key, value) ↦ some (c ∷ key, value) ]

-- the part of a line before and after line.find("=", 1)
abbrev pub cut_line : Str → Option (Str × Str)
cut_line [] = none
cut_line (c ∷ s) = elim (cut s) [ none ↦ none | some (key, value) ↦ some (c ∷ key, value) ]

abbrev pub add_field : Option (Str × Str) → Dict Str → Dict Str
add_field none header = header
add_field (some (key, value)) header = put header (strip key) value

-- sorted(header.items()): the keys of a dict differ, so that they alone decide
unfoldable pub insert_field : Str × Str → Dict Str → Dict Str
insert_field e [] = e ∷ []
insert_field e (f ∷ l) =
    let rest = insert_field e l in if str_lt e.0 f.0 then e ∷ f ∷ l else f ∷ rest

unfoldable pub sort_fields : Dict Str → Dict Str
unfolding insert_field
sort_fields [] = []
sort_fields (e ∷ l) = insert_field e (sort_fields l)

-- buffered_stream.receive_exactly(size): the bytes, and the stream after them
unfoldable pub receive_exactly : ℕ → Bytes → Result (Bytes × Bytes)
receive_exactly size stream =
    if leb size (length stream) then ok (take size stream, drop size stream) else err end_of_stream

module _ (decode : Bytes → Result Str) where
  -- one round of the loop: the header with the field, and the data after it
  unfoldable pub read_field : Bytes → Dict Str → Result (Dict Str × Bytes)
  unfolding unpack_u32
  read_field bytes header = do
    field_size ← unpack_u32 (take 4 bytes)
    let rest = drop 4 bytes
    line ← decode (take field_size rest)
    ok (add_field (cut_line line) header, drop field_size rest)

  -- The loop of decode_header, at the data from `start` on; `none` means that the fuel ran out.
  unfoldable pub decode_loop : ℕ → Bytes → Dict Str → Option (Result (Dict Str))
  unfolding read_field
  decode_loop zero bytes header = none
  decode_loop (suc fuel) [] header = some (ok header)
  decode_loop (suc fuel) (b ∷ bytes) header = elim (read_field (b ∷ bytes) header) [
    | err e ↦ some (err e)
    | ok (header', rest) ↦ decode_loop fuel rest header'
  ]

  unfoldable pub decode_header : Bytes → Option (Result (Dict Str))
  decode_header bytes = decode_loop (suc (length bytes)) bytes []

  -- read_header(buffered_stream), with the stream after it
  abbrev pub with_rest : Bytes → Option (Result (Dict Str)) → Option (Result (Dict Str × Bytes))
  with_rest rest none = none
  with_rest rest (some (ok header)) = some (ok (header, rest))
  with_rest rest (some (err e)) = some (err e)

  abbrev pub decode_received : Result (Bytes × Bytes) → Option (Result (Dict Str × Bytes))
  decode_received (err e) = some (err e)
  decode_received (ok (bytes, rest)) = with_rest rest (decode_header bytes)

  unfoldable pub read_header : Bytes → Option (Result (Dict Str × Bytes))
  unfolding receive_exactly unpack_u32
  read_header stream = decode_received (do
    (size_bytes, stream') ← receive_exactly 4 stream
    size ← unpack_u32 size_bytes
    receive_exactly size stream')

module _ (encode : Str → Bytes) where
  unfoldable pub encode_field : Str × Str → Result Bytes
  unfolding pack_u32
  encode_field (key, value) = do
    let key_value = encode key ++ b'=' ∷ encode value
    size ← pack_u32 (length key_value)
    ok (size ++ key_value)

  -- the loop of encode_header
  unfoldable pub encode_fields : Dict Str → Result Bytes
  unfolding encode_field
  encode_fields [] = ok []
  encode_fields (e ∷ l) = do field ← encode_field e; bytes ← encode_fields l; ok (field ++ bytes)

  unfoldable pub encode_header : Dict Str → Result Bytes
  unfolding sort_fields pack_u32
  encode_header header = do
    bytes ← encode_fields (sort_fields header)
    size ← pack_u32 (length bytes)
    ok (size ++ bytes)
