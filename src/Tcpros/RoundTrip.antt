-- ===== src/Tcpros/RoundTrip.antt =====
-- encode_header and read_header of aioros/_node/_tcpros/_protocol.py, one after the other.
use aioros.Common.{
  ℕ, suc, zero, ◌<◌, ◌≡◌, refl, sym, ◌∙◌, true, false, [], ◌∷◌, ◌++◌, some, Str, is_empty, leb,
  length, take-append, drop-append, length-append, All, Result, ok, ok_path, >>=-eq-ok, arith,
}
use aioros.Dict.{Dict, get, put}
use aioros.Tcpros.Words.{Bytes, pack_u32, unpack_u32, IsWord, pack_u32-IsWord}
use aioros.Tcpros.{
  sort_fields, receive_exactly, read_field, decode_loop, decode_header, with_rest, read_header,
  encode_field, encode_fields, encode_header,
}
use aioros.Tcpros.Fields.{IsCodec, IsKey, IsFrame, encode_field-IsFrame, read_field-IsFrame}
use aioros.Tcpros.Sorted.{IsDistinct, put_all, get-put_all-sort_fields, All-sort_fields}

pub receive_exactly-append :
    (p rest : Bytes) → receive_exactly (length p) (p ++ rest) ≡ ok (p, rest)
unfolding receive_exactly
receive_exactly-append p rest =
    let fits : leb (length p) (length (p ++ rest)) ≡ true = ground (arith, length-append p rest) in
    rw fits (rw (take-append p rest, drop-append p rest) refl)

module _ (encode : Str → Bytes) (decode : Bytes → Result Str) where
  decode_loop_step :
      (fuel : ℕ) (a rest : Bytes) (header header' : Dict Str)
      → is_empty a ≡ false
      → read_field decode (a ++ rest) header ≡ ok (header', rest)
      → decode_loop decode (suc fuel) (a ++ rest) header ≡ decode_loop decode fuel rest header'
  unfolding decode_loop
  decode_loop_step fuel [] rest header header' h e = cc
  decode_loop_step fuel (b ∷ a) rest header header' h e = rw e refl

  is_empty-IsFrame :
      (key value : Str) (a : Bytes) → IsFrame encode decode key value a → is_empty a ≡ false
  is_empty-IsFrame key value a (p, e, w) = rw (e, w.form) refl

  decode_loop-encode_fields :
      (l : Dict Str) (fuel : ℕ) (bytes : Bytes) (header : Dict Str)
      → IsCodec encode decode
      → All (λ e. IsKey e.0) l
      → encode_fields encode l ≡ ok bytes
      → length bytes < fuel
      → decode_loop decode fuel bytes header ≡ some (ok (put_all l header))
  unfolding encode_fields decode_loop put_all
  decode_loop-encode_fields l zero bytes header codec keys h lt = absurd (omega arith)
  decode_loop-encode_fields [] (suc fuel) bytes header codec keys h lt = rw (← ok_path h) refl
  decode_loop-encode_fields ((key, value) ∷ l) (suc fuel) bytes header codec keys h lt =
      let (a, ea, h1) = >>=-eq-ok (encode_field encode (key, value)) _ h in
      let (b, eb, h2) = >>=-eq-ok (encode_fields encode l) _ h1 in
      let frame = encode_field-IsFrame encode decode key value a ea in
      let whole : bytes ≡ a ++ b = sym (ok_path h2) in
      rw whole (
        decode_loop_step fuel a b header (put header key value) (is_empty-IsFrame key value a frame)
          (read_field-IsFrame encode decode key value a b header codec keys.0 frame)
        ∙ decode_loop-encode_fields l fuel b (put header key value) codec keys.1 eb
            (ground (arith, length-append a b, is_empty-IsFrame key value a frame)))

  read_header_frame :
      (p bytes rest : Bytes)
      → IsWord (length bytes) p
      → read_header decode (p ++ bytes ++ rest) ≡ with_rest decode rest (decode_header decode bytes)
  unfolding read_header unpack_u32
  read_header_frame p bytes rest w = rw (w.form) (
      rw (receive_exactly-append (w.b0 ∷ w.b1 ∷ w.b2 ∷ w.b3 ∷ []) (bytes ++ rest))
        (rw (w.value) (rw (receive_exactly-append bytes rest) refl)))

  -- A header that encode_header wrote is read back from the stream, with the same value at every
  -- key, and what follows it is left; if its keys are not empty, contain no "=" and have no space
  -- around them.
  pub read_header-encode_header :
      (header : Dict Str) (bytes rest : Bytes)
      → IsCodec encode decode
      → IsDistinct header
      → All (λ e. IsKey e.0) header
      → encode_header encode header ≡ ok bytes
      → (header' : Dict Str) × (read_header decode (bytes ++ rest) ≡ some (ok (header', rest)))
        × ((key : Str) → get header' key ≡ get header key)
  unfolding encode_header decode_header
  read_header-encode_header header bytes rest codec distinct keys h =
      let (body, eb, h1) = >>=-eq-ok (encode_fields encode (sort_fields header)) _ h in
      let (p, ep, h2) = >>=-eq-ok (pack_u32 (length body)) _ h1 in
      let whole : bytes ≡ p ++ body = sym (ok_path h2) in
      (
        put_all (sort_fields header) [],
        rw whole (
            read_header_frame p body rest (pack_u32-IsWord (length body) p ep)
            ∙ rw
                (decode_loop-encode_fields (sort_fields header) (suc (length body)) body [] codec
                  (All-sort_fields (λ e. IsKey e.0) header keys) eb (omega arith))
                refl),
        λ key. get-put_all-sort_fields header key distinct,
      )
