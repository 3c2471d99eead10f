-- ===== src/Tcpros/Fields.antt =====
-- One field of a TCPROS header, written and read: aioros/_node/_tcpros/_protocol.py.
use aioros.Common.{
  ◌≡◌, refl, sym, ap, ◌∙◌, Bool, true, false, [], ◌∷◌, ◌++◌, some, Str, str, ◌==◌, is_empty, length,
  take-append, drop-append, Result, ok, ok_path, >>=-eq-ok, if◌then◌else◌, arith,
}
use aioros.Dict.{Dict, put}
use aioros.Tcpros.Words.{Bytes, pack_u32, unpack_u32, IsWord, pack_u32-IsWord}
use aioros.Tcpros.{strip, cut, cut_line, read_field, encode_field}

-- What is used of Python's UTF-8 codec: text is encoded character by character, "=" is one byte, and
-- what was encoded is decoded.
pub record IsCodec (encode : Str → Bytes) (decode : Bytes → Result Str) : Type 0 where
  pub append : (s t : Str) → encode (s ++ t) ≡ encode s ++ encode t
  pub equals : encode (str "=") ≡ b'=' ∷ []
  pub decoded : (s : Str) → decode (encode s) ≡ ok s

unfoldable pub has_equals : Str → Bool
has_equals [] = false
has_equals (c ∷ s) = if c == b'=' then true else has_equals s

-- a key that a header can carry: not empty, without "=", and without space around it
pub record IsKey (key : Str) : Type 0 where
  pub filled : is_empty key ≡ false
  pub plain : has_equals key ≡ false
  pub stripped : strip key ≡ key

cut_append :
    (key value : Str) → has_equals key ≡ false → cut (key ++ b'=' ∷ value) ≡ some (key, value)
unfolding cut has_equals
cut_append [] value h = refl
cut_append (c ∷ s) value h = ground (arith, cut_append s value)

cut_line_append : (key value : Str) → IsKey key → cut_line (key ++ b'=' ∷ value) ≡ some (key, value)
unfolding has_equals
cut_line_append [] value h = cc (h.filled)
cut_line_append (c ∷ s) value h = ground (arith, cut_append s value, h.plain)

module _ (encode : Str → Bytes) (decode : Bytes → Result Str) where
  encode_line :
      (key value : Str)
      → IsCodec encode decode
      → encode (key ++ b'=' ∷ value) ≡ encode key ++ b'=' ∷ encode value
  encode_line key value h =
      h.append key (b'=' ∷ value)
      ∙ ap (λ s. encode key ++ s) (h.append (str "=") value ∙ ap (λ s. s ++ encode value) h.equals)

  -- what the bytes of a field are
  abbrev pub IsFrame : Str → Str → Bytes → Type 0
  IsFrame key value a =
      let line = encode key ++ b'=' ∷ encode value in
      (p : Bytes) × (a ≡ p ++ line) × IsWord (length line) p

  pub encode_field-IsFrame :
      (key value : Str) (a : Bytes) → encode_field encode (key, value) ≡ ok a → IsFrame key value a
  unfolding encode_field
  encode_field-IsFrame key value a h =
      let line = encode key ++ b'=' ∷ encode value in
      let (p, e, h1) = >>=-eq-ok (pack_u32 (length line)) _ h in
      (p, sym (ok_path h1), pack_u32-IsWord (length line) p e)

  -- A field that was written is read back, and what follows it is left.
  pub read_field-IsFrame :
      (key value : Str) (a rest : Bytes) (header : Dict Str)
      → IsCodec encode decode
      → IsKey key
      → IsFrame key value a
      → read_field decode (a ++ rest) header ≡ ok (put header key value, rest)
  unfolding read_field unpack_u32
  read_field-IsFrame key value a rest header codec good (p, e, w) =
      let line = encode key ++ b'=' ∷ encode value in
      rw (e, w.form)
        (rw (w.value) (
          rw
            (
              take-append line rest,
              drop-append line rest,
              ← encode_line key value codec,
              codec.decoded (key ++ b'=' ∷ value),
            )
            (rw (cut_line_append key value good) (rw (good.stripped) refl))))
