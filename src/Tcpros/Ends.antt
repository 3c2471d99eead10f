-- ===== src/Tcpros/Ends.antt =====
-- The loop of decode_header, aioros/_node/_tcpros/_protocol.py, and its fuel.
use aioros.Common.{
  ℕ, suc, zero, ◌<◌, ◌≤◌, ◌≡◌, refl, [], ◌∷◌, some, Str, length, take, drop, Result, ok, err,
  ok_path, >>=-eq-ok, Result-cases, inl, inr, arith,
}
use aioros.Dict.{Dict}
use aioros.Tcpros.Words.{Bytes, unpack_u32}
use aioros.Tcpros.{read_field, decode_loop, decode_header}

length-drop_le : (n : ℕ) (l : Bytes) → length (drop n l) ≤ length l
length-drop_le zero l = omega arith
length-drop_le (suc n) [] = omega arith
length-drop_le (suc n) (b ∷ l) = omega (arith, length-drop_le n l)

module _ (decode : Bytes → Result Str) where
  read_field_rest :
      (b : ℕ) (bytes rest : Bytes) (header header' : Dict Str)
      → read_field decode (b ∷ bytes) header ≡ ok (header', rest)
      → length rest < suc (length bytes)
  unfolding read_field
  read_field_rest b bytes rest header header' h =
      let (size, es, h1) = >>=-eq-ok (unpack_u32 (take 4 (b ∷ bytes))) _ h in
      let (line, el, h2) = >>=-eq-ok (decode (take size (drop 3 bytes))) _ h1 in
      let same : drop size (drop 3 bytes) ≡ rest = cc (ok_path h2) in
      rw (← same) (omega (arith, length-drop_le size (drop 3 bytes), length-drop_le 3 bytes))

  decode_loop_ends :
      (fuel : ℕ) (bytes : Bytes) (header : Dict Str)
      → length bytes < fuel
      → (r : Result (Dict Str)) × (decode_loop decode fuel bytes header ≡ some r)
  unfolding decode_loop
  decode_loop_ends zero bytes header lt = absurd (omega arith)
  decode_loop_ends (suc fuel) [] header lt = (ok header, refl)
  decode_loop_ends (suc fuel) (b ∷ bytes) header lt =
      elim (Result-cases (read_field decode (b ∷ bytes) header)) [
        | inl (e, same) ↦ (err e, rw same refl)
        | inr ((header', rest), same) ↦ rw same (
            decode_loop_ends fuel rest header'
              (omega (arith, read_field_rest b bytes rest header header' same)))
      ]

  -- Whatever bytes a peer sends as a header, decode_header ends, with a header or an exception.
  pub decode_header_ends :
      (bytes : Bytes) → (r : Result (Dict Str)) × (decode_header decode bytes ≡ some r)
  unfolding decode_header
  decode_header_ends bytes = decode_loop_ends (suc (length bytes)) bytes [] (omega arith)
