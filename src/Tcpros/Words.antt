-- ===== src/Tcpros/Words.antt =====
-- struct.Struct("<I") of aioros/_node/_tcpros/_protocol.py: a number as four bytes, the lowest first.
use aioros.Common.{
  ℕ, ◌+◌, ◌*◌, ◌/◌, ◌%◌, ◌≡◌, List, [], ◌∷◌, ltb, Result, ok, err, struct_error, arith,
  if◌then◌else◌, Bool-cases, inl, inr, sym, ap, ok_path,
}

abbrev pub Bytes : Type 0
Bytes = List ℕ

-- _struct_I.pack(n): a number of 2^32 or more is a struct.error
unfoldable pub pack_u32 : ℕ → Result Bytes
pack_u32 n =
    if ltb n 4294967296
    then ok (n % 256 ∷ n / 256 % 256 ∷ n / 65536 % 256 ∷ n / 16777216 ∷ [])
    else err struct_error

-- _struct_I.unpack(data)[0]
unfoldable pub unpack_u32 : Bytes → Result ℕ
unpack_u32 (a ∷ b ∷ c ∷ d ∷ []) = ok (a + 256 * b + 65536 * c + 16777216 * d)
unpack_u32 _ = err struct_error

-- the bytes of a number, which are the number again
pub record IsWord (n : ℕ) (p : Bytes) : Type 0 where
  pub b0 : ℕ
  pub b1 : ℕ
  pub b2 : ℕ
  pub b3 : ℕ
  pub form : p ≡ b0 ∷ b1 ∷ b2 ∷ b3 ∷ []
  pub value : b0 + 256 * b1 + 65536 * b2 + 16777216 * b3 ≡ n

word_value :
    (n : ℕ)
    → n % 256 + 256 * (n / 256 % 256) + 65536 * (n / 65536 % 256) + 16777216 * (n / 16777216) ≡ n
word_value n = omega arith

pub pack_u32-IsWord : (n : ℕ) (p : Bytes) → pack_u32 n ≡ ok p → IsWord n p
unfolding pack_u32
pack_u32-IsWord n p h = elim (Bool-cases (ltb n 4294967296)) [
  | inl small ↦ record {
    b0 = n % 256;
    b1 = n / 256 % 256;
    b2 = n / 65536 % 256;
    b3 = n / 16777216;
    form = sym (ok_path (rw small at h));
    value = word_value n;
  }
  | inr large ↦ absurd (cc (rw large at h))
]

-- Four bytes that pack made are read back as the number.
pub unpack_u32-pack_u32 : (n : ℕ) (p : Bytes) → pack_u32 n ≡ ok p → unpack_u32 p ≡ ok n
unfolding unpack_u32
unpack_u32-pack_u32 n p h = let w = pack_u32-IsWord n p h in rw (w.form) (ap ok w.value)
