-- ===== src/Xmlrpc/Bounds.antt =====
-- The bounds of an int on the way through py2xml and xml2py, aioros/xmlrpc/_protocol/_common.py.
use aioros.Common.{
  ◌-◌, ◌^◌, ◌<◌, ◌≡◌, ◌⊎◌, refl, true, false, str_eq, ok, Bool-cases, inl, inr, arith, ◌>>=◌,
}
use aioros.Value.{ℤ, pos, negsuc, int, double}
use aioros.Xmlrpc.{Python, is_i4, py2xml, xml2py, scalar}
use aioros.Xmlrpc.Sendable.{IsPython}

-- strictly between -2^31 and 2^31 - 1
abbrev pub IsBetween : ℤ → Type 0
IsBetween (pos n) = n < 2 ^ 31 - 1
IsBetween (negsuc n) = n < 2 ^ 31 - 1

is_i4-IsBetween : (n : ℤ) → is_i4 n ≡ true → IsBetween n
unfolding is_i4
is_i4-IsBetween (pos n) h = ground arith
is_i4-IsBetween (negsuc n) h = ground arith

not-between : (n : ℤ) → is_i4 n ≡ false → IsBetween n → is_i4 n ≡ true
unfolding is_i4
not-between (pos n) h b = ground arith
not-between (negsuc n) h b = ground arith

-- An int that lies strictly between -2^31 and 2^31 - 1 arrives as it was sent; any other, so the two
-- bounds themselves, arrives as what Python's float makes of its digits.
pub xml2py-py2xml_int :
    (python : Python) (n : ℤ)
    → IsPython python
    → (IsBetween n × ((py2xml python (int n) >>= xml2py python) ≡ ok (int n)))
      ⊎ ((IsBetween n → ⊥)
          × ((py2xml python (int n) >>= xml2py python)
              ≡ (python.float_of (python.str_int n) >>= λ s. ok (double s))))
unfolding py2xml xml2py scalar str_eq
xml2py-py2xml_int python n laws = elim (Bool-cases (is_i4 n)) [
  | inl fits ↦ inl (
    is_i4-IsBetween n fits,
    rw (fits, laws.xml_int n) (rw (laws.str_int_filled n, laws.int_of-str_int n) refl),
  )
  | inr not ↦
      inr
        (λ b. cc (not-between n not b), rw (not, laws.xml_int n) (rw (laws.str_int_filled n) refl))
]
