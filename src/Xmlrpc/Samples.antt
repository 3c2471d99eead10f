-- ===== src/Xmlrpc/Samples.antt =====
-- Conversions to run aioros/xmlrpc on small inputs with.
use aioros.Common.{
  ℕ, ◌+◌, ◌-◌, ◌≡◌, refl, ap, true, false, [], ◌∷◌, Str, is_empty, Result, ok, err, value_error,
  arith,
}
use aioros.Value.{ℤ, pos, negsuc}
use aioros.Xmlrpc.{Python, DateTime}
use aioros.Xmlrpc.Sendable.{IsPython}

-- conversions that write a number as one character, after a sign for those below 0
abbrev pub short_int : ℤ → Str
short_int (pos n) = (48 + n) ∷ []
short_int (negsuc n) = 45 ∷ (48 + n) ∷ []

abbrev int_of_short : Str → Result ℤ
int_of_short [] = err value_error
int_of_short (c ∷ []) = ok (pos (c - 48))
int_of_short (s ∷ c ∷ []) = ok (negsuc (c - 48))
int_of_short _ = err value_error

abbrev short_date : DateTime → Str
short_date (y, mo, d, h, mi, s) = y ∷ mo ∷ d ∷ h ∷ mi ∷ s ∷ []

abbrev date_of_short : Str → Result DateTime
date_of_short (y ∷ mo ∷ d ∷ h ∷ mi ∷ s ∷ []) = ok (y, mo, d, h, mi, s)
date_of_short _ = err value_error

abbrev pub short : Python
short = record {
  str_int = short_int;
  int_of = int_of_short;
  float_of = λ s. ok s;
  b64encode = λ bytes. bytes;
  b64decode = λ s. ok s;
  strftime = short_date;
  strptime = date_of_short;
  strptime_basic = λ s. err value_error;
  repr = λ e. [];
  is_xml_text = λ s. true;
  is_int = λ s. true;
  is_double = λ s. true;
  is_date_time = λ s. true;
  is_base64 = λ s. true;
}

short_back : (n : ℕ) → 48 + n - 48 ≡ n
short_back n = omega arith

int_of-short_int : (n : ℤ) → int_of_short (short_int n) ≡ ok n
int_of-short_int (pos n) = ap (λ (m : ℕ). ok (pos m)) (short_back n)
int_of-short_int (negsuc n) = ap (λ (m : ℕ). ok (negsuc m)) (short_back n)

short_int_filled : (n : ℤ) → is_empty (short_int n) ≡ false
short_int_filled (pos n) = refl
short_int_filled (negsuc n) = refl

pub short-IsPython : IsPython short
short-IsPython = record {
  int_of-str_int = int_of-short_int;
  str_int_filled = short_int_filled;
  zero_digit = refl;
  one_digit = refl;
  b64decode-b64encode = λ bytes. refl;
  xml_plain = λ s h. refl;
  xml_int = λ n. refl;
  xml_b64encode = λ bytes. refl;
  xml_repr = λ e. refl;
  int_digits = λ n h. refl;
  base64_digits = λ bytes. refl;
}
