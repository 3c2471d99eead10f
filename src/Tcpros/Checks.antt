-- ===== src/Tcpros/Checks.antt =====
-- The checks of a received header: require_fields and check_md5sum of
-- aioros/_node/_tcpros/_utils.py. Only the kind of a ProtocolError is kept, not its text.
use aioros.Common.{
  ◌≡◌, refl, ◌⊎◌, inl, inr, true, false, ◌||◌, List, [], ◌∷◌, Option, none, some, Str, str, str_eq,
  str_eq_refl, contains, All, Result, ok, err, key_error, protocol_error, ◌>>=◌, if◌then◌else◌,
  arith, Bool-cases, Option-cases,
}
use aioros.Dict.{Dict, get, has, is_some}

unfoldable pub require_fields : Dict Str → List Str → Result (Unit {0})
require_fields header [] = ok tt
require_fields header (field ∷ fields) =
    let rest = require_fields header fields in if has header field then rest else err protocol_error

-- header[field]
abbrev pub read_value : Str → Option Str → Result Str
read_value field none = err (key_error field)
read_value field (some value) = ok value

-- the text of the error needs the caller's id
abbrev pub refuse : Dict Str → Result (Unit {0})
refuse header = do
  callerid ← read_value (str "callerid") (get header (str "callerid"))
  err protocol_error

unfoldable pub check_md5sum : Dict Str → Str → Result (Unit {0})
check_md5sum header md5sum = do
  sent ← read_value (str "md5sum") (get header (str "md5sum"))
  let accepted = str_eq sent (str "*") || str_eq sent md5sum
  if accepted then ok tt else refuse header

-- require_fields passes, and the header has all the fields; or it raises a ProtocolError, and one of
-- the fields is missing.
pub require_fields_lem :
    (header : Dict Str) (fields : List Str)
    → ((require_fields header fields ≡ ok tt) × All (λ f. has header f ≡ true) fields)
      ⊎ ((require_fields header fields ≡ err protocol_error)
          × ((f : Str) × (contains fields f ≡ true) × (has header f ≡ false)))
unfolding require_fields contains
require_fields_lem header [] = inl (refl, tt)
require_fields_lem header (f ∷ fields) = elim (Bool-cases (has header f)) [
  | inr missing ↦ rw missing (inr (refl, (f, rw (str_eq_refl f) refl, missing)))
  | inl there ↦ rw there (elim (require_fields_lem header fields) [
    | inl (passed, all) ↦ inl (passed, (refl, all))
    | inr (refused, (g, listed, missing)) ↦ inr (refused, (g, ground (arith, listed), missing))
  ])
]

some_of_is_some : (o : Option Str) → is_some o ≡ true → (v : Str) × (o ≡ some v)
some_of_is_some none h = cc
some_of_is_some (some v) h = (v, refl)

required :
    (header : Dict Str) (f : Str) (fields : List Str)
    → require_fields header (f ∷ fields) ≡ ok tt
    → ((v : Str) × (get header f ≡ some v)) × (require_fields header fields ≡ ok tt)
unfolding require_fields has
required header f fields h = elim (Option-cases (get header f)) [
  | inl e ↦ absurd (cc (rw e at h))
  | inr (v, e) ↦ ((v, e), rw e at h)
]

-- A header that passed require_fields for its sum and its caller passes check_md5sum exactly if its
-- sum is the expected one or "*", and raises a ProtocolError otherwise.
pub check_md5sum-require_fields :
    (header : Dict Str) (md5sum : Str)
    → require_fields header (str "md5sum" ∷ str "callerid" ∷ []) ≡ ok tt
    → (sent : Str) × (get header (str "md5sum") ≡ some sent)
      × (check_md5sum header md5sum
          ≡ (if str_eq sent (str "*") || str_eq sent md5sum then ok tt else err protocol_error))
unfolding check_md5sum
check_md5sum-require_fields header md5sum h =
    let ((sent, es), h1) = required header (str "md5sum") (str "callerid" ∷ []) h in
    let ((caller, ec), h2) = required header (str "callerid") [] h1 in (sent, es, rw (es, ec) refl)
