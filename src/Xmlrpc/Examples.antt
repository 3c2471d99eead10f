-- ===== src/Xmlrpc/Examples.antt =====
-- Small values, faults and calls: aioros/xmlrpc.
use aioros.Common.{
  ℕ, suc, ◌≡◌, refl, ◌⊎◌, true, false, List, [], ◌∷◌, Str, str, str_eq, starts_with, Result, ok,
  err, value_error, ◌>>=◌,
}
use aioros.Value.{
  pos, negsuc, Value, bool, int, double, text, array, struct, nil, cons, end, field, get,
}
use aioros.Tcpros.{left_strip, right_strip}
use aioros.Xmlrpc.{py2xml, xml2py, is_i4}
use aioros.Xmlrpc.Sendable.{IsSendable}
use aioros.Xmlrpc.RoundTrip.{xml2py-py2xml}
use aioros.Xmlrpc.Schema.{
  are_name_chars, is_method_name, validate_schema, blank, valid_params, valid_leaf, valid_value,
  is_token,
}
use aioros.Xmlrpc.Bodies.{request_tree}
use aioros.Xmlrpc.Faults.{minus}
use aioros.Xmlrpc.Bounds.{IsBetween, xml2py-py2xml_int}
use aioros.Xmlrpc.Remote.{remote_call, format_error}
use aioros.Xmlrpc.Calls.{seen, remote_call-method}
use aioros.Xmlrpc.Samples.{short, short_int, short-IsPython}

abbrev pose : Value
pose = struct (
    field (str "frame") (text (str "map")) (
      field (str "xs") (array (cons (int (pos 3)) (cons (int (negsuc 1)) nil)))
        (field (str "ok") (bool true) end)))

pose-IsSendable : IsSendable short pose
unfolding IsSendable left_strip right_strip is_i4 get str_eq
pose-IsSendable = (
  refl,
  refl,
  (refl, refl),
  (refl, refl, (refl, (refl, tt)), (refl, refl, tt, tt, refl), refl),
  refl,
)

xml2py-py2xml_example : (py2xml short pose >>= xml2py short) ≡ ok pose
xml2py-py2xml_example = xml2py-py2xml short pose short-IsPython pose-IsSendable

xml2py-py2xml_int_example :
    (IsBetween (pos 2147483647)
      × ((py2xml short (int (pos 2147483647)) >>= xml2py short) ≡ ok (int (pos 2147483647))))
    ⊎ ((IsBetween (pos 2147483647) → ⊥)
        × ((py2xml short (int (pos 2147483647)) >>= xml2py short)
            ≡ (ok (short_int (pos 2147483647)) >>= λ s. ok (double s))))
xml2py-py2xml_int_example = xml2py-py2xml_int short (pos 2147483647) short-IsPython

-- a method that counts its calls and gives back its argument
abbrev count : Str → List Value → ℕ → ℕ × Result Value
count name [] n = (n, err value_error)
count name (v ∷ vs) n = (suc n, ok v)

echo_named : is_method_name (str "echo") ≡ true
unfolding are_name_chars
echo_named = refl

echo_visible : starts_with (str "echo") (str "_") ≡ false
unfolding starts_with
echo_visible = refl

remote_call-method_example :
    remote_call short count (str "echo") (pose ∷ []) 4
    ≡ ((count (str "echo") (pose ∷ []) 4).0, seen (count (str "echo") (pose ∷ []) 4).1)
remote_call-method_example =
    remote_call-method short count (str "echo") (pose ∷ []) 4 short-IsPython echo_named echo_visible
      (pose-IsSendable, tt) pose-IsSendable

-- a method name with a space
space_refused : validate_schema short (request_tree short (str "a b") (pose ∷ [])) ≡ false
unfolding validate_schema blank are_name_chars str_eq valid_params
space_refused = refl

fault_admitted :
    (format_error short (minus 32000) (str "gone") >>= λ root. ok (validate_schema short root))
    ≡ ok true
unfolding format_error py2xml is_i4 validate_schema valid_leaf valid_value blank is_token str_eq
fault_admitted = refl
