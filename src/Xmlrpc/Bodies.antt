-- ===== src/Xmlrpc/Bodies.antt =====
-- The bodies of a call that survives the way: build_xml and parse_request, format_success and the
-- client's parse_xml of aioros/xmlrpc/_protocol, one after the other.
use aioros.Common.{
  ◌≡◌, refl, true, false, List, [], ◌∷◌, append-nil, Str, str, str_eq, is_empty, All, Exc, ok,
  arith,
}
use aioros.Value.{Value}
use aioros.Xmlrpc.{
  Element, Elements, node, empty, child, only, value_element, Python, py2xml, xml2py, values, inner,
  texts_of, first, is_i4,
}
use aioros.Xmlrpc.Schema.{
  is_method_name, are_name_chars, validate_schema, valid_params, valid_value, blank,
}
use aioros.Xmlrpc.Sendable.{IsPython, IsSendable, is_plain, tree, py2xml-tree}
use aioros.Xmlrpc.Admitted.{valid_typed-tree}
use aioros.Xmlrpc.RoundTrip.{round_trip}
use aioros.Xmlrpc.Faults.{minus}
use aioros.Xmlrpc.Remote.{
  params_xml, build_request, params_of, parse_request, format_success, format_error, parse_response,
}

module _ (python : Python) where
  abbrev pub param_tree : Value → Element
  param_tree v = node (str "param") [] (only (value_element (tree python v)))

  abbrev pub param_trees : List Value → Elements
  param_trees [] = empty
  param_trees (arg ∷ args) = child (param_tree arg) (param_trees args)

  abbrev pub request_tree : Str → List Value → Element
  request_tree method_name args = node (str "methodCall") [] (
      child (node (str "methodName") method_name empty)
        (only (node (str "params") [] (param_trees args))))

  abbrev pub response_tree : Value → Element
  response_tree v =
      node (str "methodResponse") [] (only (node (str "params") [] (only (param_tree v))))

  params_xml-trees :
      (args : List Value)
      → IsPython python
      → All (IsSendable python) args
      → params_xml python args ≡ ok (param_trees args)
  unfolding params_xml
  params_xml-trees [] laws h = refl
  params_xml-trees (arg ∷ args) laws h =
      rw (py2xml-tree python laws arg h.0, params_xml-trees args laws h.1) refl

  params_of-param_trees :
      (args : List Value)
      → IsPython python
      → All (IsSendable python) args
      → inner python (str "param") (param_trees args) ≡ ok args
  unfolding inner values xml2py first str_eq
  params_of-param_trees [] laws h = refl
  params_of-param_trees (arg ∷ args) laws h =
      rw (round_trip python laws arg h.0, params_of-param_trees args laws h.1) refl

  valid_params-param_trees :
      (args : List Value)
      → IsPython python
      → All (IsSendable python) args
      → valid_params python (param_trees args) ≡ true
  unfolding valid_params valid_value str_eq blank
  valid_params-param_trees [] laws h = refl
  valid_params-param_trees (arg ∷ args) laws h =
      rw (valid_typed-tree python laws arg h.0, valid_params-param_trees args laws h.1) refl

  is_method_name-filled : (name : Str) → is_method_name name ≡ true → is_empty name ≡ false
  is_method_name-filled [] h = cc
  is_method_name-filled (c ∷ name) h = refl

  name_char-is_plain : (name : Str) → are_name_chars name ≡ true → is_plain name ≡ true
  unfolding are_name_chars is_plain
  name_char-is_plain [] h = refl
  name_char-is_plain (c ∷ name) h = ground (arith, name_char-is_plain name)

  is_method_name-is_plain : (name : Str) → is_method_name name ≡ true → is_plain name ≡ true
  is_method_name-is_plain [] h = cc
  is_method_name-is_plain (c ∷ name) h = name_char-is_plain (c ∷ name) h

  pub build_request-tree :
      (name : Str) (args : List Value)
      → IsPython python
      → is_method_name name ≡ true
      → All (IsSendable python) args
      → build_request python name args ≡ ok (request_tree name args)
  unfolding build_request
  build_request-tree name args laws named h =
      rw (laws.xml_plain name (is_method_name-is_plain name named), params_xml-trees args laws h)
        refl

  pub parse_request-tree :
      (name : Str) (args : List Value)
      → IsPython python
      → is_method_name name ≡ true
      → All (IsSendable python) args
      → parse_request python (request_tree name args) ≡ ok (name, args)
  unfolding parse_request validate_schema params_of texts_of str_eq blank
  parse_request-tree name args laws named h =
      rw
        (
          named,
          valid_params-param_trees args laws h,
          is_method_name-filled name named,
          params_of-param_trees args laws h,
        )
        (rw (append-nil args) refl)

  pub format_success-tree :
      (v : Value)
      → IsPython python
      → IsSendable python v
      → format_success python v ≡ ok (response_tree v)
  unfolding format_success
  format_success-tree v laws h = rw (py2xml-tree python laws v h) refl

  pub parse_response-tree :
      (v : Value)
      → IsPython python
      → IsSendable python v
      → parse_response python (response_tree v) ≡ ok v
  unfolding parse_response validate_schema params_of inner values xml2py first str_eq blank
      valid_value
  parse_response-tree v laws h =
      rw (valid_typed-tree python laws v h, round_trip python laws v h) refl

  -- A fault can be written, whatever the exception.
  pub format_error-eq-ok :
      (e : Exc)
      → IsPython python
      → (root : Element) × (format_error python (minus 32000) (python.repr e) ≡ ok root)
  unfolding format_error py2xml is_plain is_i4
  format_error-eq-ok e laws =
      rw
        (
          laws.xml_plain (str "faultCode") refl,
          laws.xml_plain (str "faultString") refl,
          laws.xml_int (minus 32000),
          laws.xml_repr e,
        )
        (_, refl)
