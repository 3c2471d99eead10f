-- ===== src/Xmlrpc/Schema.antt =====
-- validate_schema of aioros/xmlrpc/_protocol/_common.py: the RELAX NG grammar
-- aioros/xmlrpc/_protocol/xmlrpc.rng as a test of an element. Space between elements is passed over.
use aioros.Common.{
  ℕ, suc, zero, Bool, true, false, ◌&&◌, ◌||◌, leb, ◌==◌, [], ◌∷◌, Option, none, some, Str, str,
  str_eq, if◌then◌else◌,
}
use aioros.Xmlrpc.{Element, Elements, node, empty, child, Python}

-- space, tab, line feed and carriage return
abbrev is_blank : ℕ → Bool
is_blank c = (c == 32) || (c == 9) || (c == 10) || (c == 13)

unfoldable pub blank : Str → Bool
blank [] = true
blank (c ∷ s) = is_blank c && blank s

unfoldable after_blanks : Str → Str
after_blanks [] = []
after_blanks (c ∷ s) = let rest = after_blanks s in if is_blank c then rest else c ∷ s

unfoldable is_then_blank : Str → Str → Bool
unfolding blank
is_then_blank [] s = blank s
is_then_blank (d ∷ token) [] = false
is_then_blank (d ∷ token) (c ∷ s) = (c == d) && is_then_blank token s

-- <value>: a fixed text, with space around it or not
unfoldable pub is_token : Str → Str → Bool
unfolding after_blanks is_then_blank
is_token token s = is_then_blank token (after_blanks s)

abbrev is_digit : ℕ → Bool
is_digit c = leb 48 c && leb c 57

-- [a-zA-Z0-9_.:/]
abbrev is_name_char : ℕ → Bool
is_name_char c =
    (leb 97 c && leb c 122)
    || (leb 65 c && leb c 90)
    || is_digit c
    || (c == 95)
    || (c == 46)
    || (c == 58)
    || (c == 47)

unfoldable pub are_name_chars : Str → Bool
are_name_chars [] = true
are_name_chars (c ∷ s) = is_name_char c && are_name_chars s

-- [a-zA-Z0-9_.:/]+
abbrev pub is_method_name : Str → Bool
is_method_name [] = false
is_method_name (c ∷ s) = are_name_chars (c ∷ s)

-- [0-9]{n} at the front, and what comes after it
unfoldable after_digits : ℕ → Str → Option Str
after_digits zero s = some s
after_digits (suc n) [] = none
after_digits (suc n) (c ∷ s) = let rest = after_digits n s in if is_digit c then rest else none

abbrev after_colon : Str → Str
after_colon [] = []
after_colon (c ∷ s) = if c == 58 then s else c ∷ s

abbrev and_then : Option Str → (Str → Bool) → Bool
and_then none p = false
and_then (some s) p = p s

abbrev is_zone : Str → Bool
is_zone [] = true
is_zone (c ∷ []) = c == 90
is_zone _ = false

abbrev is_time : Str → Bool
is_time [] = false
is_time (c ∷ s) =
    (c == 84)
    && and_then (after_digits 2 s) (λ m.
      and_then (after_digits 2 (after_colon m))
        (λ t. and_then (after_digits 2 (after_colon t)) is_zone))

-- ([0-9]{4})([0-9]{2})([0-9]{2})T([0-9]{2}):?([0-9]{2}):?([0-9]{2})Z?
unfoldable pub is_basic_date : Str → Bool
unfolding after_digits
is_basic_date s = and_then (after_digits 8 s) is_time

abbrev pub no_children : Elements → Bool
no_children empty = true
no_children (child e rest) = false

module _ (python : Python) where
  unfoldable pub is_date : Str → Bool
  unfolding is_basic_date
  is_date content = python.is_date_time content || is_basic_date content

  -- an element of a value that is not a struct or an array
  unfoldable pub valid_leaf : Str → Str → Bool
  unfolding is_date is_token blank
  valid_leaf tag content =
      if str_eq tag (str "string")
      then true
      else if str_eq tag (str "i4")
      then python.is_int content
      else if str_eq tag (str "int")
      then python.is_int content
      else if str_eq tag (str "boolean")
      then is_token (str "0") content || is_token (str "1") content
      else if str_eq tag (str "double")
      then python.is_double content
      else if str_eq tag (str "dateTime.iso8601")
      then is_date content
      else if str_eq tag (str "base64")
      then python.is_base64 content
      else str_eq tag (str "nil") && blank content

  abbrev pub valid_name : Element → Bool
  valid_name (node tag content kids) = str_eq tag (str "name") && no_children kids

  unfoldable mutual
    unfolding valid_leaf blank

    -- <ref name="value" />
    pub valid_value : Element → Bool
    valid_value (node tag content kids) = str_eq tag (str "value") && valid_choice content kids

    pub valid_choice : Str → Elements → Bool
    valid_choice content empty = true
    valid_choice content (child e rest) = blank content && no_children rest && valid_typed e

    pub valid_typed : Element → Bool
    valid_typed (node tag content kids) =
        let members = valid_members kids in
        let items = valid_array kids in
        if str_eq tag (str "struct")
        then blank content && members
        else if str_eq tag (str "array")
        then blank content && items
        else valid_leaf tag content && no_children kids

    pub valid_members : Elements → Bool
    valid_members empty = true
    valid_members (child (node tag content kids) rest) =
        str_eq tag (str "member") && blank content && valid_member kids && valid_members rest

    pub valid_member : Elements → Bool
    valid_member empty = false
    valid_member (child name rest) = valid_name name && valid_only rest

    -- one value
    pub valid_only : Elements → Bool
    valid_only empty = false
    valid_only (child value rest) = no_children rest && valid_value value

    pub valid_array : Elements → Bool
    valid_array empty = false
    valid_array (child (node tag content kids) rest) =
        str_eq tag (str "data") && blank content && no_children rest && valid_values kids

    pub valid_values : Elements → Bool
    valid_values empty = true
    valid_values (child value rest) = valid_value value && valid_values rest

  abbrev pub valid_param : Element → Bool
  valid_param (node tag content kids) = str_eq tag (str "param") && blank content && valid_only kids

  unfoldable pub valid_params : Elements → Bool
  unfolding blank valid_only
  valid_params empty = true
  valid_params (child e rest) = valid_param e && valid_params rest

  -- the optional params of a methodCall
  abbrev pub valid_args : Elements → Bool
  valid_args empty = true
  valid_args (child (node tag content kids) rest) =
      str_eq tag (str "params") && blank content && no_children rest && valid_params kids

  abbrev pub valid_call : Elements → Bool
  valid_call empty = false
  valid_call (child (node tag name kids) rest) =
      str_eq tag (str "methodName") && no_children kids && is_method_name name && valid_args rest

  abbrev pub valid_code : Elements → Bool
  valid_code (child (node value blanks (child (node tag content kids) empty)) empty) =
      str_eq value (str "value")
      && blank blanks
      && (str_eq tag (str "int") || str_eq tag (str "i4"))
      && python.is_int content
      && no_children kids
  valid_code _ = false

  abbrev pub valid_string : Elements → Bool
  valid_string (child (node value content empty) empty) = str_eq value (str "value")
  valid_string (child (node value blanks (child (node tag content kids) empty)) empty) =
      str_eq value (str "value") && blank blanks && str_eq tag (str "string") && no_children kids
  valid_string _ = false

  -- a member with the given name and a value that passes the test
  abbrev pub valid_named : Str → (Elements → Bool) → Element → Bool
  valid_named name test (node tag blanks (child (node name_tag content empty) value)) =
      str_eq tag (str "member")
      && blank blanks
      && str_eq name_tag (str "name")
      && is_token name content
      && test value
  valid_named _ _ _ = false

  abbrev pub valid_struct : Elements → Bool
  valid_struct (child code (child reason empty)) =
      valid_named (str "faultCode") valid_code code
      && valid_named (str "faultString") valid_string reason
  valid_struct _ = false

  -- the value of a fault
  abbrev pub valid_fault : Elements → Bool
  valid_fault (child (node value blanks (child (node tag content kids) empty)) empty) =
      str_eq value (str "value")
      && blank blanks
      && str_eq tag (str "struct")
      && blank content
      && valid_struct kids
  valid_fault _ = false

  abbrev pub valid_response : Elements → Bool
  valid_response (child (node tag content (child e rest)) empty) =
      blank content
      && ((str_eq tag (str "params") && no_children rest && valid_param e)
          || (str_eq tag (str "fault") && valid_fault (child e rest)))
  valid_response _ = false

  unfoldable pub validate_schema : Element → Bool
  unfolding valid_params blank is_token valid_only
  validate_schema (node tag content kids) =
      blank content
      && ((str_eq tag (str "methodCall") && valid_call kids)
          || (str_eq tag (str "methodResponse") && valid_response kids))
