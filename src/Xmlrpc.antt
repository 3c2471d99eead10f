-- ===== src/Xmlrpc.antt =====
-- Values as XML elements and back: py2xml and xml2py of aioros/xmlrpc/_protocol/_common.py. An lxml
-- element is its tag, its text and its children.
pub mod Schema
pub mod Sendable
pub mod Admitted
pub mod RoundTrip
pub mod Bounds
pub mod Faults
pub mod Remote
pub mod Bodies
pub mod Calls
pub mod Samples
mod Examples
use aioros.Common.{
  ℕ, Bool, true, false, ◌&&◌, List, [], ◌∷◌, ◌++◌, Option, none, some, Str, str, str_eq, is_empty,
  ltb, Exc, Result, ok, err, key_error, value_error, if◌then◌else◌, ◌>>=◌,
}
use aioros.Value.{
  ℤ, pos, negsuc, Value, Items, Fields, null, bool, int, double, text, binary, date, array, struct,
  nil, cons, end, field, put,
}
use aioros.Tcpros.{strip}

mutual
  pub data Element : Type 0 where
    node : Str → Str → Elements → Element

  pub data Elements : Type 0 where
    empty : Elements
    child : Element → Elements → Elements

abbrev pub only : Element → Elements
only e = child e empty

-- year, month, day, hour, minute, second
abbrev pub DateTime : Type 0
DateTime = ℕ × ℕ × ℕ × ℕ × ℕ × ℕ

-- What is used of Python and lxml: str and int of an int, float of a text (as `repr` writes the
-- result), base64, strftime and strptime in the first and the second of TIME_FORMATS, the `repr` of an
-- exception, the texts that lxml takes into an element (no NUL, control character or surrogate), and
-- the texts of the XML Schema types int, double, dateTime and base64Binary.
pub record Python : Type 0 where
  pub str_int : ℤ → Str
  pub int_of : Str → Result ℤ
  pub float_of : Str → Result Str
  pub b64encode : List ℕ → Str
  pub b64decode : Str → Result (List ℕ)
  pub strftime : DateTime → Str
  pub strptime : Str → Result DateTime
  pub strptime_basic : Str → Result DateTime
  pub repr : Exc → Str
  pub is_xml_text : Str → Bool
  pub is_int : Str → Bool
  pub is_double : Str → Bool
  pub is_date_time : Str → Bool
  pub is_base64 : Str → Bool

-- -2147483648 < value < 2147483647
unfoldable pub is_i4 : ℤ → Bool
is_i4 (pos n) = ltb n 2147483647
is_i4 (negsuc n) = ltb n 2147483647

abbrev pub value_element : Element → Element
value_element e = node (str "value") [] (only e)

abbrev pub with_value : Result Element → Result Elements → Result Elements
with_value value rest = do e ← value; es ← rest; ok (child (value_element e) es)

abbrev pub with_member : Result Element → Result Element → Result Elements → Result Elements
with_member name value rest = do
  n ← name
  e ← value
  es ← rest
  ok (child (node (str "member") [] (child n (only (value_element e)))) es)

module _ (python : Python) where
  -- E(tag, text): lxml raises a ValueError for a text that XML cannot hold
  abbrev pub leaf : Str → Str → Result Element
  leaf tag content =
      if python.is_xml_text content then ok (node tag content empty) else err value_error

  unfoldable mutual
    pub py2xml : Value → Result Element
    py2xml null = ok (node (str "nil") [] empty)
    py2xml (bool b) = leaf (str "boolean") (if b then str "1" else str "0")
    py2xml (int n) =
        if is_i4 n
        then leaf (str "i4") (python.str_int n)
        else leaf (str "double") (python.str_int n)
    py2xml (double s) = leaf (str "double") s
    py2xml (text s) = leaf (str "string") s
    py2xml (binary bytes) = leaf (str "base64") (python.b64encode bytes)
    py2xml (date y mo d h mi s) =
        leaf (str "dateTime.iso8601") (python.strftime (y, mo, d, h, mi, s))
    py2xml (array l) =
        values_xml l >>= λ kids. ok (node (str "array") [] (only (node (str "data") [] kids)))
    py2xml (struct d) = members_xml d >>= λ kids. ok (node (str "struct") [] kids)

    pub values_xml : Items → Result Elements
    values_xml nil = ok empty
    values_xml (cons v l) = with_value (py2xml v) (values_xml l)

    pub members_xml : Fields → Result Elements
    members_xml end = ok empty
    members_xml (field k v d) = with_member (leaf (str "name") k) (py2xml v) (members_xml d)

-- element.xpath("./name/text()") for a tag `name`: a text that is empty is no text node
unfoldable pub texts_of : Str → Elements → List Str
texts_of name empty = []
texts_of name (child (node tag content kids) rest) =
    let texts = texts_of name rest in
    if str_eq tag name then (if is_empty content then texts else content ∷ texts) else texts

-- element.xpath("./member/name/text()")
unfoldable pub member_names : Elements → List Str
unfolding texts_of
member_names empty = []
member_names (child (node tag content kids) rest) =
    let names = member_names rest in
    if str_eq tag (str "member") then texts_of (str "name") kids ++ names else names

-- dict(zip(names, values)): a later item takes the place of an earlier one with its name
unfoldable pub zip_into : Fields → List Str → List Value → Fields
zip_into d [] vs = d
zip_into d (k ∷ ks) [] = d
zip_into d (k ∷ ks) (v ∷ vs) = zip_into (put d k v) ks vs

unfoldable pub to_items : List Value → Items
to_items [] = nil
to_items (v ∷ vs) = cons v (to_items vs)

abbrev pub or_zero : Str → Str
or_zero content = if is_empty content then str "0" else content

-- bool(int)
abbrev pub truth : ℤ → Bool
truth n = elim n [ pos ℕ.zero ↦ false | _ ↦ true ]

abbrev pub from_date : DateTime → Value
from_date (y, mo, d, h, mi, s) = date y mo d h mi s

-- xml2datetime: the formats are tried in order, and a ValueError is passed over
abbrev pub or_else : Result DateTime → Result DateTime → Result DateTime
or_else (ok d) second = ok d
or_else (err value_error) second = second
or_else (err e) second = err e

abbrev pub both : Result Value → Result (List Value) → Result (List Value)
both r rs = do v ← r; vs ← rs; ok (v ∷ vs)

abbrev pub joined : Result (List Value) → Result (List Value) → Result (List Value)
joined r rs = do vs ← r; ws ← rs; ok (vs ++ ws)

-- XML2PY_TYPES for the tags without children
module _ (python : Python) where
  unfoldable pub scalar : Str → Str → Result Value
  scalar tag content =
      if str_eq tag (str "string")
      then ok (text (strip content))
      else if str_eq tag (str "base64")
      then (python.b64decode content >>= λ bytes. ok (binary bytes))
      else if str_eq tag (str "boolean")
      then (python.int_of (or_zero content) >>= λ n. ok (bool (truth n)))
      else if str_eq tag (str "dateTime.iso8601")
      then (or_else (python.strptime content) (python.strptime_basic content) >>= λ d.
          ok (from_date d))
      else if str_eq tag (str "double")
      then (if is_empty content
          then ok (double (str "0.0"))
          else (python.float_of content >>= λ s. ok (double s)))
      else if str_eq tag (str "integer")
      then (python.int_of (or_zero content) >>= λ n. ok (int n))
      else if str_eq tag (str "int")
      then (python.int_of (or_zero content) >>= λ n. ok (int n))
      else if str_eq tag (str "i4")
      then (python.int_of (or_zero content) >>= λ n. ok (int n))
      else if str_eq tag (str "nil")
      then ok null
      else err (key_error tag)

  unfoldable mutual
    unfolding scalar

    pub xml2py : Element → Result Value
    xml2py (node tag content kids) =
        let members = inner (str "member") kids in
        let items = inner (str "data") kids in
        let wrapped = first kids content in
        let plain = scalar tag content in
        if str_eq tag (str "struct")
        then (members >>= λ vs. ok (struct (zip_into end (member_names kids) vs)))
        else if str_eq tag (str "array")
        then (items >>= λ vs. ok (array (to_items vs)))
        else if str_eq tag (str "value")
        then wrapped
        else plain

    -- unwrap_value
    pub first : Elements → Str → Result Value
    first empty content = ok (text (strip content))
    first (child e rest) content = xml2py e

    -- xml2py of each of element.xpath("./value")
    pub values : Elements → Result (List Value)
    values empty = ok []
    values (child (node tag content kids) rest) =
        let value = xml2py (node tag content kids) in
        let others = values rest in if str_eq tag (str "value") then both value others else others

    -- xml2py of each of element.xpath("./tag/value")
    pub inner : Str → Elements → Result (List Value)
    inner outer empty = ok []
    inner outer (child (node tag content kids) rest) =
        let here = values kids in
        let others = inner outer rest in if str_eq tag outer then joined here others else others
