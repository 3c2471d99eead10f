-- ===== src/Xmlrpc/Sendable.antt =====
-- The values that survive the way through XML, and the element that py2xml of
-- aioros/xmlrpc/_protocol/_common.py makes of each.
use aioros.Common.{
  ℕ, ◌≡◌, refl, Bool, true, false, ◌&&◌, leb, List, [], ◌∷◌, none, Str, str, is_empty, Exc, ok,
  if◌then◌else◌,
}
use aioros.Value.{
  ℤ, pos, Value, Items, Fields, null, bool, int, double, text, binary, date, array, struct, nil,
  cons, end, field, get,
}
use aioros.Tcpros.{strip}
use aioros.Xmlrpc.{
  Python, Element, Elements, node, empty, child, only, value_element, is_i4, py2xml, values_xml,
  members_xml,
}
use aioros.Xmlrpc.Schema.{is_date}

-- printable ASCII characters, which XML holds
unfoldable pub is_plain : Str → Bool
is_plain [] = true
is_plain (c ∷ s) = leb 32 c && leb c 126 && is_plain s

-- What the documentation of Python, lxml and XML Schema says of the conversions: an int is read back
-- and is an XML Schema int where it fits in 32 bits, so is base64, printable ASCII is XML text, and so
-- are digits, base64 and the `repr` of an exception, which escapes what is not printable.
pub record IsPython (python : Python) : Type 0 where
  pub int_of-str_int : (n : ℤ) → python.int_of (python.str_int n) ≡ ok n
  pub str_int_filled : (n : ℤ) → is_empty (python.str_int n) ≡ false
  pub zero_digit : python.int_of (str "0") ≡ ok (pos 0)
  pub one_digit : python.int_of (str "1") ≡ ok (pos 1)
  pub b64decode-b64encode : (bytes : List ℕ) → python.b64decode (python.b64encode bytes) ≡ ok bytes
  pub xml_plain : (s : Str) → is_plain s ≡ true → python.is_xml_text s ≡ true
  pub xml_int : (n : ℤ) → python.is_xml_text (python.str_int n) ≡ true
  pub xml_b64encode : (bytes : List ℕ) → python.is_xml_text (python.b64encode bytes) ≡ true
  pub xml_repr : (e : Exc) → python.is_xml_text (python.repr e) ≡ true
  pub int_digits : (n : ℤ) → is_i4 n ≡ true → python.is_int (python.str_int n) ≡ true
  pub base64_digits : (bytes : List ℕ) → python.is_base64 (python.b64encode bytes) ≡ true

module _ (python : Python) where
  -- A value that survives the way: an int that fits in i4, a text that XML can hold without space
  -- around it, a float that is an XML Schema double (inf and nan of Python are none) and that Python
  -- reads back, a date that the schema admits and Python reads back, and dicts whose keys XML can
  -- hold, are not empty and differ.
  unfoldable mutual
    pub IsSendable : Value → Type 0
    IsSendable null = Unit
    IsSendable (bool b) = Unit
    IsSendable (int n) = is_i4 n ≡ true
    IsSendable (double s) =
        (is_empty s ≡ false)
        × (python.float_of s ≡ ok s)
        × (python.is_xml_text s ≡ true)
        × (python.is_double s ≡ true)
    IsSendable (text s) = (strip s ≡ s) × (python.is_xml_text s ≡ true)
    IsSendable (binary bytes) = Unit
    IsSendable (date y mo d h mi s) =
        let content = python.strftime (y, mo, d, h, mi, s) in
        (python.strptime content ≡ ok (y, mo, d, h, mi, s))
        × (python.is_xml_text content ≡ true)
        × (is_date python content ≡ true)
    IsSendable (array l) = AreSendable l
    IsSendable (struct d) = FieldsSendable d

    pub AreSendable : Items → Type 0
    AreSendable nil = Unit
    AreSendable (cons v l) = IsSendable v × AreSendable l

    pub FieldsSendable : Fields → Type 0
    FieldsSendable end = Unit
    FieldsSendable (field k v d) =
        (is_empty k ≡ false)
        × (get d k ≡ none)
        × IsSendable v
        × FieldsSendable d
        × (python.is_xml_text k ≡ true)

  -- the element of a value, where XML can hold all its texts
  unfoldable mutual
    pub tree : Value → Element
    tree null = node (str "nil") [] empty
    tree (bool b) = node (str "boolean") (if b then str "1" else str "0") empty
    tree (int n) = node (str "i4") (python.str_int n) empty
    tree (double s) = node (str "double") s empty
    tree (text s) = node (str "string") s empty
    tree (binary bytes) = node (str "base64") (python.b64encode bytes) empty
    tree (date y mo d h mi s) =
        node (str "dateTime.iso8601") (python.strftime (y, mo, d, h, mi, s)) empty
    tree (array l) = node (str "array") [] (only (node (str "data") [] (value_trees l)))
    tree (struct d) = node (str "struct") [] (member_trees d)

    pub value_trees : Items → Elements
    value_trees nil = empty
    value_trees (cons v l) = child (value_element (tree v)) (value_trees l)

    pub member_trees : Fields → Elements
    member_trees end = empty
    member_trees (field k v d) =
        child
          (node (str "member") []
            (child (node (str "name") k empty) (only (value_element (tree v)))))
          (member_trees d)

  mutual
    unfolding py2xml values_xml members_xml tree value_trees member_trees IsSendable AreSendable
        FieldsSendable is_plain

    pub py2xml-tree : IsPython python → (v : Value) → IsSendable v → py2xml python v ≡ ok (tree v)
    py2xml-tree laws null h = refl
    py2xml-tree laws (bool true) h = rw (laws.xml_plain (str "1") refl) refl
    py2xml-tree laws (bool false) h = rw (laws.xml_plain (str "0") refl) refl
    py2xml-tree laws (int n) h = rw (h, laws.xml_int n) refl
    py2xml-tree laws (double s) h = rw (h.2) refl
    py2xml-tree laws (text s) h = rw (h.1) refl
    py2xml-tree laws (binary bytes) h = rw (laws.xml_b64encode bytes) refl
    py2xml-tree laws (date y mo d hh mi s) h = rw (h.1) refl
    py2xml-tree laws (array l) h = rw (values_xml-trees laws l h) refl
    py2xml-tree laws (struct d) h = rw (members_xml-trees laws d h) refl

    pub values_xml-trees :
        IsPython python → (l : Items) → AreSendable l → values_xml python l ≡ ok (value_trees l)
    values_xml-trees laws nil h = refl
    values_xml-trees laws (cons v l) h =
        rw (py2xml-tree laws v h.0, values_xml-trees laws l h.1) refl

    pub members_xml-trees :
        IsPython python
        → (d : Fields) → FieldsSendable d
        → members_xml python d ≡ ok (member_trees d)
    members_xml-trees laws end h = refl
    members_xml-trees laws (field k v d) h =
        rw (h.4, py2xml-tree laws v h.2, members_xml-trees laws d h.3) refl
