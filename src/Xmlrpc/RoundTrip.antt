-- ===== src/Xmlrpc/RoundTrip.antt =====
-- py2xml and then xml2py of aioros/xmlrpc/_protocol/_common.py.
use aioros.Common.{
  ◌≡◌, refl, sym, ap, ◌∙◌, true, false, List, [], ◌∷◌, append-nil, none, Str, str, str_eq,
  str_eq_iff, ok, arith, ◌>>=◌,
}
use aioros.Value.{
  Value, Items, Fields, null, bool, int, double, text, binary, date, array, struct, nil, cons, end,
  field, get, put, get-put, get-end,
}
use aioros.Xmlrpc.Sendable.{
  IsPython, IsSendable, AreSendable, FieldsSendable, tree, value_trees, member_trees, py2xml-tree,
}
use aioros.Xmlrpc.{
  Python, py2xml, texts_of, member_names, zip_into, to_items, scalar, xml2py, values, inner, first,
}

to_list : Items → List Value
to_list nil = []
to_list (cons v l) = v ∷ to_list l

field_names : Fields → List Str
field_names end = []
field_names (field k v d) = k ∷ field_names d

field_values : Fields → List Value
field_values end = []
field_values (field k v d) = v ∷ field_values d

to_items-to_list : (l : Items) → to_items (to_list l) ≡ l
unfolding to_items to_list
to_items-to_list nil = refl
to_items-to_list (cons v l) = ap (cons v) (to_items-to_list l)

append_fields : Fields → Fields → Fields
append_fields end e = e
append_fields (field k v d) e = field k v (append_fields d e)

abbrev Fresh : Fields → Fields → Type 0
Fresh a end = Unit
Fresh a (field k v d) = (get a k ≡ none) × Fresh a d

abbrev AreDistinct : Fields → Type 0
AreDistinct end = Unit
AreDistinct (field k v d) = (get d k ≡ none) × AreDistinct d

Fresh-put : (a d : Fields) (k : Str) (v : Value) → Fresh a d → get d k ≡ none → Fresh (put a k v) d
unfolding get
Fresh-put a end k v h e = tt
Fresh-put a (field j w d) k v h e =
    ground (arith, get-put a k j v, str_eq_iff j k, str_eq_iff k j, Fresh-put a d k v)

append_fields-put :
    (a d : Fields) (k : Str) (v : Value)
    → get a k ≡ none
    → append_fields (put a k v) d ≡ append_fields a (field k v d)
unfolding append_fields put get
append_fields-put end d k v h = refl
append_fields-put (field j w a) d k v h = ground (arith, append_fields-put a d k v)

zip_into-append :
    (a d : Fields)
    → Fresh a d
    → AreDistinct d
    → zip_into a (field_names d) (field_values d) ≡ append_fields a d
unfolding zip_into field_names field_values append_fields
zip_into-append a end h e = sym (append_end a)
  where
    append_end : (a : Fields) → append_fields a end ≡ a
    append_end end = refl
    append_end (field k v a) = ap (field k v) (append_end a)
zip_into-append a (field k v d) h e =
    zip_into-append (put a k v) d (Fresh-put a d k v h.1 e.0) e.1 ∙ append_fields-put a d k v h.0

Fresh-end : (d : Fields) → Fresh end d
Fresh-end end = tt
Fresh-end (field k v d) = (get-end k, Fresh-end d)

zip_into_all : (d : Fields) → AreDistinct d → zip_into end (field_names d) (field_values d) ≡ d
unfolding append_fields
zip_into_all d h = zip_into-append end d (Fresh-end d) h

module _ (python : Python) where
  FieldsSendable-AreDistinct : (d : Fields) → FieldsSendable python d → AreDistinct d
  unfolding FieldsSendable
  FieldsSendable-AreDistinct end h = tt
  FieldsSendable-AreDistinct (field k v d) h = (h.1, FieldsSendable-AreDistinct d h.3)

  member_names-member_trees :
      (d : Fields) → FieldsSendable python d → member_names (member_trees python d) ≡ field_names d
  unfolding member_names member_trees field_names FieldsSendable texts_of str_eq
  member_names-member_trees end h = refl
  member_names-member_trees (field k v d) h =
      rw (h.0) (ap (◌∷◌ k) (member_names-member_trees d h.3))

  mutual
    unfolding xml2py tree value_trees member_trees values inner IsSendable to_list field_values
        scalar str_eq first

    pub round_trip :
        IsPython python → (v : Value) → IsSendable python v → xml2py python (tree python v) ≡ ok v
    round_trip laws null h = refl
    round_trip laws (bool true) h = rw (laws.one_digit) refl
    round_trip laws (bool false) h = rw (laws.zero_digit) refl
    round_trip laws (int n) h = rw (laws.str_int_filled n, laws.int_of-str_int n) refl
    round_trip laws (double s) h = rw (h.0) (rw (h.1) refl)
    round_trip laws (text s) h = rw (h.0) refl
    round_trip laws (binary bytes) h = rw (laws.b64decode-b64encode bytes) refl
    round_trip laws (date y mo d hh mi s) h = rw (h.0) refl
    round_trip laws (array l) h = rw (round_trip_items laws l h) (
        ap (λ (vs : List Value). ok (array (to_items vs))) (append-nil (to_list l))
        ∙ ap (λ (m : Items). ok (array m)) (to_items-to_list l))
    round_trip laws (struct d) h =
        rw (round_trip_fields laws d h, member_names-member_trees d h)
          (ap (λ (e : Fields). ok (struct e)) (zip_into_all d (FieldsSendable-AreDistinct d h)))

    round_trip_items :
        IsPython python
        → (l : Items) → AreSendable python l
        → values python (value_trees python l) ≡ ok (to_list l)
    round_trip_items laws nil h = refl
    round_trip_items laws (cons v l) h =
        rw (round_trip laws v h.0, round_trip_items laws l h.1) refl

    round_trip_fields :
        IsPython python
        → (d : Fields) → FieldsSendable python d
        → inner python (str "member") (member_trees python d) ≡ ok (field_values d)
    round_trip_fields laws end h = refl
    round_trip_fields laws (field k v d) h =
        rw (round_trip laws v h.2, round_trip_fields laws d h.3) refl

  -- A value that is sent as XML, py2xml raising nothing, is read back as it was: None, bools, ints
  -- strictly between the bounds of i4, texts that XML can hold without space around them, bytes, dates
  -- and floats that the schema admits and Python reads back, and lists and dicts of such values, the
  -- dicts with keys that XML can hold and that are not empty.
  pub xml2py-py2xml :
      (v : Value)
      → IsPython python
      → IsSendable python v
      → (py2xml python v >>= xml2py python) ≡ ok v
  xml2py-py2xml v laws h = rw (py2xml-tree python laws v h) (round_trip laws v h)
