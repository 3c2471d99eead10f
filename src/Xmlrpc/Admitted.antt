-- ===== src/Xmlrpc/Admitted.antt =====
-- The schema of aioros/xmlrpc/_protocol/xmlrpc.rng admits what py2xml writes.
use aioros.Common.{◌≡◌, refl, true, false, str_eq}
use aioros.Value.{
  Value, Items, Fields, null, bool, int, double, text, binary, date, array, struct, nil, cons, end,
  field,
}
use aioros.Xmlrpc.{Python}
use aioros.Xmlrpc.Schema.{
  blank, is_token, valid_leaf, valid_value, valid_typed, valid_values, valid_members,
}
use aioros.Xmlrpc.Sendable.{
  IsPython, IsSendable, AreSendable, FieldsSendable, tree, value_trees, member_trees,
}

module _ (python : Python) where
  mutual
    unfolding valid_value valid_values valid_members valid_leaf tree value_trees member_trees
        IsSendable AreSendable FieldsSendable str_eq blank is_token

    pub valid_typed-tree :
        IsPython python
        → (v : Value) → IsSendable python v
        → valid_typed python (tree python v) ≡ true
    valid_typed-tree laws null h = refl
    valid_typed-tree laws (bool true) h = refl
    valid_typed-tree laws (bool false) h = refl
    valid_typed-tree laws (int n) h = rw (laws.int_digits n h) refl
    valid_typed-tree laws (double s) h = rw (h.3) refl
    valid_typed-tree laws (text s) h = refl
    valid_typed-tree laws (binary bytes) h = rw (laws.base64_digits bytes) refl
    valid_typed-tree laws (date y mo d hh mi s) h = rw (h.2) refl
    valid_typed-tree laws (array l) h = rw (valid_values-trees laws l h) refl
    valid_typed-tree laws (struct d) h = rw (valid_members-trees laws d h) refl

    pub valid_values-trees :
        IsPython python
        → (l : Items) → AreSendable python l
        → valid_values python (value_trees python l) ≡ true
    valid_values-trees laws nil h = refl
    valid_values-trees laws (cons v l) h =
        rw (valid_typed-tree laws v h.0, valid_values-trees laws l h.1) refl

    pub valid_members-trees :
        IsPython python
        → (d : Fields) → FieldsSendable python d
        → valid_members python (member_trees python d) ≡ true
    valid_members-trees laws end h = refl
    valid_members-trees laws (field k v d) h =
        rw (valid_typed-tree laws v h.2, valid_members-trees laws d h.3) refl
