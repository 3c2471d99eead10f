-- ===== src/Value.antt =====
-- The values that travel over XML-RPC and fill the parameter server: XmlRpcTypes of
-- aioros/xmlrpc/_protocol/_common.py. A `dict` is the list of its items in insertion order.
use aioros.Common.{
  ℕ, ◌≡◌, refl, Bool, List, [], ◌∷◌, Option, none, some, arith, Str, str_eq, str_eq_iff,
  if◌then◌else◌,
}

-- `negsuc n` is -(n + 1)
pub data ℤ : Type 0 where
  pos : ℕ → ℤ
  negsuc : ℕ → ℤ

-- A float is kept as the text that `repr` gives for it; `date` holds year to second.
mutual
  pub data Value : Type 0 where
    null : Value
    bool : Bool → Value
    int : ℤ → Value
    double : Str → Value
    text : Str → Value
    binary : List ℕ → Value
    date : ℕ → ℕ → ℕ → ℕ → ℕ → ℕ → Value
    array : Items → Value
    struct : Fields → Value

  pub data Items : Type 0 where
    nil : Items
    cons : Value → Items → Items

  pub data Fields : Type 0 where
    end : Fields
    field : Str → Value → Fields → Fields

-- d.get(k)
unfoldable pub get : Fields → Str → Option Value
get end k = none
get (field j v d) k = if str_eq j k then some v else get d k

-- d[k] = v
unfoldable pub put : Fields → Str → Value → Fields
put end k v = field k v end
put (field j w d) k v = if str_eq j k then field j v d else field j w (put d k v)

-- d.pop(k, None)
unfoldable pub remove : Fields → Str → Fields
remove end k = end
remove (field j w d) k = let rest = remove d k in if str_eq j k then rest else field j w rest

-- d.items()
unfoldable pub items : Fields → List (Str × Value)
items end = []
items (field k v d) = (k, v) ∷ items d

-- isinstance(v, dict), with the dict
abbrev pub as_dict : Value → Option Fields
as_dict (struct d) = some d
as_dict _ = none

pub get-put :
    (d : Fields) (k j : Str) (v : Value)
    → get (put d k v) j ≡ (if str_eq k j then some v else get d j)
unfolding get put
get-put end k j v = refl
get-put (field i w d) k j v =
    ground (arith, str_eq_iff k j, str_eq_iff i k, str_eq_iff i j, get-put d k j v)

pub get-remove :
    (d : Fields) (k j : Str) → get (remove d k) j ≡ (if str_eq k j then none else get d j)
unfolding get remove
get-remove end k j = ground arith
get-remove (field i w d) k j =
    ground (arith, str_eq_iff k j, str_eq_iff i k, str_eq_iff i j, get-remove d k j)

pub get-end : (k : Str) → get end k ≡ none
unfolding get
get-end k = refl

pub ruleset field_laws = (get-end, get-put, get-remove)
