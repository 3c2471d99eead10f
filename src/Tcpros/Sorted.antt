-- ===== src/Tcpros/Sorted.antt =====
-- The fields of a TCPROS header in the order of encode_header and put back one by one, as
-- decode_header of aioros/_node/_tcpros/_protocol.py does.
use aioros.Common.{
  ◌≡◌, refl, ◌∙◌, [], ◌∷◌, Option, none, some, Str, str_eq, str_eq_iff, str_lt, All, arith,
  Bool-cases, inl, inr, if◌then◌else◌,
}
use aioros.Dict.{Dict, get, put, get-put}
use aioros.Tcpros.{insert_field, sort_fields}

-- a key stands once, as in every Python dict
abbrev pub IsDistinct : Dict Str → Type 0
IsDistinct [] = Unit
IsDistinct ((k, v) ∷ l) = (get l k ≡ none) × IsDistinct l

unfoldable pub put_all : Dict Str → Dict Str → Dict Str
put_all [] header = header
put_all ((k, v) ∷ l) header = put_all l (put header k v)

abbrev or_else : Option Str → Option Str → Option Str
or_else (some v) o = some v
or_else none o = o

get-put_all :
    (l header : Dict Str) (j : Str)
    → IsDistinct l
    → get (put_all l header) j ≡ or_else (get l j) (get header j)
unfolding put_all get
get-put_all [] header j h = refl
get-put_all ((k, v) ∷ l) header j h =
    get-put_all l (put header k v) j h.1
    ∙ rw (get-put header k j v) (ground (arith, str_eq_iff k j, h.0))

get-insert_field :
    (e : Str × Str) (l : Dict Str) (j : Str)
    → get l e.0 ≡ none
    → get (insert_field e l) j ≡ (if str_eq e.0 j then some e.1 else get l j)
unfolding insert_field get
get-insert_field e [] j h = refl
get-insert_field e ((k, v) ∷ l) j h =
    ground (arith, str_eq_iff e.0 j, str_eq_iff k j, str_eq_iff k e.0, get-insert_field e l j)

IsDistinct-insert_field :
    (e : Str × Str) (l : Dict Str) → get l e.0 ≡ none → IsDistinct l → IsDistinct (insert_field e l)
unfolding insert_field get
IsDistinct-insert_field e [] h d = (refl, tt)
IsDistinct-insert_field e ((k, v) ∷ l) h d = elim (Bool-cases (str_lt e.0 k)) [
  | inl first ↦ rw first (h, d)
  | inr later ↦ ground (
    arith,
    str_eq_iff e.0 k,
    str_eq_iff k e.0,
    get-insert_field e l k,
    IsDistinct-insert_field e l,
  )
]

get-sort_fields :
    (l : Dict Str) (j : Str)
    → IsDistinct l
    → (get (sort_fields l) j ≡ get l j) × IsDistinct (sort_fields l)
unfolding sort_fields get
get-sort_fields [] j d = (refl, tt)
get-sort_fields ((k, v) ∷ l) j d =
    let fresh = (get-sort_fields l k d.1).0 ∙ d.0 in
    (
      get-insert_field (k, v) (sort_fields l) j fresh ∙ rw ((get-sort_fields l j d.1).0) refl,
      IsDistinct-insert_field (k, v) (sort_fields l) fresh (get-sort_fields l k d.1).1,
    )

-- a dict is the same dict after its items have been put back in the order of their keys
pub get-put_all-sort_fields :
    (l : Dict Str) (j : Str) → IsDistinct l → get (put_all (sort_fields l) []) j ≡ get l j
unfolding get
get-put_all-sort_fields l j d =
    let (same, d') = get-sort_fields l j d in
    get-put_all (sort_fields l) [] j d' ∙ rw same (ground arith)

module _ (P : Str × Str → Type 0) where
  All-insert_field : (e : Str × Str) (l : Dict Str) → P e → All P l → All P (insert_field e l)
  unfolding insert_field
  All-insert_field e [] p h = (p, tt)
  All-insert_field e (f ∷ l) p h = elim (Bool-cases (str_lt e.0 f.0)) [
    | inl first ↦ rw first (p, h)
    | inr later ↦ rw later (h.0, All-insert_field e l p h.1)
  ]

  pub All-sort_fields : (l : Dict Str) → All P l → All P (sort_fields l)
  unfolding sort_fields
  All-sort_fields [] h = tt
  All-sort_fields (e ∷ l) h = All-insert_field e (sort_fields l) h.0 (All-sort_fields l h.1)
