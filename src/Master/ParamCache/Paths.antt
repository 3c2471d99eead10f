-- ===== src/Master/ParamCache/Paths.antt =====
-- The tree of ParamCache, aioros/master/_param_cache.py, as a partial function from paths to values,
-- and __setitem__ against it.
use aioros.Common.{
  ◌≡◌, refl, ap, sym, List, [], ◌∷◌, Option, none, some, Str, str, str_eq, str_eq_iff, Bool-cases,
  Option-cases, ok_path, subst, inl, inr, Result, ok, err, if◌then◌else◌,
}
use aioros.Value.{Value, struct, Fields, get, put, get-put, get-end}
use aioros.Resolve.{split}
use aioros.Master.ParamCache.{
  ParamCache, get_parts, get_item, sub_dict, set_parts, set_root, set_below, set_item,
}

abbrev pub bind_value : Option Value → (Value → Option Value) → Option Value
bind_value none f = none
bind_value (some v) f = f v

-- the value at a path, if there is one
unfoldable pub value_at : List Str → Value → Option Value
value_at [] v = some v
value_at (name ∷ names) (struct d) = bind_value (get d name) (value_at names)
value_at (name ∷ names) _ = none

-- what a subscript finds, with the argument of its KeyError forgotten
abbrev pub found : Result Value → Option Value
found (ok v) = some v
found (err e) = none

-- How a path `q` lies to a path `p`.
pub data Relation : Type 0 where
  inside : List Str → Relation
  above apart : Relation

unfoldable pub relate : List Str → List Str → Relation
relate [] q = inside q
relate (n ∷ p) [] = above
relate (n ∷ p) (m ∷ q) = let rest = relate p q in if str_eq n m then rest else apart

-- What an assignment of `v` leaves at a path that lies so to the one assigned to.
abbrev pub AfterSet : Relation → Value → Option Value → Option Value → Type 0
AfterSet (inside r) v before after = after ≡ value_at r v
AfterSet above v before after = (d : Fields) × (after ≡ some (struct d))
AfterSet apart v before after = after ≡ before

pub get_parts_lem :
    (key : Str) (names : List Str) (v : Value) → found (get_parts key names v) ≡ value_at names v
unfolding get_parts value_at
get_parts_lem key [] v = refl
get_parts_lem key (name ∷ names) (struct d) = elim (Option-cases (get d name)) [
  | inl e ↦ rw e
  | inr (w, e) ↦ rw e (get_parts_lem key names w)
]
get_parts_lem key (name ∷ names) Value.null = refl
get_parts_lem key (name ∷ names) _ = refl

-- A subscript finds exactly what the tree has at the parts of the key.
pub found-get_item :
    (params : ParamCache) (key : Str)
    → found (get_item params key) ≡ value_at (split key) (struct params)
unfolding get_item
found-get_item params key = get_parts_lem key (split key) (struct params)

-- a dict that is not there, or a value in its place, has nothing below it
pub value_at-sub_dict :
    (o : Option Value) (m : Str) (q : List Str)
    → value_at (m ∷ q) (struct (sub_dict o)) ≡ bind_value o (value_at (m ∷ q))
unfolding value_at
value_at-sub_dict none m q = rw get-end
value_at-sub_dict (some (struct d)) m q = refl
value_at-sub_dict (some Value.null) m q = rw get-end
value_at-sub_dict (some _) m q = rw get-end

set_parts-AfterSet :
    (n : Str) (p q : List Str) (v : Value) (d : Fields)
    → AfterSet
        (relate (n ∷ p) q)
        v
        (value_at q (struct d))
        (value_at q (struct (set_parts n p v d)))
unfolding set_parts relate value_at
set_parts-AfterSet n [] [] v d = (put d n v, refl)
set_parts-AfterSet n [] (m ∷ q) v d =
    rw (get-put d n m v)
      (elim (Bool-cases (str_eq n m)) [ inl same ↦ rw same refl | inr other ↦ rw other refl ])
set_parts-AfterSet n (k ∷ p) [] v d =
    (put d n (struct (set_parts k p v (sub_dict (get d n)))), refl)
set_parts-AfterSet n (k ∷ p) (m ∷ []) v d =
    rw (get-put d n m (struct (set_parts k p v (sub_dict (get d n)))))
      (elim (Bool-cases (str_eq n m)) [
        | inl same ↦ rw same (set_parts-AfterSet k p [] v (sub_dict (get d n)))
        | inr other ↦ rw other refl
      ])
set_parts-AfterSet n (k ∷ p) (m ∷ l ∷ q) v d =
    rw (get-put d n m (struct (set_parts k p v (sub_dict (get d n)))))
      (elim (Bool-cases (str_eq n m)) [
        | inl same ↦
            rw (same, ← (str_eq_iff n m).0 same, ← value_at-sub_dict (get d n) l q)
              (set_parts-AfterSet k p (l ∷ q) v (sub_dict (get d n)))
        | inr other ↦ rw other refl
      ])

set_below-AfterSet :
    (names : List Str) (v : Value) (params params' : ParamCache) (q : List Str)
    → set_below names v params ≡ ok params'
    → AfterSet (relate names q) v (value_at q (struct params)) (value_at q (struct params'))
set_below-AfterSet [] v params params' q h = cc
set_below-AfterSet (n ∷ names) v params params' q h =
    subst
      (λ d. AfterSet (relate (n ∷ names) q) v (value_at q (struct params)) (value_at q (struct d)))
      (ok_path h) (set_parts-AfterSet n names q v params)

set_root-AfterSet :
    (v : Value) (params params' : ParamCache) (q : List Str)
    → set_root v ≡ ok params'
    → AfterSet (inside q) v (value_at q (struct params)) (value_at q (struct params'))
set_root-AfterSet (struct d) params params' q h = ap (λ e. value_at q (struct e)) (sym (ok_path h))
set_root-AfterSet Value.null params params' q h = cc
set_root-AfterSet _ params params' q h = cc

split-root : split (str "/") ≡ []
unfolding split
split-root = refl

-- An assignment that succeeds leaves, at every key: inside the key assigned to, what the new value
-- has there; above it, a dict; elsewhere, what there was.
pub set_item-AfterSet :
    (params params' : ParamCache) (key : Str) (v : Value) (j : Str)
    → set_item params key v ≡ ok params'
    → AfterSet
        (relate (split key) (split j))
        v
        (found (get_item params j))
        (found (get_item params' j))
unfolding set_item
set_item-AfterSet params params' key v j h =
    rw (found-get_item params j, found-get_item params' j)
      (elim (Bool-cases (str_eq key (str "/"))) [
        | inl root ↦
            rw ((str_eq_iff key (str "/")).0 root, split-root)
              (unfold relate in set_root-AfterSet v params params' (split j) (rw root at h))
        | inr below ↦ set_below-AfterSet (split key) v params params' (split j) (rw below at h)
      ])
