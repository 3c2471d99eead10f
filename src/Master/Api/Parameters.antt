-- ===== src/Master/Api/Parameters.antt =====
-- setParam, deleteParam and getParam of MasterApiHandle, aioros/master/_api.py, one after another.
use aioros.Common.{
  ◌≡◌, refl, sym, ◌∙◌, ◌⊎◌, inl, inr, false, List, [], ◌∷◌, none, some, Str, str_eq_refl, is_empty,
  Exc, key_error, value_error, index_error, Result, ok, err, Option-cases, arith,
}
use aioros.Value.{Value, struct, end, get}
use aioros.Resolve.{split}
use aioros.Master.ParamCache.{
  ParamCache, get_parts, get_item, is_ok, has_item, set_item, delete_item,
}
use aioros.Master.ParamCache.Paths.{value_at, found, inside, relate, set_item-AfterSet}
use aioros.Master.ParamCache.Deletion.{delete_item-AfterDelete, delete_item-has_item}
use aioros.Master.Api.{
  Master, success, failure, not_set, get_param, stored, set_param, deleted, delete_param, announce,
}

relate_same : (p : List Str) → relate p p ≡ inside []
unfolding relate
relate_same [] = refl
relate_same (n ∷ p) = rw (str_eq_refl n) (relate_same p)

ok_of_found : (x : Result Value) (v : Value) → found x ≡ some v → x ≡ ok v
ok_of_found (ok w) v h = cc
ok_of_found (err e) v h = cc

get_parts_missing :
    (key : Str) (names : List Str) (v : Value)
    → found (get_parts key names v) ≡ none
    → (k : Str) × (get_parts key names v ≡ err (key_error k))
unfolding get_parts
get_parts_missing key [] v h = cc
get_parts_missing key (name ∷ names) (struct d) h = elim (Option-cases (get d name)) [
  | inl e ↦ (name, rw e refl)
  | inr (w, e) ↦ rw e (get_parts_missing key names w (rw e at h))
]
get_parts_missing key (name ∷ names) Value.null h = (key, refl)
get_parts_missing key (name ∷ names) _ h = (key, refl)

get_item_missing :
    (params : ParamCache) (key : Str)
    → found (get_item params key) ≡ none
    → (k : Str) × (get_item params key ≡ err (key_error k))
unfolding get_item
get_item_missing params key h = get_parts_missing key (split key) (struct params) h

get_item_set :
    (params params' : ParamCache) (key : Str) (v : Value)
    → set_item params key v ≡ ok params'
    → get_item params' key ≡ ok v
unfolding value_at
get_item_set params params' key v h =
    ok_of_found (get_item params' key) v
      (rw (relate_same (split key)) at (set_item-AfterSet params params' key v key h))

-- an assignment that raises
set_item_raises :
    (params : ParamCache) (key : Str) (v : Value) (e : Exc)
    → set_item params key v ≡ err e
    → (e ≡ value_error) ⊎ (e ≡ index_error)
unfolding set_item
set_item_raises params key v e h = ground arith

get_param-stored :
    (c key : Str) (v : Value) (r : Result ParamCache) (m : Master)
    → set_item m.param_cache key v ≡ r
    → ((get_param key (stored c key v r m).0).1 ≡ ok (success (some v)))
      ⊎ (((stored c key v r m).0 ≡ m)
          × (((stored c key v r m).1 ≡ err value_error)
              ⊎ ((stored c key v r m).1 ≡ err index_error)))
unfolding get_param
get_param-stored c key v (ok params) m h = inl (rw (get_item_set m.param_cache params key v h) refl)
get_param-stored c key v (err e) m h = inr (
  refl,
  elim (set_item_raises m.param_cache key v e h) [
    | inl same ↦ inl (rw same refl)
    | inr same ↦ inr (rw same refl)
  ],
)

-- After setParam, getParam of the same key replies with the value, also where telling the
-- subscribers raised; or else setParam raised a ValueError or an IndexError and changed nothing.
pub get_param-set_param :
    (c key : Str) (v : Value) (m : Master)
    → let (m', reply) = set_param c key v m in
      ((get_param key m').1 ≡ ok (success (some v)))
      ⊎ ((m' ≡ m) × ((reply ≡ err value_error) ⊎ (reply ≡ err index_error)))
unfolding set_param
get_param-set_param c key v m = get_param-stored c key v (set_item m.param_cache key v) m refl

get_param_missing :
    (key : Str) (m : Master)
    → found (get_item m.param_cache key) ≡ none
    → (get_param key m).1 ≡ ok (failure (not_set key) none)
unfolding get_param
get_param_missing key m h = let (k, e) = get_item_missing m.param_cache key h in rw e refl

missing_deleted :
    (params params' : ParamCache) (key : Str)
    → delete_item params key ≡ ok params'
    → found (get_item params' key) ≡ none
missing_deleted params params' key h =
    rw (relate_same (split key)) at (delete_item-AfterDelete params params' key key h)

not_ok-missing : (x : Result Value) → is_ok x ≡ false → found x ≡ none
not_ok-missing (ok v) h = cc
not_ok-missing (err e) h = refl

parts_of_key_error :
    (params : ParamCache) (key k : Str)
    → delete_item params key ≡ err (key_error k)
    → is_empty (split key) ≡ false
unfolding delete_item
parts_of_key_error params key k h = ground arith

-- a key that the deletion does not find is not in the tree
missing_of_key_error :
    (params : ParamCache) (key k : Str)
    → delete_item params key ≡ err (key_error k)
    → found (get_item params key) ≡ none
missing_of_key_error params key k h = not_ok-missing (get_item params key) (
    unfold has_item in
    sym (delete_item-has_item params key (parts_of_key_error params key k h)) ∙ rw h refl)

get_param-deleted :
    (c key : Str) (r : Result ParamCache) (m : Master)
    → delete_item m.param_cache key ≡ r
    → ((get_param key (deleted c key r m).0).1 ≡ ok (failure (not_set key) none))
      ⊎ (((deleted c key r m).0 ≡ m) × ((e : Exc) × ((deleted c key r m).1 ≡ err e)))
get_param-deleted c key (ok params) m h = inl (
    get_param_missing key (announce key (struct end) c (record m { param_cache = params })).0
      (missing_deleted m.param_cache params key h))
get_param-deleted c key (err (key_error k)) m h =
    inl (get_param_missing key m (missing_of_key_error m.param_cache key k h))
get_param-deleted c key (err value_error) m h = inr (refl, (value_error, refl))
get_param-deleted c key (err e) m h = inr (refl, (e, refl))

-- After deleteParam, getParam of the same key replies that it is not set, also where telling the
-- subscribers raised; or else deleteParam raised and changed nothing.
pub get_param-delete_param :
    (c key : Str) (m : Master)
    → let (m', reply) = delete_param c key m in
      ((get_param key m').1 ≡ ok (failure (not_set key) none))
      ⊎ ((m' ≡ m) × ((e : Exc) × (reply ≡ err e)))
unfolding delete_param
get_param-delete_param c key m = get_param-deleted c key (delete_item m.param_cache key) m refl
