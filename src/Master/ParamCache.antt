-- ===== src/Master/ParamCache.antt =====
-- The parameter server's tree: ParamCache of aioros/master/_param_cache.py. Its only field is the
-- `dict` of the top level. A method that changes it returns the new tree.
pub mod Paths
pub mod Deletion
pub mod Listing
pub mod Leaves
pub mod Search
mod Examples
use aioros.Common.{
  ℕ, zero, suc, ◌+◌, Bool, true, false, ◌&&◌, List, [], ◌∷◌, ◌++◌, map, Option, none, some, Str,
  str, str_eq, starts_with, length, take, get_last, drop_last, Result, ok, err, key_error,
  value_error, type_error, index_error, stop_iteration, ltb, ◌==◌, ◌>>=◌, if◌then◌else◌,
}
use aioros.Value.{Value, struct, Fields, end, field, get, put, remove, items, as_dict}
use aioros.Resolve.{split, join_parts}

abbrev pub ParamCache : Type 0
ParamCache = Fields

-- value[name], a KeyError if it is missing
abbrev pub lookup_name : Str → Option Value → Result Value
lookup_name name none = err (key_error name)
lookup_name name (some v) = ok v

-- the loop of `__getitem__`, at `value`
unfoldable pub get_parts : Str → List Str → Value → Result Value
get_parts key [] value = ok value
get_parts key (name ∷ names) (struct d) = do
  value ← lookup_name name (get d name)
  get_parts key names value
get_parts key (name ∷ names) _ = err (key_error key)

-- self[key]
unfoldable pub get_item : ParamCache → Str → Result Value
unfolding get_parts
get_item params key = get_parts key (split key) (struct params)

abbrev pub is_ok {ℓ} : {A : Type ℓ} → Result A → Bool
is_ok (ok a) = true
is_ok (err e) = false

-- `key in self`: `__getitem__` raises nothing but KeyError
unfoldable pub has_item : ParamCache → Str → Bool
unfolding get_item
has_item params key = is_ok (get_item params key)

-- params[namespace], or a new dict where there is none
abbrev pub sub_dict : Option Value → Fields
sub_dict (some (struct d)) = d
sub_dict _ = end

-- the loop of `__setitem__` and its last line, for the parts `name ∷ names`
unfoldable pub set_parts : Str → List Str → Value → Fields → Fields
set_parts name [] value d = put d name value
set_parts name (next ∷ names) value d =
    put d name (struct (set_parts next names value (sub_dict (get d name))))

-- self["/"] = value
abbrev pub set_root : Value → Result ParamCache
set_root (struct d) = ok d
set_root _ = err value_error

abbrev pub set_below : List Str → Value → ParamCache → Result ParamCache
set_below [] value params = err index_error
set_below (name ∷ names) value params = ok (set_parts name names value params)

-- self[key] = value
unfoldable pub set_item : ParamCache → Str → Value → Result ParamCache
unfolding set_parts
set_item params key value =
    if str_eq key (str "/") then set_root value else set_below (split key) value params

-- the dict at `names` without `subkey`
unfoldable pub remove_parts : List Str → Str → Fields → Fields
remove_parts [] subkey d = remove d subkey
remove_parts (name ∷ names) subkey d =
    put d name (struct (remove_parts names subkey (sub_dict (get d name))))

-- del value[subkey]: whether it raises
abbrev pub check_delete : Value → Str → Result Value
check_delete (struct d) subkey = lookup_name subkey (get d subkey)
check_delete _ subkey = err type_error

abbrev pub delete_below : List Str → ParamCache → Result ParamCache
delete_below [] params = err index_error
delete_below (name ∷ names) params =
    let namespace = str "/" ++ join_parts (drop_last name names) in
    let subkey = get_last name names in
    do
      value ← get_item params namespace
      gone ← check_delete value subkey
      ok (remove_parts (split namespace) subkey params)

-- del self[key]
unfoldable pub delete_item : ParamCache → Str → Result ParamCache
unfolding get_item remove_parts
delete_item params key = delete_below (split key) params
