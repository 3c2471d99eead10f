-- ===== src/Node/ParamCache.antt =====
-- The node's copy of the parameters that it watches: aioros/_node/_param_cache.py. `_params` is a
-- dict from keys to values; a key stands for itself and all keys inside it.
pub mod Update
pub mod Deletion
use aioros.Common.{
  ℕ, Bool, true, false, List, [], ◌∷◌, ◌++◌, map, Option, none, some, Str, length, drop, Result, ok,
  err, key_error, if◌then◌else◌, ◌>>=◌,
}
use aioros.Dict.{Dict, get, put, has, is_some}
use aioros.Value
use aioros.Value.{Value, struct, end}
use aioros.Resolve.{split, join}
use aioros.Master.ParamCache.{get_parts}

abbrev pub ParamCache : Type 0
ParamCache = Dict Value

-- parts[:i] for each i in range(len(parts))
unfoldable pub prefixes : List Str → List (List Str)
prefixes [] = []
prefixes (p ∷ ps) = [] ∷ map (λ q. p ∷ q) (prefixes ps)

unfoldable pub iter_namespaces : Str → List Str
unfolding prefixes
iter_namespaces key = map join (prefixes (split key)) ++ key ∷ []

-- join(*split(key))
unfoldable pub canonical : Str → Str
canonical key = join (split key)

-- the first of the namespaces that is a key, with its value
unfoldable pub first_cached : List Str → ParamCache → Option (Str × Value)
first_cached [] params = none
first_cached (namespace ∷ namespaces) params = elim (get params namespace) [
  | some value ↦ some (namespace, value)
  | none ↦ first_cached namespaces params
]

-- key in self
unfoldable pub has_item : ParamCache → Str → Bool
unfolding first_cached iter_namespaces canonical
has_item params key = is_some (first_cached (iter_namespaces (canonical key)) params)

-- the rest of `__getitem__`; its second loop is the one of the master's `__getitem__`
abbrev pub read_from : Str → Option (Str × Value) → Result Value
read_from key none = err (key_error key)
read_from key (some (namespace, value)) =
    let rest = drop (length namespace) key in get_parts rest (split rest) value

-- self[key]
unfoldable pub get_item : ParamCache → Str → Result Value
unfolding first_cached iter_namespaces canonical
get_item params key =
    read_from (canonical key) (first_cached (iter_namespaces (canonical key)) params)

unfoldable pub add : Str → Value → ParamCache → ParamCache
unfolding canonical
add key value params = put params (canonical key) value

-- cache[part], which is made if it is missing
abbrev pub value_or_dict : Option Value → Value
value_or_dict none = struct end
value_or_dict (some value) = value

-- The loop of `_update_cache` over the parts `name ∷ names`: the new value of `cache`. What raises
-- is met before anything is changed.
unfoldable pub update_parts : Str → Str → List Str → Value → Value → Result Value
update_parts full name [] value (struct d) = ok (struct (Value.put d name value))
update_parts full name (next ∷ names) value (struct d) = do
  inner ← update_parts full next names value (value_or_dict (Value.get d name))
  ok (struct (Value.put d name inner))
update_parts full name names value _ = err (key_error full)

-- self._params[namespace]
abbrev pub entry : Str → Option Value → Result Value
entry namespace none = err (key_error namespace)
entry namespace (some value) = ok value

abbrev pub update_inside : Str → Str → List Str → Value → ParamCache → Result ParamCache
update_inside namespace key [] value params = ok (put params namespace value)
update_inside namespace key (name ∷ names) value params = do
  cache ← entry namespace (get params namespace)
  cache' ← update_parts (join (namespace ∷ key ∷ [])) name names value cache
  ok (put params namespace cache')

-- `_update_cache`
unfoldable pub update_cache : Value → Str → Str → ParamCache → Result ParamCache
unfolding update_parts
update_cache value namespace key params = update_inside namespace key (split key) value params

-- the loop of `_delete_cache`: the new value of `cache`
unfoldable pub delete_parts : Str → Str → List Str → Value → Result Value
delete_parts full name [] (struct d) = do
  gone ← entry name (Value.get d name)
  ok (struct (Value.remove d name))
delete_parts full name (next ∷ names) (struct d) = elim (Value.get d name) [
  | none ↦ ok (struct d)
  | some cache ↦
      delete_parts full next names cache >>= λ cache'. ok (struct (Value.put d name cache'))
]
delete_parts full name names _ = err (key_error full)

abbrev pub delete_inside : Str → Str → List Str → ParamCache → Result ParamCache
delete_inside namespace key [] params = ok params
delete_inside namespace key (name ∷ names) params = do
  cache ← entry namespace (get params namespace)
  cache' ← delete_parts (join (namespace ∷ key ∷ [])) name names cache
  ok (put params namespace cache')

-- `_delete_cache`
unfoldable pub delete_cache : Str → Str → ParamCache → Result ParamCache
unfolding delete_parts
delete_cache namespace key params = delete_inside namespace key (split key) params

-- What was done before a raise stays done.
abbrev pub Outcome : Type 0
Outcome = ParamCache × Result (Unit {0})

abbrev pub proceed : Result ParamCache → ParamCache → (ParamCache → Outcome) → Outcome
proceed (ok params') params rest = rest params'
proceed (err e) params rest = (params, err e)

-- for namespace in iter_namespaces(key): if namespace in self._params: …
unfoldable pub for_cached :
    (Str → Str → ParamCache → Result ParamCache) → List Str → Str → ParamCache → Outcome
for_cached body [] key params = (params, ok tt)
for_cached body (namespace ∷ namespaces) key params =
    proceed
      (if has params namespace
        then body namespace (drop (length namespace) key) params
        else ok params)
      params (for_cached body namespaces key)

unfoldable pub update : Str → Value → ParamCache → Outcome
unfolding for_cached iter_namespaces canonical update_cache
update key value params =
    for_cached (update_cache value) (iter_namespaces (canonical key)) (canonical key) params

unfoldable pub delete : Str → ParamCache → Outcome
unfolding for_cached iter_namespaces canonical delete_cache
delete key params = for_cached delete_cache (iter_namespaces (canonical key)) (canonical key) params
