-- ===== src/Node/ParamCache/Deletion.antt =====
-- `delete` of the node's ParamCache, aioros/_node/_param_cache.py, of a key that is an entry itself.
use aioros.Common.{
  ◌≡◌, refl, false, List, [], ◌∷◌, ◌++◌, map, Str, length, drop, ok, Option-cases, inl, inr,
}
use aioros.Dict.{get, has, is_some}
use aioros.Resolve.{split, split_on, non_empty, join}
use aioros.Node.ParamCache.{
  ParamCache, prefixes, iter_namespaces, canonical, first_cached, delete_cache, for_cached, delete,
}

-- no key above `key` is an entry
abbrev pub IsTop : Str → ParamCache → Type 0
IsTop key params =
    is_some (first_cached (map join (prefixes (split (canonical key)))) params) ≡ false

drop-length : (s : Str) → drop (length s) s ≡ []
drop-length [] = refl
drop-length (c ∷ s) = drop-length s

delete_cache_whole : (n : Str) (params : ParamCache) → delete_cache n [] params ≡ ok params
unfolding delete_cache split split_on non_empty
delete_cache_whole n params = refl

for_cached_last :
    (ns : List Str) (key : Str) (params : ParamCache)
    → is_some (first_cached ns params) ≡ false
    → for_cached delete_cache (ns ++ key ∷ []) key params ≡ (params, ok tt)
unfolding for_cached first_cached has
for_cached_last [] key params h = elim (Option-cases (get params key)) [
  | inl e ↦ rw (e, for_cached, has) refl
  | inr (w, e) ↦
      rw (e, for_cached, has) (rw (drop-length key) (rw (delete_cache_whole key params) refl))
]
for_cached_last (n ∷ ns) key params h = elim (Option-cases (get params n)) [
  | inl e ↦ rw (e, for_cached, has) (for_cached_last ns key params (rw (e, first_cached) at h))
  | inr (w, e) ↦ absurd (cc (rw (e, first_cached) at h))
]

-- Deleting a key above which no key is cached changes nothing and does not raise, also where the key
-- itself is cached: its old value stays.
pub delete_top :
    (key : Str) (params : ParamCache) → IsTop key params → delete key params ≡ (params, ok tt)
unfolding delete iter_namespaces
delete_top key params h =
    for_cached_last (map join (prefixes (split (canonical key)))) (canonical key) params h
