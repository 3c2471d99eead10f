-- ===== src/Node/ParamCache/Update.antt =====
-- `update` of the node's ParamCache, aioros/_node/_param_cache.py, and what a subscript finds after it.
use aioros.Common.{
  ◌≡◌, ◌⊎◌, refl, sym, ap, ◌∙◌, true, false, List, [], ◌∷◌, Option, none, some, Str, length, drop,
  str_eq, str_eq_iff, str_eq_refl, Result, ok, err, ok_path, >>=-eq-ok, Bool-cases, Option-cases,
  Result-cases, inl, inr, arith, if◌then◌else◌, All,
}
use aioros.Dict.{get, put, has, is_some, get-put}
use aioros.Value
use aioros.Value.{Value, struct, end}
use aioros.Resolve.{split, join}
use aioros.Master.ParamCache.Paths.{value_at, found, get_parts_lem}
use aioros.Node.ParamCache.{
  ParamCache, iter_namespaces, canonical, first_cached, has_item, read_from, get_item, update_parts,
  entry, value_or_dict, update_inside, update_cache, for_cached, Outcome, update,
}

-- the value of an entry, read at the parts of `key` after the namespace
abbrev Holds : Str → Value → Str → Option Value → Type 0
Holds key v namespace none = Unit
Holds key v namespace (some w) = value_at (split (drop (length namespace) key)) w ≡ some v

update_parts-value_at :
    (full name : Str) (names : List Str) (v old new : Value)
    → update_parts full name names v old ≡ ok new
    → value_at (name ∷ names) new ≡ some v
unfolding update_parts value_at
update_parts-value_at full name [] v (struct d) new h =
    rw (← ok_path h, value_at) (rw (Value.get-put d name name v, str_eq_refl name) refl)
update_parts-value_at full name (next ∷ names) v (struct d) new h =
    let (inner, e, h1) =
      >>=-eq-ok (update_parts full next names v (value_or_dict (Value.get d name))) _ h in
    rw (← ok_path h1, value_at)
      (rw (Value.get-put d name name inner, str_eq_refl name)
        (update_parts-value_at full next names v (value_or_dict (Value.get d name)) inner e))
update_parts-value_at full name [] v Value.null new h = cc
update_parts-value_at full name [] v _ new h = cc
update_parts-value_at full name (next ∷ names) v Value.null new h = cc
update_parts-value_at full name (next ∷ names) v _ new h = cc

-- one entry is written, and it holds the value at the rest of the key
abbrev IsWritten : Value → Str → Str → ParamCache → ParamCache → Type 0
IsWritten v namespace rest params params' =
    (w : Value) × (params' ≡ put params namespace w) × (value_at (split rest) w ≡ some v)

update_inside-IsWritten :
    (namespace rest : Str) (names : List Str) (v : Value) (params params' : ParamCache)
    → update_inside namespace rest names v params ≡ ok params'
    → (w : Value) × (params' ≡ put params namespace w) × (value_at names w ≡ some v)
unfolding value_at
update_inside-IsWritten namespace rest [] v params params' h = (v, sym (ok_path h), refl)
update_inside-IsWritten namespace rest (name ∷ names) v params params' h =
    let (cache, e, h1) = >>=-eq-ok (entry namespace (get params namespace)) _ h in
    let (cache', e', h2) =
      >>=-eq-ok (update_parts (join (namespace ∷ rest ∷ [])) name names v cache) _ h1 in
    (
      cache',
      sym (ok_path h2),
      update_parts-value_at (join (namespace ∷ rest ∷ [])) name names v cache cache' e',
    )

update_cache-IsWritten :
    (v : Value) (namespace rest : Str) (params params' : ParamCache)
    → update_cache v namespace rest params ≡ ok params'
    → IsWritten v namespace rest params params'
unfolding update_cache
update_cache-IsWritten v namespace rest params params' h =
    update_inside-IsWritten namespace rest (split rest) v params params' h

module _ (key : Str) (v : Value) where
  Holds-put :
      (n m : Str) (w : Value) (params : ParamCache)
      → value_at (split (drop (length n) key)) w ≡ some v
      → Holds key v m (get params m)
      → Holds key v m (get (put params n w) m)
  Holds-put n m w params written h = rw (get-put params n m w) (elim (Bool-cases (str_eq n m)) [
    | inl same ↦ rw same (rw (← (str_eq_iff n m).0 same) written)
    | inr other ↦ rw other h
  ])

  has-put :
      (n m : Str) (w : Value) (params : ParamCache)
      → has params n ≡ true
      → has (put params n w) m ≡ has params m
  unfolding has
  has-put n m w params there = rw (get-put params n m w) (ground (arith, str_eq_iff n m))

  -- one round of the loop
  abbrev round : Str → ParamCache → Result ParamCache
  round n params = if has params n then update_cache v n (drop (length n) key) params else ok params

  -- what a round keeps, and what it reaches
  record IsRound (n : Str) (params params' : ParamCache) : Type 0 where
    keys : (m : Str) → has params' m ≡ has params m
    kept : (m : Str) → Holds key v m (get params m) → Holds key v m (get params' m)
    reached : Holds key v n (get params' n)

  Holds-missing :
      (n : Str) (params : ParamCache) → has params n ≡ false → Holds key v n (get params n)
  unfolding has
  Holds-missing n params h = elim (Option-cases (get params n)) [
    | inl e ↦ rw e tt
    | inr (w, e) ↦ absurd (cc (rw e at h))
  ]

  round-IsRound :
      (n : Str) (params params' : ParamCache)
      → round n params ≡ ok params'
      → IsRound n params params'
  round-IsRound n params params' h = elim (Bool-cases (has params n)) [
    | inr missing ↦
        let same : params ≡ params' = ok_path (rw missing at h) in
        rw (← same)
          (record { keys = λ m. refl; kept = λ m k. k; reached = Holds-missing n params missing })
    | inl there ↦
        let (w, form, written) =
          update_cache-IsWritten v n (drop (length n) key) params params' (rw there at h) in
        rw form (record {
          keys = λ m. has-put n m w params there;
          kept = λ m k. Holds-put n m w params written k;
          reached = rw (get-put params n n w, str_eq_refl n) written;
        })
  ]

  abbrev loop : List Str → ParamCache → Outcome
  loop ns params = for_cached (update_cache v) ns key params

  -- the state after a loop that ended
  record IsLoop (ns : List Str) (params params' : ParamCache) : Type 0 where
    keys : (m : Str) → has params' m ≡ has params m
    kept : (m : Str) → Holds key v m (get params m) → Holds key v m (get params' m)
    reached : All (λ n. Holds key v n (get params' n)) ns

  loop-IsLoop :
      (ns : List Str) (params : ParamCache)
      → (loop ns params).1 ≡ ok tt
      → IsLoop ns params (loop ns params).0
  unfolding for_cached
  loop-IsLoop [] params h = record { keys = λ m. refl; kept = λ m k. k; reached = tt }
  loop-IsLoop (n ∷ ns) params h = elim (Result-cases (round n params)) [
    | inl (e, raised) ↦ absurd (cc (rw raised at h))
    | inr (params1, done) ↦ rw done (
        let first = round-IsRound n params params1 done in
        let later = loop-IsLoop ns params1 (rw done at h) in
        record {
          keys = λ m. later.keys m ∙ first.keys m;
          kept = λ m k. later.kept m (first.kept m k);
          reached = (later.kept n first.reached, later.reached);
        })
  ]

  ok_of_found_value : (x : Result Value) → found x ≡ some v → x ≡ ok v
  ok_of_found_value (ok w) h = cc
  ok_of_found_value (err e) h = cc

  read_first :
      (ns : List Str) (params : ParamCache)
      → All (λ n. Holds key v n (get params n)) ns
      → is_some (first_cached ns params) ≡ true
      → read_from key (first_cached ns params) ≡ ok v
  unfolding first_cached
  read_first [] params h there = cc
  read_first (n ∷ ns) params h there = elim (Option-cases (get params n)) [
    | inl e ↦ rw (e, first_cached) (read_first ns params h.1 (rw (e, first_cached) at there))
    | inr (w, e) ↦
        rw (e, first_cached)
          (ok_of_found_value _
            (get_parts_lem (drop (length n) key) (split (drop (length n) key)) w ∙ (rw e at (h.0))))
  ]

is_some-first_cached :
    (ns : List Str) (params params' : ParamCache)
    → ((m : Str) → has params' m ≡ has params m)
    → is_some (first_cached ns params') ≡ is_some (first_cached ns params)
unfolding first_cached has
is_some-first_cached [] params params' h = refl
is_some-first_cached (n ∷ ns) params params' h =
    ground (arith, h n, is_some-first_cached ns params params' h)

for_cached_missing :
    (body : Str → Str → ParamCache → Result ParamCache) (ns : List Str) (key : Str)
    (params : ParamCache)
    → is_some (first_cached ns params) ≡ false
    → for_cached body ns key params ≡ (params, ok tt)
unfolding for_cached first_cached has
for_cached_missing body [] key params h = refl
for_cached_missing body (n ∷ ns) key params h = elim (Option-cases (get params n)) [
  | inl e ↦
      rw (e, for_cached, has) (for_cached_missing body ns key params (rw (e, first_cached) at h))
  | inr (w, e) ↦ absurd (cc (rw (e, first_cached) at h))
]

-- An update that does not raise: if the key is in the cache, it is still there and reads as the new
-- value; if it is not, nothing has changed.
pub get_item-update :
    (key : Str) (v : Value) (params : ParamCache)
    → (update key v params).1 ≡ ok tt
    → let params' = (update key v params).0 in
      ((has_item params key ≡ true) × (has_item params' key ≡ true) × (get_item params' key ≡ ok v))
      ⊎ ((has_item params key ≡ false) × (params' ≡ params))
unfolding update has_item get_item
get_item-update key v params h =
    let ns = iter_namespaces (canonical key) in
    let done = loop-IsLoop (canonical key) v ns params h in
    elim (Bool-cases (is_some (first_cached ns params))) [
      | inl there ↦
          let still = is_some-first_cached ns params (update key v params).0 done.keys ∙ there in
          inl (
            there,
            still,
            read_first (canonical key) v ns (update key v params).0 done.reached still,
          )
      | inr missing ↦ inr (
        missing,
        ap (λ o. o.0) (for_cached_missing (update_cache v) ns (canonical key) params missing),
      )
    ]
