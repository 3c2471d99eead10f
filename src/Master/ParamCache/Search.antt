-- ===== src/Master/ParamCache/Search.antt =====
-- `search` of ParamCache, aioros/master/_param_cache.py: a name looked up from a namespace towards
-- the root.
use aioros.Common.{
  ℕ, zero, suc, ◌<◌, ◌≡◌, ◌⊎◌, true, false, List, [], ◌∷◌, ◌++◌, Option, none, some, Str, str,
  starts_with, length, take, Result, ok, err, stop_iteration, if◌then◌else◌, arith, Bool-cases, inl,
  inr, refl,
}
use native.Mathlib.Decide.{ℕ_discrete}
use aioros.Resolve.{split, join_parts}
use aioros.Master.ParamCache.{ParamCache, has_item}

-- "/" + "/".join(names + [last])
abbrev pub path_of : List Str → Str → Str
path_of names last = str "/" ++ join_parts (names ++ last ∷ [])

-- The loop over `i`, which cuts the namespace after its first `n` names.
unfoldable pub search_up : ParamCache → List Str → Str → Str → ℕ → Option Str
search_up params names key_ns key zero = none
search_up params names key_ns key (suc n) =
    let rest = search_up params names key_ns key n in
    if has_item params (path_of (take n names) key_ns)
    then some (path_of (take n names) key)
    else rest

-- the part of `search` behind `key_ns = next(split(key))`
abbrev pub search_from : ParamCache → Str → Str → List Str → Result (Option Str)
search_from params key namespace [] = err stop_iteration
search_from params key namespace (key_ns ∷ _) =
    if has_item params (namespace ++ str "/" ++ key_ns)
    then ok (some (namespace ++ str "/" ++ key))
    else ok (search_up params (split namespace) key_ns key (length (split namespace)))

unfoldable pub search : ParamCache → Str → Str → Result (Option Str)
unfolding search_up
search params key namespace =
    if starts_with key (str "/")
    then (if has_item params key then ok (some key) else ok none)
    else search_from params key namespace (split key)

-- `n` names of the namespace are the most under which the name is there.
pub record IsNearest (params : ParamCache) (names : List Str) (key_ns : Str) (top n : ℕ)
    : Type 0 where
  pub inside : n < top
  pub there : has_item params (path_of (take n names) key_ns) ≡ true
  pub not_deeper :
      (m : ℕ) → n < m → m < top → has_item params (path_of (take m names) key_ns) ≡ false

-- What the loop can return: nothing, and the name is nowhere; or the path under the nearest place.
abbrev pub Found : ParamCache → List Str → Str → Str → ℕ → Option Str → Type 0
Found params names key_ns key top none =
    (m : ℕ) → m < top → has_item params (path_of (take m names) key_ns) ≡ false
Found params names key_ns key top (some r) =
    (n : ℕ) × IsNearest params names key_ns top n × (r ≡ path_of (take n names) key)

module _ (params : ParamCache) (names : List Str) (key_ns key : Str) where
  widen :
      (top : ℕ) (o : Option Str)
      → has_item params (path_of (take top names) key_ns) ≡ false
      → Found params names key_ns key top o
      → Found params names key_ns key (suc top) o
  widen top none miss h =
      λ m lt. elim (ℕ_discrete m top) [ yes e ↦ rw e miss | no ne ↦ h m (omega arith) ]
  widen top (some r) miss (n, near, e) = (
    n,
    record {
      inside = omega (arith, near.inside);
      there = near.there;
      not_deeper = λ m above lt. elim (ℕ_discrete m top) [
        | yes same ↦ rw same miss
        | no ne ↦ near.not_deeper m above (omega arith)
      ];
    },
    e,
  )

  search_up-Found :
      (top : ℕ) → Found params names key_ns key top (search_up params names key_ns key top)
  unfolding search_up
  search_up-Found zero = λ m lt. absurd (omega arith)
  search_up-Found (suc top) =
      elim (Bool-cases (has_item params (path_of (take top names) key_ns))) [
        | inl hit ↦ rw hit (
          top,
          record { inside = omega arith; there = hit; not_deeper = λ m a b. absurd (omega arith) },
          refl,
        )
        | inr miss ↦
            rw miss (widen top (search_up params names key_ns key top) miss (search_up-Found top))
      ]

-- A search for a relative name with at least one part gives an answer. If its first part is in the
-- tree under the namespace, the answer is the name under the namespace; otherwise it is the name under
-- the nearest of the namespaces that enclose it in which the first part is, and nothing if there is
-- none.
pub search-Found :
    (params : ParamCache) (key namespace key_ns : Str) (rest : List Str)
    → starts_with key (str "/") ≡ false
    → split key ≡ key_ns ∷ rest
    → let here = has_item params (namespace ++ str "/" ++ key_ns) in
      (o : Option Str) × (search params key namespace ≡ ok o)
      × (((here ≡ true) × (o ≡ some (namespace ++ str "/" ++ key)))
          ⊎ ((here ≡ false)
              × Found params (split namespace) key_ns key (length (split namespace)) o))
unfolding search
search-Found params key namespace key_ns rest relative parts =
    rw (relative, parts)
      (elim (Bool-cases (has_item params (namespace ++ str "/" ++ key_ns))) [
        | inl hit ↦ (some (namespace ++ str "/" ++ key), rw hit, inl (hit, refl))
        | inr miss ↦ (
          search_up params (split namespace) key_ns key (length (split namespace)),
          rw miss,
          inr (
            miss,
            search_up-Found params (split namespace) key_ns key (length (split namespace)),
          ),
        )
      ])
