-- ===== src/Master/ParamCache/Listing.antt =====
-- `keys` of ParamCache, aioros/master/_param_cache.py: the paths of all leaves, by a worklist.
use aioros.Common.{
  ℕ, zero, suc, ◌+◌, List, [], ◌∷◌, ◌++◌, map, Option, none, some, Str, str, str_lt, if◌then◌else◌,
}
use aioros.Value.{Value, struct, Fields, end, field, items}
use aioros.Master.ParamCache.{ParamCache}

-- sorted(d.items()): the keys of a dict differ, so that they alone decide
unfoldable pub insert_item : Str × Value → List (Str × Value) → List (Str × Value)
unfolding str_lt
insert_item e [] = e ∷ []
insert_item e (f ∷ l) = let rest = insert_item e l in if str_lt e.0 f.0 then e ∷ f ∷ l else f ∷ rest

unfoldable pub sorted : List (Str × Value) → List (Str × Value)
unfolding insert_item
sorted [] = []
sorted (e ∷ l) = insert_item e (sorted l)

-- worklist.extendleft(l)
unfoldable pub extend_left {ℓ} : {A : Type ℓ} → List A → List A → List A
extend_left [] worklist = worklist
extend_left (e ∷ l) worklist = extend_left l (e ∷ worklist)

abbrev pub below : Str → Str × Value → Str × Value
below key (k, v) = (key ++ str "/" ++ k, v)

-- The loop of `keys`; `none` means that the fuel ran out.
unfoldable pub keys_loop : ℕ → List (Str × Value) → Option (List Str)
unfolding extend_left
keys_loop zero worklist = none
keys_loop (suc fuel) [] = some []
keys_loop (suc fuel) ((key, struct d) ∷ worklist) =
    keys_loop fuel (extend_left (map (below key) (sorted (items d))) worklist)
keys_loop (suc fuel) ((key, _) ∷ worklist) = elim (keys_loop fuel worklist) [
  | none ↦ none
  | some rest ↦ some ((str "/" ++ key) ∷ rest)
]

-- how many values there are in a value, and in the values of a worklist
unfoldable mutual
  pub size : Value → ℕ
  size (struct d) = suc (size_fields d)
  size _ = 1

  pub size_fields : Fields → ℕ
  size_fields end = 0
  size_fields (field k v d) = size v + size_fields d

-- keys(): each round takes one value off, and puts back what was inside it
unfoldable pub keys : ParamCache → Option (List Str)
keys params = keys_loop (suc (size_fields params)) (sorted (items params))
