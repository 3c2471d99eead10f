-- ===== src/Master/ParamCache/Leaves.antt =====
-- `keys` of ParamCache, aioros/master/_param_cache.py, against the leaves of the tree.
use mathlib.Core.List.{Perm, perm_append_comm}
use mathlib.Core.List.Perm
use aioros.Common.{
  ℕ, zero, suc, ◌+◌, ◌<◌, ◌≡◌, refl, ap, ◌∙◌, List, [], ◌∷◌, ◌++◌, append_assoc, map, Option, none,
  some, Str, str, str_lt, Bool-cases, inl, inr, arith,
}
use aioros.Value.{Value, struct, Fields, end, field, items}
use aioros.Master.ParamCache.{ParamCache}
use aioros.Master.ParamCache.Listing.{
  insert_item, sorted, extend_left, below, keys_loop, size, size_fields, keys,
}

-- The paths of the leaves under a path, in the order of the dicts: an empty dict has none.
unfoldable mutual
  pub leaf_keys : Str → Value → List Str
  leaf_keys key (struct d) = leaf_fields key d
  leaf_keys key _ = (str "/" ++ key) ∷ []

  pub leaf_fields : Str → Fields → List Str
  leaf_fields key end = []
  leaf_fields key (field k v d) = leaf_keys (key ++ str "/" ++ k) v ++ leaf_fields key d

unfoldable pub leaves : List (Str × Value) → List Str
leaves [] = []
leaves ((k, v) ∷ l) = leaf_keys k v ++ leaves l

unfoldable pub total : List (Str × Value) → ℕ
total [] = 0
total ((k, v) ∷ l) = size v + total l

leaves-below : (key : Str) (d : Fields) → leaves (map (below key) (items d)) ≡ leaf_fields key d
unfolding leaves leaf_keys items
leaves-below key end = refl
leaves-below key (field k v d) = rw (leaves-below key d)

total-items : (d : Fields) → total (items d) ≡ size_fields d
unfolding total items size
total-items end = refl
total-items (field k v d) = rw (total-items d)

total-insert_item :
    (e : Str × Value) (l : List (Str × Value)) → total (insert_item e l) ≡ size e.1 + total l
unfolding total insert_item
total-insert_item e [] = refl
total-insert_item e (f ∷ l) = ground (arith, total-insert_item e l)

total-sorted : (l : List (Str × Value)) → total (sorted l) ≡ total l
unfolding total sorted
total-sorted [] = refl
total-sorted (e ∷ l) = total-insert_item e (sorted l) ∙ rw (total-sorted l)

total-map-below : (key : Str) (l : List (Str × Value)) → total (map (below key) l) ≡ total l
unfolding total
total-map-below key [] = refl
total-map-below key (e ∷ l) = rw (total-map-below key l)

total-extend_left : (l w : List (Str × Value)) → total (extend_left l w) ≡ total l + total w
unfolding total extend_left
total-extend_left [] w = omega arith
total-extend_left (e ∷ l) w = omega (arith, total-extend_left l (e ∷ w))

perm_move : (xs ys zs : List Str) → Perm (xs ++ (ys ++ zs)) (ys ++ (xs ++ zs))
perm_move xs ys zs =
    rw (← append_assoc xs ys zs, ← append_assoc ys xs zs)
      (Perm.append_right zs (perm_append_comm xs ys))

module _ (f : Str × Value → Str × Value) where
  leaves-insert_item :
      (e : Str × Value) (l : List (Str × Value))
      → Perm (leaves (map f (insert_item e l))) (leaf_keys (f e).0 (f e).1 ++ leaves (map f l))
  unfolding leaves insert_item
  leaves-insert_item e [] = Perm.refl _
  leaves-insert_item e (g ∷ l) = elim (Bool-cases (str_lt e.0 g.0)) [
    | inl before ↦ rw before (Perm.refl _)
    | inr after ↦ rw after (
        Perm.trans (Perm.append_left (leaf_keys (f g).0 (f g).1) (leaves-insert_item e l))
          (perm_move (leaf_keys (f g).0 (f g).1) (leaf_keys (f e).0 (f e).1) (leaves (map f l))))
  ]

  leaves-sorted : (l : List (Str × Value)) → Perm (leaves (map f (sorted l))) (leaves (map f l))
  unfolding leaves sorted
  leaves-sorted [] = Perm.refl _
  leaves-sorted (e ∷ l) =
      Perm.trans (leaves-insert_item e (sorted l))
        (Perm.append_left (leaf_keys (f e).0 (f e).1) (leaves-sorted l))

map-same : (l : List (Str × Value)) → map (λ e. e) l ≡ l
map-same [] = refl
map-same (e ∷ l) = ap (◌∷◌ e) (map-same l)

leaves-sorted_items : (d : Fields) → Perm (leaves (sorted (items d))) (leaves (items d))
leaves-sorted_items d =
    let p = leaves-sorted (λ e. e) (items d) in
    rw (map-same (sorted (items d)), map-same (items d)) at p

leaves-extend_left :
    (l w : List (Str × Value)) → Perm (leaves (extend_left l w)) (leaves l ++ leaves w)
unfolding leaves extend_left
leaves-extend_left [] w = Perm.refl _
leaves-extend_left (e ∷ l) w = rw (append_assoc (leaf_keys e.0 e.1) (leaves l) (leaves w)) (
    Perm.trans (leaves-extend_left l (e ∷ w)) (perm_move (leaves l) (leaf_keys e.0 e.1) (leaves w)))

leaves_of_struct :
    (key : Str) (d : Fields) (w : List (Str × Value))
    → Perm
        (leaves (extend_left (map (below key) (sorted (items d))) w))
        (leaf_fields key d ++ leaves w)
leaves_of_struct key d w =
    Perm.trans (leaves-extend_left (map (below key) (sorted (items d))) w) (
      Perm.append_right (leaves w)
        (rw (← leaves-below key d) (leaves-sorted (below key) (items d))))

-- what the loop returns: the leaves of the worklist in some order
abbrev Lists : List (Str × Value) → Option (List Str) → Type 0
Lists w o = (r : List Str) × (o ≡ some r) × Perm r (leaves w)

Lists-of_struct :
    (key : Str) (d : Fields) (w : List (Str × Value)) {o : Option (List Str)}
    → Lists (extend_left (map (below key) (sorted (items d))) w) o
    → Lists ((key, struct d) ∷ w) o
unfolding leaves leaf_keys
Lists-of_struct key d w (r, e, p) = (r, e, Perm.trans p (leaves_of_struct key d w))

Lists-of_leaf :
    (key : Str) (w : List (Str × Value)) {o : Option (List Str)}
    → Lists w o
    → (r : List Str) × (elim o [ none ↦ none | some rest ↦ some ((str "/" ++ key) ∷ rest) ]
        ≡ some r)
      × Perm r ((str "/" ++ key) ∷ leaves w)
Lists-of_leaf key w (r, e, p) = ((str "/" ++ key) ∷ r, rw e, Perm.cons (str "/" ++ key) p)

total-struct :
    (key : Str) (d : Fields) (w : List (Str × Value))
    → total ((key, struct d) ∷ w) ≡ suc (total (extend_left (map (below key) (sorted (items d))) w))
unfolding total size
total-struct key d w = omega (
  arith,
  total-extend_left (map (below key) (sorted (items d))) w,
  total-map-below key (sorted (items d)),
  total-sorted (items d),
  total-items d,
)

keys_loop-Lists : (fuel : ℕ) (w : List (Str × Value)) → total w < fuel → Lists w (keys_loop fuel w)
unfolding keys_loop leaves leaf_keys total size
keys_loop-Lists zero w h = absurd (omega arith)
keys_loop-Lists (suc fuel) [] h = ([], refl, Perm.refl [])
keys_loop-Lists (suc fuel) ((key, struct d) ∷ w) h = Lists-of_struct key d w (
    keys_loop-Lists fuel (extend_left (map (below key) (sorted (items d))) w)
      (omega (arith, total-struct key d w)))
keys_loop-Lists (suc fuel) ((key, Value.null) ∷ w) h =
    Lists-of_leaf key w (keys_loop-Lists fuel w (omega arith))
keys_loop-Lists (suc fuel) ((key, _) ∷ w) h =
    Lists-of_leaf key w (keys_loop-Lists fuel w (omega arith))

-- `keys` ends, and yields the path of every leaf of the tree, each as often as it is there.
pub keys-leaves :
    (params : ParamCache) → (r : List Str) × (keys params ≡ some r) × Perm r (leaves (items params))
unfolding keys
keys-leaves params =
    let (r, e, p) =
      keys_loop-Lists (suc (size_fields params)) (sorted (items params))
        (omega (arith, total-sorted (items params), total-items params)) in
    (r, e, Perm.trans p (leaves-sorted_items params))
