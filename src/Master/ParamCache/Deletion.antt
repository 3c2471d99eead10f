-- ===== src/Master/ParamCache/Deletion.antt =====
-- __delitem__ of ParamCache, aioros/master/_param_cache.py, against the paths of the tree.
use aioros.Common.{
  ◌≡◌, refl, ap, ◌∙◌, sym, false, List, [], ◌∷◌, ◌++◌, Option, none, some, Str, str, str_eq,
  str_eq_iff, Bool-cases, Option-cases, ok_path, inl, inr, Result, ok, err, ◌>>=◌, is_empty, All,
  All-drop_last, get_last, drop_last, drop_last-append-get_last, >>=-eq-ok,
}
use aioros.Dict.{is_some}
use aioros.Value.{Value, struct, Fields, get, put, remove, get-put, get-remove}
use aioros.Resolve.{split, join_parts}
use aioros.Resolve.Canonical.{IsPart, split-IsPart, split-join_parts, split-slash_append}
use aioros.Master.ParamCache.{
  ParamCache, get_item, has_item, is_ok, sub_dict, remove_parts, check_delete, delete_below,
  delete_item,
}
use aioros.Master.ParamCache.Paths.{
  value_at, bind_value, found, found-get_item, Relation, inside, above, apart, relate,
  value_at-sub_dict,
}

-- What a deletion leaves at a path that lies so to the one deleted.
abbrev pub AfterDelete : Relation → Option Value → Option Value → Type 0
AfterDelete (inside r) before after = after ≡ none
AfterDelete above before after = (d : Fields) × (after ≡ some (struct d))
AfterDelete apart before after = after ≡ before

relate-append_nil : (p : List Str) (k : Str) → relate (p ++ k ∷ []) [] ≡ above
unfolding relate
relate-append_nil [] k = refl
relate-append_nil (n ∷ p) k = refl

remove_parts-AfterDelete :
    (p : List Str) (k : Str) (q : List Str) (d : Fields)
    → AfterDelete
        (relate (p ++ k ∷ []) q)
        (value_at q (struct d))
        (value_at q (struct (remove_parts p k d)))
unfolding remove_parts relate value_at
remove_parts-AfterDelete [] k [] d = (remove d k, refl)
remove_parts-AfterDelete [] k (m ∷ q) d =
    rw (get-remove d k m)
      (elim (Bool-cases (str_eq k m)) [ inl same ↦ rw same refl | inr other ↦ rw other refl ])
remove_parts-AfterDelete (n ∷ p) k [] d =
    (put d n (struct (remove_parts p k (sub_dict (get d n)))), refl)
remove_parts-AfterDelete (n ∷ p) k (m ∷ []) d =
    rw (get-put d n m (struct (remove_parts p k (sub_dict (get d n)))))
      (elim (Bool-cases (str_eq n m)) [
        | inl same ↦ rw (same, relate-append_nil p k) (remove_parts p k (sub_dict (get d n)), refl)
        | inr other ↦ rw other refl
      ])
remove_parts-AfterDelete (n ∷ p) k (m ∷ l ∷ q) d =
    rw (get-put d n m (struct (remove_parts p k (sub_dict (get d n)))))
      (elim (Bool-cases (str_eq n m)) [
        | inl same ↦
            rw (same, ← (str_eq_iff n m).0 same, ← value_at-sub_dict (get d n) l q)
              (remove_parts-AfterDelete p k (l ∷ q) (sub_dict (get d n)))
        | inr other ↦ rw other refl
      ])

-- the namespace of `n ∷ names`, written as a key and split again
split-namespace :
    (n : Str) (names : List Str)
    → All IsPart (n ∷ names)
    → split (str "/" ++ join_parts (drop_last n names)) ≡ drop_last n names
split-namespace n names h =
    split-slash_append (join_parts (drop_last n names))
    ∙ split-join_parts (drop_last n names) (All-drop_last IsPart n names h)

delete_below_inv :
    (n : Str) (names : List Str) (params params' : ParamCache)
    → delete_below (n ∷ names) params ≡ ok params'
    → params'
      ≡ remove_parts (split (str "/" ++ join_parts (drop_last n names))) (get_last n names) params
delete_below_inv n names params params' h =
    let ns = str "/" ++ join_parts (drop_last n names) in
    let (v, _, h1) = >>=-eq-ok (get_item params ns) _ h in
    let (w, _, h2) = >>=-eq-ok (check_delete v (get_last n names)) _ h1 in sym (ok_path h2)

delete_below-AfterDelete :
    (names : List Str) (params params' : ParamCache) (q : List Str)
    → All IsPart names
    → delete_below names params ≡ ok params'
    → AfterDelete (relate names q) (value_at q (struct params)) (value_at q (struct params'))
delete_below-AfterDelete [] params params' q parts h = cc
delete_below-AfterDelete (n ∷ names) params params' q parts h =
    rw (delete_below_inv n names params params' h, split-namespace n names parts)
      (rw (← drop_last-append-get_last n names)
        (remove_parts-AfterDelete (drop_last n names) (get_last n names) q params))

-- A deletion that succeeds leaves, at every key: at the key deleted and inside it, nothing; above
-- it, a dict; elsewhere, what there was.
pub delete_item-AfterDelete :
    (params params' : ParamCache) (key j : Str)
    → delete_item params key ≡ ok params'
    → AfterDelete
        (relate (split key) (split j))
        (found (get_item params j))
        (found (get_item params' j))
unfolding delete_item
delete_item-AfterDelete params params' key j h =
    rw (found-get_item params j, found-get_item params' j)
      (delete_below-AfterDelete (split key) params params' (split j) (split-IsPart key) h)

value_at-append :
    (p q : List Str) (v : Value) → value_at (p ++ q) v ≡ bind_value (value_at p v) (value_at q)
unfolding value_at
value_at-append [] q v = refl
value_at-append (n ∷ p) q (struct d) = elim (Option-cases (get d n)) [
  | inl e ↦ rw e
  | inr (w, e) ↦ rw e (value_at-append p q w)
]
value_at-append (n ∷ p) q Value.null = refl
value_at-append (n ∷ p) q _ = refl

is_ok-found : (r : Result Value) → is_ok r ≡ is_some (found r)
is_ok-found (ok v) = refl
is_ok-found (err e) = refl

-- the statements of `__delitem__` after its first lookup
is_ok-check_delete :
    (r : Result Value) (k : Str) (params : ParamCache)
    → is_ok (r >>= λ v. check_delete v k >>= λ gone. ok params)
      ≡ is_some (bind_value (found r) (value_at (k ∷ [])))
unfolding value_at
is_ok-check_delete (err e) k params = refl
is_ok-check_delete (ok (struct d)) k params = elim (Option-cases (get d k)) [
  | inl e ↦ rw e
  | inr (w, e) ↦ rw e
]
is_ok-check_delete (ok Value.null) k params = refl
is_ok-check_delete (ok _) k params = refl

is_ok-delete_below :
    (n : Str) (names : List Str) (params : ParamCache)
    → All IsPart (n ∷ names)
    → is_ok (delete_below (n ∷ names) params) ≡ is_some (value_at (n ∷ names) (struct params))
is_ok-delete_below n names params parts =
    is_ok-check_delete (get_item params (str "/" ++ join_parts (drop_last n names)))
      (get_last n names) _
    ∙ rw
        (
          found-get_item params (str "/" ++ join_parts (drop_last n names)),
          split-namespace n names parts,
        )
        (rw (
          ← value_at-append (drop_last n names) (get_last n names ∷ []) (struct params),
          drop_last-append-get_last n names,
        ))

delete_below-has :
    (names : List Str) (params : ParamCache)
    → All IsPart names
    → is_empty names ≡ false
    → is_ok (delete_below names params) ≡ is_some (value_at names (struct params))
delete_below-has [] params parts h = cc
delete_below-has (n ∷ names) params parts h = is_ok-delete_below n names params parts

-- Of a key with at least one part, the deletion succeeds exactly when the key is in the tree.
pub delete_item-has_item :
    (params : ParamCache) (key : Str)
    → is_empty (split key) ≡ false
    → is_ok (delete_item params key) ≡ has_item params key
unfolding delete_item has_item
delete_item-has_item params key h =
    delete_below-has (split key) params (split-IsPart key) h
    ∙ sym (is_ok-found (get_item params key) ∙ ap is_some (found-get_item params key))
