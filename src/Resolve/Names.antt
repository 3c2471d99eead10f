-- ===== src/Resolve/Names.antt =====
-- What resolve_name and normalize_namespace of aioros/_utils/_resolve.py return.
use aioros.Common.{
  ℕ, ◌≡◌, refl, ap, ◌∙◌, sym, true, false, List, [], ◌∷◌, ◌++◌, Str, str, is_empty, arith,
  Bool-cases, inl, inr, ◌⊎◌, starts_with, ends_with, drop, Result, ok, err, value_error, ◌>>=◌,
}
use aioros.Resolve.{
  add_root, add_end, split, join, check_parts, resolve_unchecked, resolve_name, normalize_namespace,
}
use aioros.Resolve.Canonical.{join-join, join_one, split-slash_append, split-append_slash_end}

-- a name that is not empty resolves to a slash before a joined name
resolve_unchecked_rooted :
    (name node_name namespace : Str)
    → is_empty name ≡ false
    → (args : List Str) × (resolve_unchecked name node_name namespace ≡ str "/" ++ join args)
unfolding resolve_unchecked
resolve_unchecked_rooted name node_name namespace h =
    rw h (elim (Bool-cases (starts_with name (str "/"))) [
      | inl rooted ↦ (name ∷ [], rw rooted)
      | inr relative ↦ elim (Bool-cases (starts_with (join (name ∷ [])) (str "~"))) [
        | inl priv ↦ (namespace ∷ node_name ∷ drop 1 (join (name ∷ [])) ∷ [], rw (relative, priv))
        | inr plain ↦ (namespace ∷ join (name ∷ []) ∷ [], rw (relative, plain))
      ]
    ])

resolve_unchecked_of_rooted :
    (args : List Str) (node_name namespace : Str)
    → resolve_unchecked (str "/" ++ join args) node_name namespace ≡ str "/" ++ join args
unfolding resolve_unchecked starts_with
resolve_unchecked_of_rooted args node_name namespace =
    ap (λ s. b'/' ∷ s)
      (join_one (b'/' ∷ join args)
        ∙ rw (split-slash_append (join args)) (sym (join_one (join args)) ∙ join-join args))

after_check : (x : Result (Unit {0})) {u r : Str} → (x >>= λ _. ok u) ≡ ok r → (x ≡ ok tt) × (u ≡ r)
after_check (ok t) h = (refl, cc)
after_check (err e) h = cc

resolve_name_inv :
    (name node_name namespace : Str) {r : Str}
    → resolve_name name node_name namespace ≡ ok r
    → (check_parts (split (resolve_unchecked name node_name namespace)) ≡ ok tt)
      × (resolve_unchecked name node_name namespace ≡ r)
unfolding resolve_name
resolve_name_inv name node_name namespace h =
    after_check (check_parts (split (resolve_unchecked name node_name namespace))) h

resolve_name_of :
    (name node_name namespace r : Str)
    → resolve_unchecked name node_name namespace ≡ r
    → check_parts (split r) ≡ ok tt
    → resolve_name name node_name namespace ≡ ok r
unfolding resolve_name
resolve_name_of name node_name namespace r u c = rw (u, c)

-- If the function resolve_name gives a name for one that is not empty, and does not raise, it gives
-- an absolute name, which resolve_name maps to itself for every node name and namespace. The
-- remapping of a node's own method is not part of it.
pub resolve_name_idem :
    (name node_name namespace r : Str)
    → is_empty name ≡ false
    → resolve_name name node_name namespace ≡ ok r
    → (starts_with r (str "/") ≡ true)
      × ((node_name' namespace' : Str) → resolve_name r node_name' namespace' ≡ ok r)
resolve_name_idem name node_name namespace r h e =
    let (checked, same) = resolve_name_inv name node_name namespace e in
    let (args, rooted) = resolve_unchecked_rooted name node_name namespace h in
    let form : r ≡ str "/" ++ join args = sym same ∙ rooted in
    (
      rw form (unfold starts_with in refl),
      λ node_name' namespace'.
          resolve_name_of r node_name' namespace' r
            (rw form (resolve_unchecked_of_rooted args node_name' namespace')) (rw same at checked),
    )

ends_with-append : (s : Str) (c : ℕ) → ends_with (s ++ c ∷ []) c ≡ true
unfolding ends_with
ends_with-append [] c = ground arith
ends_with-append (b ∷ []) c = ground arith
ends_with-append (b ∷ a ∷ s) c = ends_with-append (a ∷ s) c

starts_with-append_right : (s t p : Str) → starts_with s p ≡ true → starts_with (s ++ t) p ≡ true
unfolding starts_with
starts_with-append_right s t [] h = refl
starts_with-append_right [] t (d ∷ p) h = cc
starts_with-append_right (c ∷ s) t (d ∷ p) h = ground (arith, starts_with-append_right s t p)

starts_with-add_root : (s : Str) → starts_with (add_root s) (str "/") ≡ true
unfolding starts_with
starts_with-add_root [] = refl
starts_with-add_root (c ∷ s) = ground arith

starts_with-add_end :
    (s : Str) → starts_with s (str "/") ≡ true → starts_with (add_end s) (str "/") ≡ true
starts_with-add_end s h = ground (arith, starts_with-append_right s (str "/") (str "/"))

ends_with-add_end : (s : Str) → ends_with (add_end s) b'/' ≡ true
ends_with-add_end s = ground (arith, ends_with-append s b'/')

split-add_root : (s : Str) → split (add_root s) ≡ split s
split-add_root s = ground (arith, split-slash_append s)

split-add_end : (s : Str) → split (add_end s) ≡ split s
split-add_end s = ground (arith, split-append_slash_end s)

not-private_of_rooted : (s : Str) → starts_with s (str "/") ≡ true → starts_with s (str "~") ≡ false
unfolding starts_with
not-private_of_rooted [] h = refl
not-private_of_rooted (c ∷ s) h = ground arith

normalize_namespace_fixed :
    (s : Str)
    → starts_with s (str "/") ≡ true
    → ends_with s b'/' ≡ true
    → normalize_namespace s ≡ ok s
unfolding normalize_namespace
normalize_namespace_fixed s h k = rw (not-private_of_rooted s h, h, k)

-- A namespace that does not begin with a tilde is normalised to one that begins and ends with a
-- slash, has the same parts, and is its own normal form; with a tilde, normalising is a ValueError.
pub normalize_namespace_lem :
    (namespace : Str)
    → ((starts_with namespace (str "~") ≡ true) × (normalize_namespace namespace ≡ err value_error))
      ⊎ ((starts_with namespace (str "~") ≡ false)
          × ((r : Str) × (normalize_namespace namespace ≡ ok r)
              × (starts_with r (str "/") ≡ true)
              × (ends_with r b'/' ≡ true)
              × (split r ≡ split namespace)
              × (normalize_namespace r ≡ ok r)))
unfolding normalize_namespace
normalize_namespace_lem s = elim (Bool-cases (starts_with s (str "~"))) [
  | inl priv ↦ inl (priv, rw priv)
  | inr global ↦
      let r = add_end (add_root s) in
      let begins = starts_with-add_end (add_root s) (starts_with-add_root s) in
      let ends = ends_with-add_end (add_root s) in
      inr (
        global,
        (
          r,
          rw global,
          begins,
          ends,
          split-add_end (add_root s) ∙ split-add_root s,
          normalize_namespace_fixed r begins ends,
        ),
      )
]
