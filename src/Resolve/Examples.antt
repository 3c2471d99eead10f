-- ===== src/Resolve/Examples.antt =====
-- The names of a small graph, resolved: aioros/_utils/_resolve.py.
use aioros.Common.{
  ◌≡◌, refl, ◌⊎◌, true, false, Str, str, starts_with, ends_with, All, Result, ok, err, value_error,
}
use aioros.Resolve.{
  split_on, non_empty, join_parts, split, split_all, join, is_valid_name, word_end,
  normalize_namespace, resolve_unchecked, check_parts, resolve_name,
}
use aioros.Resolve.Names.{resolve_name_idem, normalize_namespace_lem}
use aioros.Resolve.Valid.{IsResourceName, resolve_name-IsResourceName}

abbrev private_name : Result Str
private_name = resolve_name (str "~scan") (str "lidar") (str "/robot/")

resolve_private : private_name ≡ ok (str "/robot/lidar/scan")
unfolding resolve_name check_parts resolve_unchecked join join_parts split split_all split_on
    non_empty is_valid_name word_end starts_with
resolve_private = refl

resolve_refused : resolve_name (str "a b") (str "lidar") (str "/") ≡ err value_error
unfolding resolve_name check_parts resolve_unchecked join join_parts split split_all split_on
    non_empty is_valid_name word_end starts_with
resolve_refused = refl

resolve_name_idem_example :
    (starts_with (str "/robot/lidar/scan") (str "/") ≡ true)
    × ((node_name' namespace' : Str)
        → resolve_name (str "/robot/lidar/scan") node_name' namespace'
          ≡ ok (str "/robot/lidar/scan"))
resolve_name_idem_example =
    resolve_name_idem (str "~scan") (str "lidar") (str "/robot/") (str "/robot/lidar/scan") refl
      resolve_private

resolve_name-IsResourceName_example :
    let resolved = resolve_unchecked (str "~scan") (str "lidar") (str "/robot/") in
    ((resolve_name (str "~scan") (str "lidar") (str "/robot/") ≡ ok resolved)
      × All IsResourceName (split resolved))
    ⊎ ((resolve_name (str "~scan") (str "lidar") (str "/robot/") ≡ err value_error)
        × ¬ All IsResourceName (split resolved))
resolve_name-IsResourceName_example =
    resolve_name-IsResourceName (str "~scan") (str "lidar") (str "/robot/")

normalize_namespace_lem_example :
    ((starts_with (str "robot/arm") (str "~") ≡ true)
      × (normalize_namespace (str "robot/arm") ≡ err value_error))
    ⊎ ((starts_with (str "robot/arm") (str "~") ≡ false)
        × ((r : Str) × (normalize_namespace (str "robot/arm") ≡ ok r)
            × (starts_with r (str "/") ≡ true)
            × (ends_with r b'/' ≡ true)
            × (split r ≡ split (str "robot/arm"))
            × (normalize_namespace r ≡ ok r)))
normalize_namespace_lem_example = normalize_namespace_lem (str "robot/arm")
