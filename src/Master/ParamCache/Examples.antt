-- ===== src/Master/ParamCache/Examples.antt =====
-- A small parameter tree: aioros/master/_param_cache.py.
use mathlib.Core.List.{Perm}
use aioros.Common.{
  ◌≡◌, refl, ◌⊎◌, true, false, List, [], ◌++◌, Option, some, Str, str, str_eq, starts_with, length,
  ok, err, key_error,
}
use aioros.Value.{pos, int, struct, end, field, get, put, remove, items}
use aioros.Resolve.{split_on, non_empty, join_parts, split}
use aioros.Master.ParamCache.{
  ParamCache, get_parts, get_item, has_item, set_parts, set_item, remove_parts, delete_item,
}
use aioros.Master.ParamCache.Paths.{found, relate, AfterSet, set_item-AfterSet}
use aioros.Master.ParamCache.Deletion.{AfterDelete, delete_item-AfterDelete}
use aioros.Master.ParamCache.Listing.{keys}
use aioros.Master.ParamCache.Leaves.{leaves, keys-leaves}
use aioros.Master.ParamCache.Search.{search, search_up, Found, search-Found}

abbrev tree : ParamCache
tree = field (str "robot") (struct (field (str "rate") (int (pos 5)) end)) end

abbrev tree_with_arm : ParamCache
tree_with_arm =
    field (str "robot")
      (struct (
        field (str "rate") (int (pos 5))
          (field (str "arm") (struct (field (str "len") (int (pos 2)) end)) end)))
      end

set_arm : set_item tree (str "/robot/arm/len") (int (pos 2)) ≡ ok tree_with_arm
unfolding set_item set_parts split split_on non_empty get put str_eq
set_arm = refl

delete_arm : delete_item tree_with_arm (str "/robot/arm") ≡ ok tree
unfolding delete_item remove_parts get_item get_parts join_parts split split_on non_empty get put
    remove str_eq
delete_arm = refl

delete_missing : delete_item tree (str "/robot/arm") ≡ err (key_error (str "arm"))
unfolding delete_item remove_parts get_item get_parts join_parts split split_on non_empty get put
    remove str_eq
delete_missing = refl

set_item-AfterSet_example :
    AfterSet
      (relate (split (str "/robot/arm/len")) (split (str "/robot/rate")))
      (int (pos 2))
      (found (get_item tree (str "/robot/rate")))
      (found (get_item tree_with_arm (str "/robot/rate")))
set_item-AfterSet_example =
    set_item-AfterSet tree tree_with_arm (str "/robot/arm/len") (int (pos 2)) (str "/robot/rate")
      set_arm

delete_item-AfterDelete_example :
    AfterDelete
      (relate (split (str "/robot/arm")) (split (str "/robot/arm/len")))
      (found (get_item tree_with_arm (str "/robot/arm/len")))
      (found (get_item tree (str "/robot/arm/len")))
delete_item-AfterDelete_example =
    delete_item-AfterDelete tree_with_arm tree (str "/robot/arm") (str "/robot/arm/len") delete_arm

keys-leaves_example :
    (r : List Str) × (keys tree_with_arm ≡ some r) × Perm r (leaves (items tree_with_arm))
keys-leaves_example = keys-leaves tree_with_arm

search-Found_example :
    let here = has_item tree (str "/robot/arm" ++ str "/" ++ str "rate") in
    (o : Option Str) × (search tree (str "rate") (str "/robot/arm") ≡ ok o)
    × (((here ≡ true) × (o ≡ some (str "/robot/arm" ++ str "/" ++ str "rate")))
        ⊎ ((here ≡ false)
            × Found tree
                (split (str "/robot/arm"))
                (str "rate")
                (str "rate")
                (length (split (str "/robot/arm")))
                o))
unfolding split split_on non_empty starts_with
search-Found_example = search-Found tree (str "rate") (str "/robot/arm") (str "rate") [] refl refl

search_nearest : search tree (str "rate") (str "/robot/arm") ≡ ok (some (str "/robot/rate"))
unfolding search search_up has_item get_item get_parts join_parts split split_on non_empty get
    str_eq starts_with
search_nearest = refl
