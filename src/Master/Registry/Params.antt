-- ===== src/Master/Registry/Params.antt =====
-- The parameter subscriptions of Registry, aioros/master/_registry.py, and on_param_update.
use aioros.Common.{
  not, ◌&&◌, List, [], ◌∷◌, ◌++◌, Option, none, some, Str, str, str_eq, is_empty, starts_with,
  contains, length, drop, drop_last, Result, ok, err, key_error, type_error, ◌>>=◌, if◌then◌else◌,
}
use aioros.Dict.{Dict, get}
use aioros.Value.{Value, struct, Fields, end, field, as_dict}
use aioros.Value
use aioros.Resolve.{split, join, normalize_namespace}
use aioros.Master.Node.{Registration, Node, add, discard, param_update, send}
use aioros.Master.Registry.{Registry, with_node, register_node, check_node}
use aioros.Master.Registry.Topics.{registration, join_topic, leave_topic}

abbrev pub add_param : Str → Node → Node
add_param key node = record node { param_subscriptions = add key node.param_subscriptions }

abbrev pub discard_param : Str → Node → Node
discard_param key node = record node { param_subscriptions = discard key node.param_subscriptions }

-- normalize_namespace(join(key))
unfoldable pub param_path : Str → Result Str
param_path key = normalize_namespace (join (key ∷ []))

-- the rest of `register_param_subscriber`, for the normalised key
unfoldable pub watch : Str → Str → Str → Registry → Registry
watch key caller_id caller_api r =
    let r' = with_node caller_id (add_param key) (register_node caller_id caller_api r) in
    record r' {
      param_subscribers = join_topic key (registration caller_id caller_api) r'.param_subscribers;
    }

unfoldable pub register_param_subscriber : Str → Str → Str → Registry → Result Registry
register_param_subscriber key caller_id caller_api r = do
  path ← param_path key
  ok (watch path caller_id caller_api r)

-- the rest of `unregister_param_subscriber`
unfoldable pub unwatch : Str → Str → Str → Registry → Registry
unwatch key caller_id caller_api r = check_node caller_id (
    with_node caller_id (discard_param key) (record r {
      param_subscribers = leave_topic key (registration caller_id caller_api) r.param_subscribers;
    }))

unfoldable pub unregister_param_subscriber : Str → Str → Str → Registry → Result Registry
unregister_param_subscriber key caller_id caller_api r = do
  path ← param_path key
  ok (unwatch path caller_id caller_api r)

-- compute_all_keys(key, value)
unfoldable mutual
  pub compute_all_keys : Str → Fields → List Str
  compute_all_keys key end = []
  compute_all_keys key (field k v d) =
      (key ++ k ++ str "/") ∷ keys_inside (key ++ k ++ str "/") v ++ compute_all_keys key d

  pub keys_inside : Str → Value → List Str
  keys_inside key (struct d) = compute_all_keys key d
  keys_inside key _ = []

-- set(keys)
unfoldable pub set_of : List Str → List Str
set_of [] = []
set_of (k ∷ ks) = let rest = set_of ks in if contains rest k then rest else k ∷ rest

-- key[:-1]
abbrev pub chop : Str → Str
chop [] = []
chop (c ∷ s) = drop_last c s

-- What was done before a KeyError stays done: the new state comes beside the outcome.
abbrev pub Step : Type 0
Step = Registry → Registry × Result (Unit {0})

abbrev pub after : Registry × Result (Unit {0}) → Step → Registry × Result (Unit {0})
after (r, ok _) next = next r
after (r, err e) next = (r, err e)

-- node = self.nodes[caller_id]; node.param_update(key, value)
unfoldable pub tell : Str → Str → Value → Step
tell caller_id key value r = elim (get r.nodes caller_id) [
  | none ↦ (r, err (key_error caller_id))
  | some node ↦ (with_node caller_id (send (param_update key value)) r, ok tt)
]

-- the loop over the subscribers of a key, without those of `ignored`
unfoldable pub tell_others : Str → Str → Value → List Registration → Step
unfolding tell
tell_others ignored key value [] r = (r, ok tt)
tell_others ignored key value (reg ∷ regs) r =
    let skip = tell_others ignored key value regs r in
    if str_eq reg.caller_id ignored
    then skip
    else after (tell reg.caller_id key value r) (tell_others ignored key value regs)

-- the same with nobody ignored
unfoldable pub tell_all : Str → Value → List Registration → Step
unfolding tell
tell_all key value [] r = (r, ok tt)
tell_all key value (reg ∷ regs) r = after (tell reg.caller_id key value r) (tell_all key value regs)

-- what the subscribers of `key` are told, if anything
abbrev pub news : Str → Value → Option (List Str) → Str → Option (Str × Value)
news param_key param_value none key =
    if starts_with param_key key then some (chop param_key, param_value) else none
news param_key param_value (some all_keys) key =
    if starts_with param_key key
    then some (chop param_key, param_value)
    else if starts_with key param_key && not (contains all_keys key)
    then some (chop key, struct end)
    else none

abbrev pub tell_news : Str → Option (Str × Value) → List Registration → Step
tell_news ignored none regs r = (r, ok tt)
tell_news ignored (some (key, value)) regs r = tell_others ignored key value regs r

-- the first loop of on_param_update
unfoldable pub tell_watchers :
    Str → Value → Option (List Str) → Str → Dict (List Registration) → Step
unfolding tell_others
tell_watchers param_key param_value all_keys ignored [] r = (r, ok tt)
tell_watchers param_key param_value all_keys ignored ((key, regs) ∷ d) r =
    after (tell_news ignored (news param_key param_value all_keys key) regs r)
      (tell_watchers param_key param_value all_keys ignored d)

-- for ns in names: param_dict = param_dict[ns]
unfoldable pub descend : List Str → Value → Result Value
descend [] v = ok v
descend (name ∷ names) (struct d) = elim (Value.get d name) [
  | none ↦ err (key_error name)
  | some v ↦ descend names v
]
descend (name ∷ names) _ = err type_error

abbrev pub tell_found : Str → Result Value → List Registration → Step
tell_found key (ok v) regs r = tell_all key v regs r
tell_found key (err e) regs r = (r, err e)

abbrev pub tell_inside : Str → Value → Str → Option (List Registration) → Step
tell_inside param_key param_value key none r = (r, ok tt)
tell_inside param_key param_value key (some regs) r =
    tell_found (chop key) (descend (split (drop (length param_key) key)) param_value) regs r

-- the second loop of on_param_update
unfoldable pub tell_nested : Str → Value → List Str → Step
unfolding tell_all descend
tell_nested param_key param_value [] r = (r, ok tt)
tell_nested param_key param_value (key ∷ all_keys) r =
    after (tell_inside param_key param_value key (get r.param_subscribers key) r)
      (tell_nested param_key param_value all_keys)

-- the keys of a dict that is assigned, `None` for any other value
abbrev pub keys_of : Str → Value → Option (List Str)
keys_of param_key (struct d) = some (set_of (compute_all_keys param_key d))
keys_of param_key _ = none

abbrev pub tell_rest : Str → Value → Option (List Str) → Step
tell_rest param_key param_value none r = (r, ok tt)
tell_rest param_key param_value (some all_keys) r = tell_nested param_key param_value all_keys r

abbrev pub update_path : Result Str → Value → Str → Step
update_path (err e) param_value ignored r = (r, err e)
update_path (ok param_key) param_value ignored r =
    let all_keys = keys_of param_key param_value in
    after (tell_watchers param_key param_value all_keys ignored r.param_subscribers r)
      (tell_rest param_key param_value all_keys)

unfoldable pub on_param_update : Str → Value → Str → Step
unfolding tell_watchers tell_nested compute_all_keys set_of
on_param_update param_key param_value caller_id_to_ignore r =
    if is_empty r.param_subscribers
    then (r, ok tt)
    else update_path (param_path param_key) param_value caller_id_to_ignore r
