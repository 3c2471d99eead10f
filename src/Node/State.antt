-- ===== src/Node/State.antt =====
-- A node: Node of aioros/_node/_node.py. The master is reached by `call`, whose state is
-- W; the time manager, the task group and the loop of `every` are left out.
pub mod Params
use aioros.Common.{
  ℕ, Bool, true, false, not, List, [], ◌∷◌, ◌++◌, map, filter_by, Option, none, some, Str, str,
  str_eq, is_empty, Exc, Result, ok, err, key_error, value_error, ◌>>=◌, if◌then◌else◌, ◌==◌,
}
use aioros.Dict
use aioros.Dict.{Dict, has, is_some}
use aioros.Value.{ℤ, pos, Value, Fields, struct, end}
use aioros.Resolve
use aioros.Node.ParamCache
use aioros.Node.ParamCache.{ParamCache, get_item, has_item, add, update, delete}
use aioros.Node.Client
use aioros.Node.Client.{NodeInfo, full_name}
use aioros.Node.Subscriber.{ConnectedPublisher, SubscriptionManager, new_manager, update_publishers}
use aioros.Node.Publisher.{
  ConnectedSubscriber, Publication, TopicType, Latch, unlatched, latched, new_publication,
}
use aioros.Node.Registry.{Registry}

pub record Node : Type 0 where
  pub info : NodeInfo
  pub registry : Registry
  pub param_cache : ParamCache
  pub remapping : Dict Str

-- self._remapping.get(resolved_name, resolved_name)
abbrev pub value_or : Str → Option Str → Str
value_or name none = name
value_or name (some remapped) = remapped

unfoldable pub resolve_name : Str → Node → Result Str
resolve_name key node = do
  resolved_name ← Resolve.resolve_name key node.info.name node.info.namespace
  ok (value_or resolved_name (Dict.get node.remapping resolved_name))

-- `isinstance(value, dict) and not value`
abbrev pub is_empty_dict : Value → Bool
is_empty_dict (struct end) = true
is_empty_dict _ = false

module _ {W : Type 0} (call : Str → List Value → W → W × Result Value) where
  abbrev pub Outcome : Type 0 → Type 0
  Outcome A = Node × W × Result A

  abbrev pub with_key : {A : Type 0} → Result Str → Node → W → (Str → Outcome A) → Outcome A
  with_key (err e) node w next = (node, w, err e)
  with_key (ok key) node w next = next key

  abbrev pub unchanged : {A : Type 0} → Node → W × Result A → Outcome A
  unchanged node (w, r) = (node, w, r)

  abbrev pub read : Str → Node → W → Outcome Value
  read key node w =
      if has_item node.param_cache key
      then (node, w, get_item node.param_cache key)
      else unchanged node (Client.get_param call node.info key w)

  unfoldable pub get_param : Str → Node → W → Outcome Value
  get_param key node w = with_key (resolve_name key node) node w λ k. read k node w

  -- what comes after the subscription: the value goes into the cache, also an empty dict
  abbrev pub cached : Str → Node → W × Result Value → Outcome Value
  cached key node (w, err e) = (node, w, err e)
  cached key node (w, ok value) = (
    record node { param_cache = add key value node.param_cache },
    w,
    if is_empty_dict value then err (key_error key) else ok value,
  )

  unfoldable pub get_param_cached : Str → Node → W → Outcome Value
  get_param_cached key node w = with_key (resolve_name key node) node w λ k.
      if has_item node.param_cache k
      then (node, w, get_item node.param_cache k)
      else cached k node (Client.subscribe_param call node.info k w)

  abbrev pub or_default : Value → Outcome Value → Outcome Value
  or_default default (node, w, err (key_error k)) = (node, w, ok default)
  or_default default (node, w, r) = (node, w, r)

  unfoldable pub get_param_default : Str → Value → Node → W → Outcome Value
  get_param_default key default node w = or_default default (get_param key node w)

  -- the change of the cache after a call of the master that did not raise
  abbrev pub changed :
      (ParamCache → ParamCache × Result (Unit {0}))
      → Node
      → W × Result (Unit {0})
      → Outcome (Unit {0})
  changed change node (w, err e) = (node, w, err e)
  changed change node (w, ok done) =
      let (params, r) = change node.param_cache in (record node { param_cache = params }, w, r)

  unfoldable pub set_param : Str → Value → Node → W → Outcome (Unit {0})
  set_param key value node w =
      with_key (resolve_name key node) node w
        λ k. changed (update k value) node (Client.set_param call node.info k value w)

  unfoldable pub delete_param : Str → Node → W → Outcome (Unit {0})
  delete_param key node w =
      with_key (resolve_name key node) node w
        λ k. changed (delete k) node (Client.delete_param call node.info k w)

  unfoldable pub has_param : Str → Node → W → Outcome Value
  has_param key node w =
      with_key (resolve_name key node) node w
        λ k. unchanged node (Client.has_param call node.info k w)

  unfoldable pub search_param : Str → Node → W → Outcome Value
  search_param key node w =
      with_key (resolve_name key node) node w
        λ k. unchanged node (Client.search_param call node.info k w)

  unfoldable pub get_param_names : Node → W → Outcome Value
  get_param_names node w = unchanged node (Client.get_param_names call node.info w)
