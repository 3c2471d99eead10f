-- ===== src/Master/Registry/Reachable.antt =====
-- Registry of aioros/master/_registry.py over every sequence of requests: the handlers of
-- aioros/master/_api.py run one after another, since none of them awaits between its changes.
use aioros.Common.{refl, Str, Result, ok, err, ◌>>=◌}
use aioros.Dict.{get, remove}
use aioros.Master.Node.{is_registered}
use aioros.Master.Registry.{Registry, new_registry}
use aioros.Master.Registry.Topics.{
  register_service, unregister_service, register_subscriber, unregister_subscriber,
  register_publisher, unregister_publisher, discard_service,
}
use aioros.Master.Registry.Params.{
  param_path, watch, unwatch, discard_param, register_param_subscriber, unregister_param_subscriber,
  on_param_update,
}
use aioros.Value.{Value}
use aioros.Master.Registry.Consistency.Tell.{on_param_update-IsConsistent}
use aioros.Master.Registry.Consistency.{IsConsistent, GivesOwnApi}
use aioros.Master.Registry.Consistency.Register.{
  Grows, with_node-IsConsistent, register_publisher-IsConsistent, register_subscriber-IsConsistent,
  register_service-IsConsistent, watch-IsConsistent,
}
use aioros.Master.Registry.Consistency.Unregister.{
  check_node-IsConsistent, unregister_publisher-IsConsistent, unregister_subscriber-IsConsistent,
}

-- a method that raises has changed nothing
abbrev pub settle : Result Registry → Registry → Registry
settle (ok r') r = r'
settle (err e) r = r

-- One request. The caller that leaves a topic gives the api that it is known by, as the node of
-- this library does; all else is left to the caller. `tell_params` is what setParam and deleteParam
-- do to the registry.
pub data Request (r : Registry) : Registry → Type 0 where
  publish : (t ty c api : Str) → Request r (register_publisher t ty c api r)
  unpublish : (t c api : Str) → GivesOwnApi c api r → Request r (unregister_publisher t c api r)
  subscribe : (t ty c api : Str) → Request r (register_subscriber t ty c api r)
  unsubscribe : (t c api : Str) → GivesOwnApi c api r → Request r (unregister_subscriber t c api r)
  provide : (n c api service_api : Str) → Request r (register_service n c api service_api r)
  withdraw : (n c : Str) → Request r (unregister_service n c r)
  watch_param : (key c api : Str) → Request r (settle (register_param_subscriber key c api r) r)
  unwatch_param : (key c api : Str) → Request r (settle (unregister_param_subscriber key c api r) r)
  tell_params : (key : Str) (v : Value) (c : Str) → Request r (on_param_update key v c r).0

pub data Reachable : Registry → Type 0 where
  start : Reachable new_registry
  next : {r r' : Registry} → Reachable r → Request r r' → Reachable r'

discard_service-Grows : (n : Str) → Grows (discard_service n)
discard_service-Grows n = record {
  api = λ node. refl;
  publications = λ node j h. h;
  subscriptions = λ node j h. h;
}

discard_param-Grows : (n : Str) → Grows (discard_param n)
discard_param-Grows n = record {
  api = λ node. refl;
  publications = λ node j h. h;
  subscriptions = λ node j h. h;
}

unregister_service-IsConsistent :
    (n c : Str) (r : Registry) → IsConsistent r → IsConsistent (unregister_service n c r)
unfolding unregister_service
unregister_service-IsConsistent n c r h =
    let r1 : Registry = record r { services = remove r.services n } in
    check_node-IsConsistent c _ (
      with_node-IsConsistent c (discard_service n) r1 (discard_service-Grows n)
        (record { publishers = h.publishers; subscribers = h.subscribers }))

unwatch-IsConsistent :
    (key c api : Str) (r : Registry) → IsConsistent r → IsConsistent (unwatch key c api r)
unfolding unwatch
unwatch-IsConsistent key c api r h = check_node-IsConsistent c _ (
    with_node-IsConsistent c (discard_param key) _ (discard_param-Grows key)
      (record { publishers = h.publishers; subscribers = h.subscribers }))

settle-watch :
    (p : Result Str) (c api : Str) (r : Registry)
    → IsConsistent r
    → IsConsistent (settle (p >>= λ path. ok (watch path c api r)) r)
settle-watch (ok path) c api r h = watch-IsConsistent path c api r h
settle-watch (err e) c api r h = h

settle-unwatch :
    (p : Result Str) (c api : Str) (r : Registry)
    → IsConsistent r
    → IsConsistent (settle (p >>= λ path. ok (unwatch path c api r)) r)
settle-unwatch (ok path) c api r h = unwatch-IsConsistent path c api r h
settle-unwatch (err e) c api r h = h

Request-IsConsistent : {r r' : Registry} → Request r r' → IsConsistent r → IsConsistent r'
unfolding register_param_subscriber unregister_param_subscriber
Request-IsConsistent {r} (publish t ty c api) h = register_publisher-IsConsistent t ty c api r h
Request-IsConsistent {r} (unpublish t c api own) h =
    unregister_publisher-IsConsistent t c api r own h
Request-IsConsistent {r} (subscribe t ty c api) h = register_subscriber-IsConsistent t ty c api r h
Request-IsConsistent {r} (unsubscribe t c api own) h =
    unregister_subscriber-IsConsistent t c api r own h
Request-IsConsistent {r} (provide n c api sapi) h = register_service-IsConsistent n c api sapi r h
Request-IsConsistent {r} (withdraw n c) h = unregister_service-IsConsistent n c r h
Request-IsConsistent {r} (watch_param key c api) h = settle-watch (param_path key) c api r h
Request-IsConsistent {r} (unwatch_param key c api) h = settle-unwatch (param_path key) c api r h
Request-IsConsistent {r} (tell_params key v c) h = on_param_update-IsConsistent key v c r h

new_registry-IsConsistent : IsConsistent new_registry
unfolding get is_registered
new_registry-IsConsistent = record {
  publishers = λ t b p. absurd (cc p);
  subscribers = λ t b p. absurd (cc p);
}

-- After any requests in which a caller leaves a topic under its own api only, each registration of
-- a publisher or subscriber belongs to a node that is there, has its api and lists the topic.
pub Reachable-IsConsistent : {r : Registry} → Reachable r → IsConsistent r
Reachable-IsConsistent start = new_registry-IsConsistent
Reachable-IsConsistent (next s q) = Request-IsConsistent q (Reachable-IsConsistent s)
