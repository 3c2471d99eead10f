-- ===== src/Master/Api/Graph.antt =====
-- The methods of MasterApiHandle, aioros/master/_api.py, about nodes, services and topics, and the
-- two about parameter subscriptions.
use aioros.Common.{
  ℕ, List, [], ◌∷◌, ◌++◌, map, Option, none, some, Str, str, starts_with, is_empty, key_error,
  Result, ok, err, if◌then◌else◌, ◌>>=◌,
}
use aioros.Dict.{Dict, get}
use aioros.Value.{Value, struct, end}
use aioros.Master.ParamCache.{get_item}
use aioros.Master.Node.{Registration, Node}
use aioros.Master.Registry.{Registry, members_of, apis}
use aioros.Master.Registry.Topics.{
  register_service, unregister_service, register_subscriber, unregister_subscriber,
  register_publisher, unregister_publisher,
}
use aioros.Master.Registry.Params.{register_param_subscriber, unregister_param_subscriber}
use aioros.Master.Api.{Master, Reply, Outcome, success, failure, answer, with_registry}

abbrev pub node_reply : Str → Option Node → Reply Str
node_reply node_name none = failure [] (str "unknown node " ++ node_name)
node_reply node_name (some node) = success node.api

unfoldable pub lookup_node : Str → Master → Outcome Str
lookup_node node_name m = answer m (node_reply node_name (get m.registry.nodes node_name))

abbrev pub service_reply : Str → Option Registration → Reply Str
service_reply service none = failure [] (str "unknown service " ++ service)
service_reply service (some reg) = success reg.api

unfoldable pub lookup_service : Str → Master → Outcome Str
lookup_service service m = answer m (service_reply service (get m.registry.services service))

-- registerService(caller_id, service, service_api, caller_api)
unfoldable pub api_register_service : Str → Str → Str → Str → Master → Outcome ℕ
api_register_service caller_id service service_api caller_api m =
    answer (with_registry (register_service service caller_id caller_api service_api m.registry) m)
      (success 1)

-- unregisterService(caller_id, service, service_api): the last argument is not used
unfoldable pub api_unregister_service : Str → Str → Str → Master → Outcome ℕ
api_unregister_service caller_id service service_api m =
    answer (with_registry (unregister_service service caller_id m.registry) m) (success 1)

unfoldable pub api_register_subscriber : Str → Str → Str → Str → Master → Outcome (List Str)
api_register_subscriber caller_id topic topic_type caller_api m =
    let registry = register_subscriber topic topic_type caller_id caller_api m.registry in
    answer (with_registry registry m) (success (apis (members_of registry.publications topic)))

unfoldable pub api_unregister_subscriber : Str → Str → Str → Master → Outcome ℕ
api_unregister_subscriber caller_id topic caller_api m =
    answer (with_registry (unregister_subscriber topic caller_id caller_api m.registry) m)
      (success 1)

unfoldable pub api_register_publisher : Str → Str → Str → Str → Master → Outcome (List Str)
api_register_publisher caller_id topic topic_type caller_api m =
    let registry = register_publisher topic topic_type caller_id caller_api m.registry in
    answer (with_registry registry m) (success (apis (members_of registry.subscriptions topic)))

unfoldable pub api_unregister_publisher : Str → Str → Str → Master → Outcome ℕ
api_unregister_publisher caller_id topic caller_api m =
    answer (with_registry (unregister_publisher topic caller_id caller_api m.registry) m)
      (success 1)

-- topic_types[topic]
abbrev pub typed : Str → Option Str → Result (Str × Str)
typed topic none = err (key_error topic)
typed topic (some topic_type) = ok (topic, topic_type)

-- the list that getPublishedTopics makes
unfoldable pub published_topics :
    Str → Dict Str → Dict (List Registration) → Result (List (Str × Str))
published_topics subgraph types [] = ok []
published_topics subgraph types ((topic, regs) ∷ d) =
    let rest = published_topics subgraph types d in
    if starts_with topic subgraph
    then (do pair ← typed topic (get types topic); pairs ← rest; ok (pair ∷ pairs))
    else rest

abbrev pub success_of {ℓ} : {A : Type ℓ} → Result A → Result (Reply A)
success_of (ok a) = ok (success a)
success_of (err e) = err e

unfoldable pub get_published_topics : Str → Master → Outcome (List (Str × Str))
get_published_topics subgraph m =
    (m, success_of (published_topics subgraph m.registry.topic_types m.registry.publications))

-- the value of the parameter, or an empty dict where there is none
abbrev pub value_or_empty : Result Value → Result Value
value_or_empty (ok v) = ok v
value_or_empty (err (key_error _)) = ok (struct end)
value_or_empty (err e) = err e

abbrev pub subscribed : Result Registry → Value → Master → Outcome Value
subscribed (err e) value m = (m, err e)
subscribed (ok registry) value m = answer (with_registry registry m) (success value)

abbrev pub subscribe_with : Str → Str → Str → Result Value → Master → Outcome Value
subscribe_with caller_id caller_api key (err e) m = (m, err e)
subscribe_with caller_id caller_api key (ok value) m =
    subscribed (register_param_subscriber key caller_id caller_api m.registry) value m

unfoldable pub subscribe_param : Str → Str → Str → Master → Outcome Value
subscribe_param caller_id caller_api key m =
    subscribe_with caller_id caller_api key (value_or_empty (get_item m.param_cache key)) m

abbrev pub unsubscribed : Result Registry → Master → Outcome ℕ
unsubscribed (err e) m = (m, err e)
unsubscribed (ok registry) m = answer (with_registry registry m) (success 1)

unfoldable pub unsubscribe_param : Str → Str → Str → Master → Outcome ℕ
unsubscribe_param caller_id caller_api key m =
    unsubscribed (unregister_param_subscriber key caller_id caller_api m.registry) m

unfoldable pub get_topic_types : Master → Outcome (List (Str × Str))
get_topic_types m = answer m (success m.registry.topic_types)

-- the topics that have members, each with the ids of these
unfoldable pub members_listed : Dict (List Registration) → List (Str × List Str)
members_listed [] = []
members_listed ((topic, regs) ∷ d) =
    let rest = members_listed d in
    if is_empty regs then rest else (topic, map (λ reg. reg.caller_id) regs) ∷ rest

unfoldable pub services_listed : Dict Registration → List (Str × List Str)
services_listed [] = []
services_listed ((name, reg) ∷ d) = (name, reg.caller_id ∷ []) ∷ services_listed d

abbrev pub SystemState : Type 0
SystemState = List (Str × List Str) × List (Str × List Str) × List (Str × List Str)

unfoldable pub get_system_state : Master → Outcome SystemState
unfolding members_listed services_listed
get_system_state m = answer m (
    success (
      members_listed m.registry.publications,
      members_listed m.registry.subscriptions,
      services_listed m.registry.services,
    ))
