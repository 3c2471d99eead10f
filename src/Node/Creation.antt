-- ===== src/Node/Creation.antt =====
-- The servers, clients, subscriptions and publications that a node makes: create_server,
-- create_client, create_subscription and create_publication of aioros/_node/_node.py.
pub mod Reuse
use aioros.Common.{
  ℕ, Bool, true, false, not, List, [], ◌∷◌, ◌++◌, map, filter_by, Option, none, some, Str, str,
  str_eq, is_empty, Exc, Result, ok, err, key_error, value_error, ◌>>=◌, if◌then◌else◌, ◌==◌,
}
use aioros.Dict
use aioros.Dict.{Dict, has, is_some}
use aioros.Value.{ℤ, pos, Value, Fields, struct, end}
use aioros.Resolve
use aioros.Node.ParamCache
use aioros.Node.ParamCache.{ParamCache, get_item, has_item, add, update, delete}
use aioros.Node.Client
use aioros.Node.Client.{NodeInfo, full_name}
use aioros.Node.Subscriber.{ConnectedPublisher, SubscriptionManager, new_manager, update_publishers}
use aioros.Node.Publisher.{
  ConnectedSubscriber, Publication, TopicType, Latch, unlatched, latched, new_publication,
}
use aioros.Node.Registry.{Registry, ServiceServer, TopicSubscription}
use aioros.Node.State.{Node, resolve_name}

-- a client that was made
pub record ServiceClient : Type 0 where
  pub name : Str
  pub persistent : Bool

abbrev pub with_registry : Registry → Node → Node
with_registry registry node = record node { registry = registry }

abbrev pub add_server : Str → TopicType → Node → Node × Result ServiceServer
add_server name service_type node =
    if has node.registry.services name
    then (node, err value_error)
    else let server : ServiceServer = record { service_name = name; service_type = service_type } in
      let registry = record node.registry {
        services = Dict.put node.registry.services name server;
      } in
      (with_registry registry node, ok server)

unfoldable pub create_server : Str → TopicType → Node → Node × Result ServiceServer
create_server service_name service_type node = elim (resolve_name service_name node) [
  | err e ↦ (node, err e)
  | ok name ↦ add_server name service_type node
]

unfoldable pub create_client : Str → Bool → Node → Result ServiceClient
create_client service_name persistent node = do
  name ← resolve_name service_name node
  ok record { name = name; persistent = persistent }

abbrev pub new_subscription : Str → TopicType → TopicSubscription
new_subscription name topic_type = record {
  topic_name = name;
  topic_type = topic_type;
  manager = new_manager;
}

-- The subscription is one of the manager that the topic has, also where its type is another one.
abbrev pub subscribe :
    Str → TopicType → Option TopicSubscription → Node → Node × Result TopicSubscription
subscribe name topic_type (some s) node = (node, ok s)
subscribe name topic_type none node =
    let s = new_subscription name topic_type in
    let registry = record node.registry {
      subscriptions = Dict.put node.registry.subscriptions name s;
    } in
    (with_registry registry node, ok s)

unfoldable pub create_subscription : Str → TopicType → Node → Node × Result TopicSubscription
create_subscription topic_name topic_type node = elim (resolve_name topic_name node) [
  | err e ↦ (node, err e)
  | ok name ↦ subscribe name topic_type (Dict.get node.registry.subscriptions name) node
]

-- type(publication) is cls
abbrev pub is_latched : Latch → Bool
is_latched unlatched = false
is_latched (latched held) = true

abbrev pub same_class : Bool → Bool → Bool
same_class true b = b
same_class false b = not b

abbrev pub publication_of : Bool → Publication → Result Publication
publication_of latch p = if same_class latch (is_latched p.latch) then ok p else err value_error

abbrev pub publish_on :
    Str → TopicType → Bool → Option Publication → Node → Node × Result Publication
publish_on name topic_type latch (some p) node = (node, publication_of latch p)
publish_on name topic_type latch none node =
    let p =
      new_publication name topic_type (full_name node.info)
        (if latch then latched none else unlatched) in
    let registry = record node.registry {
      publications = Dict.put node.registry.publications name p;
    } in
    (with_registry registry node, publication_of latch p)

unfoldable pub create_publication : Str → TopicType → Bool → Node → Node × Result Publication
create_publication topic_name topic_type latch node = elim (resolve_name topic_name node) [
  | err e ↦ (node, err e)
  | ok name ↦ publish_on name topic_type latch (Dict.get node.registry.publications name) node
]
