-- ===== src/Master/Registry/Topics.antt =====
-- The services and topics of Registry, aioros/master/_registry.py: registering and unregistering.
use aioros.Common.{List, none, some, Str, is_empty, if◌then◌else◌}
use aioros.Dict.{Dict, get, put, remove}
use aioros.Master.Node.{Registration, Node, add, discard, add_registration, discard_registration}
use aioros.Master.Registry.{
  Registry, members_of, with_node, update_subscribers, register_node, register_topic, check_topic,
  check_node,
}

abbrev pub registration : Str → Str → Registration
registration caller_id api = record { caller_id = caller_id; api = api }

-- d[topic].add(reg), where the dict makes a missing set
unfoldable pub join_topic : Str → Registration → Dict (List Registration) → Dict (List Registration)
join_topic topic reg d = put d topic (add_registration reg (members_of d topic))

-- if topic in d: d[topic].discard(reg), and a set that is now empty is deleted
unfoldable pub leave_topic :
    Str → Registration → Dict (List Registration) → Dict (List Registration)
leave_topic topic reg d = elim (get d topic) [
  | none ↦ d
  | some regs ↦
      let left = discard_registration reg regs in
      if is_empty left then remove d topic else put d topic left
]

abbrev pub add_service : Str → Node → Node
add_service name node = record node { services = add name node.services }

abbrev pub discard_service : Str → Node → Node
discard_service name node = record node { services = discard name node.services }

abbrev pub add_subscription : Str → Node → Node
add_subscription topic node = record node { subscriptions = add topic node.subscriptions }

abbrev pub discard_subscription : Str → Node → Node
discard_subscription topic node = record node { subscriptions = discard topic node.subscriptions }

abbrev pub add_publication : Str → Node → Node
add_publication topic node = record node { publications = add topic node.publications }

abbrev pub discard_publication : Str → Node → Node
discard_publication topic node = record node { publications = discard topic node.publications }

unfoldable pub register_service : Str → Str → Str → Str → Registry → Registry
register_service name caller_id caller_api service_api r =
    let r' = with_node caller_id (add_service name) (register_node caller_id caller_api r) in
    record r' { services = put r'.services name (registration caller_id service_api) }

unfoldable pub unregister_service : Str → Str → Registry → Registry
unregister_service service caller_id r = check_node caller_id (
    with_node caller_id (discard_service service)
      (record r { services = remove r.services service }))

unfoldable pub register_subscriber : Str → Str → Str → Str → Registry → Registry
unfolding join_topic
register_subscriber topic topic_type caller_id caller_api r =
    let r' =
      with_node caller_id (add_subscription topic)
        (register_node caller_id caller_api (register_topic topic topic_type r)) in
    record r' {
      subscriptions = join_topic topic (registration caller_id caller_api) r'.subscriptions;
    }

unfoldable pub unregister_subscriber : Str → Str → Str → Registry → Registry
unfolding leave_topic
unregister_subscriber topic caller_id caller_api r = check_topic topic (
    check_node caller_id (
      with_node caller_id (discard_subscription topic) (record r {
        subscriptions = leave_topic topic (registration caller_id caller_api) r.subscriptions;
      })))

unfoldable pub register_publisher : Str → Str → Str → Str → Registry → Registry
unfolding join_topic
register_publisher topic topic_type caller_id caller_api r =
    let r' =
      with_node caller_id (add_publication topic)
        (register_node caller_id caller_api (register_topic topic topic_type r)) in
    update_subscribers topic (record r' {
      publications = join_topic topic (registration caller_id caller_api) r'.publications;
    })

unfoldable pub unregister_publisher : Str → Str → Str → Registry → Registry
unfolding leave_topic
unregister_publisher topic caller_id caller_api r = update_subscribers topic (
    check_topic topic (
      check_node caller_id (
        with_node caller_id (discard_publication topic) (record r {
          publications = leave_topic topic (registration caller_id caller_api) r.publications;
        }))))
