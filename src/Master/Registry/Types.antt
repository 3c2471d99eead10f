-- ===== src/Master/Registry/Types.antt =====
-- The types of the topics in Registry, aioros/master/_registry.py.
use aioros.Common.{
  ◌≡◌, refl, ◌∙◌, none, some, Option, Str, str, str_eq, str_eq_iff, arith, Bool-cases, Option-cases,
  inl, inr, if◌then◌else◌,
}
use aioros.Dict.{get, has, get-put}
use aioros.Master.Node.{send, shutdown}
use aioros.Master.Registry.{
  Registry, with_node, unregister_all, drop_services, register_node, replacement_msg,
  register_topic,
}
use aioros.Master.Registry.Topics.{
  registration, join_topic, add_publication, add_subscription, register_publisher,
  register_subscriber,
}
use aioros.Master.Registry.Updates.{with_node-SameTables, update_subscribers-SameTables}
use aioros.Master.Registry.Dropping.{drop_publications-Same}

topic_types-unregister_all :
    (c : Str) (r : Registry) → (unregister_all c r).topic_types ≡ r.topic_types
unfolding unregister_all
topic_types-unregister_all c r =
    (drop_publications-Same c r.publications
      (record r { services = drop_services c r.services })).topic_types

topic_types-register_node :
    (c api : Str) (r : Registry) → (register_node c api r).topic_types ≡ r.topic_types
unfolding register_node
topic_types-register_node c api r = elim (Option-cases (get r.nodes c)) [
  | inl e ↦ rw (e, register_node) refl
  | inr (node, e) ↦
      rw (e, register_node)
        (elim (Bool-cases (str_eq node.api api)) [
          | inl same ↦ rw same refl
          | inr other ↦ rw other (
              topic_types-unregister_all c (with_node c (send (shutdown replacement_msg)) r)
              ∙ (with_node-SameTables c (send (shutdown replacement_msg)) r).topic_types)
        ])
]

-- the type that a topic has once it is registered with one
abbrev pub first_type : Str → Option Str → Option Str
first_type topic_type (some old) = some old
first_type topic_type none = if str_eq topic_type (str "*") then none else some topic_type

topic_types-register_topic :
    (t ty : Str) (r : Registry) (j : Str)
    → get (register_topic t ty r).topic_types j
      ≡ (if str_eq t j then first_type ty (get r.topic_types j) else get r.topic_types j)
unfolding register_topic has
topic_types-register_topic t ty r j = ground (arith, get-put r.topic_types t j ty, str_eq_iff t j)

-- Registering a publisher gives the topic the type of the call, unless it has a type already or the
-- type is "*"; it leaves the types of the other topics.
pub topic_types-register_publisher :
    (t ty c api : Str) (r : Registry) (j : Str)
    → get (register_publisher t ty c api r).topic_types j
      ≡ (if str_eq t j then first_type ty (get r.topic_types j) else get r.topic_types j)
unfolding register_publisher
topic_types-register_publisher t ty c api r j =
    let r0 = register_topic t ty r in
    let r1 = with_node c (add_publication t) (register_node c api r0) in
    let r2 : Registry = record r1 {
      publications = join_topic t (registration c api) r1.publications;
    } in
    rw
      (
        (update_subscribers-SameTables t r2).topic_types,
        (with_node-SameTables c (add_publication t) (register_node c api r0)).topic_types,
        topic_types-register_node c api r0,
      )
      (topic_types-register_topic t ty r j)

-- Registering a subscriber gives the topic the type of the call, unless it has a type already or
-- the type is "*"; it leaves the types of the other topics.
pub topic_types-register_subscriber :
    (t ty c api : Str) (r : Registry) (j : Str)
    → get (register_subscriber t ty c api r).topic_types j
      ≡ (if str_eq t j then first_type ty (get r.topic_types j) else get r.topic_types j)
unfolding register_subscriber
topic_types-register_subscriber t ty c api r j =
    let r0 = register_topic t ty r in
    rw
      (
        (with_node-SameTables c (add_subscription t) (register_node c api r0)).topic_types,
        topic_types-register_node c api r0,
      )
      (topic_types-register_topic t ty r j)
