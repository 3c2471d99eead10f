-- ===== src/Master/Registry/Consistency/Register.antt =====
-- The invariant of Consistency over the registering operations of Registry,
-- aioros/master/_registry.py.
use aioros.Common.{
  ◌≡◌, ◌⊎◌, refl, Bool, true, not, ◌&&◌, ◌||◌, List, Str, str, str_eq, str_eq_iff, str_eq_refl,
  contains, Bool-cases, inl, inr, arith,
}
use aioros.Dict.{has, get}
use aioros.Master.Node.{Registration, Node, add, same_registration}
use aioros.Master.Node.Sets.{contains-add, same_registration_iff}
use aioros.Master.Registry.{Registry, with_node, update_subscribers, register_topic, register_node}
use aioros.Master.Registry.Topics.{
  registration, join_topic, add_service, add_subscription, add_publication, register_service,
  register_subscriber, register_publisher,
}
use aioros.Master.Registry.Params.{add_param, watch}
use aioros.Master.Registry.Updates.{with_node-SameTables, update_subscribers-SameTables}
use aioros.Master.Registry.Members.{registered, registered-join_topic}
use aioros.Master.Registry.Backing.{
  Holds, Holds-with_node, Holds-with_node_self, Holds-update_subscribers,
}
use aioros.Master.Registry.Consistency.{Publishes, Subscribes, IsConsistent}
use aioros.Master.Registry.Consistency.Steps.{register_node-IsConsistent, register_node-HasApi}

-- a change of nodes that keeps the api and loses no topic
pub record Grows (f : Node → Node) : Type 0 where
  pub api : (node : Node) → (f node).api ≡ node.api
  pub publications :
      (node : Node) (t : Str)
      → contains node.publications t ≡ true
      → contains (f node).publications t ≡ true
  pub subscriptions :
      (node : Node) (t : Str)
      → contains node.subscriptions t ≡ true
      → contains (f node).subscriptions t ≡ true

contains-add_old : (n t : Str) (s : List Str) → contains s t ≡ true → contains (add n s) t ≡ true
contains-add_old n t s h = rw (contains-add n t s, h) refl

add_publication-Grows : (t : Str) → Grows (add_publication t)
add_publication-Grows t = record {
  api = λ node. refl;
  publications = λ node j h. contains-add_old t j node.publications h;
  subscriptions = λ node j h. h;
}

add_subscription-Grows : (t : Str) → Grows (add_subscription t)
add_subscription-Grows t = record {
  api = λ node. refl;
  publications = λ node j h. h;
  subscriptions = λ node j h. contains-add_old t j node.subscriptions h;
}

add_service-Grows : (n : Str) → Grows (add_service n)
add_service-Grows n = record {
  api = λ node. refl;
  publications = λ node j h. h;
  subscriptions = λ node j h. h;
}

add_param-Grows : (n : Str) → Grows (add_param n)
add_param-Grows n = record {
  api = λ node. refl;
  publications = λ node j h. h;
  subscriptions = λ node j h. h;
}

pub with_node-IsConsistent :
    (c : Str) (f : Node → Node) (r : Registry)
    → Grows f
    → IsConsistent r
    → IsConsistent (with_node c f r)
with_node-IsConsistent c f r g h =
    let same = with_node-SameTables c f r in
    record {
      publishers = λ t b p.
          Holds-with_node (Publishes t b) c f r b.caller_id
            (λ node k. (rw (g.api node) k.0, g.publications node t k.1))
            (h.publishers t b (rw same.publications at p));
      subscribers = λ t b p.
          Holds-with_node (Subscribes t b) c f r b.caller_id
            (λ node k. (rw (g.api node) k.0, g.subscriptions node t k.1))
            (h.subscribers t b (rw same.subscriptions at p));
    }

pub update_subscribers-IsConsistent :
    (t : Str) (r : Registry) → IsConsistent r → IsConsistent (update_subscribers t r)
update_subscribers-IsConsistent t r h =
    let same = update_subscribers-SameTables t r in
    record {
      publishers = λ j b p.
          Holds-update_subscribers (Publishes j b) (λ task node k. k) t r b.caller_id
            (h.publishers j b (rw same.publications at p));
      subscribers = λ j b p.
          Holds-update_subscribers (Subscribes j b) (λ task node k. k) t r b.caller_id
            (h.subscribers j b (rw same.subscriptions at p));
    }

register_topic-IsConsistent :
    (t ty : Str) (r : Registry) → IsConsistent r → IsConsistent (register_topic t ty r)
unfolding register_topic
register_topic-IsConsistent t ty r h =
    elim (Bool-cases (not (str_eq ty (str "*")) && not (has r.topic_types t))) [
      | inl new ↦ rw new (record { publishers = h.publishers; subscribers = h.subscribers })
      | inr old ↦ rw old h
    ]

split_or :
    (old here same : Bool)
    → (old || here && same) ≡ true
    → (old ≡ true) ⊎ ((here ≡ true) × (same ≡ true))
split_or old here same h = ground arith

-- a registration that its node backs may be joined
join_publications-IsConsistent :
    (t : Str) (a : Registration) (r : Registry)
    → IsConsistent r
    → Holds (Publishes t a) (get r.nodes a.caller_id)
    → IsConsistent (record r { publications = join_topic t a r.publications })
join_publications-IsConsistent t a r h k = record {
  publishers = λ j b p.
      elim (split_or (registered r.publications j b) (str_eq t j) (same_registration a b)
        (rw (registered-join_topic r.publications t j a b) at p)) [
          | inl old ↦ h.publishers j b old
          | inr (here, same) ↦
              rw (← (str_eq_iff t j).0 here, ← (same_registration_iff a b).0 same) k
        ];
  subscribers = h.subscribers;
}

join_subscriptions-IsConsistent :
    (t : Str) (a : Registration) (r : Registry)
    → IsConsistent r
    → Holds (Subscribes t a) (get r.nodes a.caller_id)
    → IsConsistent (record r { subscriptions = join_topic t a r.subscriptions })
join_subscriptions-IsConsistent t a r h k = record {
  publishers = h.publishers;
  subscribers = λ j b p.
      elim (split_or (registered r.subscriptions j b) (str_eq t j) (same_registration a b)
        (rw (registered-join_topic r.subscriptions t j a b) at p)) [
          | inl old ↦ h.subscribers j b old
          | inr (here, same) ↦
              rw (← (str_eq_iff t j).0 here, ← (same_registration_iff a b).0 same) k
        ];
}

contains-add_self : (n : Str) (s : List Str) → contains (add n s) n ≡ true
contains-add_self n s = rw (contains-add n n s, str_eq_refl n) (ground arith)

-- From a consistent state, the registration of a publisher leads to a consistent one, whatever api
-- the caller gives.
pub register_publisher-IsConsistent :
    (t ty c api : Str) (r : Registry)
    → IsConsistent r
    → IsConsistent (register_publisher t ty c api r)
unfolding register_publisher
register_publisher-IsConsistent t ty c api r h =
    let r0 = register_topic t ty r in
    let r1 = register_node c api r0 in
    let r2 = with_node c (add_publication t) r1 in
    let h1 = register_node-IsConsistent c api r0 (register_topic-IsConsistent t ty r h) in
    update_subscribers-IsConsistent t _ (
      join_publications-IsConsistent t (registration c api) r2
        (with_node-IsConsistent c (add_publication t) r1 (add_publication-Grows t) h1)
        (Holds-with_node_self (λ node. node.api ≡ api) (Publishes t (registration c api)) c
          (add_publication t) r1 (λ node k. (k, contains-add_self t node.publications))
          (register_node-HasApi c api r0)))

pub register_subscriber-IsConsistent :
    (t ty c api : Str) (r : Registry)
    → IsConsistent r
    → IsConsistent (register_subscriber t ty c api r)
unfolding register_subscriber
register_subscriber-IsConsistent t ty c api r h =
    let r0 = register_topic t ty r in
    let r1 = register_node c api r0 in
    let r2 = with_node c (add_subscription t) r1 in
    let h1 = register_node-IsConsistent c api r0 (register_topic-IsConsistent t ty r h) in
    join_subscriptions-IsConsistent t (registration c api) r2
      (with_node-IsConsistent c (add_subscription t) r1 (add_subscription-Grows t) h1)
      (Holds-with_node_self (λ node. node.api ≡ api) (Subscribes t (registration c api)) c
        (add_subscription t) r1 (λ node k. (k, contains-add_self t node.subscriptions))
        (register_node-HasApi c api r0))

pub register_service-IsConsistent :
    (n c api service_api : Str) (r : Registry)
    → IsConsistent r
    → IsConsistent (register_service n c api service_api r)
unfolding register_service
register_service-IsConsistent n c api service_api r h =
    let h1 =
      with_node-IsConsistent c (add_service n) (register_node c api r) (add_service-Grows n)
        (register_node-IsConsistent c api r h) in
    record { publishers = h1.publishers; subscribers = h1.subscribers }

pub watch-IsConsistent :
    (key c api : Str) (r : Registry) → IsConsistent r → IsConsistent (watch key c api r)
unfolding watch
watch-IsConsistent key c api r h =
    let h1 =
      with_node-IsConsistent c (add_param key) (register_node c api r) (add_param-Grows key)
        (register_node-IsConsistent c api r h) in
    record { publishers = h1.publishers; subscribers = h1.subscribers }
