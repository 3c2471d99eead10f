-- ===== src/Master/Registry/Consistency/Unregister.antt =====
-- The invariant of Consistency over the unregistering operations of Registry,
-- aioros/master/_registry.py.
use aioros.Common.{
  ◌≡◌, ap, Bool, true, false, not, ◌&&◌, List, Str, str_eq, str_eq_iff, contains, Bool-cases,
  Option-cases, inl, inr, arith, if◌then◌else◌,
}
use aioros.Dict.{get, has}
use aioros.Master.Node.{Registration, Node, discard, same_registration}
use aioros.Master.Node.Sets.{contains-discard, same_registration_iff}
use aioros.Master.Registry.{Registry, with_node, check_topic, check_node}
use aioros.Master.Registry.Topics.{
  registration, leave_topic, discard_subscription, discard_publication, unregister_subscriber,
  unregister_publisher,
}
use aioros.Master.Registry.Updates.{with_node-SameTables, nodes-with_node}
use aioros.Master.Registry.Members.{registered, registered-leave_topic}
use aioros.Master.Registry.Backing.{Holds, Holds-with_node, Holds-check_node}
use aioros.Master.Registry.Consistency.{
  Publishes, Subscribes, IsConsistent, GivesOwnApi, Publishes-busy, Subscribes-busy,
}
use aioros.Master.Registry.Consistency.Register.{update_subscribers-IsConsistent}

-- check_node and check_topic leave the sets of registrations
pub record SameTopics (r r' : Registry) : Type 0 where
  pub publications : r'.publications ≡ r.publications
  pub subscriptions : r'.subscriptions ≡ r.subscriptions

pub check_node-SameTopics : (c : Str) (r : Registry) → SameTopics r (check_node c r)
unfolding check_node
check_node-SameTopics c r = ground arith

pub check_topic-SameTopics : (t : Str) (r : Registry) → SameTopics r (check_topic t r)
unfolding check_topic
check_topic-SameTopics t r = ground arith

pub check_node-IsConsistent :
    (c : Str) (r : Registry) → IsConsistent r → IsConsistent (check_node c r)
check_node-IsConsistent c r h =
    let same = check_node-SameTopics c r in
    record {
      publishers = λ t b p.
          Holds-check_node (Publishes t b) c r b.caller_id (Publishes-busy t b)
            (h.publishers t b (rw same.publications at p));
      subscribers = λ t b p.
          Holds-check_node (Subscribes t b) c r b.caller_id (Subscribes-busy t b)
            (h.subscribers t b (rw same.subscriptions at p));
    }

check_topic-IsConsistent :
    (t : Str) (r : Registry) → IsConsistent r → IsConsistent (check_topic t r)
unfolding check_topic
check_topic-IsConsistent t r h =
    elim (Bool-cases (not (has r.publications t) && not (has r.subscriptions t))) [
      | inl gone ↦ rw gone (record { publishers = h.publishers; subscribers = h.subscribers })
      | inr left ↦ rw left h
    ]

-- a registration whose node has the api that the caller gave is the caller's
own_registration :
    (P : Node → Type 0) (c api : Str) (b : Registration) (r : Registry)
    → ((node : Node) → P node → node.api ≡ b.api)
    → GivesOwnApi c api r
    → Holds P (get r.nodes b.caller_id)
    → str_eq c b.caller_id ≡ true
    → same_registration (registration c api) b ≡ true
own_registration P c api b r reads own k here = elim (Option-cases (get r.nodes b.caller_id)) [
  | inl e ↦ absurd (rw e at k)
  | inr (node, e) ↦
      let same = (str_eq_iff c b.caller_id).0 here in
      let mine : node.api ≡ api = own node (rw (ap (get r.nodes) same) e) in
      let p : P node = rw e at k in
      (same_registration_iff (registration c api) b).1 (ground (arith, same, mine, reads node p))
]

split_left :
    (here same old : Bool)
    → (if here && same then false else old) ≡ true
    → (here && same ≡ false) × (old ≡ true)
split_left here same old h = ground arith

module _ (P : Node → Type 0) (f : Node → Node) where
  -- the node that a registration which stays is about, after the caller has left a topic
  stays_backed :
      (t j c api : Str) (b : Registration) (r : Registry)
      → ((node : Node) → P node → node.api ≡ b.api)
      → (str_eq t j ≡ false → (node : Node) → P node → P (f node))
      → GivesOwnApi c api r
      → (str_eq t j && same_registration (registration c api) b) ≡ false
      → Holds P (get r.nodes b.caller_id)
      → Holds P (get (with_node c f r).nodes b.caller_id)
  stays_backed t j c api b r reads other_topic own stays k = elim (Bool-cases (str_eq t j)) [
    | inr other ↦ Holds-with_node P c f r b.caller_id (other_topic other) k
    | inl here ↦ elim (Bool-cases (str_eq c b.caller_id)) [
      | inl mine ↦ absurd (ground (arith, own_registration P c api b r reads own k mine))
      | inr theirs ↦ rw (nodes-with_node c f r b.caller_id, theirs) k
    ]
  ]

contains-discard_other :
    (t j : Str) (s : List Str)
    → str_eq t j ≡ false
    → contains s j ≡ true
    → contains (discard t s) j ≡ true
contains-discard_other t j s other h = rw (contains-discard t j s, other) h

-- From a consistent state, a publisher that leaves a topic under its own api leads to a consistent
-- one.
pub unregister_publisher-IsConsistent :
    (t c api : Str) (r : Registry)
    → GivesOwnApi c api r
    → IsConsistent r
    → IsConsistent (unregister_publisher t c api r)
unfolding unregister_publisher
unregister_publisher-IsConsistent t c api r own h =
    let a = registration c api in
    let r1 : Registry = record r { publications = leave_topic t a r.publications } in
    let same = with_node-SameTables c (discard_publication t) r1 in
    let h2 : IsConsistent (with_node c (discard_publication t) r1) = record {
      publishers = λ j b p.
          let (stays, old) =
            split_left (str_eq t j) (same_registration a b) (registered r.publications j b)
              (rw (registered-leave_topic r.publications t j a b) at (rw same.publications at p)) in
          stays_backed (Publishes j b) (discard_publication t) t j c api b r1 (λ node k. k.0)
            (λ other node k. (k.0, contains-discard_other t j node.publications other k.1)) own
            stays (h.publishers j b old);
      subscribers = λ j b p.
          Holds-with_node (Subscribes j b) c (discard_publication t) r1 b.caller_id (λ node k. k)
            (h.subscribers j b (rw same.subscriptions at p));
    } in
    update_subscribers-IsConsistent t _
      (check_topic-IsConsistent t _ (check_node-IsConsistent c _ h2))

pub unregister_subscriber-IsConsistent :
    (t c api : Str) (r : Registry)
    → GivesOwnApi c api r
    → IsConsistent r
    → IsConsistent (unregister_subscriber t c api r)
unfolding unregister_subscriber
unregister_subscriber-IsConsistent t c api r own h =
    let a = registration c api in
    let r1 : Registry = record r { subscriptions = leave_topic t a r.subscriptions } in
    let same = with_node-SameTables c (discard_subscription t) r1 in
    let h2 : IsConsistent (with_node c (discard_subscription t) r1) = record {
      publishers = λ j b p.
          Holds-with_node (Publishes j b) c (discard_subscription t) r1 b.caller_id (λ node k. k)
            (h.publishers j b (rw same.publications at p));
      subscribers = λ j b p.
          let (stays, old) =
            split_left (str_eq t j) (same_registration a b) (registered r.subscriptions j b) (
              rw (registered-leave_topic r.subscriptions t j a b) at
                (rw same.subscriptions at p)) in
          stays_backed (Subscribes j b) (discard_subscription t) t j c api b r1 (λ node k. k.0)
            (λ other node k. (k.0, contains-discard_other t j node.subscriptions other k.1)) own
            stays (h.subscribers j b old);
    } in
    check_topic-IsConsistent t _ (check_node-IsConsistent c _ h2)
