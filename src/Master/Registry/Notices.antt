-- ===== src/Master/Registry/Notices.antt =====
-- What the subscribers of a topic are told: register_publisher and unregister_publisher of
-- Registry, aioros/master/_registry.py.
use aioros.Common.{◌≡◌, true, false, ◌&&◌, Str, str_eq, str_eq_refl, arith, if◌then◌else◌}
use aioros.Master.Node.{Registration, same_registration}
use aioros.Master.Node.Sets.{same_registration_iff}
use aioros.Master.Registry.{
  Registry, with_node, check_topic, check_node, register_node, register_topic,
}
use aioros.Master.Registry.Topics.{
  registration, join_topic, leave_topic, add_publication, discard_publication, register_publisher,
  unregister_publisher,
}
use aioros.Master.Registry.Updates.{
  AllTold, with_node-SameTables, update_subscribers-SameTables, update_subscribers-AllTold,
}
use aioros.Master.Registry.Members.{registered, registered-join_topic, registered-leave_topic}
use aioros.Master.Registry.Consistency.Unregister.{check_node-SameTopics, check_topic-SameTopics}

-- After a publisher has registered, it is among the publishers of the topic, and each subscriber of
-- the topic whose node is there was last told the apis of the publishers that are now registered.
pub register_publisher-AllTold :
    (t ty c api : Str) (r : Registry)
    → let r' = register_publisher t ty c api r in
      (registered r'.publications t (registration c api) ≡ true) × AllTold t r'
unfolding register_publisher
register_publisher-AllTold t ty c api r =
    let r1 = with_node c (add_publication t) (register_node c api (register_topic t ty r)) in
    let r2 : Registry = record r1 {
      publications = join_topic t (registration c api) r1.publications;
    } in
    (
      rw ((update_subscribers-SameTables t r2).publications) (
          rw
            (
              registered-join_topic r1.publications t t (registration c api) (registration c api),
              str_eq_refl t,
            )
            (ground (arith, same_registration_iff (registration c api) (registration c api)))),
      update_subscribers-AllTold t r2,
    )

-- After a publisher has unregistered, it is not among the publishers of the topic, those that were
-- registered otherwise still are, and each subscriber of the topic whose node is there was last told
-- the apis of the publishers that are left.
pub unregister_publisher-AllTold :
    (t c api : Str) (r : Registry)
    → let r' = unregister_publisher t c api r in
      ((j : Str) (b : Registration)
        → registered r'.publications j b ≡ (
            if str_eq t j && same_registration (registration c api) b
            then false
            else registered r.publications j b))
      × AllTold t r'
unfolding unregister_publisher
unregister_publisher-AllTold t c api r =
    let r1 : Registry = record r {
      publications = leave_topic t (registration c api) r.publications;
    } in
    let r2 = with_node c (discard_publication t) r1 in
    let r3 = check_node c r2 in
    let r4 = check_topic t r3 in
    (
      λ j b. rw ((update_subscribers-SameTables t r4).publications) (
          rw ((check_topic-SameTopics t r3).publications) (
            rw ((check_node-SameTopics c r2).publications) (
              rw ((with_node-SameTables c (discard_publication t) r1).publications)
                (registered-leave_topic r.publications t j (registration c api) b)))),
      update_subscribers-AllTold t r4,
    )
