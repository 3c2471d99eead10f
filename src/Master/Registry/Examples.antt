-- ===== src/Master/Registry/Examples.antt =====
-- A talker and a listener at the master: aioros/master/_registry.py.
use aioros.Common.{◌≡◌, refl, true, false, ◌&&◌, Str, str, str_eq, if◌then◌else◌}
use aioros.Dict.{get}
use aioros.Master.Node.{Registration, same_registration}
use aioros.Master.Registry.{Registry, new_registry}
use aioros.Master.Registry.Topics.{
  registration, register_subscriber, register_publisher, unregister_publisher,
}
use aioros.Master.Registry.Updates.{AllTold}
use aioros.Master.Registry.Members.{registered}
use aioros.Master.Registry.Consistency.{IsConsistent}
use aioros.Master.Registry.Reachable.{
  Reachable, start, next, subscribe, publish, Reachable-IsConsistent,
}
use aioros.Value.{int, pos}
use aioros.Master.Registry.Params.{on_param_update, watch}
use aioros.Master.Registry.Ignored.{nodes-on_param_update}
use aioros.Master.Registry.Notices.{register_publisher-AllTold, unregister_publisher-AllTold}

abbrev chat : Str
chat = str "/chat"

abbrev talker : Str
talker = str "/talker"

abbrev listener : Str
listener = str "/listener"

abbrev subscribed : Registry
subscribed =
    register_subscriber chat (str "std_msgs/String") listener (str "http://l:1") new_registry

abbrev talking : Registry
talking = register_publisher chat (str "std_msgs/String") talker (str "http://t:1") subscribed

-- where the talker and the listener watch all parameters
abbrev watching : Registry
watching =
    watch (str "/") listener (str "http://l:1") (watch (str "/") talker (str "http://t:1") talking)

talking-Reachable : Reachable talking
talking-Reachable =
    next (next start (subscribe chat (str "std_msgs/String") listener (str "http://l:1")))
      (publish chat (str "std_msgs/String") talker (str "http://t:1"))

-- a second talker of the same name takes the place of the first
abbrev replaced : Registry
replaced = register_publisher chat (str "std_msgs/String") talker (str "http://t:2") talking

replaced-Reachable : Reachable replaced
replaced-Reachable =
    next talking-Reachable (publish chat (str "std_msgs/String") talker (str "http://t:2"))

Reachable-IsConsistent_example : IsConsistent replaced
Reachable-IsConsistent_example = Reachable-IsConsistent replaced-Reachable

register_publisher-AllTold_example :
    (registered replaced.publications chat (registration talker (str "http://t:2")) ≡ true)
    × AllTold chat replaced
register_publisher-AllTold_example =
    register_publisher-AllTold chat (str "std_msgs/String") talker (str "http://t:2") talking

unregister_publisher-AllTold_example :
    let r' = unregister_publisher chat talker (str "http://t:1") talking in
    ((j : Str) (b : Registration)
      → registered r'.publications j b ≡ (
          if str_eq chat j && same_registration (registration talker (str "http://t:1")) b
          then false
          else registered talking.publications j b))
    × AllTold chat r'
unregister_publisher-AllTold_example =
    unregister_publisher-AllTold chat talker (str "http://t:1") talking

nodes-on_param_update_example :
    get (on_param_update (str "/rate") (int (pos 5)) talker watching).0.nodes talker
    ≡ get watching.nodes talker
nodes-on_param_update_example =
    nodes-on_param_update talker (str "/rate") (int (pos 5)) watching (λ key. refl)
