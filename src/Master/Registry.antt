-- ===== src/Master/Registry.antt =====
-- Registry of aioros/master/_registry.py: who provides which service, publishes and subscribes to
-- which topic, and watches which parameter. The parameter part is in Registry/Params.
pub mod Topics
pub mod Params
pub mod Updates
pub mod Members
pub mod Dropping
pub mod Backing
pub mod Consistency
pub mod Reachable
pub mod Notices
pub mod Ignored
pub mod Types
mod Examples
use aioros.Common.{
  Bool, true, false, not, ◌&&◌, ◌||◌, List, [], ◌∷◌, ◌++◌, map, Option, none, some, Str, str,
  str_eq, is_empty, if◌then◌else◌,
}
use aioros.Dict.{Dict, get, put, remove, has}
use aioros.Master.Node.{
  Registration, Task, publisher_update, shutdown, Node, new_node, add, discard, add_registration,
  discard_registration, has_any_registration, send,
}

-- `retired` holds the nodes that were taken off `nodes`: their serve tasks still empty the queues.
pub record Registry : Type 0 where
  pub services : Dict Registration
  pub publications : Dict (List Registration)
  pub subscriptions : Dict (List Registration)
  pub param_subscribers : Dict (List Registration)
  pub topic_types : Dict Str
  pub nodes : Dict Node
  pub retired : List Node

abbrev pub new_registry : Registry
new_registry = record {
  services = [];
  publications = [];
  subscriptions = [];
  param_subscribers = [];
  topic_types = [];
  nodes = [];
  retired = [];
}

-- d.get(topic, [])
abbrev pub members : Option (List Registration) → List Registration
members none = []
members (some regs) = regs

abbrev pub members_of : Dict (List Registration) → Str → List Registration
members_of d topic = members (get d topic)

-- a change of the node with this id, if there is one
abbrev pub change_node : Option Node → Str → (Node → Node) → Registry → Registry
change_node none caller_id f r = r
change_node (some node) caller_id f r = record r { nodes = put r.nodes caller_id (f node) }

unfoldable pub with_node : Str → (Node → Node) → Registry → Registry
with_node caller_id f r = change_node (get r.nodes caller_id) caller_id f r

-- the loop of `_update_subscribers`
unfoldable pub notify : List Registration → Task → Registry → Registry
unfolding with_node
notify [] task r = r
notify (reg ∷ regs) task r = notify regs task (with_node reg.caller_id (send task) r)

abbrev pub apis : List Registration → List Str
apis = map (λ reg. reg.api)

-- `_update_subscribers`
unfoldable pub update_subscribers : Str → Registry → Registry
unfolding notify
update_subscribers topic r =
    notify (members_of r.subscriptions topic)
      (publisher_update topic (apis (members_of r.publications topic))) r

-- The loops of `_unregister_all`: over the services,
unfoldable pub drop_services : Str → Dict Registration → Dict Registration
drop_services caller_id [] = []
drop_services caller_id ((name, reg) ∷ d) =
    let rest = drop_services caller_id d in
    if str_eq reg.caller_id caller_id then rest else (name, reg) ∷ rest

-- over the registrations of one topic,
unfoldable pub drop_publishers : Str → Str → List Registration → Registry → Registry
unfolding update_subscribers
drop_publishers caller_id topic [] r = r
drop_publishers caller_id topic (reg ∷ regs) r = drop_publishers caller_id topic regs (
    if str_eq reg.caller_id caller_id
    then update_subscribers topic (record r {
      publications =
          put r.publications topic (discard_registration reg (members_of r.publications topic));
    })
    else r)

-- over the topics that are published,
unfoldable pub drop_publications : Str → Dict (List Registration) → Registry → Registry
unfolding drop_publishers
drop_publications caller_id [] r = r
drop_publications caller_id ((topic, regs) ∷ d) r =
    drop_publications caller_id d (drop_publishers caller_id topic regs r)

-- and over the subscriptions.
unfoldable pub drop_caller : Str → List Registration → List Registration
drop_caller caller_id [] = []
drop_caller caller_id (reg ∷ regs) =
    let rest = drop_caller caller_id regs in
    if str_eq reg.caller_id caller_id then rest else reg ∷ rest

unfoldable pub drop_subscriptions : Str → Dict (List Registration) → Dict (List Registration)
unfolding drop_caller
drop_subscriptions caller_id [] = []
drop_subscriptions caller_id ((topic, regs) ∷ d) =
    (topic, drop_caller caller_id regs) ∷ drop_subscriptions caller_id d

-- `_unregister_all`
unfoldable pub unregister_all : Str → Registry → Registry
unfolding drop_services drop_publications drop_subscriptions
unregister_all caller_id r =
    let r' =
      drop_publications caller_id r.publications
        (record r { services = drop_services caller_id r.services }) in
    record r' { subscriptions = drop_subscriptions caller_id r'.subscriptions }

-- a node that leaves `nodes`, with its stream closed or not
abbrev pub retire : Option Node → (Node → Node) → List Node → List Node
retire none f l = l
retire (some node) f l = f node ∷ l

abbrev pub replacement_msg : Str
replacement_msg = str "new node registered with same name"

-- a node that takes the place of the one with its id
abbrev pub start_node : Str → Str → Registry → Registry
start_node caller_id api r = record r { nodes = put r.nodes caller_id (new_node api) }

abbrev pub replace_node : Str → Str → Registry → Registry
replace_node caller_id api r =
    let r' = unregister_all caller_id (with_node caller_id (send (shutdown replacement_msg)) r) in
    start_node caller_id api
      (record r' { retired = retire (get r'.nodes caller_id) (λ node. node) r'.retired })

-- `_register_node`; the node that it returns is `nodes[caller_id]` of the new state
unfoldable pub register_node : Str → Str → Registry → Registry
unfolding with_node unregister_all
register_node caller_id caller_api r = elim (get r.nodes caller_id) [
  | none ↦ start_node caller_id caller_api r
  | some node ↦ if str_eq node.api caller_api then r else replace_node caller_id caller_api r
]

-- `_register_topic`
unfoldable pub register_topic : Str → Str → Registry → Registry
register_topic topic topic_type r =
    if not (str_eq topic_type (str "*")) && not (has r.topic_types topic)
    then record r { topic_types = put r.topic_types topic topic_type }
    else r

-- `_check_topic`
unfoldable pub check_topic : Str → Registry → Registry
check_topic topic r =
    if not (has r.publications topic) && not (has r.subscriptions topic)
    then record r { topic_types = remove r.topic_types topic }
    else r

abbrev pub close : Node → Node
close node = record node { closed = true }

-- `_check_node`
unfoldable pub check_node : Str → Registry → Registry
check_node caller_id r = elim (get r.nodes caller_id) [
  | none ↦ r
  | some node ↦
      if has_any_registration node
      then r
      else record r { nodes = remove r.nodes caller_id; retired = close node ∷ r.retired }
]
