-- ===== src/Master/Registry/Updates.antt =====
-- `_update_subscribers` of Registry, aioros/master/_registry.py: who is told of the publishers of a
-- topic, and what stays.
use aioros.Common.{
  ◌≡◌, refl, List, [], ◌∷◌, ◌++◌, Option, none, some, Str, str_eq, str_eq_iff, str_eq_refl, All,
  Bool-cases, Option-cases, inl, inr, arith, if◌then◌else◌,
}
use aioros.Dict.{get, get-put}
use aioros.Master.Node.{Registration, Task, publisher_update, Node, send}
use aioros.Master.Registry.{Registry, members_of, with_node, notify, apis, update_subscribers}

-- two states that differ in the nodes at most
pub record SameTables (r r' : Registry) : Type 0 where
  pub services : r'.services ≡ r.services
  pub publications : r'.publications ≡ r.publications
  pub subscriptions : r'.subscriptions ≡ r.subscriptions
  pub param_subscribers : r'.param_subscribers ≡ r.param_subscribers
  pub topic_types : r'.topic_types ≡ r.topic_types
  pub retired : r'.retired ≡ r.retired

pub with_node-SameTables :
    (c : Str) (f : Node → Node) (r : Registry) → SameTables r (with_node c f r)
unfolding with_node
with_node-SameTables c f r = ground arith

pub notify-SameTables :
    (regs : List Registration) (task : Task) (r : Registry) → SameTables r (notify regs task r)
unfolding notify
notify-SameTables [] task r = ground arith
notify-SameTables (reg ∷ regs) task r = ground (
  arith,
  with_node-SameTables reg.caller_id (send task) r,
  notify-SameTables regs task (with_node reg.caller_id (send task) r),
)

pub update_subscribers-SameTables :
    (topic : Str) (r : Registry) → SameTables r (update_subscribers topic r)
unfolding update_subscribers
update_subscribers-SameTables topic r =
    notify-SameTables (members_of r.subscriptions topic)
      (publisher_update topic (apis (members_of r.publications topic))) r

abbrev pub map_node : (Node → Node) → Option Node → Option Node
map_node f none = none
map_node f (some node) = some (f node)

pub nodes-with_node :
    (c : Str) (f : Node → Node) (r : Registry) (j : Str)
    → get (with_node c f r).nodes j
      ≡ (if str_eq c j then map_node f (get r.nodes j) else get r.nodes j)
unfolding with_node
nodes-with_node c f r j = elim (Option-cases (get r.nodes c)) [
  | inl e ↦ rw e (ground (arith, str_eq_iff c j))
  | inr (node, e) ↦ rw e (rw (get-put r.nodes c j (f node)) (ground (arith, str_eq_iff c j)))
]

unfoldable pub last_task : List Task → Option Task
last_task [] = none
last_task (t ∷ []) = some t
last_task (t ∷ u ∷ ts) = last_task (u ∷ ts)

last_task-append : (ts : List Task) (t : Task) → last_task (ts ++ t ∷ []) ≡ some t
unfolding last_task
last_task-append [] t = refl
last_task-append (u ∷ []) t = refl
last_task-append (u ∷ v ∷ ts) t = last_task-append (v ∷ ts) t

-- if the node is there, the last call put in its queue is this one
abbrev pub Told : Task → Option Node → Type 0
Told task none = Unit
Told task (some node) = last_task node.queue ≡ some task

Told-send : (task : Task) (o : Option Node) → Told task (map_node (send task) o)
Told-send task none = tt
Told-send task (some node) = last_task-append node.queue task

Told-with_node :
    (task : Task) (c j : Str) (r : Registry)
    → Told task (get r.nodes j)
    → Told task (get (with_node c (send task) r).nodes j)
Told-with_node task c j r h =
    rw (nodes-with_node c (send task) r j) (elim (Bool-cases (str_eq c j)) [
      | inl same ↦ rw same (Told-send task (get r.nodes j))
      | inr other ↦ rw other h
    ])

Told-notify_keeps :
    (regs : List Registration) (task : Task) (j : Str) (r : Registry)
    → Told task (get r.nodes j)
    → Told task (get (notify regs task r).nodes j)
unfolding notify
Told-notify_keeps [] task j r h = h
Told-notify_keeps (reg ∷ regs) task j r h =
    Told-notify_keeps regs task j (with_node reg.caller_id (send task) r)
      (Told-with_node task reg.caller_id j r h)

Told-with_node_self :
    (task : Task) (c : Str) (r : Registry) → Told task (get (with_node c (send task) r).nodes c)
Told-with_node_self task c r =
    rw (nodes-with_node c (send task) r c, str_eq_refl c) (Told-send task (get r.nodes c))

Told-notify :
    (regs : List Registration) (task : Task) (r : Registry)
    → All (λ reg. Told task (get (notify regs task r).nodes reg.caller_id)) regs
unfolding notify
Told-notify [] task r = tt
Told-notify (reg ∷ regs) task r = (
  Told-notify_keeps regs task reg.caller_id (with_node reg.caller_id (send task) r)
      (Told-with_node_self task reg.caller_id r),
  Told-notify regs task (with_node reg.caller_id (send task) r),
)

-- every subscriber of the topic whose node is there was last told the publishers of the topic
abbrev pub AllTold : Str → Registry → Type 0
AllTold topic r =
    All
      (λ reg.
        Told (publisher_update topic (apis (members_of r.publications topic)))
          (get r.nodes reg.caller_id))
      (members_of r.subscriptions topic)

-- After `_update_subscribers` each subscriber of the topic whose node is there was last told the
-- apis of the publishers of the topic.
pub update_subscribers-AllTold :
    (topic : Str) (r : Registry) → AllTold topic (update_subscribers topic r)
update_subscribers-AllTold topic r =
    let same = update_subscribers-SameTables topic r in
    rw (same.publications, same.subscriptions)
      (unfold update_subscribers in
        Told-notify (members_of r.subscriptions topic)
          (publisher_update topic (apis (members_of r.publications topic))) r)
