-- ===== src/Master/Registry/Consistency.antt =====
-- An invariant of Registry, aioros/master/_registry.py, between its tables and its nodes: each
-- registration of a topic belongs to a node that is there, has its api and lists the topic.
pub mod Steps
pub mod Register
pub mod Unregister
pub mod Tell
use aioros.Common.{
  ◌≡◌, refl, Bool, true, false, not, ◌&&◌, ◌||◌, List, [], ◌∷◌, Option, none, some, Str, str_eq,
  str_eq_iff, str_eq_refl, contains, is_empty, arith,
}
use aioros.Dict.{Dict, get}
use aioros.Master.Node.{Registration, Task, Node, send, has_any_registration}
use aioros.Master.Registry.{Registry}
use aioros.Master.Registry.Members.{registered}
use aioros.Master.Registry.Backing.{Holds}

-- the node has the api of the registration, and lists the topic
abbrev pub Publishes : Str → Registration → Node → Type 0
Publishes t b node = (node.api ≡ b.api) × (contains node.publications t ≡ true)

abbrev pub Subscribes : Str → Registration → Node → Type 0
Subscribes t b node = (node.api ≡ b.api) × (contains node.subscriptions t ≡ true)

pub record IsConsistent (r : Registry) : Type 0 where
  pub publishers :
      (t : Str) (b : Registration)
      → registered r.publications t b ≡ true
      → Holds (Publishes t b) (get r.nodes b.caller_id)
  pub subscribers :
      (t : Str) (b : Registration)
      → registered r.subscriptions t b ≡ true
      → Holds (Subscribes t b) (get r.nodes b.caller_id)

-- the node with this id has this api
abbrev pub HasApi : Str → Str → Registry → Type 0
HasApi c api r = Holds (λ node. node.api ≡ api) (get r.nodes c)

-- the caller gives the api that it is known by, if it is known
abbrev pub GivesOwnApi : Str → Str → Registry → Type 0
GivesOwnApi c api r = (node : Node) → get r.nodes c ≡ some node → node.api ≡ api

contains-not-empty : (s : List Str) (t : Str) → contains s t ≡ true → is_empty s ≡ false
unfolding contains
contains-not-empty [] t h = cc
contains-not-empty (j ∷ s) t h = refl

pub Publishes-busy :
    (t : Str) (b : Registration) (node : Node)
    → Publishes t b node
    → has_any_registration node ≡ true
Publishes-busy t b node h = ground (arith, contains-not-empty node.publications t)

pub Subscribes-busy :
    (t : Str) (b : Registration) (node : Node)
    → Subscribes t b node
    → has_any_registration node ≡ true
Subscribes-busy t b node h = ground (arith, contains-not-empty node.subscriptions t)
