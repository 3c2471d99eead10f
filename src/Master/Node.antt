-- ===== src/Master/Node.antt =====
-- What the master keeps of a node: Registration, Task and Node of aioros/master/_registry.py, and
-- the sets of them. A Python `set` is the list of its members in the order in which they came (the
-- order in which Python walks a set is not modelled).
pub mod Sets
use aioros.Common.{
  ◌≡◌, ◌↔◌, Bool, true, false, not, ◌&&◌, List, [], ◌∷◌, ◌++◌, Option, none, some, Str, str_eq,
  str_eq_iff, contains, is_empty, arith, if◌then◌else◌,
}
use aioros.Value.{Value}

pub record Registration : Type 0 where
  pub caller_id : Str
  pub api : Str

-- a call of the node that is still to be made: the method and its arguments
pub data Task : Type 0 where
  publisher_update : Str → List Str → Task
  param_update : Str → Value → Task
  shutdown : Str → Task

-- `queue` is what was put in the node's memory stream, and `closed` tells that the stream has been
-- closed for sending.
pub record Node : Type 0 where
  pub api : Str
  pub services : List Str
  pub publications : List Str
  pub subscriptions : List Str
  pub param_subscriptions : List Str
  pub queue : List Task
  pub closed : Bool

abbrev pub new_node : Str → Node
new_node api = record {
  api = api;
  services = [];
  publications = [];
  subscriptions = [];
  param_subscriptions = [];
  queue = [];
  closed = false;
}

-- s.add(name)
unfoldable pub add : Str → List Str → List Str
add name s = if contains s name then s else s ++ name ∷ []

-- s.discard(name)
unfoldable pub discard : Str → List Str → List Str
discard name [] = []
discard name (j ∷ s) = let rest = discard name s in if str_eq j name then rest else j ∷ rest

unfoldable pub same_registration : Registration → Registration → Bool
same_registration a b = str_eq a.caller_id b.caller_id && str_eq a.api b.api

unfoldable pub is_registered : List Registration → Registration → Bool
unfolding same_registration
is_registered [] reg = false
is_registered (a ∷ regs) reg = if same_registration a reg then true else is_registered regs reg

unfoldable pub add_registration : Registration → List Registration → List Registration
unfolding is_registered
add_registration reg regs = if is_registered regs reg then regs else regs ++ reg ∷ []

unfoldable pub discard_registration : Registration → List Registration → List Registration
unfolding same_registration
discard_registration reg [] = []
discard_registration reg (a ∷ regs) =
    let rest = discard_registration reg regs in if same_registration a reg then rest else a ∷ rest

-- Node.has_any_registration
abbrev pub has_any_registration : Node → Bool
has_any_registration node = not (
    is_empty node.services
    && is_empty node.publications
    && is_empty node.subscriptions
    && is_empty node.param_subscriptions)

-- send_nowait, as publisher_update, param_update and shutdown call it
abbrev pub send : Task → Node → Node
send task node = record node { queue = node.queue ++ task ∷ [] }
