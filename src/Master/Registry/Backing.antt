-- ===== src/Master/Registry/Backing.antt =====
-- A predicate on the node with a given id, through the operations of Registry,
-- aioros/master/_registry.py, that change nodes.
use aioros.Common.{
  ◌≡◌, true, false, List, [], ◌∷◌, Option, none, some, Str, str_eq, str_eq_iff, str_eq_refl,
  Bool-cases, Option-cases, inl, inr,
}
use aioros.Dict.{Dict, get, put, get-put, get-remove}
use aioros.Master.Node.{
  Registration, Task, Node, new_node, send, discard_registration, has_any_registration,
}
use aioros.Master.Registry.{
  Registry, members_of, with_node, notify, update_subscribers, drop_publishers, drop_publications,
  drop_services, unregister_all, start_node, check_node,
}
use aioros.Master.Registry.Updates.{map_node, nodes-with_node}

-- the node is there and is so
abbrev pub Holds : (Node → Type 0) → Option Node → Type 0
Holds P none = ⊥
Holds P (some node) = P node

module _ (P : Node → Type 0) where
  Holds-map_node :
      (f : Node → Node) (o : Option Node)
      → ((node : Node) → P node → P (f node))
      → Holds P o
      → Holds P (map_node f o)
  Holds-map_node f none k h = h
  Holds-map_node f (some node) k h = k node h

  pub Holds-with_node :
      (c : Str) (f : Node → Node) (r : Registry) (j : Str)
      → ((node : Node) → P node → P (f node))
      → Holds P (get r.nodes j)
      → Holds P (get (with_node c f r).nodes j)
  Holds-with_node c f r j k h = rw (nodes-with_node c f r j) (elim (Bool-cases (str_eq c j)) [
    | inl same ↦ rw same (Holds-map_node f (get r.nodes j) k h)
    | inr other ↦ rw other h
  ])

  -- the operations below only put calls in queues
  module _ (sent : (task : Task) (node : Node) → P node → P (send task node)) where
    Holds-notify :
        (regs : List Registration) (task : Task) (r : Registry) (j : Str)
        → Holds P (get r.nodes j)
        → Holds P (get (notify regs task r).nodes j)
    unfolding notify
    Holds-notify [] task r j h = h
    Holds-notify (a ∷ regs) task r j h =
        Holds-notify regs task (with_node a.caller_id (send task) r) j
          (Holds-with_node a.caller_id (send task) r j (sent task) h)

    pub Holds-update_subscribers :
        (t : Str) (r : Registry) (j : Str)
        → Holds P (get r.nodes j)
        → Holds P (get (update_subscribers t r).nodes j)
    unfolding update_subscribers
    Holds-update_subscribers t r j h = Holds-notify (members_of r.subscriptions t) _ r j h

    Holds-drop_publishers :
        (c t : Str) (regs : List Registration) (r : Registry) (j : Str)
        → Holds P (get r.nodes j)
        → Holds P (get (drop_publishers c t regs r).nodes j)
    unfolding drop_publishers
    Holds-drop_publishers c t [] r j h = h
    Holds-drop_publishers c t (a ∷ regs) r j h =
        Holds-drop_publishers c t regs _ j (elim (Bool-cases (str_eq a.caller_id c)) [
          | inl mine ↦ rw mine (
              Holds-update_subscribers t
                (record r {
                  publications =
                      put r.publications t (discard_registration a (members_of r.publications t));
                })
                j h)
          | inr other ↦ rw other h
        ])

    Holds-drop_publications :
        (c : Str) (d : Dict (List Registration)) (r : Registry) (j : Str)
        → Holds P (get r.nodes j)
        → Holds P (get (drop_publications c d r).nodes j)
    unfolding drop_publications
    Holds-drop_publications c [] r j h = h
    Holds-drop_publications c ((t, regs) ∷ d) r j h =
        Holds-drop_publications c d (drop_publishers c t regs r) j
          (Holds-drop_publishers c t regs r j h)

    pub Holds-unregister_all :
        (c : Str) (r : Registry) (j : Str)
        → Holds P (get r.nodes j)
        → Holds P (get (unregister_all c r).nodes j)
    unfolding unregister_all
    Holds-unregister_all c r j h =
        Holds-drop_publications c r.publications
          (record r { services = drop_services c r.services }) j h

  pub Holds-start_node :
      (c api : Str) (r : Registry) (j : Str)
      → str_eq c j ≡ false
      → Holds P (get r.nodes j)
      → Holds P (get (start_node c api r).nodes j)
  Holds-start_node c api r j other h = rw (get-put r.nodes c j (new_node api), other) h

  idle_elsewhere :
      (c j : Str) (r : Registry) (node : Node)
      → get r.nodes c ≡ some node
      → has_any_registration node ≡ false
      → ((node : Node) → P node → has_any_registration node ≡ true)
      → Holds P (get r.nodes j)
      → str_eq c j ≡ false
  idle_elsewhere c j r node e idle busy h = elim (Bool-cases (str_eq c j)) [
    | inl same ↦
        let p : P node = rw (← (str_eq_iff c j).0 same, e) at h in absurd (cc (busy node p, idle))
    | inr other ↦ other
  ]

  -- a node that still has registrations is not taken off
  pub Holds-check_node :
      (c : Str) (r : Registry) (j : Str)
      → ((node : Node) → P node → has_any_registration node ≡ true)
      → Holds P (get r.nodes j)
      → Holds P (get (check_node c r).nodes j)
  unfolding check_node
  Holds-check_node c r j busy h = elim (Option-cases (get r.nodes c)) [
    | inl e ↦ rw (e, check_node) h
    | inr (node, e) ↦ elim (Bool-cases (has_any_registration node)) [
      | inl kept ↦ rw (e, check_node) (rw kept h)
      | inr idle ↦
          rw (e, check_node)
            (rw (idle, get-remove r.nodes c j, idle_elsewhere c j r node e idle busy h) h)
    ]
  ]

Holds-map_node_to :
    (P Q : Node → Type 0) (f : Node → Node) (o : Option Node)
    → ((node : Node) → P node → Q (f node))
    → Holds P o
    → Holds Q (map_node f o)
Holds-map_node_to P Q f none k h = h
Holds-map_node_to P Q f (some node) k h = k node h

-- the node that is changed
pub Holds-with_node_self :
    (P Q : Node → Type 0) (c : Str) (f : Node → Node) (r : Registry)
    → ((node : Node) → P node → Q (f node))
    → Holds P (get r.nodes c)
    → Holds Q (get (with_node c f r).nodes c)
Holds-with_node_self P Q c f r k h =
    rw (nodes-with_node c f r c, str_eq_refl c) (Holds-map_node_to P Q f (get r.nodes c) k h)
