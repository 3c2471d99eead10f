-- ===== src/Master/Registry/Consistency/Steps.antt =====
-- The invariant of Consistency over the three branches of `_register_node` of Registry,
-- aioros/master/_registry.py.
use aioros.Common.{
  ◌≡◌, refl, Bool, true, false, none, Str, str_eq, str_eq_iff, str_eq_refl, Bool-cases,
  Option-cases, inl, inr, arith, if◌then◌else◌,
}
use aioros.Dict.{get, get-put}
use aioros.Master.Node.{Task, shutdown, Node, new_node, send}
use aioros.Master.Registry.{
  Registry, with_node, unregister_all, start_node, replacement_msg, replace_node, register_node,
}
use aioros.Master.Registry.Updates.{with_node-SameTables}
use aioros.Master.Registry.Members.{registered}
use aioros.Master.Registry.Dropping.{publications-unregister_all, subscriptions-unregister_all}
use aioros.Master.Registry.Backing.{Holds, Holds-with_node, Holds-unregister_all, Holds-start_node}
use aioros.Master.Registry.Consistency.{Publishes, Subscribes, IsConsistent, HasApi}

HasApi-start_node : (c api : Str) (r : Registry) → HasApi c api (start_node c api r)
HasApi-start_node c api r = rw (get-put r.nodes c c (new_node api), str_eq_refl c) refl

other_than_absent :
    (P : Node → Type 0) (c j : Str) (r : Registry)
    → get r.nodes c ≡ none
    → Holds P (get r.nodes j)
    → str_eq c j ≡ false
other_than_absent P c j r e h = elim (Bool-cases (str_eq c j)) [
  | inl same ↦ absurd (rw (← (str_eq_iff c j).0 same, e) at h)
  | inr other ↦ other
]

str_eq-false_sym : (s t : Str) → str_eq s t ≡ false → str_eq t s ≡ false
str_eq-false_sym s t h = ground (arith, str_eq_iff s t, str_eq_iff t s)

split_kept :
    (mine old : Bool) → (if mine then false else old) ≡ true → (mine ≡ false) × (old ≡ true)
split_kept mine old h = ground arith

module _ (c api : Str) (r : Registry) (h : IsConsistent r) where
  -- no registration has the id of a node that is not there
  fresh-IsConsistent : get r.nodes c ≡ none → IsConsistent (start_node c api r)
  fresh-IsConsistent e = record {
    publishers = λ t b p.
        Holds-start_node (Publishes t b) c api r b.caller_id
          (other_than_absent (Publishes t b) c b.caller_id r e (h.publishers t b p))
          (h.publishers t b p);
    subscribers = λ t b p.
        Holds-start_node (Subscribes t b) c api r b.caller_id
          (other_than_absent (Subscribes t b) c b.caller_id r e (h.subscribers t b p))
          (h.subscribers t b p);
  }

  replaced_keeps :
      (P : Node → Type 0) (sent : (task : Task) (node : Node) → P node → P (send task node))
      (j : Str)
      → str_eq j c ≡ false
      → Holds P (get r.nodes j)
      → Holds P (get (replace_node c api r).nodes j)
  replaced_keeps P sent j other k =
      let r1 = with_node c (send (shutdown replacement_msg)) r in
      Holds-start_node P c api (unregister_all c r1) j (str_eq-false_sym j c other) (
        Holds-unregister_all P sent c r1 j (
          Holds-with_node P c (send (shutdown replacement_msg)) r j
            (sent (shutdown replacement_msg)) k))

  -- the registrations that are left are those of others, and their nodes stay
  replaced-IsConsistent : IsConsistent (replace_node c api r)
  replaced-IsConsistent =
      let r1 = with_node c (send (shutdown replacement_msg)) r in
      let same = with_node-SameTables c (send (shutdown replacement_msg)) r in
      record {
        publishers = λ t b p.
            let (other, old) =
              split_kept (str_eq b.caller_id c) (registered r1.publications t b)
                (rw (publications-unregister_all c r1 t b) at p) in
            replaced_keeps (Publishes t b) (λ task node k. k) b.caller_id other
              (h.publishers t b (rw same.publications at old));
        subscribers = λ t b p.
            let (other, old) =
              split_kept (str_eq b.caller_id c) (registered r1.subscriptions t b)
                (rw (subscriptions-unregister_all c r1 t b) at p) in
            replaced_keeps (Subscribes t b) (λ task node k. k) b.caller_id other
              (h.subscribers t b (rw same.subscriptions at old));
      }

  pub register_node-IsConsistent : IsConsistent (register_node c api r)
  unfolding register_node
  register_node-IsConsistent = elim (Option-cases (get r.nodes c)) [
    | inl e ↦ rw (e, register_node) (fresh-IsConsistent e)
    | inr (node, e) ↦ elim (Bool-cases (str_eq node.api api)) [
      | inl same ↦ rw (e, register_node) (rw same h)
      | inr other ↦ rw (e, register_node) (rw other replaced-IsConsistent)
    ]
  ]

HasApi-replace_node : (c api : Str) (r : Registry) → HasApi c api (replace_node c api r)
HasApi-replace_node c api r =
    rw
      (
        get-put (unregister_all c (with_node c (send (shutdown replacement_msg)) r)).nodes c c
            (new_node api),
        str_eq_refl c,
      )
      refl

-- After `_register_node` the node of the caller is there, with the api that the caller gave.
pub register_node-HasApi : (c api : Str) (r : Registry) → HasApi c api (register_node c api r)
unfolding register_node
register_node-HasApi c api r = elim (Option-cases (get r.nodes c)) [
  | inl e ↦ rw (e, register_node) (HasApi-start_node c api r)
  | inr (node, e) ↦ elim (Bool-cases (str_eq node.api api)) [
    | inl same ↦ rw (e, register_node) (rw (same, e) ((str_eq_iff node.api api).0 same))
    | inr other ↦ rw (e, register_node) (rw other (HasApi-replace_node c api r))
  ]
]
