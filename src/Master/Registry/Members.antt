-- ===== src/Master/Registry/Members.antt =====
-- Who is in which set after a set operation on the dicts of Registry, aioros/master/_registry.py.
use aioros.Common.{
  ◌≡◌, ap, Bool, false, ◌&&◌, ◌||◌, List, [], ◌∷◌, Str, str_eq, str_eq_iff, is_empty, Bool-cases,
  Option-cases, inl, inr, arith, if◌then◌else◌,
}
use aioros.Dict.{Dict, get, put, remove, get-put, get-remove}
use aioros.Master.Node.{
  Registration, same_registration, is_registered, add_registration, discard_registration,
}
use aioros.Master.Node.Sets.{
  same_registration_iff, is_registered-add, is_registered-discard, is_registered_of_empty,
}
use aioros.Master.Registry.{members, members_of, drop_caller, drop_subscriptions}
use aioros.Master.Registry.Topics.{join_topic, leave_topic}

-- the registration is in the set that the dict holds for the topic
abbrev pub registered : Dict (List Registration) → Str → Registration → Bool
registered d topic reg = is_registered (members_of d topic) reg

pub registered-put :
    (d : Dict (List Registration)) (t j : Str) (regs : List Registration) (b : Registration)
    → registered (put d t regs) j b
      ≡ (if str_eq t j then is_registered regs b else registered d j b)
registered-put d t j regs b = rw (get-put d t j regs) (ground arith)

registered-remove :
    (d : Dict (List Registration)) (t j : Str) (b : Registration)
    → registered (remove d t) j b ≡ (if str_eq t j then false else registered d j b)
unfolding is_registered
registered-remove d t j b = rw (get-remove d t j) (ground arith)

pub registered-join_topic :
    (d : Dict (List Registration)) (t j : Str) (a b : Registration)
    → registered (join_topic t a d) j b ≡ (registered d j b || str_eq t j && same_registration a b)
unfolding join_topic
registered-join_topic d t j a b =
    rw (registered-put d t j (add_registration a (members_of d t)) b)
      (ground (arith, str_eq_iff t j, is_registered-add a b (members_of d t)))

pub registered-leave_topic :
    (d : Dict (List Registration)) (t j : Str) (a b : Registration)
    → registered (leave_topic t a d) j b
      ≡ (if str_eq t j && same_registration a b then false else registered d j b)
unfolding leave_topic
registered-leave_topic d t j a b = elim (Option-cases (get d t)) [
  | inl e ↦
      rw (e, leave_topic)
        (ground (arith, str_eq_iff t j, ap members e, is_registered_of_empty (members_of d j) b))
  | inr (regs, e) ↦
      rw (e, leave_topic)
        (elim (Bool-cases (is_empty (discard_registration a regs))) [
          | inl gone ↦
              rw (gone, registered-remove d t j b)
                (ground (
                  arith,
                  str_eq_iff t j,
                  is_registered-discard a b regs,
                  is_registered_of_empty (discard_registration a regs) b gone,
                ))
          | inr left ↦
              rw (left, registered-put d t j (discard_registration a regs) b)
                (ground (arith, str_eq_iff t j, is_registered-discard a b regs))
        ])
]

is_registered-drop_caller :
    (c : Str) (regs : List Registration) (b : Registration)
    → is_registered (drop_caller c regs) b
      ≡ (if str_eq b.caller_id c then false else is_registered regs b)
unfolding is_registered drop_caller
is_registered-drop_caller c [] b = ground arith
is_registered-drop_caller c (a ∷ regs) b =
    ground (arith, is_registered-drop_caller c regs b, same_registration_iff a b)

pub registered-drop_subscriptions :
    (c : Str) (d : Dict (List Registration)) (j : Str) (b : Registration)
    → registered (drop_subscriptions c d) j b
      ≡ (if str_eq b.caller_id c then false else registered d j b)
unfolding drop_subscriptions get
registered-drop_subscriptions c [] j b = unfold is_registered in ground arith
registered-drop_subscriptions c ((t, regs) ∷ d) j b = elim (Bool-cases (str_eq t j)) [
  | inl same ↦ rw same (is_registered-drop_caller c regs b)
  | inr other ↦ rw other (registered-drop_subscriptions c d j b)
]
