-- ===== src/Master/Registry/Consistency/Tell.antt =====
-- The invariant of Consistency over on_param_update of Registry, aioros/master/_registry.py.
use aioros.Common.{
  refl, List, [], ◌∷◌, Option, none, some, Str, str_eq, is_empty, Result, ok, err, Bool-cases,
  Option-cases, inl, inr,
}
use aioros.Dict.{Dict, get}
use aioros.Value.{Value}
use aioros.Master.Node.{Registration, Task, param_update, send}
use aioros.Master.Registry.{Registry}
use aioros.Master.Registry.Params.{
  Step, after, tell, tell_others, tell_all, news, tell_news, tell_watchers, chop, tell_found,
  tell_inside, tell_nested, keys_of, tell_rest, update_path, param_path, on_param_update,
}
use aioros.Master.Registry.Consistency.{IsConsistent}
use aioros.Master.Registry.Consistency.Register.{Grows, with_node-IsConsistent}

-- the step keeps the invariant, also where it raises
abbrev Keeps : Step → Type 0
Keeps f = (r : Registry) → IsConsistent r → IsConsistent (f r).0

Keeps-after :
    (p : Registry × Result (Unit {0})) (f : Step)
    → Keeps f
    → IsConsistent p.0
    → IsConsistent (after p f).0
Keeps-after (r, ok t) f k h = k r h
Keeps-after (r, err e) f k h = h

send-Grows : (task : Task) → Grows (send task)
send-Grows task = record {
  api = λ node. refl;
  publications = λ node t h. h;
  subscriptions = λ node t h. h;
}

Keeps-tell : (c key : Str) (v : Value) → Keeps (tell c key v)
unfolding tell
Keeps-tell c key v r h = elim (Option-cases (get r.nodes c)) [
  | inl e ↦ rw (e, tell) h
  | inr (node, e) ↦
      rw (e, tell)
        (with_node-IsConsistent c (send (param_update key v)) r (send-Grows (param_update key v)) h)
]

Keeps-tell_others :
    (c key : Str) (v : Value) (regs : List Registration) → Keeps (tell_others c key v regs)
unfolding tell_others
Keeps-tell_others c key v [] r h = h
Keeps-tell_others c key v (reg ∷ regs) r h = elim (Bool-cases (str_eq reg.caller_id c)) [
  | inl same ↦ rw same (Keeps-tell_others c key v regs r h)
  | inr other ↦ rw other (
      Keeps-after (tell reg.caller_id key v r) (tell_others c key v regs)
        (Keeps-tell_others c key v regs) (Keeps-tell reg.caller_id key v r h))
]

Keeps-tell_all : (key : Str) (v : Value) (regs : List Registration) → Keeps (tell_all key v regs)
unfolding tell_all
Keeps-tell_all key v [] r h = h
Keeps-tell_all key v (reg ∷ regs) r h =
    Keeps-after (tell reg.caller_id key v r) (tell_all key v regs) (Keeps-tell_all key v regs)
      (Keeps-tell reg.caller_id key v r h)

Keeps-tell_news :
    (c : Str) (o : Option (Str × Value)) (regs : List Registration) → Keeps (tell_news c o regs)
Keeps-tell_news c none regs r h = h
Keeps-tell_news c (some (key, v)) regs r h = Keeps-tell_others c key v regs r h

Keeps-tell_watchers :
    (param_key : Str) (v : Value) (all_keys : Option (List Str)) (c : Str)
    (d : Dict (List Registration))
    → Keeps (tell_watchers param_key v all_keys c d)
unfolding tell_watchers
Keeps-tell_watchers param_key v all_keys c [] r h = h
Keeps-tell_watchers param_key v all_keys c ((key, regs) ∷ d) r h =
    Keeps-after (tell_news c (news param_key v all_keys key) regs r)
      (tell_watchers param_key v all_keys c d) (Keeps-tell_watchers param_key v all_keys c d)
      (Keeps-tell_news c (news param_key v all_keys key) regs r h)

Keeps-tell_found :
    (key : Str) (o : Result Value) (regs : List Registration) → Keeps (tell_found key o regs)
Keeps-tell_found key (ok v) regs r h = Keeps-tell_all key v regs r h
Keeps-tell_found key (err e) regs r h = h

Keeps-tell_inside :
    (param_key : Str) (v : Value) (key : Str) (o : Option (List Registration))
    → Keeps (tell_inside param_key v key o)
Keeps-tell_inside param_key v key none r h = h
Keeps-tell_inside param_key v key (some regs) r h = Keeps-tell_found (chop key) _ regs r h

Keeps-tell_nested :
    (param_key : Str) (v : Value) (all_keys : List Str) → Keeps (tell_nested param_key v all_keys)
unfolding tell_nested
Keeps-tell_nested param_key v [] r h = h
Keeps-tell_nested param_key v (key ∷ all_keys) r h =
    Keeps-after (tell_inside param_key v key (get r.param_subscribers key) r)
      (tell_nested param_key v all_keys) (Keeps-tell_nested param_key v all_keys)
      (Keeps-tell_inside param_key v key (get r.param_subscribers key) r h)

Keeps-tell_rest :
    (param_key : Str) (v : Value) (o : Option (List Str)) → Keeps (tell_rest param_key v o)
Keeps-tell_rest param_key v none r h = h
Keeps-tell_rest param_key v (some all_keys) r h = Keeps-tell_nested param_key v all_keys r h

Keeps-update_path : (p : Result Str) (v : Value) (c : Str) → Keeps (update_path p v c)
Keeps-update_path (err e) v c r h = h
Keeps-update_path (ok key) v c r h =
    Keeps-after (tell_watchers key v (keys_of key v) c r.param_subscribers r)
      (tell_rest key v (keys_of key v)) (Keeps-tell_rest key v (keys_of key v))
      (Keeps-tell_watchers key v (keys_of key v) c r.param_subscribers r h)

-- From a consistent state, telling the subscribers of a parameter leads to a consistent one, also
-- where it raises.
pub on_param_update-IsConsistent :
    (key : Str) (v : Value) (c : Str) (r : Registry)
    → IsConsistent r
    → IsConsistent (on_param_update key v c r).0
unfolding on_param_update
on_param_update-IsConsistent key v c r h = elim (Bool-cases (is_empty r.param_subscribers)) [
  | inl nobody ↦ rw nobody h
  | inr somebody ↦ rw somebody (Keeps-update_path (param_path key) v c r h)
]
