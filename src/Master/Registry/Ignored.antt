-- ===== src/Master/Registry/Ignored.antt =====
-- on_param_update of Registry, aioros/master/_registry.py: the node of the caller that it ignores.
use aioros.Common.{
  ◌≡◌, refl, ◌∙◌, false, List, [], ◌∷◌, Option, none, some, Str, str_eq, Result, ok, err,
  Bool-cases, Option-cases, inl, inr, arith,
}
use aioros.Dict.{Dict, get}
use aioros.Value.{Value}
use aioros.Master.Node.{Registration, param_update, send}
use aioros.Master.Registry.{Registry}
use aioros.Master.Registry.Params.{
  Step, after, tell, tell_others, news, tell_news, tell_watchers, keys_of, tell_rest, update_path,
  param_path, on_param_update,
}
use aioros.Master.Registry.Updates.{nodes-with_node}

module _ (c : Str) where
  -- the step leaves the node of `c` as it is
  abbrev Spares : Step → Type 0
  Spares f = (r : Registry) → get (f r).0.nodes c ≡ get r.nodes c

  Spares-after :
      (p : Registry × Result (Unit {0})) (f : Step)
      → Spares f
      → get (after p f).0.nodes c ≡ get p.0.nodes c
  Spares-after (r, ok t) f h = h r
  Spares-after (r, err e) f h = refl

  Spares-tell : (b key : Str) (v : Value) → str_eq b c ≡ false → Spares (tell b key v)
  unfolding tell
  Spares-tell b key v other r = elim (Option-cases (get r.nodes b)) [
    | inl e ↦ rw (e, tell) refl
    | inr (node, e) ↦
        rw (e, tell) (rw (nodes-with_node b (send (param_update key v)) r c, other) refl)
  ]

  Spares-tell_others :
      (key : Str) (v : Value) (regs : List Registration) → Spares (tell_others c key v regs)
  unfolding tell_others
  Spares-tell_others key v [] r = refl
  Spares-tell_others key v (reg ∷ regs) r = elim (Bool-cases (str_eq reg.caller_id c)) [
    | inl same ↦ rw same (Spares-tell_others key v regs r)
    | inr other ↦ rw other (
        Spares-after (tell reg.caller_id key v r) (tell_others c key v regs)
          (Spares-tell_others key v regs)
        ∙ Spares-tell reg.caller_id key v other r)
  ]

  Spares-tell_news :
      (o : Option (Str × Value)) (regs : List Registration) → Spares (tell_news c o regs)
  Spares-tell_news none regs r = refl
  Spares-tell_news (some (key, v)) regs r = Spares-tell_others key v regs r

  Spares-tell_watchers :
      (param_key : Str) (v : Value) (all_keys : Option (List Str)) (d : Dict (List Registration))
      → Spares (tell_watchers param_key v all_keys c d)
  unfolding tell_watchers
  Spares-tell_watchers param_key v all_keys [] r = refl
  Spares-tell_watchers param_key v all_keys ((key, regs) ∷ d) r =
      Spares-after (tell_news c (news param_key v all_keys key) regs r)
        (tell_watchers param_key v all_keys c d) (Spares-tell_watchers param_key v all_keys d)
      ∙ Spares-tell_news (news param_key v all_keys key) regs r

  Spares-update_path :
      (p : Result Str) (v : Value)
      → ((key : Str) → keys_of key v ≡ none)
      → Spares (update_path p v c)
  Spares-update_path (err e) v plain r = refl
  Spares-update_path (ok key) v plain r = rw (plain key) (
      Spares-after (tell_watchers key v none c r.param_subscribers r) (tell_rest key v none)
        (λ r'. refl)
      ∙ Spares-tell_watchers key v none r.param_subscribers r)

  -- A caller that sets a parameter to a value that is not a dict is told nothing of it: its node is
  -- left as it was, also where the update raises.
  pub nodes-on_param_update :
      (param_key : Str) (v : Value) (r : Registry)
      → ((key : Str) → keys_of key v ≡ none)
      → get (on_param_update param_key v c r).0.nodes c ≡ get r.nodes c
  unfolding on_param_update
  nodes-on_param_update param_key v r plain =
      ground (arith, Spares-update_path (param_path param_key) v plain r)
