-- ===== src/Action/Tracking.antt =====
-- ActionCall of aioros/_node/_action/_client.py: the three loops that follow one goal.
use aioros.Common.{
  Bool, true, false, not, ◌&&◌, List, [], ◌∷◌, ◌++◌, Option, none, some, ℕ, Str, str_eq, Exc,
  Result, ok, err, if◌then◌else◌,
}
use aioros.Action.States.{GoalState, is_terminal}
use aioros.Action.Machine.{
  GoalStatus, CommStateMachine, new_machine, update_status, update_on_result_status,
}

-- What the loops share, and which of them still run. `failed` is the exception that ended the task
-- group; the memory stream of the feedback is the list of what was sent to it.
pub record ActionCall {ℓ} (F R : Type ℓ) : Type ℓ where
  pub sm : CommStateMachine
  pub terminated : Bool
  pub result : Option R
  pub feedback : List F
  pub status_open : Bool
  pub result_open : Bool
  pub cancelled : Bool
  pub failed : Option Exc

-- A message on one of the three topics, or the cancellation that `track` makes once it wakes.
pub data Event {ℓ} (F R : Type ℓ) : Type ℓ where
  status : List GoalStatus → Event F R
  feedback : Str → F → Event F R
  result : GoalStatus → R → Event F R
  wake : Event F R

module _ {ℓ} {F R : Type ℓ} where
  abbrev pub new_call : Str → ActionCall F R
  new_call id = record {
    sm = new_machine id;
    terminated = false;
    result = none;
    feedback = [];
    status_open = true;
    result_open = true;
    cancelled = false;
    failed = none;
  }

  -- the rest of one round of `_track_status`
  abbrev pub after_status : ActionCall F R → CommStateMachine × Result (Unit {0}) → ActionCall F R
  after_status call (sm, err e) = record call { sm = sm; failed = some e }
  after_status call (sm, ok _) =
      if is_terminal sm.comm_state
      then record call { sm = sm; terminated = true; status_open = false }
      else record call { sm = sm }

  -- the rest of one round of `_track_result`
  abbrev pub after_result : ActionCall F R → R → CommStateMachine × Result Bool → ActionCall F R
  after_result call r (sm, err e) = record call { sm = sm; failed = some e }
  after_result call r (sm, ok true) = record call {
    sm = sm;
    result = some r;
    terminated = true;
    result_open = false;
  }
  after_result call r (sm, ok false) = record call { sm = sm }

  -- the task group runs
  abbrev pub is_live : ActionCall F R → Bool
  is_live call = elim call.failed [ none ↦ not call.cancelled | some _ ↦ false ]

  module _ (goal_state_of : ℕ → Option GoalState) where
    abbrev pub on_event : Event F R → ActionCall F R → ActionCall F R
    on_event (status l) call =
        if call.status_open then after_status call (update_status goal_state_of call.sm l) else call
    on_event (feedback id f) call =
        if str_eq id call.sm.goal_id
        then record call { feedback = call.feedback ++ f ∷ [] }
        else call
    on_event (result s r) call =
        if call.result_open && str_eq s.goal_id call.sm.goal_id
        then after_result call r (update_on_result_status goal_state_of call.sm s)
        else call
    on_event wake call = if call.terminated then record call { cancelled = true } else call

    -- one event; a cancelled or failed task group handles none
    unfoldable pub step : ActionCall F R → Event F R → ActionCall F R
    step call e = if is_live call then on_event e call else call

    unfoldable pub track : ActionCall F R → List (Event F R) → ActionCall F R
    track call [] = call
    track call (e ∷ es) = track (step call e) es
