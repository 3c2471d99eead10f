-- ===== src/Action/Machine.antt =====
-- CommStateMachine of aioros/_node/_action/_state_machine.py: what the client knows of one goal.
use aioros.Common.{
  ℕ, Bool, true, false, not, List, [], ◌∷◌, Option, none, some, Str, str_eq, key_error, value_error,
  invalid_transition, Result, ok, err, if◌then◌else◌,
}
use aioros.Action.States.{
  CommState, waiting_for_goal_ack, waiting_for_result, done, GoalState, is_terminal, Entry, states,
  invalid, transitions,
}

-- actionlib_msgs' GoalStatus: the id of the goal and the number of its state
pub record GoalStatus : Type 0 where
  pub goal_id : Str
  pub status : ℕ

pub record CommStateMachine : Type 0 where
  pub goal_id : Str
  pub goal_state : GoalState
  pub comm_state : CommState

-- CommStateMachine(goal_id)
abbrev pub new_machine : Str → CommStateMachine
new_machine id = record {
  goal_id = id;
  goal_state = GoalState.pending;
  comm_state = waiting_for_goal_ack;
}

-- the first status of the list that is about the goal
unfoldable pub find_status : Str → List GoalStatus → Option ℕ
find_status id [] = none
find_status id (s ∷ rest) = if str_eq s.goal_id id then some s.status else find_status id rest

-- `comm_state not in (WAITING_FOR_GOAL_ACK, WAITING_FOR_RESULT, DONE)`
abbrev pub may_be_lost : CommState → Bool
may_be_lost waiting_for_goal_ack = false
may_be_lost waiting_for_result = false
may_be_lost done = false
may_be_lost _ = true

-- `for state in …: self.comm_state = state`
abbrev pub pass_through : List CommState → CommStateMachine → CommStateMachine
pass_through [] sm = sm
pass_through (c ∷ cs) sm = pass_through cs (record sm { comm_state = c })

abbrev pub run_entry : Option Entry → CommStateMachine → CommStateMachine × Result (Unit {0})
run_entry none sm = (sm, err (key_error []))
run_entry (some invalid) sm = (sm, err invalid_transition)
run_entry (some (states cs)) sm = (pass_through cs sm, ok tt)

-- the goal is in the message, with this state
unfoldable pub on_state : GoalState → CommStateMachine → CommStateMachine × Result (Unit {0})
on_state g sm = run_entry (transitions sm.comm_state g) (record sm { goal_state = g })

-- the goal is not in the message
abbrev pub on_absent : CommStateMachine → CommStateMachine
on_absent sm =
    if may_be_lost sm.comm_state
    then record sm { goal_state = GoalState.lost; comm_state = done }
    else sm

module _ (goal_state_of : ℕ → Option GoalState) where
  -- `GoalState(number)`; another number is a `ValueError`, on which the method returns
  abbrev on_number : ℕ → CommStateMachine → CommStateMachine × Result (Unit {0})
  on_number n sm = elim (goal_state_of n) [ none ↦ (sm, ok tt) | some g ↦ on_state g sm ]

  unfoldable pub update_status :
      CommStateMachine → List GoalStatus → CommStateMachine × Result (Unit {0})
  update_status sm status_list = elim (find_status sm.goal_id status_list) [
    | none ↦ (on_absent sm, ok tt)
    | some n ↦ on_number n sm
  ]

  -- the end of `update_on_result_status`, after `update_status` returned or raised
  abbrev pub finish_result : CommStateMachine × Result (Unit {0}) → CommStateMachine × Result Bool
  finish_result (sm, ok _) = (record sm { comm_state = done }, ok true)
  finish_result (sm, err e) = (sm, err e)

  abbrev pub result_state :
      GoalState → CommStateMachine → GoalStatus → CommStateMachine × Result Bool
  result_state g sm goal_status =
      let sm' = record sm { goal_state = g } in
      if not (is_terminal sm.comm_state)
      then finish_result (update_status sm' (goal_status ∷ []))
      else (sm', ok false)

  unfoldable pub update_on_result_status :
      CommStateMachine → GoalStatus → CommStateMachine × Result Bool
  update_on_result_status sm goal_status = elim (goal_state_of goal_status.status) [
    | none ↦ (sm, err value_error)
    | some g ↦ result_state g sm goal_status
  ]
