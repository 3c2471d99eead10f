-- ===== src/Action/Faults.antt =====
-- Messages that end the tracking of a goal with an exception: InvalidTransition is iterated by the
-- `for` line of update_status, outside its `try`, and TRANSITIONS has no column for LOST
-- (aioros/_node/_action/_state_machine.py).
use aioros.Common.{
  ℕ, ◌≡◌, ◌⊎◌, true, List, [], Option, some, arith, str_eq_iff, key_error, invalid_transition,
}
use aioros.Action.States.{CommState, GoalState, transitions}
use aioros.Action.Machine.{
  GoalStatus, find_status, on_state, update_status, update_on_result_status,
}
use aioros.Action.Tracking.{ActionCall, result, status, is_live, step}

-- Reports that no row of ACTIVE allows: the goal was seen active, and now never started.
abbrev pub IsTakenBack : GoalState → Type 0
IsTakenBack g = (g ≡ GoalState.rejected) ⊎ (g ≡ GoalState.recalled)

module _ {F R : Type 0} (goal_state_of : ℕ → Option GoalState) where
  -- A result message that rejects or recalls a goal which the client has seen active ends the
  -- tracking with an escaping InvalidTransitionError: the state stays ACTIVE, no result is stored
  -- and no waiter is woken.
  pub step-taken_back :
      (call : ActionCall F R) (s : GoalStatus) (r : R) (g : GoalState)
      → is_live call ≡ true
      → call.result_open ≡ true
      → s.goal_id ≡ call.sm.goal_id
      → goal_state_of s.status ≡ some g
      → IsTakenBack g
      → call.sm.comm_state ≡ CommState.active
      → let call' = step goal_state_of call (result s r) in
        (call'.failed ≡ some invalid_transition)
        × (call'.sm.comm_state ≡ CommState.active)
        × (call'.result ≡ call.result)
        × (call'.terminated ≡ call.terminated)
  unfolding step update_on_result_status update_status find_status on_state transitions
  step-taken_back call s r g live open' same known back c =
      ground (arith, str_eq_iff s.goal_id call.sm.goal_id)

  -- A status message that reports the goal as LOST ends the tracking with a KeyError, whatever the
  -- communication state was, and leaves that state.
  pub step-lost :
      (call : ActionCall F R) (l : List GoalStatus) (n : ℕ)
      → is_live call ≡ true
      → call.status_open ≡ true
      → find_status call.sm.goal_id l ≡ some n
      → goal_state_of n ≡ some GoalState.lost
      → let call' = step goal_state_of call (status l) in
        (call'.failed ≡ some (key_error []))
        × (call'.sm.comm_state ≡ call.sm.comm_state)
        × (call'.terminated ≡ call.terminated)
  unfolding step update_status on_state transitions
  step-lost call l n live open' found known = ground arith
