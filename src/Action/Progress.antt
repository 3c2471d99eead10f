-- ===== src/Action/Progress.antt =====
-- How far a goal has come: update_status and update_on_result_status of
-- aioros/_node/_action/_state_machine.py against an order on the communication states.
use aioros.Common.{ℕ, ◌≤◌, ◌≡◌, refl, Bool, true, false, List, [], ◌∷◌, Option, arith}
use aioros.Action.States.{
  CommState, waiting_for_goal_ack, pending, active, waiting_for_result, waiting_for_cancel_ack,
  recalling, preempting, done, lost, GoalState, is_terminal, transitions,
}
use aioros.Action.Machine.{
  GoalStatus, CommStateMachine, run_entry, on_state, update_status, result_state,
  update_on_result_status,
}

-- the place of a state on the way from the request to the result
abbrev pub rank : CommState → ℕ
rank waiting_for_goal_ack = 0
rank pending = 1
rank waiting_for_cancel_ack = 1
rank active = 2
rank recalling = 2
rank preempting = 3
rank waiting_for_result = 4
rank done = 5
rank lost = 5

-- the states that the client of this library is ever in
abbrev pub is_used : CommState → Bool
is_used waiting_for_cancel_ack = false
is_used lost = false
is_used _ = true

pub rank-le : (c : CommState) → rank c ≤ 5
rank-le waiting_for_goal_ack = omega arith
rank-le _ = omega arith

-- the last places are those of the terminal states
pub is_terminal-rank :
    (c d : CommState) → is_terminal c ≡ true → rank c ≤ rank d → is_terminal d ≡ true
is_terminal-rank c d t h = ground arith

rank-run_entry :
    (c : CommState) (g : GoalState) (sm : CommStateMachine)
    → sm.comm_state ≡ c
    → rank c ≤ rank (run_entry (transitions c g) sm).0.comm_state
unfolding transitions
rank-run_entry waiting_for_goal_ack GoalState.lost sm e = ground arith
rank-run_entry waiting_for_goal_ack GoalState.rejected sm e = ground arith
rank-run_entry active GoalState.rejected sm e = ground arith
rank-run_entry pending GoalState.rejected sm e = ground arith
rank-run_entry waiting_for_cancel_ack GoalState.rejected sm e = ground arith
rank-run_entry waiting_for_result GoalState.rejected sm e = ground arith
rank-run_entry recalling GoalState.rejected sm e = ground arith
rank-run_entry preempting GoalState.rejected sm e = ground arith
rank-run_entry done GoalState.rejected sm e = ground arith
rank-run_entry _ _ sm e = ground arith

rank-on_state :
    (g : GoalState) (sm : CommStateMachine) → rank sm.comm_state ≤ rank (on_state g sm).0.comm_state
unfolding on_state
rank-on_state g sm = rank-run_entry sm.comm_state g (record sm { goal_state = g }) refl

is_used-run_entry :
    (c : CommState) (g : GoalState) (sm : CommStateMachine)
    → sm.comm_state ≡ c
    → is_used c ≡ true
    → is_used (run_entry (transitions c g) sm).0.comm_state ≡ true
unfolding transitions
is_used-run_entry waiting_for_goal_ack GoalState.rejected sm e u = ground arith
is_used-run_entry active GoalState.rejected sm e u = ground arith
is_used-run_entry pending GoalState.rejected sm e u = ground arith
is_used-run_entry waiting_for_cancel_ack GoalState.rejected sm e u = ground arith
is_used-run_entry waiting_for_result GoalState.rejected sm e u = ground arith
is_used-run_entry recalling GoalState.rejected sm e u = ground arith
is_used-run_entry preempting GoalState.rejected sm e u = ground arith
is_used-run_entry done GoalState.rejected sm e u = ground arith
is_used-run_entry _ _ sm e u = ground arith

is_used-on_state :
    (g : GoalState) (sm : CommStateMachine)
    → is_used sm.comm_state ≡ true
    → is_used (on_state g sm).0.comm_state ≡ true
unfolding on_state
is_used-on_state g sm u = is_used-run_entry sm.comm_state g (record sm { goal_state = g }) refl u

module _ (goal_state_of : ℕ → Option GoalState) where
  pub rank-update_status :
      (sm : CommStateMachine) (l : List GoalStatus)
      → rank sm.comm_state ≤ rank (update_status goal_state_of sm l).0.comm_state
  unfolding update_status
  rank-update_status sm l = grind (arith, rank-on_state)

  pub is_used-update_status :
      (sm : CommStateMachine) (l : List GoalStatus)
      → is_used sm.comm_state ≡ true
      → is_used (update_status goal_state_of sm l).0.comm_state ≡ true
  unfolding update_status
  is_used-update_status sm l u = grind (arith, is_used-on_state)

  rank-result_state :
      (g : GoalState) (sm : CommStateMachine) (s : GoalStatus)
      → rank sm.comm_state ≤ rank (result_state goal_state_of g sm s).0.comm_state
  rank-result_state g sm s =
      ground
        (arith, rank-update_status (record sm { goal_state = g }) (s ∷ []), rank-le sm.comm_state)

  pub rank-update_on_result_status :
      (sm : CommStateMachine) (s : GoalStatus)
      → rank sm.comm_state ≤ rank (update_on_result_status goal_state_of sm s).0.comm_state
  unfolding update_on_result_status
  rank-update_on_result_status sm s = grind (arith, rank-result_state)

  pub is_used-update_on_result_status :
      (sm : CommStateMachine) (s : GoalStatus)
      → is_used sm.comm_state ≡ true
      → is_used (update_on_result_status goal_state_of sm s).0.comm_state ≡ true
  unfolding update_on_result_status
  is_used-update_on_result_status sm s u = grind (arith, is_used-update_status)
