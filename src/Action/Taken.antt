-- ===== src/Action/Taken.antt =====
-- The message that ends a goal well: _track_result of aioros/_node/_action/_client.py with
-- update_on_result_status of aioros/_node/_action/_state_machine.py.
use aioros.Common.{ℕ, ◌≡◌, refl, true, false, List, [], ◌∷◌, Option, some, arith, ok, str_eq_iff}
use aioros.Action.States.{CommState, done, GoalState, is_terminal, Entry, transitions}
use aioros.Action.Machine.{
  GoalStatus, CommStateMachine, pass_through, find_status, on_state, update_status,
  update_on_result_status,
}
use aioros.Action.Tracking.{ActionCall, result, is_live, step}

goal_state-pass_through :
    (cs : List CommState) (sm : CommStateMachine) → (pass_through cs sm).goal_state ≡ sm.goal_state
goal_state-pass_through [] sm = refl
goal_state-pass_through (c ∷ cs) sm = goal_state-pass_through cs (record sm { comm_state = c })

module _ (goal_state_of : ℕ → Option GoalState) where
  update_status_one :
      (sm : CommStateMachine) (s : GoalStatus) (g : GoalState) (cs : List CommState)
      → s.goal_id ≡ sm.goal_id
      → goal_state_of s.status ≡ some g
      → transitions sm.comm_state g ≡ some (Entry.states cs)
      → update_status goal_state_of sm (s ∷ [])
        ≡ (pass_through cs (record sm { goal_state = g }), ok tt)
  unfolding update_status find_status on_state
  update_status_one sm s g cs same known row = ground (arith, str_eq_iff s.goal_id sm.goal_id)

  update_on_result_status_one :
      (sm : CommStateMachine) (s : GoalStatus) (g : GoalState) (cs : List CommState)
      → s.goal_id ≡ sm.goal_id
      → goal_state_of s.status ≡ some g
      → is_terminal sm.comm_state ≡ false
      → transitions sm.comm_state g ≡ some (Entry.states cs)
      → update_on_result_status goal_state_of sm s
        ≡ (record (pass_through cs (record sm { goal_state = g })) { comm_state = done }, ok true)
  unfolding update_on_result_status
  update_on_result_status_one sm s g cs same known running row =
      rw (known, update_on_result_status)
        (rw (running, update_status_one (record sm { goal_state = g }) s g cs same known row) refl)

module _ {F R : Type 0} (goal_state_of : ℕ → Option GoalState) where
  -- While the task group runs and a result is waited for, a result message about the goal whose
  -- state the table allows ends the call: its result is stored, the waiters are woken, the
  -- communication state is DONE and the goal state is the one reported.
  pub step-taken :
      (call : ActionCall F R) (s : GoalStatus) (r : R) (g : GoalState) (cs : List CommState)
      → is_live call ≡ true
      → call.result_open ≡ true
      → s.goal_id ≡ call.sm.goal_id
      → goal_state_of s.status ≡ some g
      → is_terminal call.sm.comm_state ≡ false
      → transitions call.sm.comm_state g ≡ some (Entry.states cs)
      → let call' = step goal_state_of call (result s r) in
        (call'.result ≡ some r)
        × (call'.terminated ≡ true)
        × (call'.sm.comm_state ≡ done)
        × (call'.sm.goal_state ≡ g)
  unfolding step
  step-taken call s r g cs live open' same known running row = ground (
    arith,
    str_eq_iff s.goal_id call.sm.goal_id,
    update_on_result_status_one goal_state_of call.sm s g cs same known running row,
    goal_state-pass_through cs (record call.sm { goal_state = g }),
  )
