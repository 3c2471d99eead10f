-- ===== src/Action/Raises.antt =====
-- What update_status and update_on_result_status of aioros/_node/_action/_state_machine.py leave
-- behind when they raise, and what they return.
use aioros.Common.{
  ◌≡◌, ◌⊎◌, true, false, List, [], ◌∷◌, Option, ℕ, arith, ok, err, Exc, Result, Bool, Option-cases,
  inl, inr,
}
use aioros.Action.States.{done, GoalState, is_terminal}
use aioros.Action.Machine.{
  GoalStatus, CommStateMachine, on_state, update_status, result_state, update_on_result_status,
}

module _ (goal_state_of : ℕ → Option GoalState) where
  -- A status message is taken in full, or the method raises and leaves the communication state.
  pub update_status_cases :
      (sm : CommStateMachine) (l : List GoalStatus)
      → ((update_status goal_state_of sm l).1 ≡ ok tt)
        ⊎ ((e : Exc) × ((update_status goal_state_of sm l).1 ≡ err e)
            × ((update_status goal_state_of sm l).0.comm_state ≡ sm.comm_state))
  unfolding update_status on_state
  update_status_cases sm l = ground arith

  -- the three ways that a result message can end
  abbrev pub ResultCases : CommStateMachine → CommStateMachine × Result Bool → Type 0
  ResultCases sm (sm', r) =
      ((r ≡ ok true) × (sm'.comm_state ≡ done) × (is_terminal sm.comm_state ≡ false))
      ⊎ ((r ≡ ok false) × (sm'.comm_state ≡ sm.comm_state) × (is_terminal sm.comm_state ≡ true))
      ⊎ ((e : Exc) × (r ≡ err e) × (sm'.comm_state ≡ sm.comm_state))

  result_state_cases :
      (g : GoalState) (sm : CommStateMachine) (s : GoalStatus)
      → ResultCases sm (result_state goal_state_of g sm s)
  result_state_cases g sm s =
      ground (arith, update_status_cases (record sm { goal_state = g }) (s ∷ []))

  pub update_on_result_status_cases :
      (sm : CommStateMachine) (s : GoalStatus)
      → ResultCases sm (update_on_result_status goal_state_of sm s)
  unfolding update_on_result_status
  update_on_result_status_cases sm s = elim (Option-cases (goal_state_of s.status)) [
    | inl e ↦ ground arith
    | inr (g, e) ↦ ground (arith, result_state_cases g sm s)
  ]
