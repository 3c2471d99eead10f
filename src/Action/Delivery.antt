-- ===== src/Action/Delivery.antt =====
-- The calls that send_goal makes: ActionCall of aioros/_node/_action/_client.py over every
-- order of the messages.
use aioros.Common.{
  ℕ, ◌≤◌, ◌≡◌, refl, ◌⊎◌, inl, inr, true, List, [], ◌∷◌, Option, none, arith, Str, Bool-cases,
}
use aioros.Action.States.{GoalState, is_terminal}
use aioros.Action.Machine.{GoalStatus, update_status, update_on_result_status}
use aioros.Action.Progress.{
  rank, is_used, is_terminal-rank, rank-update_status, rank-update_on_result_status,
  is_used-update_status, is_used-update_on_result_status,
}
use aioros.Action.Raises.{update_status_cases, update_on_result_status_cases}
use aioros.Action.Tracking.{
  ActionCall, Event, status, feedback, result, wake, new_call, after_status, after_result, on_event,
  is_live, step, track,
}

-- What holds of a call between two messages.
pub record IsTracked {ℓ} {F R : Type ℓ} (call : ActionCall F R) : Type ℓ where
  pub used : is_used call.sm.comm_state ≡ true
  pub ended : call.terminated ≡ is_terminal call.sm.comm_state
  pub reported : (call.result ≡ none) ⊎ (call.terminated ≡ true)

module _ {ℓ} {F R : Type ℓ} (goal_state_of : ℕ → Option GoalState) where
  status-IsTracked :
      (call : ActionCall F R) (l : List GoalStatus)
      → IsTracked call
      → IsTracked (after_status call (update_status goal_state_of call.sm l))
  status-IsTracked call l h = ground (
    arith,
    is_used-update_status goal_state_of call.sm l,
    is_terminal-rank call.sm.comm_state (update_status goal_state_of call.sm l).0.comm_state,
    rank-update_status goal_state_of call.sm l,
    update_status_cases goal_state_of call.sm l,
  )

  result-IsTracked :
      (call : ActionCall F R) (s : GoalStatus) (r : R)
      → IsTracked call
      → IsTracked (after_result call r (update_on_result_status goal_state_of call.sm s))
  result-IsTracked call s r h = ground (
    arith,
    is_used-update_on_result_status goal_state_of call.sm s,
    is_terminal-rank call.sm.comm_state
        (update_on_result_status goal_state_of call.sm s).0.comm_state,
    rank-update_on_result_status goal_state_of call.sm s,
    update_on_result_status_cases goal_state_of call.sm s,
  )

  on_event-IsTracked :
      (e : Event F R) (call : ActionCall F R)
      → IsTracked call
      → IsTracked (on_event goal_state_of e call)
  on_event-IsTracked (status l) call h = ground (arith, status-IsTracked call l)
  on_event-IsTracked (feedback id f) call h = ground arith
  on_event-IsTracked (result s r) call h = ground (arith, result-IsTracked call s r)
  on_event-IsTracked wake call h = ground arith

  step-IsTracked :
      (call : ActionCall F R) (e : Event F R)
      → IsTracked call
      → IsTracked (step goal_state_of call e)
  unfolding step
  step-IsTracked call e h = elim (Bool-cases (is_live call)) [
    | inl live ↦ rw live (on_event-IsTracked e call h)
    | inr dead ↦ rw dead h
  ]

  pub track-IsTracked :
      (call : ActionCall F R) (es : List (Event F R))
      → IsTracked call
      → IsTracked (track goal_state_of call es)
  unfolding track
  track-IsTracked call [] h = h
  track-IsTracked call (e ∷ es) h =
      track-IsTracked (step goal_state_of call e) es (step-IsTracked call e h)

  rank-on_event :
      (e : Event F R) (call : ActionCall F R)
      → rank call.sm.comm_state ≤ rank (on_event goal_state_of e call).sm.comm_state
  rank-on_event (status l) call = ground (arith, rank-update_status goal_state_of call.sm l)
  rank-on_event (feedback id f) call = ground arith
  rank-on_event (result s r) call =
      ground (arith, rank-update_on_result_status goal_state_of call.sm s)
  rank-on_event wake call = ground arith

  rank-step :
      (call : ActionCall F R) (e : Event F R)
      → rank call.sm.comm_state ≤ rank (step goal_state_of call e).sm.comm_state
  unfolding step
  rank-step call e = ground (arith, rank-on_event e call)

  -- Whatever messages arrive and in whatever order, the communication state of a call never moves
  -- back in the order of `rank`.
  pub rank-track :
      (call : ActionCall F R) (es : List (Event F R))
      → rank call.sm.comm_state ≤ rank (track goal_state_of call es).sm.comm_state
  unfolding track
  rank-track call [] = omega arith
  rank-track call (e ∷ es) =
      omega (arith, rank-step call e, rank-track (step goal_state_of call e) es)

  -- Of a call that send_goal made, after any messages: the waiters are woken exactly when the
  -- communication state is terminal, a result is held only by a woken call, and the state is
  -- neither WAITING_FOR_CANCEL_ACK nor LOST.
  pub send_goal-IsTracked :
      (id : Str) (es : List (Event F R)) → IsTracked (track goal_state_of (new_call id) es)
  send_goal-IsTracked id es =
      track-IsTracked (new_call id) es (record { used = refl; ended = refl; reported = inl refl })
