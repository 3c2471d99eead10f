-- ===== src/Action/Examples.antt =====
-- One goal followed through its messages, with the numbers of actionlib_msgs/GoalStatus.
use aioros.Common.{
  ℕ, zero, suc, ◌≤◌, ◌≡◌, refl, inl, true, List, [], ◌∷◌, ◌++◌, Option, none, some, Str, str,
  str_eq, invalid_transition,
}
use aioros.Action.States.{CommState, done, GoalState, transitions}
use aioros.Action.Machine.{
  GoalStatus, find_status, on_state, update_status, update_on_result_status,
}
use aioros.Action.Progress.{rank}
use aioros.Action.Tracking.{ActionCall, Event, status, feedback, result, new_call, step, track}
use aioros.Action.Delivery.{IsTracked, rank-track, send_goal-IsTracked}
use aioros.Action.Messages.{feedback_about, feedback-track, WasSent, result-WasSent}
use aioros.Action.Faults.{step-taken_back}
use aioros.Action.Taken.{step-taken}

-- GoalState(number) with the constants that actionlib_msgs documents
abbrev goal_states : ℕ → Option GoalState
goal_states zero = some GoalState.pending
goal_states (suc zero) = some GoalState.active
goal_states (suc (suc zero)) = some GoalState.preempted
goal_states (suc (suc (suc zero))) = some GoalState.succeeded
goal_states (suc (suc (suc (suc zero)))) = some GoalState.aborted
goal_states (suc (suc (suc (suc (suc zero))))) = some GoalState.rejected
goal_states (suc (suc (suc (suc (suc (suc zero)))))) = some GoalState.preempting
goal_states (suc (suc (suc (suc (suc (suc (suc zero))))))) = some GoalState.recalling
goal_states (suc (suc (suc (suc (suc (suc (suc (suc zero)))))))) = some GoalState.recalled
goal_states (suc (suc (suc (suc (suc (suc (suc (suc (suc zero))))))))) = some GoalState.lost
goal_states (suc (suc (suc (suc (suc (suc (suc (suc (suc (suc n)))))))))) = none

abbrev goal : Str
goal = str "g"

abbrev report : ℕ → GoalStatus
report n = record { goal_id = goal; status = n }

abbrev stranger : GoalStatus
stranger = record { goal_id = str "other"; status = 3 }

abbrev messages : List (Event ℕ ℕ)
messages =
    status (report 0 ∷ [])
    ∷ feedback goal 7
    ∷ result stranger 1
    ∷ status (stranger ∷ report 1 ∷ [])
    ∷ feedback (str "other") 8
    ∷ feedback goal 9
    ∷ []

abbrev fresh : ActionCall ℕ ℕ
fresh = new_call goal

abbrev active_call : ActionCall ℕ ℕ
active_call = track goal_states fresh messages

ends_well :
    let call = track goal_states active_call (result (report 3) 42 ∷ []) in
    (call.sm.comm_state ≡ done) × (call.result ≡ some 42) × (call.terminated ≡ true)
unfolding track step update_status update_on_result_status find_status on_state transitions str_eq
ends_well = (refl, refl, refl)

is_active : active_call.sm.comm_state ≡ CommState.active
unfolding track step update_status update_on_result_status find_status on_state transitions str_eq
is_active = refl

rank-track_example : rank fresh.sm.comm_state ≤ rank active_call.sm.comm_state
rank-track_example = rank-track goal_states fresh messages

send_goal-IsTracked_example : IsTracked active_call
send_goal-IsTracked_example = send_goal-IsTracked goal_states goal messages

feedback-track_example : active_call.feedback ≡ fresh.feedback ++ feedback_about goal messages
unfolding track step update_status update_on_result_status find_status on_state transitions str_eq
feedback-track_example = feedback-track goal_states fresh messages refl

result-WasSent_example : WasSent {F = ℕ} {R = ℕ} goal 42 (result (report 3) 42 ∷ [])
unfolding track step update_status update_on_result_status find_status on_state transitions str_eq
result-WasSent_example = result-WasSent {F = ℕ} goal_states goal (result (report 3) 42 ∷ []) 42 refl

step-taken_back_example :
    let call' = step goal_states active_call (result (report 5) 0) in
    (call'.failed ≡ some invalid_transition)
    × (call'.sm.comm_state ≡ CommState.active)
    × (call'.result ≡ active_call.result)
    × (call'.terminated ≡ active_call.terminated)
unfolding track step update_status update_on_result_status find_status on_state transitions str_eq
step-taken_back_example =
    step-taken_back goal_states active_call (report 5) 0 GoalState.rejected refl refl refl refl
      (inl refl) refl

step-taken_example :
    let call' = step goal_states active_call (result (report 3) 42) in
    (call'.result ≡ some 42)
    × (call'.terminated ≡ true)
    × (call'.sm.comm_state ≡ done)
    × (call'.sm.goal_state ≡ GoalState.succeeded)
unfolding track step update_status update_on_result_status find_status on_state transitions str_eq
step-taken_example =
    step-taken goal_states active_call (report 3) 42 GoalState.succeeded
      (CommState.waiting_for_result ∷ []) refl refl refl refl refl refl
