-- ===== src/Action/Messages.antt =====
-- Which messages reach the caller: the filters on the goal's id in _track_feedback and
-- _track_result of aioros/_node/_action/_client.py.
use aioros.Common.{
  ℕ, ◌≡◌, refl, ◌∙◌, sym, ap, ◌⊎◌, inl, inr, true, List, [], ◌∷◌, ◌++◌, append_assoc, append-nil,
  Option, none, some, arith, Str, str_eq, str_eq_iff, if◌then◌else◌,
}
use aioros.Action.States.{CommState, GoalState, Entry, invalid, transitions}
use aioros.Action.Machine.{
  GoalStatus, CommStateMachine, pass_through, run_entry, on_state, update_status, result_state,
  update_on_result_status,
}
use aioros.Action.Tracking.{
  ActionCall, Event, status, feedback, result, wake, new_call, on_event, is_live, step, track,
}

goal_id-pass_through :
    (cs : List CommState) (sm : CommStateMachine) → (pass_through cs sm).goal_id ≡ sm.goal_id
goal_id-pass_through [] sm = refl
goal_id-pass_through (c ∷ cs) sm = goal_id-pass_through cs (record sm { comm_state = c })

goal_id-run_entry :
    (o : Option Entry) (sm : CommStateMachine) → (run_entry o sm).0.goal_id ≡ sm.goal_id
goal_id-run_entry none sm = refl
goal_id-run_entry (some invalid) sm = refl
goal_id-run_entry (some (Entry.states cs)) sm = goal_id-pass_through cs sm

goal_id-on_state : (g : GoalState) (sm : CommStateMachine) → (on_state g sm).0.goal_id ≡ sm.goal_id
unfolding on_state
goal_id-on_state g sm =
    goal_id-run_entry (transitions sm.comm_state g) (record sm { goal_state = g })

-- the feedback about the goal
pub feedback_about : {F R : Type 0} → Str → List (Event F R) → List F
feedback_about id [] = []
feedback_about id (feedback j f ∷ es) =
    let rest = feedback_about id es in if str_eq j id then f ∷ rest else rest
feedback_about id (status l ∷ es) = feedback_about id es
feedback_about id (result s r ∷ es) = feedback_about id es
feedback_about id (wake ∷ es) = feedback_about id es

-- one of the results is about the goal and is this one
abbrev pub WasSent : {F R : Type 0} → Str → R → List (Event F R) → Type 0
WasSent id r [] = ⊥
WasSent id r (result s q ∷ es) = ((s.goal_id ≡ id) × (q ≡ r)) ⊎ WasSent id r es
WasSent id r (_ ∷ es) = WasSent id r es

module _ (goal_state_of : ℕ → Option GoalState) where
  goal_id-update_status :
      (sm : CommStateMachine) (l : List GoalStatus)
      → (update_status goal_state_of sm l).0.goal_id ≡ sm.goal_id
  unfolding update_status
  goal_id-update_status sm l = grind (arith, goal_id-on_state)

  goal_id-result_state :
      (g : GoalState) (sm : CommStateMachine) (s : GoalStatus)
      → (result_state goal_state_of g sm s).0.goal_id ≡ sm.goal_id
  goal_id-result_state g sm s =
      ground (arith, goal_id-update_status (record sm { goal_state = g }) (s ∷ []))

  goal_id-update_on_result_status :
      (sm : CommStateMachine) (s : GoalStatus)
      → (update_on_result_status goal_state_of sm s).0.goal_id ≡ sm.goal_id
  unfolding update_on_result_status
  goal_id-update_on_result_status sm s = grind (arith, goal_id-result_state)

module _ {F R : Type 0} (goal_state_of : ℕ → Option GoalState) where
  goal_id-on_event :
      (e : Event F R) (call : ActionCall F R)
      → (on_event goal_state_of e call).sm.goal_id ≡ call.sm.goal_id
  goal_id-on_event (status l) call = ground (arith, goal_id-update_status goal_state_of call.sm l)
  goal_id-on_event (feedback id f) call = ground arith
  goal_id-on_event (result s r) call =
      ground (arith, goal_id-update_on_result_status goal_state_of call.sm s)
  goal_id-on_event wake call = ground arith

  goal_id-step :
      (call : ActionCall F R) (e : Event F R)
      → (step goal_state_of call e).sm.goal_id ≡ call.sm.goal_id
  unfolding step
  goal_id-step call e = ground (arith, goal_id-on_event e call)

  is_live-step :
      (call : ActionCall F R) (e : Event F R)
      → is_live (step goal_state_of call e) ≡ true
      → is_live call ≡ true
  unfolding step
  is_live-step call e h = ground arith

  is_live-track :
      (call : ActionCall F R) (es : List (Event F R))
      → is_live (track goal_state_of call es) ≡ true
      → is_live call ≡ true
  unfolding track
  is_live-track call [] h = h
  is_live-track call (e ∷ es) h =
      is_live-step call e (is_live-track (step goal_state_of call e) es h)

  feedback-step :
      (call : ActionCall F R) (e : Event F R)
      → is_live call ≡ true
      → (step goal_state_of call e).feedback
        ≡ call.feedback ++ feedback_about call.sm.goal_id (e ∷ [])
  unfolding step feedback_about
  feedback-step call (status l) h = rw h (ground (arith, append-nil call.feedback))
  feedback-step call (feedback id f) h = rw h (ground (arith, append-nil call.feedback))
  feedback-step call (result s r) h = rw h (ground (arith, append-nil call.feedback))
  feedback-step call wake h = rw h (ground (arith, append-nil call.feedback))

  feedback_about-cons :
      (id : Str) (e : Event F R) (es : List (Event F R))
      → feedback_about id (e ∷ es) ≡ feedback_about id (e ∷ []) ++ feedback_about id es
  unfolding feedback_about
  feedback_about-cons id (feedback j f) es = ground arith
  feedback_about-cons id (status l) es = refl
  feedback_about-cons id (result s r) es = refl
  feedback_about-cons id wake es = refl

  -- While the task group runs, the feedback stream holds what it held before and then exactly the
  -- feedback messages about the goal, in the order of arrival.
  pub feedback-track :
      (call : ActionCall F R) (es : List (Event F R))
      → is_live (track goal_state_of call es) ≡ true
      → (track goal_state_of call es).feedback ≡ call.feedback ++ feedback_about call.sm.goal_id es
  unfolding track feedback_about
  feedback-track call [] h = sym (append-nil call.feedback)
  feedback-track call (e ∷ es) h =
      feedback-track (step goal_state_of call e) es h
      ∙ rw (goal_id-step call e) (
          simp
            (
              feedback-step call e
                  (is_live-step call e (is_live-track (step goal_state_of call e) es h)),
              append_assoc,
            )
            (ap (λ l. call.feedback ++ l) (sym (feedback_about-cons call.sm.goal_id e es))))

  result-step :
      (call : ActionCall F R) (e : Event F R) (r : R)
      → (step goal_state_of call e).result ≡ some r
      → WasSent call.sm.goal_id r (e ∷ []) ⊎ (call.result ≡ some r)
  unfolding step
  result-step call (status l) r h = inr (ground arith)
  result-step call (feedback id f) r h = inr (ground arith)
  result-step call (result s q) r h = ground (arith, str_eq_iff s.goal_id call.sm.goal_id)
  result-step call wake r h = inr (ground arith)

  WasSent-cons :
      (id : Str) (r : R) (e : Event F R) (es : List (Event F R))
      → WasSent id r (e ∷ []) ⊎ WasSent id r es
      → WasSent id r (e ∷ es)
  WasSent-cons id r (result s q) es h = ground arith
  WasSent-cons id r (status l) es h = ground arith
  WasSent-cons id r (feedback j f) es h = ground arith
  WasSent-cons id r wake es h = ground arith

  result-track :
      (call : ActionCall F R) (es : List (Event F R)) (r : R)
      → (track goal_state_of call es).result ≡ some r
      → WasSent call.sm.goal_id r es ⊎ (call.result ≡ some r)
  unfolding track
  result-track call [] r h = inr h
  result-track call (e ∷ es) r h = elim (result-track (step goal_state_of call e) es r h) [
    | inl later ↦ inl (WasSent-cons call.sm.goal_id r e es (inr (rw (← goal_id-step call e) later)))
    | inr now ↦ elim (result-step call e r now) [
      | inl sent ↦ inl (WasSent-cons call.sm.goal_id r e es (inl sent))
      | inr before ↦ inr before
    ]
  ]

  -- The result that a call of send_goal hands out was in a result message about its own goal.
  pub result-WasSent :
      (id : Str) (es : List (Event F R)) (r : R)
      → (track goal_state_of (new_call id) es).result ≡ some r
      → WasSent id r es
  result-WasSent id es r h = elim (result-track (new_call id) es r h) [
    | inl sent ↦ sent
    | inr before ↦ cc
  ]
