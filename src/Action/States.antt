-- ===== src/Action/States.antt =====
-- The states of a goal as the server reports them and as the client tracks them
-- (aioros/abc/_action.py), and the table TRANSITIONS of aioros/_node/_action/_state_machine.py.
use aioros.Common.{Bool, true, false, List, [], ◌∷◌, Option, none, some}

pub data CommState : Type 0 where
  waiting_for_goal_ack pending active waiting_for_result waiting_for_cancel_ack : CommState
  recalling preempting done lost : CommState

pub data GoalState : Type 0 where
  pending active preempted succeeded aborted rejected preempting recalling recalled : GoalState
  lost : GoalState

-- CommState.is_terminal
abbrev pub is_terminal : CommState → Bool
is_terminal done = true
is_terminal CommState.lost = true
is_terminal _ = false

-- GoalState.is_terminal
abbrev pub goal_is_terminal : GoalState → Bool
goal_is_terminal recalled = true
goal_is_terminal rejected = true
goal_is_terminal preempted = true
goal_is_terminal aborted = true
goal_is_terminal succeeded = true
goal_is_terminal GoalState.lost = true
goal_is_terminal _ = false

-- An entry of the table: the states to pass through, or the object whose iteration raises.
pub data Entry : Type 0 where
  states : List CommState → Entry
  invalid : Entry

abbrev from_waiting_for_goal_ack : GoalState → Option Entry
from_waiting_for_goal_ack GoalState.pending = some (states (CommState.pending ∷ []))
from_waiting_for_goal_ack GoalState.active = some (states (CommState.active ∷ []))
from_waiting_for_goal_ack rejected = some (states (CommState.pending ∷ waiting_for_result ∷ []))
from_waiting_for_goal_ack GoalState.recalling =
    some (states (CommState.pending ∷ CommState.recalling ∷ []))
from_waiting_for_goal_ack recalled = some (states (CommState.pending ∷ waiting_for_result ∷ []))
from_waiting_for_goal_ack preempted =
    some (states (CommState.active ∷ CommState.preempting ∷ waiting_for_result ∷ []))
from_waiting_for_goal_ack succeeded = some (states (CommState.active ∷ waiting_for_result ∷ []))
from_waiting_for_goal_ack aborted = some (states (CommState.active ∷ waiting_for_result ∷ []))
from_waiting_for_goal_ack GoalState.preempting =
    some (states (CommState.active ∷ CommState.preempting ∷ []))
from_waiting_for_goal_ack GoalState.lost = none

abbrev from_pending : GoalState → Option Entry
from_pending GoalState.pending = some (states [])
from_pending GoalState.active = some (states (CommState.active ∷ []))
from_pending rejected = some (states (waiting_for_result ∷ []))
from_pending GoalState.recalling = some (states (CommState.recalling ∷ []))
from_pending recalled = some (states (CommState.recalling ∷ waiting_for_result ∷ []))
from_pending preempted =
    some (states (CommState.active ∷ CommState.preempting ∷ waiting_for_result ∷ []))
from_pending succeeded = some (states (CommState.active ∷ waiting_for_result ∷ []))
from_pending aborted = some (states (CommState.active ∷ waiting_for_result ∷ []))
from_pending GoalState.preempting = some (states (CommState.active ∷ CommState.preempting ∷ []))
from_pending GoalState.lost = none

abbrev from_active : GoalState → Option Entry
from_active GoalState.pending = some invalid
from_active GoalState.active = some (states [])
from_active rejected = some invalid
from_active GoalState.recalling = some invalid
from_active recalled = some invalid
from_active preempted = some (states (CommState.preempting ∷ waiting_for_result ∷ []))
from_active succeeded = some (states (waiting_for_result ∷ []))
from_active aborted = some (states (waiting_for_result ∷ []))
from_active GoalState.preempting = some (states (CommState.preempting ∷ []))
from_active GoalState.lost = none

abbrev from_waiting_for_result : GoalState → Option Entry
from_waiting_for_result GoalState.pending = some invalid
from_waiting_for_result GoalState.recalling = some invalid
from_waiting_for_result GoalState.preempting = some invalid
from_waiting_for_result GoalState.lost = none
from_waiting_for_result _ = some (states [])

abbrev from_waiting_for_cancel_ack : GoalState → Option Entry
from_waiting_for_cancel_ack GoalState.pending = some (states [])
from_waiting_for_cancel_ack GoalState.active = some (states [])
from_waiting_for_cancel_ack rejected = some (states (waiting_for_result ∷ []))
from_waiting_for_cancel_ack GoalState.recalling = some (states (CommState.recalling ∷ []))
from_waiting_for_cancel_ack recalled = some (states (CommState.recalling ∷ waiting_for_result ∷ []))
from_waiting_for_cancel_ack preempted =
    some (states (CommState.preempting ∷ waiting_for_result ∷ []))
from_waiting_for_cancel_ack succeeded =
    some (states (CommState.preempting ∷ waiting_for_result ∷ []))
from_waiting_for_cancel_ack aborted = some (states (CommState.preempting ∷ waiting_for_result ∷ []))
from_waiting_for_cancel_ack GoalState.preempting = some (states (CommState.preempting ∷ []))
from_waiting_for_cancel_ack GoalState.lost = none

abbrev from_recalling : GoalState → Option Entry
from_recalling GoalState.pending = some invalid
from_recalling GoalState.active = some invalid
from_recalling rejected = some (states (waiting_for_result ∷ []))
from_recalling GoalState.recalling = some (states [])
from_recalling recalled = some (states (waiting_for_result ∷ []))
from_recalling preempted = some (states (CommState.preempting ∷ waiting_for_result ∷ []))
from_recalling succeeded = some (states (CommState.preempting ∷ waiting_for_result ∷ []))
from_recalling aborted = some (states (CommState.preempting ∷ waiting_for_result ∷ []))
from_recalling GoalState.preempting = some (states (CommState.preempting ∷ []))
from_recalling GoalState.lost = none

abbrev from_preempting : GoalState → Option Entry
from_preempting preempted = some (states (waiting_for_result ∷ []))
from_preempting succeeded = some (states (waiting_for_result ∷ []))
from_preempting aborted = some (states (waiting_for_result ∷ []))
from_preempting GoalState.preempting = some (states [])
from_preempting GoalState.lost = none
from_preempting _ = some invalid

abbrev from_done : GoalState → Option Entry
from_done rejected = some (states [])
from_done recalled = some (states [])
from_done preempted = some (states [])
from_done succeeded = some (states [])
from_done aborted = some (states [])
from_done GoalState.lost = none
from_done _ = some invalid

-- TRANSITIONS[comm_state][goal_state]; `none` is a `KeyError`. There is no row for LOST, and no
-- row has a column for LOST.
unfoldable pub transitions : CommState → GoalState → Option Entry
transitions waiting_for_goal_ack g = from_waiting_for_goal_ack g
transitions CommState.pending g = from_pending g
transitions CommState.active g = from_active g
transitions waiting_for_result g = from_waiting_for_result g
transitions waiting_for_cancel_ack g = from_waiting_for_cancel_ack g
transitions CommState.recalling g = from_recalling g
transitions CommState.preempting g = from_preempting g
transitions done g = from_done g
transitions CommState.lost g = none
