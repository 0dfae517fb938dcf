-- ===== src/AgentRun/Machine.antt =====
-- `AgentRunState`, the table of transitions, and `AgentStateMachine`. Of `AgentRun` only the state and
-- the times.
use nonebot_plugin_moellmcha.Prelude.{
  ℕ, Bool, true, false, not, ◌&&◌, ◌||◌, Option, none, some, List, [], ◌∷◌, if◌then◌else◌, leb,
  ◌==◌,
}

pub data RunState : Type 0 where
  created admitted classifying planning executing waiting_confirmation summarizing : RunState
  completed failed cancelled timed_out rejected : RunState

-- the states by their position, to compare them
unfoldable pub position : RunState → ℕ
position created = 0
position admitted = 1
position classifying = 2
position planning = 3
position executing = 4
position waiting_confirmation = 5
position summarizing = 6
position completed = 7
position failed = 8
position cancelled = 9
position timed_out = 10
position rejected = 11

unfoldable pub is_in : RunState → List RunState → Bool
unfolding position
is_in s [] = false
is_in s (t ∷ ts) = position t == position s || is_in s ts

unfoldable pub exceptional_states : List RunState
exceptional_states = failed ∷ cancelled ∷ timed_out ∷ rejected ∷ []

unfoldable pub terminal_states : List RunState
unfolding exceptional_states
terminal_states = completed ∷ exceptional_states

unfoldable pub is_terminal : RunState → Bool
unfolding terminal_states is_in
is_terminal s = is_in s terminal_states

-- `_AGENT_RUN_TRANSITIONS`
unfoldable pub allowed_targets : RunState → List RunState
unfolding exceptional_states
allowed_targets created = admitted ∷ exceptional_states
allowed_targets admitted = classifying ∷ exceptional_states
allowed_targets classifying = planning ∷ exceptional_states
allowed_targets planning = executing ∷ exceptional_states
allowed_targets executing = waiting_confirmation ∷ summarizing ∷ exceptional_states
allowed_targets waiting_confirmation = executing ∷ summarizing ∷ exceptional_states
allowed_targets summarizing = completed ∷ exceptional_states
allowed_targets completed = []
allowed_targets failed = []
allowed_targets cancelled = []
allowed_targets timed_out = []
allowed_targets rejected = []

unfoldable pub can_transition : RunState → RunState → Bool
unfolding allowed_targets is_in
can_transition source target = is_in target (allowed_targets source)

pub record AgentRun : Type 0 where
  pub state : RunState
  pub started_at : ℕ
  pub finished_at : Option ℕ

unfoldable pub has_time : Option ℕ → Bool
has_time none = false
has_time (some t) = true

-- the checks of `AgentRun.__post_init__` on the times
unfoldable pub is_valid : AgentRun → Bool
unfolding is_terminal has_time
is_valid run =
    (elim run.finished_at [ none ↦ true | some t ↦ leb run.started_at t ])
    && (if is_terminal run.state then has_time run.finished_at else not (has_time run.finished_at))

pub data RunError : Type 0 where
  transition_not_allowed finish_time_missing finish_time_unexpected run_invalid : RunError

pub data Transitioned : Type 0 where
  moved : AgentRun → Transitioned
  refused : RunError → Transitioned

-- `replace`, which makes the checks again
unfoldable pub make_run : AgentRun → Transitioned
unfolding is_valid
make_run run = if is_valid run then moved run else refused run_invalid

unfoldable pub transition : AgentRun → RunState → Option ℕ → Transitioned
unfolding can_transition is_terminal has_time make_run
transition run target finished_at =
    let next = make_run (record run { state = target; finished_at = finished_at }) in
    if not (can_transition run.state target)
    then refused transition_not_allowed
    else if is_terminal target
    then if has_time finished_at then next else refused finish_time_missing
    else if has_time finished_at
    then refused finish_time_unexpected
    else next
