-- ===== src/AgentRun/Order.antt =====
-- A run goes through its stages in order, and ends once.
use nonebot_plugin_moellmcha.Prelude.{
  ℕ, ◌≡◌, refl, subst, arith, Bool, true, false, ◌&&◌, Option, List, [], ◌∷◌,
}
use nonebot_plugin_moellmcha.AgentRun.Machine.{
  RunState, created, admitted, classifying, planning, executing, waiting_confirmation, summarizing,
  completed, failed, cancelled, timed_out, rejected, position, is_in, exceptional_states,
  terminal_states, is_terminal, allowed_targets, can_transition, AgentRun, is_valid, moved,
  make_run, transition,
}

-- A sequence of transitions, with the states entered, the last first.
pub data Runs (s : RunState) : List RunState → RunState → Type 0 where
  begin : Runs s [] s
  after :
      {l : List RunState} {t u : RunState}
      → Runs s l t
      → can_transition t u ≡ true
      → Runs s (u ∷ l) u

-- the stages that a run in a state has behind it or is in
unfoldable pub stages : RunState → List RunState
stages created = []
stages admitted = admitted ∷ []
stages classifying = admitted ∷ classifying ∷ []
stages planning = admitted ∷ classifying ∷ planning ∷ []
stages executing = admitted ∷ classifying ∷ planning ∷ executing ∷ []
stages waiting_confirmation = admitted ∷ classifying ∷ planning ∷ executing ∷ []
stages summarizing = admitted ∷ classifying ∷ planning ∷ executing ∷ summarizing ∷ []
stages completed = admitted ∷ classifying ∷ planning ∷ executing ∷ summarizing ∷ completed ∷ []
stages _ = []

unfoldable pub all_entered : List RunState → List RunState → Bool
unfolding is_in
all_entered [] l = true
all_entered (s ∷ ss) l = is_in s l && all_entered ss l

all_entered-step :
    (t u : RunState) (l : List RunState)
    → can_transition t u ≡ true
    → all_entered (stages t) l ≡ true
    → all_entered (stages u) (u ∷ l) ≡ true
unfolding can_transition all_entered stages is_in position allowed_targets exceptional_states
all_entered-step t u l h a = ground (arith, h, a)

-- Whatever transitions lead a run from `created` to a state, it has entered every stage before that
-- state: a completed run was admitted, classified, planned, executed and summarized.
pub stages_in_order :
    {l : List RunState} {t : RunState} → Runs created l t → all_entered (stages t) l ≡ true
unfolding all_entered stages
stages_in_order begin = refl
stages_in_order (after {l} {t} {u} runs h) = all_entered-step t u l h (stages_in_order runs)

terminal_stays : (t u : RunState) → is_terminal t ≡ true → can_transition t u ≡ false
unfolding is_terminal can_transition is_in position allowed_targets terminal_states
    exceptional_states
terminal_stays t u h = ground (arith, h)

-- A run that has ended does not move: from a terminal state only that state is reached, by no
-- transition.
pub terminal_is_final :
    {s : RunState} {l : List RunState} {t : RunState}
    → Runs s l t
    → is_terminal s ≡ true
    → (t ≡ s) × (l ≡ [])
terminal_is_final begin h = (refl, refl)
terminal_is_final {s} (after {l} {t} {u} runs moves) h =
    let before = terminal_is_final runs h in
    ground (arith, terminal_stays s u h, subst (λ t. can_transition t u ≡ true) before.0 moves)

-- Until it ends, a run can fail, be cancelled, time out or be rejected at once.
pub can_always_stop :
    (s : RunState)
    → is_terminal s ≡ false
    → (can_transition s failed ≡ true)
      × (can_transition s cancelled ≡ true)
      × (can_transition s timed_out ≡ true)
      × (can_transition s rejected ≡ true)
unfolding is_terminal can_transition is_in position allowed_targets terminal_states
    exceptional_states
can_always_stop s h = (ground (arith, h), ground (arith, h), ground (arith, h), ground (arith, h))

-- A transition that is accepted was allowed, leads to its target, keeps the start, and its result is a
-- valid run: it has a time of its end, not before its start, exactly when the target is terminal.
pub transition-is_valid :
    (run next : AgentRun) (target : RunState) (finished_at : Option ℕ)
    → transition run target finished_at ≡ moved next
    → (can_transition run.state target ≡ true)
      × (next.state ≡ target)
      × (next.started_at ≡ run.started_at)
      × (is_valid next ≡ true)
unfolding transition make_run
transition-is_valid run next target finished_at e =
    (ground (arith, e), ground (arith, e), ground (arith, e), ground (arith, e))
