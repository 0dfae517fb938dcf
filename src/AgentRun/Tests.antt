-- ===== src/AgentRun/Tests.antt =====
-- A run that waits once for a confirmation, and completes.
use nonebot_plugin_moellmcha.Prelude.{◌≡◌, refl, true, false, none, some, List, [], ◌∷◌}
use nonebot_plugin_moellmcha.AgentRun.Machine.{
  RunState, created, admitted, classifying, planning, executing, waiting_confirmation, summarizing,
  completed, failed, is_terminal, can_transition, AgentRun, moved, transition,
}
use nonebot_plugin_moellmcha.AgentRun.Order.{
  Runs, begin, after, stages, all_entered, stages_in_order,
}

abbrev entered : List RunState
entered =
    completed ∷ summarizing ∷ executing ∷ waiting_confirmation ∷ executing ∷ planning ∷ classifying
    ∷ admitted ∷ []

completes : Runs created entered completed
unfolding can_transition
completes =
    after
      (after (after (after (after (after (after (after begin refl) refl) refl) refl) refl) refl)
        refl)
      refl

stages_in_order_example : all_entered (stages completed) entered ≡ true
stages_in_order_example = stages_in_order completes

abbrev nothing_entered : List RunState
nothing_entered = []

already_failed : Runs failed nothing_entered failed
already_failed = begin

failed_terminal : is_terminal failed ≡ true
unfolding is_terminal
failed_terminal = refl

waiting_not_terminal : is_terminal waiting_confirmation ≡ false
unfolding is_terminal
waiting_not_terminal = refl

abbrev summarized : AgentRun
summarized = record { state = summarizing; started_at = 10; finished_at = none }

abbrev ended : AgentRun
ended = record { state = completed; started_at = 10; finished_at = some 25 }

ends : transition summarized completed (some 25) ≡ moved ended
unfolding transition
ends = refl
