-- ===== src/Admission/Tests.antt =====
-- A gate for one running and one waiting task, with keys that are numbers.
use nonebot_plugin_moellmcha.Prelude.{
  ℕ, ◌+◌, ◌≤◌, ◌<◌, ◌≡◌, ◌⊎◌, refl, arith, true, false, none, some, [], ◌∷◌, ℕ_discrete, leb,
  if◌then◌else◌, length, here, lookup, insert, contains,
}
use nonebot_plugin_moellmcha.Admission.{
  Metrics, Controller, queue_full, per_key_limit, Reserved, accepted, rejected, init, reserve,
  release, can_activate, activate,
}
use nonebot_plugin_moellmcha.Admission.Counts.{tally}
use nonebot_plugin_moellmcha.Admission.Steps.{System, enter, start, finish, Reach, stay, more, idle}
use nonebot_plugin_moellmcha.Admission.Safety.{
  refusal, capacity_respected, all_released, release_admits_next, waiting_not_stuck,
  reserve-refusal,
}

abbrev metrics : Metrics
metrics = record {
  llm_active = 0;
  llm_pending = 0;
  llm_rejected = 0;
  dispatch_active = 0;
  dispatch_pending = 0;
  dispatch_rejected = 0;
}

abbrev empty : System ℕ
empty = idle "llm" 1 1 (some 2) metrics

abbrev gate_of : Reserved ℕ → Controller ℕ
gate_of (accepted g) = g
gate_of (rejected reason g) = g

-- the task of key 5 waits
abbrev one_waiting : System ℕ
one_waiting = record {
  gate = gate_of (reserve ℕ_discrete (some 5) empty.gate);
  waiting = some 5 ∷ [];
  running = [];
}

-- it runs
abbrev one_running : System ℕ
one_running = record {
  gate = activate ℕ_discrete (some 5) one_waiting.gate;
  waiting = [];
  running = some 5 ∷ [];
}

-- it runs, and another task of the key waits
abbrev both : System ℕ
both = record {
  gate = gate_of (reserve ℕ_discrete (some 5) one_running.gate);
  waiting = some 5 ∷ [];
  running = some 5 ∷ [];
}

-- all have left
abbrev done : System ℕ
done = record { gate = release ℕ_discrete (some 5) one_running.gate; waiting = []; running = [] }

Reach-waiting : Reach ℕ_discrete empty one_waiting
unfolding reserve init lookup insert
Reach-waiting = more stay (enter (some 5) refl refl refl)

Reach-running : Reach ℕ_discrete empty one_running
unfolding reserve init can_activate lookup insert contains
Reach-running = more Reach-waiting (start (some 5) here refl refl refl)

Reach-both : Reach ℕ_discrete empty both
unfolding reserve init activate lookup insert ℕ_discrete
Reach-both = more Reach-running (enter (some 5) refl refl refl)

Reach-done : Reach ℕ_discrete empty done
Reach-done = more Reach-running (finish (some 5) here refl refl)

capacity_respected_example :
    (length both.running ≤ 1)
    × (length both.waiting ≤ 1)
    × (tally ℕ_discrete 5 both.running ≤ 1)
    × (tally ℕ_discrete 5 both.waiting + tally ℕ_discrete 5 both.running ≤ 2)
capacity_respected_example = capacity_respected ℕ_discrete "llm" 1 1 2 metrics both 5 Reach-both

all_released_example :
    (done.gate.active ≡ 0)
    × (done.gate.pending ≡ 0)
    × (lookup ℕ_discrete 5 done.gate.per_key ≡ none)
    × (contains ℕ_discrete 5 done.gate.active_keys ≡ false)
all_released_example =
    all_released ℕ_discrete "llm" 1 1 (some 2) metrics done 5 Reach-done refl refl

release_admits_next_example :
    can_activate ℕ_discrete (some 5) (release ℕ_discrete (some 5) both.gate) ≡ true
release_admits_next_example =
    release_admits_next ℕ_discrete "llm" 1 1 (some 2) metrics both (some 5) [] Reach-both here

waiting_not_stuck_example :
    (0 < length both.running) ⊎ (can_activate ℕ_discrete (some 5) both.gate ≡ true)
waiting_not_stuck_example =
    waiting_not_stuck ℕ_discrete "llm" 1 1 (some 2) metrics both (some 5) [] (omega arith)
      Reach-both here

reserve-refusal_example : refusal (reserve ℕ_discrete (some 5) both.gate) ≡ (
    if leb 1 (length both.waiting)
    then some queue_full
    else if leb 2 (tally ℕ_discrete 5 both.waiting + tally ℕ_discrete 5 both.running)
    then some per_key_limit
    else none)
reserve-refusal_example = reserve-refusal ℕ_discrete "llm" 1 1 2 metrics both 5 Reach-both
