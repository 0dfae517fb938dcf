-- ===== src/Admission/Steps.antt =====
-- The tasks that use one gate through `async with controller.slot(key)`, as a step relation: a task
-- reserves or is refused, waits, is activated, and leaves; a waiting task may be cancelled or time
-- out. The scheduler chooses the order. A release that has begun is not cancelled half way.
use nonebot_plugin_moellmcha.Prelude.{ℕ, ◌≡◌, true, Option, List, [], ◌∷◌, String, Pick}
use nonebot_plugin_moellmcha.Admission.{
  Controller, Metrics, Rejection, accepted, rejected, init, reserve, can_activate, activate,
  release, unreserve,
}

pub record System (K : Type 0) : Type 0 where
  pub gate : Controller K
  pub waiting : List (Option K)
  pub running : List (Option K)

module _ {K : Type 0} (dec : Discrete K) where
  pub data Step (s t : System K) : Type 0 where
    enter :
        (key : Option K)
        → reserve dec key s.gate ≡ accepted t.gate
        → t.waiting ≡ key ∷ s.waiting
        → t.running ≡ s.running
        → Step s t
    refuse :
        (key : Option K) (reason : Rejection)
        → reserve dec key s.gate ≡ rejected reason t.gate
        → t.waiting ≡ s.waiting
        → t.running ≡ s.running
        → Step s t
    start :
        (key : Option K)
        → Pick key s.waiting t.waiting
        → can_activate dec key s.gate ≡ true
        → t.gate ≡ activate dec key s.gate
        → t.running ≡ key ∷ s.running
        → Step s t
    finish :
        (key : Option K)
        → Pick key s.running t.running
        → t.gate ≡ release dec key s.gate
        → t.waiting ≡ s.waiting
        → Step s t
    abandon :
        (key : Option K)
        → Pick key s.waiting t.waiting
        → t.gate ≡ unreserve dec key s.gate
        → t.running ≡ s.running
        → Step s t

  pub data Reach (s : System K) : System K → Type 0 where
    stay : Reach s s
    more : {t u : System K} → Reach s t → Step t u → Reach s u

-- A new controller, with no task.
abbrev pub idle : {K : Type 0} → String → ℕ → ℕ → Option ℕ → Metrics → System K
idle name max_active max_pending max_per_key metrics = record {
  gate = init name max_active max_pending max_per_key metrics;
  waiting = [];
  running = [];
}
