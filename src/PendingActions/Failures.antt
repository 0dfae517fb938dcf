-- ===== src/PendingActions/Failures.antt =====
-- The failure windows: how many wrong confirmation codes a caller has sent within the window. The
-- functions with `_locked` in their name run under the store's lock. Times are clock ticks.
use nonebot_plugin_moellmcha.Prelude.{
  ℕ, ◌+◌, Bool, false, ◌||◌, none, some, List, [], ◌∷◌, ◌++◌, if◌then◌else◌, leb, ltb, ◌==◌, length,
  lookup, insert, pop, drop_where,
}
use nonebot_plugin_moellmcha.PendingActions.Action.{
  Caller, Caller-discrete, Result, ok, err, failure_limits_invalid,
}

pub record FailureWindow : Type 0 where
  pub started_at : ℕ
  pub failures : ℕ

abbrev pub Failures : Type 0
Failures = List (Caller × FailureWindow)

pub record FailureLimits : Type 0 where
  pub window_seconds : ℕ
  pub max_failures : ℕ
  pub max_keys : ℕ

-- `_failure_limits`, on the configured values; the type checks of the source are the types here.
unfoldable pub failure_limits : FailureLimits → Result FailureLimits
failure_limits l =
    if l.window_seconds == 0 || l.max_failures == 0 || l.max_keys == 0
    then err failure_limits_invalid
    else ok l

abbrev pub is_over : ℕ → ℕ → FailureWindow → Bool
is_over now window_seconds f = leb (f.started_at + window_seconds) now

-- `while len(windows) > max_keys: windows.popitem(last=False)`
unfoldable pub pop_while_above : ℕ → Failures → Failures
pop_while_above max_keys [] = []
pop_while_above max_keys (e ∷ l) =
    if ltb max_keys (length (e ∷ l)) then pop_while_above max_keys l else e ∷ l

-- `while len(windows) >= max_keys: windows.popitem(last=False)`
unfoldable pub pop_while_full : ℕ → Failures → Failures
pop_while_full max_keys [] = []
pop_while_full max_keys (e ∷ l) =
    if leb max_keys (length (e ∷ l)) then pop_while_full max_keys l else e ∷ l

-- `_prune_failures_locked`
unfoldable pub prune_failures : FailureLimits → ℕ → Failures → Failures
unfolding pop_while_above
prune_failures limits now l =
    pop_while_above limits.max_keys (drop_where (is_over now limits.window_seconds) l)

unfoldable pub is_exhausted : FailureLimits → Caller → Failures → Bool
is_exhausted limits caller l = elim (lookup Caller-discrete caller l) [
  | none ↦ false
  | some f ↦ leb limits.max_failures f.failures
]

-- `_record_failure_locked`
unfoldable pub record_failure : FailureLimits → Caller → ℕ → Failures → Failures
unfolding pop_while_full
record_failure limits caller now l =
    let fresh =
      insert Caller-discrete caller (record { started_at = now; failures = 1 })
        (pop_while_full limits.max_keys l) in
    elim (lookup Caller-discrete caller l) [
      | none ↦ fresh
      | some f ↦
          if is_over now limits.window_seconds f
          then fresh
          else pop Caller-discrete caller l
            ++ (caller, record { started_at = f.started_at; failures = f.failures + 1 }) ∷ []
    ]
