-- ===== src/PendingActions/Windows.antt =====
-- The table of failure windows under each operation: it stays a table of bounded size, and the
-- failures that count against a caller.
use nonebot_plugin_moellmcha.Prelude.{
  ℕ, ◌+◌, ◌≤◌, ◌<◌, ◌≡◌, inl, inr, refl, false, none, some, [], ◌∷◌, ◌++◌, arith, if◌then◌else◌,
  length, length-append, lookup, insert, pop, lookup-insert, lookup-pop, lookup-append_end, IsDict,
  insert-IsDict, pop-IsDict, append_end-IsDict, length-insert-le, length-pop-le, length-pop-lt,
  drop_where, lookup-drop_where, drop_where-IsDict, length-drop_where-le, Bool-cases, Option-cases,
}
use nonebot_plugin_moellmcha.PendingActions.Action.{
  Result, ok, err, Caller, Caller-discrete, PendingAction,
}
use nonebot_plugin_moellmcha.PendingActions.Failures.{
  FailureWindow, Failures, FailureLimits, failure_limits, is_over, pop_while_above, pop_while_full,
  prune_failures, is_exhausted, record_failure,
}
use nonebot_plugin_moellmcha.PendingActions.Store.{Actions, Store, Config, settle, guarded}

-- The failures that count against a caller at this time.
unfoldable pub live_failures : FailureLimits → Caller → ℕ → Failures → ℕ
live_failures limits caller now l = elim (lookup Caller-discrete caller l) [
  | none ↦ 0
  | some f ↦ if is_over now limits.window_seconds f then 0 else f.failures
]

pop_while_above_id : (n : ℕ) (l : Failures) → length l ≤ n → pop_while_above n l ≡ l
unfolding pop_while_above
pop_while_above_id n [] h = refl
pop_while_above_id n (e ∷ l) h = ground arith

pop_while_above-length : (n : ℕ) (l : Failures) → length (pop_while_above n l) ≤ n
unfolding pop_while_above
pop_while_above-length n [] = omega arith
pop_while_above-length n (e ∷ l) = ground (arith, pop_while_above-length n l)

pop_while_full-length : (n : ℕ) (l : Failures) → 0 < n → length (pop_while_full n l) < n
unfolding pop_while_full
pop_while_full-length n [] h = omega arith
pop_while_full-length n (e ∷ l) h = ground (arith, pop_while_full-length n l)

record_failure-length :
    (limits : FailureLimits) (caller : Caller) (now : ℕ) (l : Failures)
    → 0 < limits.max_keys
    → length l ≤ limits.max_keys
    → length (record_failure limits caller now l) ≤ limits.max_keys
unfolding record_failure
record_failure-length limits caller now l pos h =
    elim (Option-cases (lookup Caller-discrete caller l)) [
      | inl new ↦ rw (new, record_failure) (omega (arith, fresh))
      | inr (f, old) ↦
          rw (old, record_failure)
            (ground (
              arith,
              fresh,
              length-append (pop Caller-discrete caller l)
                  ((caller, record { started_at = f.started_at; failures = f.failures + 1 }) ∷ []),
              length-pop-lt Caller-discrete caller f l old,
            ))
    ]
  where
    fresh :
        length (
          insert Caller-discrete caller
            (record { started_at = now; failures = 1 })
            (pop_while_full limits.max_keys l))
        ≤ limits.max_keys
    fresh = omega (
      arith,
      pop_while_full-length limits.max_keys l pos,
      length-insert-le Caller-discrete caller (record { started_at = now; failures = 1 })
          (pop_while_full limits.max_keys l),
    )

prune_failures-id :
    (limits : FailureLimits) (now : ℕ) (l : Failures)
    → length l ≤ limits.max_keys
    → prune_failures limits now l ≡ drop_where (is_over now limits.window_seconds) l
unfolding prune_failures
prune_failures-id limits now l h =
    pop_while_above_id limits.max_keys _
      (omega (arith, h, length-drop_where-le (is_over now limits.window_seconds) l))

-- pruning forgets only what no longer counts
pub live_failures-prune :
    (limits : FailureLimits) (caller : Caller) (now : ℕ) (l : Failures)
    → IsDict Caller-discrete l
    → length l ≤ limits.max_keys
    → live_failures limits caller now (prune_failures limits now l)
      ≡ live_failures limits caller now l
unfolding live_failures
live_failures-prune limits caller now l d h = rw (prune_failures-id limits now l h) (
    ground
      (arith, lookup-drop_where Caller-discrete (is_over now limits.window_seconds) caller l d))

pub lookup-prune_live :
    (limits : FailureLimits) (caller : Caller) (now : ℕ) (l : Failures) (f : FailureWindow)
    → IsDict Caller-discrete l
    → length l ≤ limits.max_keys
    → lookup Caller-discrete caller (prune_failures limits now l) ≡ some f
    → is_over now limits.window_seconds f ≡ false
lookup-prune_live limits caller now l f d h e = ground (
  arith,
  prune_failures-id limits now l h,
  lookup-drop_where Caller-discrete (is_over now limits.window_seconds) caller l d,
)

pub live_failures-record :
    (limits : FailureLimits) (caller : Caller) (now : ℕ) (l : Failures)
    → 0 < limits.window_seconds
    → live_failures limits caller now (record_failure limits caller now l)
      ≡ live_failures limits caller now l + 1
unfolding live_failures record_failure
live_failures-record limits caller now l pos =
    elim (Option-cases (lookup Caller-discrete caller l)) [
      | inl new ↦
          rw (new, record_failure)
            (ground (
              arith,
              lookup-insert Caller-discrete caller caller
                  (record { started_at = now; failures = 1 }) (pop_while_full limits.max_keys l),
            ))
      | inr (f, old) ↦
          rw (old, record_failure)
            (ground (
              arith,
              lookup-insert Caller-discrete caller caller
                  (record { started_at = now; failures = 1 }) (pop_while_full limits.max_keys l),
              lookup-pop Caller-discrete caller caller l,
              lookup-append_end Caller-discrete caller caller
                  (record { started_at = f.started_at; failures = f.failures + 1 })
                  (pop Caller-discrete caller l),
            ))
    ]

pub limits_of :
    (l l' : FailureLimits)
    → failure_limits l ≡ ok l'
    → (l' ≡ l) × (0 < l.window_seconds) × (0 < l.max_failures) × (0 < l.max_keys)
unfolding failure_limits
limits_of l l' e = (ground arith, ground arith, ground arith, ground arith)

-- The failure table holds at most `max_keys` callers, each once.
pub record IsBounded (limits : FailureLimits) (l : Failures) : Type 0 where
  pub dict : IsDict Caller-discrete l
  pub capped : length l ≤ limits.max_keys

pop_while_above-IsDict :
    (n : ℕ) (l : Failures) → IsDict Caller-discrete l → IsDict Caller-discrete (pop_while_above n l)
unfolding pop_while_above
pop_while_above-IsDict n [] d = tt
pop_while_above-IsDict n (e ∷ l) d = ground (arith, pop_while_above-IsDict n l d.1)

pop_while_full-IsDict :
    (n : ℕ) (l : Failures) → IsDict Caller-discrete l → IsDict Caller-discrete (pop_while_full n l)
unfolding pop_while_full
pop_while_full-IsDict n [] d = tt
pop_while_full-IsDict n (e ∷ l) d = ground (arith, pop_while_full-IsDict n l d.1)

prune_failures-IsBounded :
    (limits : FailureLimits) (now : ℕ) (l : Failures)
    → IsDict Caller-discrete l
    → IsBounded limits (prune_failures limits now l)
unfolding prune_failures
prune_failures-IsBounded limits now l d = record {
  dict =
      pop_while_above-IsDict limits.max_keys _
        (drop_where-IsDict Caller-discrete (is_over now limits.window_seconds) l d);
  capped = pop_while_above-length limits.max_keys _;
}

record_failure-IsDict :
    (limits : FailureLimits) (caller : Caller) (now : ℕ) (l : Failures)
    → IsDict Caller-discrete l
    → IsDict Caller-discrete (record_failure limits caller now l)
unfolding record_failure
record_failure-IsDict limits caller now l d =
    elim (Option-cases (lookup Caller-discrete caller l)) [
      | inl new ↦ rw (new, record_failure) fresh
      | inr (f, old) ↦ rw (old, record_failure) (ground (arith, fresh, moved f))
    ]
  where
    fresh : IsDict Caller-discrete (
        insert Caller-discrete caller
          (record { started_at = now; failures = 1 })
          (pop_while_full limits.max_keys l))
    fresh = insert-IsDict Caller-discrete caller _ _ (pop_while_full-IsDict limits.max_keys l d)

    moved :
        (f : FailureWindow)
        → IsDict Caller-discrete (
            pop Caller-discrete caller l
            ++ (caller, record { started_at = f.started_at; failures = f.failures + 1 }) ∷ [])
    moved f =
        append_end-IsDict Caller-discrete caller _ _
          (ground (arith, lookup-pop Caller-discrete caller caller l))
          (pop-IsDict Caller-discrete caller l d)

settle-IsBounded :
    (limits : FailureLimits) (caller : Caller) (now : ℕ) (l : Failures)
    (r : Result PendingAction × Actions)
    → 0 < limits.max_keys
    → IsBounded limits l
    → IsBounded limits (settle limits caller now l r).1.failure_windows
unfolding settle
settle-IsBounded limits caller now l (ok a, actions) pos b = record {
  dict = pop-IsDict Caller-discrete caller l b.dict;
  capped = omega (arith, b.capped, length-pop-le Caller-discrete caller l);
}
settle-IsBounded limits caller now l (err e, actions) pos b = record {
  dict = record_failure-IsDict limits caller now l b.dict;
  capped = record_failure-length limits caller now l pos b.capped;
}

pub guarded-IsBounded :
    (cfg : Config) (caller : Caller) (now : ℕ) (block : Actions → Result PendingAction × Actions)
    (s : Store)
    → failure_limits cfg.failures ≡ ok cfg.failures
    → IsDict Caller-discrete s.failure_windows
    → IsBounded cfg.failures (guarded cfg caller now block s).1.failure_windows
unfolding guarded
guarded-IsBounded cfg caller now block s valid d =
    elim (Bool-cases (is_exhausted cfg.failures caller windows)) [
      | inl full ↦ rw (guarded, valid, full) pruned
      | inr open_ ↦
          rw (guarded, valid, open_)
            (settle-IsBounded cfg.failures caller now windows (block s.actions)
              (limits_of cfg.failures cfg.failures valid).3 pruned)
    ]
  where
    windows : Failures
    windows = prune_failures cfg.failures now s.failure_windows

    pruned : IsBounded cfg.failures windows
    pruned = prune_failures-IsBounded cfg.failures now s.failure_windows d
