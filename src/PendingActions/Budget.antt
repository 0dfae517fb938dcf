-- ===== src/PendingActions/Budget.antt =====
-- What a caller may still try, after wrong and after right confirmation codes.
use nonebot_plugin_moellmcha.Prelude.{
  ℕ, ◌+◌, ◌≤◌, ◌<◌, ◌≡◌, inl, inr, refl, Bool, true, false, String, arith, if◌then◌else◌, leb,
  length, lookup, lookup-pop, IsDict, Bool-cases, Option-cases,
}
use nonebot_plugin_moellmcha.PendingActions.Action.{
  too_many_failures, Result, ok, err, is_ok, Caller, Caller-discrete, PendingAction, Codec,
}
use nonebot_plugin_moellmcha.PendingActions.Failures.{
  Failures, FailureLimits, failure_limits, prune_failures, is_exhausted,
}
use nonebot_plugin_moellmcha.PendingActions.Windows.{
  live_failures, live_failures-prune, lookup-prune_live, live_failures-record, limits_of, IsBounded,
  guarded-IsBounded,
}
use nonebot_plugin_moellmcha.PendingActions.Store.{
  Actions, Store, Config, take_action, take_cancelled, settle, guarded, consume, cancel,
}

pub is_exhausted-live :
    (limits : FailureLimits) (caller : Caller) (now : ℕ) (l : Failures)
    → 0 < limits.max_failures
    → IsDict Caller-discrete l
    → length l ≤ limits.max_keys
    → is_exhausted limits caller (prune_failures limits now l)
      ≡ leb limits.max_failures (live_failures limits caller now l)
unfolding is_exhausted live_failures
is_exhausted-live limits caller now l pos d h =
    elim (Option-cases (lookup Caller-discrete caller (prune_failures limits now l))) [
      | inl e ↦ rw (e, is_exhausted) (ground (arith, live_failures-prune limits caller now l d h))
      | inr (f, e) ↦
          rw (e, is_exhausted)
            (ground (
              arith,
              live_failures-prune limits caller now l d h,
              lookup-prune_live limits caller now l f d h e,
            ))
    ]

settle-live_failures :
    (limits : FailureLimits) (caller : Caller) (now : ℕ) (l : Failures)
    (r : Result PendingAction × Actions)
    → 0 < limits.window_seconds
    → live_failures limits caller now (settle limits caller now l r).1.failure_windows
      ≡ (if is_ok r.0 then 0 else live_failures limits caller now l + 1)
unfolding settle
settle-live_failures limits caller now l (ok a, actions) pos =
    unfold live_failures in ground (arith, lookup-pop Caller-discrete caller caller l)
settle-live_failures limits caller now l (err e, actions) pos =
    live_failures-record limits caller now l pos

pub settle-result :
    (limits : FailureLimits) (caller : Caller) (now : ℕ) (l : Failures)
    (r : Result PendingAction × Actions)
    → (settle limits caller now l r).0 ≡ r.0
unfolding settle
settle-result limits caller now l (ok a, actions) = refl
settle-result limits caller now l (err e, actions) = refl

-- `guarded` in the two cases of the budget
guarded_blocked :
    (cfg : Config) (caller : Caller) (now : ℕ) (block : Actions → Result PendingAction × Actions)
    (s : Store)
    → failure_limits cfg.failures ≡ ok cfg.failures
    → is_exhausted cfg.failures caller (prune_failures cfg.failures now s.failure_windows) ≡ true
    → guarded cfg caller now block s ≡ (
      err too_many_failures,
      record s { failure_windows = prune_failures cfg.failures now s.failure_windows },
    )
unfolding guarded
guarded_blocked cfg caller now block s valid full = rw (guarded, valid, full)

pub guarded_open :
    (cfg : Config) (caller : Caller) (now : ℕ) (block : Actions → Result PendingAction × Actions)
    (s : Store)
    → failure_limits cfg.failures ≡ ok cfg.failures
    → is_exhausted cfg.failures caller (prune_failures cfg.failures now s.failure_windows) ≡ false
    → guarded cfg caller now block s
      ≡ settle cfg.failures caller now
          (prune_failures cfg.failures now s.failure_windows)
          (block s.actions)
unfolding guarded
guarded_open cfg caller now block s valid free = rw (guarded, valid, free)

-- The failures counted against a caller after an attempt: as many as before if the budget was
-- exhausted, none after a success, and one more after any other failure.
abbrev pub next_failures : FailureLimits → ℕ → Bool → ℕ
next_failures limits tried success =
    if leb limits.max_failures tried then tried else if success then 0 else tried + 1

guarded-live_failures :
    (cfg : Config) (caller : Caller) (now : ℕ) (block : Actions → Result PendingAction × Actions)
    (s : Store)
    → failure_limits cfg.failures ≡ ok cfg.failures
    → IsBounded cfg.failures s.failure_windows
    → live_failures cfg.failures caller now (guarded cfg caller now block s).1.failure_windows
      ≡ next_failures cfg.failures
          (live_failures cfg.failures caller now s.failure_windows)
          (is_ok (guarded cfg caller now block s).0)
guarded-live_failures cfg caller now block s valid b =
    let windows = prune_failures cfg.failures now s.failure_windows in
    let pos = limits_of cfg.failures cfg.failures valid in
    let same = live_failures-prune cfg.failures caller now s.failure_windows b.dict b.capped in
    let tested =
      is_exhausted-live cfg.failures caller now s.failure_windows pos.2 b.dict b.capped in
    elim (Bool-cases (is_exhausted cfg.failures caller windows)) [
      | inl full ↦
          rw (guarded_blocked cfg caller now block s valid full)
            (ground (arith, full, same, tested))
      | inr free ↦
          rw (guarded_open cfg caller now block s valid free, settle-result)
            (ground (
              arith,
              free,
              same,
              tested,
              settle-live_failures cfg.failures caller now windows (block s.actions) pos.1,
            ))
    ]

-- Under valid failure limits and from a bounded table of failures, every attempt to confirm leaves the
-- table bounded, and counts: after it the caller has no live failure if it succeeded, one more than
-- before if it failed, and as many as before if the budget was exhausted.
pub consume-live_failures :
    (codec : Codec) (cfg : Config) (raw : String) (caller : Caller) (generation now : ℕ) (s : Store)
    → failure_limits cfg.failures ≡ ok cfg.failures
    → IsBounded cfg.failures s.failure_windows
    → let (result, t) = consume codec cfg raw caller generation now s in
      IsBounded cfg.failures t.failure_windows
      × (live_failures cfg.failures caller now t.failure_windows
          ≡ next_failures cfg.failures
              (live_failures cfg.failures caller now s.failure_windows)
              (is_ok result))
unfolding consume
consume-live_failures codec cfg raw caller generation now s valid b =
    let block = take_action codec (codec.strip_upper raw) caller generation now in
    (
      guarded-IsBounded cfg caller now block s valid b.dict,
      guarded-live_failures cfg caller now block s valid b,
    )

-- Under valid failure limits and with a bounded table of failures, a caller with `max_failures` live
-- failures cannot confirm or cancel anything: both are refused for that reason whatever the code is,
-- and no pending action changes.
pub exhausted_blocks :
    (codec : Codec) (cfg : Config) (raw : String) (caller : Caller) (generation now : ℕ) (s : Store)
    → failure_limits cfg.failures ≡ ok cfg.failures
    → IsBounded cfg.failures s.failure_windows
    → cfg.failures.max_failures ≤ live_failures cfg.failures caller now s.failure_windows
    → ((consume codec cfg raw caller generation now s).0 ≡ err too_many_failures)
      × ((consume codec cfg raw caller generation now s).1.actions ≡ s.actions)
      × ((cancel codec cfg raw caller now s).0 ≡ err too_many_failures)
      × ((cancel codec cfg raw caller now s).1.actions ≡ s.actions)
unfolding consume cancel
exhausted_blocks codec cfg raw caller generation now s valid b many =
    let pos = limits_of cfg.failures cfg.failures valid in
    let tested =
      is_exhausted-live cfg.failures caller now s.failure_windows pos.2 b.dict b.capped in
    let blocked = λ (block : Actions → Result PendingAction × Actions).
      guarded_blocked cfg caller now block s valid (ground (arith, tested)) in
    let first = blocked (take_action codec (codec.strip_upper raw) caller generation now) in
    let second = blocked (take_cancelled (codec.strip_upper raw) caller now) in
    (ground (arith, first), ground (arith, first), ground (arith, second), ground (arith, second))
