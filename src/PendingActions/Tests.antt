-- ===== src/PendingActions/Tests.antt =====
-- A store with one pending action, whose code is confirmed, tried by others, and sent again.
use nonebot_plugin_moellmcha.Prelude.{
  ◌≤◌, ◌<◌, ◌≡◌, ◌≢◌, refl, ap, arith, false, none, some, List, All, [], ◌∷◌, String,
  String-discrete, ite, lookup, insert, pop, drop_where, ne_of_text_eq,
}
use nonebot_plugin_moellmcha.PendingActions.Action.{
  ok, err, too_many_failures, is_ok, Caller, Caller-discrete, PendingAction, Codec, object,
  matches_nonce,
}
use nonebot_plugin_moellmcha.PendingActions.Failures.{failure_limits, is_exhausted, prune_failures}
use nonebot_plugin_moellmcha.PendingActions.Store.{
  Store, Config, Request, create, consume, cancel, clear, size,
}
use nonebot_plugin_moellmcha.PendingActions.Calls.{Call, call_create, call_consume, call_size, run}
use nonebot_plugin_moellmcha.PendingActions.Absence.{NeverDraws}
use nonebot_plugin_moellmcha.PendingActions.Windows.{live_failures, IsBounded}
use nonebot_plugin_moellmcha.PendingActions.Budget.{
  next_failures, consume-live_failures, exhausted_blocks,
}
use nonebot_plugin_moellmcha.PendingActions.Entries.{IsTidy, empty-IsTidy}
use nonebot_plugin_moellmcha.PendingActions.Lifecycle.{IsTidy-preserved, consume-create}
use nonebot_plugin_moellmcha.PendingActions.OneShot.{
  IsAuthorised, consume-IsAuthorised, consume_once, consume_foreign,
}

abbrev codec : Codec
codec = record {
  Arguments = String;
  dumps = λ v. some v;
  loads = λ j. object j;
  sha256 = λ j. j;
  strip_upper = λ s. s;
}

abbrev cfg : Config
cfg = record {
  ttl = 300;
  max_entries = 8;
  max_argument_bytes = 100;
  failures = record { max_failures = 2; window_seconds = 60; max_keys = 4 };
}

abbrev alice : Caller
alice = record { bot_id = "bot"; adapter_id = "OneBot"; user_id = "alice"; group_id = none }

abbrev mallory : Caller
mallory = record { bot_id = "bot"; adapter_id = "OneBot"; user_id = "mallory"; group_id = none }

abbrev request : Request
request = record {
  caller = alice;
  tool_name = "delete";
  generation = 3;
  bundle_digest = none;
  now = 1_000;
  action_id = "a1";
  draw = λ i. "ABC123";
}

abbrev empty : Store
empty = record { actions = []; failure_windows = [] }

abbrev action : PendingAction
action = record {
  action_id = "a1";
  caller = alice;
  tool_name = "delete";
  arguments_json = "{}";
  arguments_hash = "{}";
  generation = 3;
  bundle_digest = none;
  created_at = 1_000;
  expires_at = 1_300;
  nonce = "ABC123";
}

abbrev one : Store
one = record { actions = ("ABC123", action) ∷ []; failure_windows = [] }

creates_action : create codec cfg request "{}" empty ≡ (ok action, one)
unfolding create lookup insert String-discrete drop_where matches_nonce
creates_action = refl

confirms_action : (consume codec cfg "ABC123" alice 3 1_010 one).0 ≡ ok action
unfolding consume lookup pop String-discrete Caller-discrete failure_limits is_exhausted
    prune_failures drop_where matches_nonce
confirms_action = refl

abbrev after : Store
after = (consume codec cfg "ABC123" alice 3 1_010 one).1

consume-IsAuthorised_example :
    (lookup String-discrete "ABC123" one.actions ≡ some action)
    × IsAuthorised codec alice 3 1_010 action
    × (lookup String-discrete "ABC123" after.actions
        ≡ ite
            (String-discrete "ABC123" "ABC123")
            none
            (lookup String-discrete "ABC123" one.actions))
consume-IsAuthorised_example =
    consume-IsAuthorised codec cfg "ABC123" alice 3 1_010 one action "ABC123" confirms_action

-- between the two confirmations, Mallory asks for an action, tries a code, and the entries are counted
abbrev calls : List (Call codec)
calls =
    call_create cfg (record request { caller = mallory; draw = λ i. "DEF456" }) "{}"
    ∷ call_consume cfg "DEF456" alice 3 1_012
    ∷ call_size 1_015
    ∷ []

calls-NeverDraws : All (NeverDraws codec "ABC123") calls
calls-NeverDraws = ((λ i. ne_of_text_eq "DEF456" "ABC123" refl), (tt, (tt, tt)))

consume_once_example :
    is_ok (consume codec cfg "ABC123" mallory 4 1_020 (run codec calls after)).0 ≡ false
consume_once_example =
    consume_once codec cfg cfg "ABC123" "ABC123" alice mallory 3 4 1_010 1_020 one action calls
      confirms_action refl calls-NeverDraws

stores_action : lookup String-discrete "ABC123" one.actions ≡ some action
unfolding lookup String-discrete
stores_action = refl

alice≢mallory : alice ≢ mallory
alice≢mallory e = ne_of_text_eq "alice" "mallory" refl (ap (λ c. c.user_id) e)

consume_foreign_example :
    (is_ok (consume codec cfg "ABC123" mallory 3 1_010 one).0 ≡ false)
    × ((consume codec cfg "ABC123" mallory 3 1_010 one).1.actions ≡ one.actions)
consume_foreign_example =
    consume_foreign codec cfg "ABC123" mallory 3 1_010 one action stores_action (omega arith)
      alice≢mallory

limits_valid : failure_limits cfg.failures ≡ ok cfg.failures
unfolding failure_limits
limits_valid = refl

empty-IsBounded : IsBounded cfg.failures []
empty-IsBounded = record { dict = tt; capped = omega arith }

consume-live_failures_example :
    IsBounded cfg.failures (consume codec cfg "BAD000" mallory 3 1_010 one).1.failure_windows
    × (live_failures cfg.failures mallory 1_010
          (consume codec cfg "BAD000" mallory 3 1_010 one).1.failure_windows
        ≡ next_failures cfg.failures
            (live_failures cfg.failures mallory 1_010 [])
            (is_ok (consume codec cfg "BAD000" mallory 3 1_010 one).0))
consume-live_failures_example =
    consume-live_failures codec cfg "BAD000" mallory 3 1_010 one limits_valid empty-IsBounded

-- The same store after two wrong codes of one caller.
abbrev tried : Store
tried = record {
  actions = one.actions;
  failure_windows = (mallory, record { started_at = 1_000; failures = 2 }) ∷ [];
}

tried-IsBounded : IsBounded cfg.failures tried.failure_windows
unfolding lookup
tried-IsBounded = record { dict = (refl, tt); capped = omega arith }

budget_used :
    cfg.failures.max_failures ≤ live_failures cfg.failures mallory 1_010 tried.failure_windows
unfolding live_failures lookup Caller-discrete
budget_used = ground arith

exhausted_blocks_example :
    ((consume codec cfg "ABC123" mallory 3 1_010 tried).0 ≡ err too_many_failures)
    × ((consume codec cfg "ABC123" mallory 3 1_010 tried).1.actions ≡ tried.actions)
    × ((cancel codec cfg "ABC123" mallory 1_010 tried).0 ≡ err too_many_failures)
    × ((cancel codec cfg "ABC123" mallory 1_010 tried).1.actions ≡ tried.actions)
exhausted_blocks_example =
    exhausted_blocks codec cfg "ABC123" mallory 3 1_010 tried limits_valid tried-IsBounded
      budget_used

created : (create codec cfg request "{}" empty).0 ≡ ok action
created = ap (λ r. r.0) creates_action

IsTidy-preserved_example :
    IsTidy codec (create codec cfg request "{}" empty).1.actions
    × IsTidy codec (consume codec cfg "ABC123" alice 3 1_010 empty).1.actions
    × IsTidy codec (cancel codec cfg "ABC123" alice 1_010 empty).1.actions
    × IsTidy codec (size 1_010 empty).1.actions
    × IsTidy codec (clear empty).actions
IsTidy-preserved_example =
    IsTidy-preserved codec cfg request "{}" "ABC123" alice 3 1_010 empty (empty-IsTidy codec)

budget_left : live_failures cfg.failures alice 1_010 [] < cfg.failures.max_failures
unfolding live_failures lookup
budget_left = ground arith

consume-create_example :
    (consume codec cfg "ABC123" alice 3 1_010 (create codec cfg request "{}" empty).1).0 ≡ ok action
consume-create_example =
    consume-create codec cfg request "{}" empty "{}" "ABC123" action "{}" 1_010 (empty-IsTidy codec)
      limits_valid empty-IsBounded budget_left refl created refl (omega arith) refl
