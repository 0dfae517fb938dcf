-- ===== src/PendingActions/Store.antt =====
-- `PendingActionStore`. A method gives its result beside the new state, also where it raises. The
-- clock's reading, and the values of the configuration, are arguments.
use Prim.Native.String.{len}
use nonebot_plugin_moellmcha.Prelude.{
  ℕ, zero, suc, ◌+◌, Bool, true, false, not, ◌&&◌, Option, none, some, List, [], ◌∷◌, String,
  String-discrete, ite, if◌then◌else◌, leb, ltb, ◌==◌, length, lookup, insert, pop, drop_where,
}
use nonebot_plugin_moellmcha.PendingActions.Action.{
  arguments_not_serialisable, ttl_invalid, capacity_invalid, argument_limit_invalid,
  arguments_too_large, queue_full, no_nonce, too_many_failures, nonce_malformed, nonce_unknown,
  nonce_expired, caller_mismatch, generation_changed, arguments_damaged, arguments_not_object,
  arguments_hash_mismatch, cancel_unknown, Result, ok, err, Caller, Caller-discrete, PendingAction,
  malformed, not_object, object, Codec, is_nonce,
}
use nonebot_plugin_moellmcha.PendingActions.Failures.{
  Failures, FailureLimits, failure_limits, prune_failures, is_exhausted, record_failure,
}

abbrev pub Actions : Type 0
Actions = List (String × PendingAction)

pub record Store : Type 0 where
  pub actions : Actions
  pub failure_windows : Failures

pub record Config : Type 0 where
  pub ttl : ℕ
  pub max_entries : ℕ
  pub max_argument_bytes : ℕ
  pub failures : FailureLimits

-- `_prune_locked`
unfoldable pub prune : ℕ → Actions → Actions
prune now = drop_where (λ a. leb a.expires_at now)

-- the test of `create` on an old entry: same caller and same tool
unfoldable pub is_same_request : Caller → String → PendingAction → Bool
is_same_request caller tool a =
    ite (Caller-discrete a.caller caller) (ite (String-discrete a.tool_name tool) true false) false

unfoldable pub option_eq : Option String → Option String → Bool
option_eq none none = true
option_eq (some a) (some b) = ite (String-discrete a b) true false
option_eq _ _ = false

unfoldable pub is_repeat : String → ℕ → Option String → PendingAction → Bool
unfolding option_eq
is_repeat arguments_hash generation digest a =
    ite (String-discrete a.arguments_hash arguments_hash) true false
    && a.generation == generation
    && option_eq a.bundle_digest digest

-- The loop of `create` over a copy of the entries: the entry to return, if one repeats the request,
-- and the entries that are left.
unfoldable pub supersede :
    Caller
    → String
    → String
    → ℕ
    → Option String
    → Actions
    → Actions
    → Option PendingAction × Actions
unfolding is_same_request is_repeat
supersede caller tool arguments_hash generation digest [] actions = (none, actions)
supersede caller tool arguments_hash generation digest ((n, a) ∷ rest) actions =
    let skip = supersede caller tool arguments_hash generation digest rest actions in
    let drop =
      supersede caller tool arguments_hash generation digest rest (pop String-discrete n actions) in
    if not (is_same_request caller tool a)
    then skip
    else if is_repeat arguments_hash generation digest a
    then (some a, actions)
    else drop

-- `_new_nonce_locked`: `draw i` is what the `i`-th call of the nonce factory returns.
unfoldable pub new_nonce : (String → String) → (ℕ → String) → ℕ → ℕ → Actions → Option String
new_nonce strip_upper draw zero i actions = none
new_nonce strip_upper draw (suc attempts) i actions =
    let nonce = strip_upper (draw i) in
    let again = new_nonce strip_upper draw attempts (i + 1) actions in
    if is_nonce nonce
    then (elim (lookup String-discrete nonce actions) [ none ↦ some nonce | some _ ↦ again ])
    else again

-- One call of `create`: who asks, for what, when, and what the sources of randomness return.
pub record Request : Type 0 where
  pub caller : Caller
  pub tool_name : String
  pub generation : ℕ
  pub bundle_digest : Option String
  pub now : ℕ
  pub action_id : String
  pub draw : ℕ → String

unfoldable pub make_action : Codec → Config → Request → String → String → PendingAction
make_action codec cfg r arguments_json nonce = record {
  action_id = r.action_id;
  caller = r.caller;
  tool_name = r.tool_name;
  arguments_json = arguments_json;
  arguments_hash = codec.sha256 arguments_json;
  generation = r.generation;
  bundle_digest = r.bundle_digest;
  created_at = r.now;
  expires_at = r.now + cfg.ttl;
  nonce = nonce;
}

-- the end of `create`, after the loop
unfoldable pub append_action :
    Codec → Config → Request → String → Actions → Result PendingAction × Actions
unfolding new_nonce make_action
append_action codec cfg r arguments_json actions =
    if leb cfg.max_entries (length actions)
    then (err queue_full, actions)
    else (elim (new_nonce codec.strip_upper r.draw 32 0 actions) [
      | none ↦ (err no_nonce, actions)
      | some nonce ↦
          let action = make_action codec cfg r arguments_json nonce in
          (ok action, insert String-discrete nonce action actions)
    ])

-- the part of `create` under the lock
unfoldable pub create_locked :
    Codec → Config → Request → String → Actions → Result PendingAction × Actions
unfolding prune supersede append_action
create_locked codec cfg r arguments_json actions =
    let pruned = prune r.now actions in
    let (found, rest) =
      supersede r.caller r.tool_name (codec.sha256 arguments_json) r.generation r.bundle_digest
        pruned pruned in
    elim found [ some old ↦ (ok old, rest) | none ↦ append_action codec cfg r arguments_json rest ]

-- The checks of `create` before the lock. A generation below zero is not a number here.
unfoldable pub check_request : (codec : Codec) → Config → codec.Arguments → Result String
check_request codec cfg arguments = elim (codec.dumps arguments) [
  | none ↦ err arguments_not_serialisable
  | some arguments_json ↦
      if cfg.ttl == 0
      then err ttl_invalid
      else if cfg.max_entries == 0
      then err capacity_invalid
      else if cfg.max_argument_bytes == 0
      then err argument_limit_invalid
      else if ltb cfg.max_argument_bytes (len arguments_json)
      then err arguments_too_large
      else ok arguments_json
]

unfoldable pub create :
    (codec : Codec) → Config → Request → codec.Arguments → Store → Result PendingAction × Store
unfolding create_locked check_request
create codec cfg r arguments s = elim (check_request codec cfg arguments) [
  | err e ↦ (err e, s)
  | ok arguments_json ↦
      let (result, actions) = create_locked codec cfg r arguments_json s.actions in
      (result, record s { actions = actions })
]

-- `action.arguments()`, for whether it raises
unfoldable pub check_arguments : Codec → PendingAction → Result PendingAction
check_arguments codec a = elim (codec.loads a.arguments_json) [
  | malformed ↦ err arguments_damaged
  | not_object ↦ err arguments_not_object
  | object v ↦
      ite (String-discrete (codec.sha256 a.arguments_json) a.arguments_hash) (ok a)
        (err arguments_hash_mismatch)
]

-- the `try` block of `consume`
unfoldable pub take_action :
    Codec → String → Caller → ℕ → ℕ → Actions → Result PendingAction × Actions
unfolding check_arguments prune
take_action codec nonce caller generation now actions =
    if not (is_nonce nonce)
    then (err nonce_malformed, actions)
    else (elim (lookup String-discrete nonce actions) [
      | none ↦ (err nonce_unknown, prune now actions)
      | some a ↦
          if leb a.expires_at now
          then (err nonce_expired, pop String-discrete nonce actions)
          else ite (Caller-discrete a.caller caller)
              (if a.generation == generation
                then (check_arguments codec a, pop String-discrete nonce actions)
                else (err generation_changed, pop String-discrete nonce actions))
              (err caller_mismatch, actions)
    ])

-- the `try` block of `cancel`
unfoldable pub take_cancelled : String → Caller → ℕ → Actions → Result PendingAction × Actions
unfolding prune
take_cancelled nonce caller now actions =
    if not (is_nonce nonce)
    then (err nonce_malformed, actions)
    else let pruned = prune now actions in
      elim (lookup String-discrete nonce pruned) [
        | none ↦ (err cancel_unknown, pruned)
        | some a ↦
            ite (Caller-discrete a.caller caller) (ok a, pop String-discrete nonce pruned)
              (err cancel_unknown, pruned)
      ]

-- An error of the block is recorded against the caller and raised again; a success clears the
-- caller's failures.
unfoldable pub settle :
    FailureLimits
    → Caller
    → ℕ
    → Failures
    → Result PendingAction × Actions
    → Result PendingAction × Store
settle limits caller now windows (ok a, actions) =
    (ok a, record { actions = actions; failure_windows = pop Caller-discrete caller windows })
settle limits caller now windows (err e, actions) = (
  err e,
  record { actions = actions; failure_windows = record_failure limits caller now windows },
)

-- What `consume` and `cancel` share: the limits, the failure budget, and the `try` block.
unfoldable pub guarded :
    Config
    → Caller
    → ℕ
    → (Actions → Result PendingAction × Actions)
    → Store
    → Result PendingAction × Store
unfolding settle
guarded cfg caller now block s = elim (failure_limits cfg.failures) [
  | err e ↦ (err e, s)
  | ok limits ↦
      let windows = prune_failures limits now s.failure_windows in
      if is_exhausted limits caller windows
      then (err too_many_failures, record s { failure_windows = windows })
      else settle limits caller now windows (block s.actions)
]

unfoldable pub consume :
    Codec → Config → String → Caller → ℕ → ℕ → Store → Result PendingAction × Store
unfolding take_action guarded
consume codec cfg raw caller generation now s =
    guarded cfg caller now (take_action codec (codec.strip_upper raw) caller generation now) s

-- The source returns nothing on success; here the cancelled action stands for that.
unfoldable pub cancel : Codec → Config → String → Caller → ℕ → Store → Result PendingAction × Store
unfolding take_cancelled guarded
cancel codec cfg raw caller now s =
    guarded cfg caller now (take_cancelled (codec.strip_upper raw) caller now) s

abbrev pub clear : Store → Store
clear s = record { actions = []; failure_windows = [] }

unfoldable pub size : ℕ → Store → ℕ × Store
unfolding prune
size now s = (length (prune now s.actions), record s { actions = prune now s.actions })
