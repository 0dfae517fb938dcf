-- ===== src/PendingActions/Lifecycle.antt =====
-- The life of a pending action: created once for a caller and a tool, and confirmable by its code.
use nonebot_plugin_moellmcha.Prelude.{
  ℕ, ◌≤◌, ◌<◌, ◌≡◌, refl, sym, subst, true, false, some, String, String-discrete, arith, leb,
  length, lookup, IsDict, pop-IsDict, drop_where-IsDict,
}
use nonebot_plugin_moellmcha.PendingActions.Action.{
  Result, ok, err, Caller, PendingAction, Codec, object, is_nonce,
}
use nonebot_plugin_moellmcha.PendingActions.Failures.{failure_limits, prune_failures, is_exhausted}
use nonebot_plugin_moellmcha.PendingActions.Entries.{IsTidy, empty-IsTidy, Sub-IsTidy}
use nonebot_plugin_moellmcha.PendingActions.Requests.{
  IsCreated, create_locked-IsTidy, create_locked-IsCreated, check_request-ok, create_locked-length,
}
use nonebot_plugin_moellmcha.PendingActions.Budget.{is_exhausted-live, settle-result, guarded_open}
use nonebot_plugin_moellmcha.PendingActions.Windows.{live_failures, limits_of, IsBounded}
use nonebot_plugin_moellmcha.PendingActions.Supersede.{Sub, pop-Sub, prune-Sub}
use nonebot_plugin_moellmcha.PendingActions.Store.{
  Actions, Store, Config, Request, prune, create_locked, create, check_arguments, take_action,
  take_cancelled, check_request, guarded, consume, cancel, clear, size,
}

prune-IsDict :
    (now : ℕ) (l : Actions) → IsDict String-discrete l → IsDict String-discrete (prune now l)
unfolding prune
prune-IsDict now l d = drop_where-IsDict String-discrete (λ a. leb a.expires_at now) l d

-- The actions after `guarded` are those before it or those of the block.
guarded_cases :
    (P : Actions → Type 0) (cfg : Config) (caller : Caller) (now : ℕ)
    (block : Actions → Result PendingAction × Actions) (s : Store)
    → P s.actions
    → P (block s.actions).1
    → P (guarded cfg caller now block s).1.actions
unfolding guarded
guarded_cases P cfg caller now block s before after = ground arith

-- The blocks of `consume` and `cancel` only take entries away.
module _ (codec : Codec) (n : String) (caller : Caller) (generation now : ℕ) (l : Actions) where
  take_action-Sub : IsDict String-discrete l → Sub (take_action codec n caller generation now l).1 l
  unfolding take_action
  take_action-Sub d k a e = ground (arith, pop-Sub n l k a, prune-Sub now l d k a)

  take_action-IsDict :
      IsDict String-discrete l
      → IsDict String-discrete (take_action codec n caller generation now l).1
  unfolding take_action
  take_action-IsDict d = ground (arith, pop-IsDict String-discrete n l d, prune-IsDict now l d)

  take_action-IsTidy : IsTidy codec l → IsTidy codec (take_action codec n caller generation now l).1
  take_action-IsTidy t = Sub-IsTidy codec _ l (take_action-IsDict t.dict) (take_action-Sub t.dict) t

  take_cancelled-Sub : IsDict String-discrete l → Sub (take_cancelled n caller now l).1 l
  unfolding take_cancelled
  take_cancelled-Sub d k a e = ground (arith, pop-Sub n (prune now l) k a, prune-Sub now l d k a)

  take_cancelled-IsDict :
      IsDict String-discrete l → IsDict String-discrete (take_cancelled n caller now l).1
  unfolding take_cancelled
  take_cancelled-IsDict d =
      ground (arith, d, prune-IsDict now l d, pop-IsDict String-discrete n (prune now l))

  take_cancelled-IsTidy : IsTidy codec l → IsTidy codec (take_cancelled n caller now l).1
  take_cancelled-IsTidy t =
      Sub-IsTidy codec _ l (take_cancelled-IsDict t.dict) (take_cancelled-Sub t.dict) t

guarded-IsTidy :
    (codec : Codec) (cfg : Config) (caller : Caller) (now : ℕ)
    (block : Actions → Result PendingAction × Actions) (s : Store)
    → IsTidy codec s.actions
    → IsTidy codec (block s.actions).1
    → IsTidy codec (guarded cfg caller now block s).1.actions
guarded-IsTidy codec cfg caller now block s t u =
    guarded_cases (λ l. IsTidy codec l) cfg caller now block s t u

create-IsTidy :
    (codec : Codec) (cfg : Config) (r : Request) (arguments : codec.Arguments) (s : Store)
    → IsTidy codec s.actions
    → IsTidy codec (create codec cfg r arguments s).1.actions
unfolding create
create-IsTidy codec cfg r arguments s t = create_cases (check_request codec cfg arguments) refl
  where
    create_cases :
        (x : Result String)
        → check_request codec cfg arguments ≡ x
        → IsTidy codec (create codec cfg r arguments s).1.actions
    create_cases (ok json) e = rw (create, e) (create_locked-IsTidy codec cfg r json s.actions t)
    create_cases (err x) e = rw (create, e) t

-- An action that `create` returns is stored under its code, which is well formed, and is for the
-- caller, the tool, the generation and the arguments of the request; it has not expired.
pub create-IsCreated :
    (codec : Codec) (cfg : Config) (r : Request) (arguments : codec.Arguments) (s : Store)
    (json : String) (a : PendingAction)
    → IsTidy codec s.actions
    → codec.dumps arguments ≡ some json
    → (create codec cfg r arguments s).0 ≡ ok a
    → IsCreated codec r json a (create codec cfg r arguments s).1.actions
unfolding create
create-IsCreated codec cfg r arguments s json a t dumped e =
    create_cases (check_request codec cfg arguments) refl
  where
    create_cases :
        (x : Result String)
        → check_request codec cfg arguments ≡ x
        → IsCreated codec r json a (create codec cfg r arguments s).1.actions
    create_cases (err x) f = absurd (cc (rw (create, f) at e))
    create_cases (ok text) f =
        let (dumped', pos, room) = check_request-ok codec cfg arguments text f in
        let same : text ≡ json = cc in
        rw (create, f)
          (subst (λ j. IsCreated codec r j a (create_locked codec cfg r text s.actions).1) same
            (create_locked-IsCreated codec cfg r text s.actions a t pos (rw (create, f) at e)))

-- `create` never lets the table grow past the configured number of entries.
pub create-length :
    (codec : Codec) (cfg : Config) (r : Request) (arguments : codec.Arguments) (s : Store)
    → length s.actions ≤ cfg.max_entries
    → length (create codec cfg r arguments s).1.actions ≤ cfg.max_entries
unfolding create
create-length codec cfg r arguments s h = create_cases (check_request codec cfg arguments) refl
  where
    create_cases :
        (x : Result String)
        → check_request codec cfg arguments ≡ x
        → length (create codec cfg r arguments s).1.actions ≤ cfg.max_entries
    create_cases (ok json) e = rw (create, e) (create_locked-length codec cfg r json s.actions h)
    create_cases (err x) e = rw (create, e) h

-- From a store whose entries are keyed by well-formed codes, carry the hash of their arguments, and
-- are one at most for each caller and tool, every operation leads to such a store, whatever it
-- answers.
pub IsTidy-preserved :
    (codec : Codec) (cfg : Config) (r : Request) (arguments : codec.Arguments) (raw : String)
    (caller : Caller) (generation now : ℕ) (s : Store)
    → IsTidy codec s.actions
    → IsTidy codec (create codec cfg r arguments s).1.actions
      × IsTidy codec (consume codec cfg raw caller generation now s).1.actions
      × IsTidy codec (cancel codec cfg raw caller now s).1.actions
      × IsTidy codec (size now s).1.actions
      × IsTidy codec (clear s).actions
unfolding consume cancel size
IsTidy-preserved codec cfg r arguments raw caller generation now s t = (
  create-IsTidy codec cfg r arguments s t,
  guarded-IsTidy codec cfg caller now
      (take_action codec (codec.strip_upper raw) caller generation now) s t
      (take_action-IsTidy codec (codec.strip_upper raw) caller generation now s.actions t),
  guarded-IsTidy codec cfg caller now (take_cancelled (codec.strip_upper raw) caller now) s t
      (take_cancelled-IsTidy codec (codec.strip_upper raw) caller generation now s.actions t),
  Sub-IsTidy codec _ s.actions (prune-IsDict now s.actions t.dict) (prune-Sub now s.actions t.dict)
      t,
  empty-IsTidy codec,
)

create-failure_windows :
    (codec : Codec) (cfg : Config) (r : Request) (arguments : codec.Arguments) (s : Store)
    → (create codec cfg r arguments s).1.failure_windows ≡ s.failure_windows
unfolding create
create-failure_windows codec cfg r arguments s = ground arith

take_action_accepts :
    (codec : Codec) (n : String) (caller : Caller) (generation now : ℕ) (l : Actions)
    (a : PendingAction) (v : codec.Arguments)
    → is_nonce n ≡ true
    → lookup String-discrete n l ≡ some a
    → now < a.expires_at
    → a.caller ≡ caller
    → a.generation ≡ generation
    → check_arguments codec a ≡ ok a
    → (take_action codec n caller generation now l).0 ≡ ok a
unfolding take_action
take_action_accepts codec n caller generation now l a v well found live own current intact =
    ground arith

check_arguments_accepts :
    (codec : Codec) (a : PendingAction) (v : codec.Arguments)
    → codec.loads a.arguments_json ≡ object v
    → codec.sha256 a.arguments_json ≡ a.arguments_hash
    → check_arguments codec a ≡ ok a
unfolding check_arguments
check_arguments_accepts codec a v loads hash = ground arith

-- The round trip: from a store whose entries are keyed by well-formed codes, carry the hash of their
-- arguments and are one at most for each caller and tool, whose table of failures is bounded, and
-- under valid failure limits, the caller who asked for an action, and who sends its code before it
-- expires, in any spelling with the same normal form, under the same generation and with budget left,
-- gets that very action, if its stored arguments are a JSON object.
pub consume-create :
    (codec : Codec) (cfg : Config) (r : Request) (arguments : codec.Arguments) (s : Store)
    (json raw : String) (a : PendingAction) (v : codec.Arguments) (later : ℕ)
    → IsTidy codec s.actions
    → failure_limits cfg.failures ≡ ok cfg.failures
    → IsBounded cfg.failures s.failure_windows
    → live_failures cfg.failures r.caller later s.failure_windows < cfg.failures.max_failures
    → codec.dumps arguments ≡ some json
    → (create codec cfg r arguments s).0 ≡ ok a
    → codec.strip_upper raw ≡ a.nonce
    → later < a.expires_at
    → codec.loads a.arguments_json ≡ object v
    → (consume codec cfg raw r.caller r.generation later (create codec cfg r arguments s).1).0
      ≡ ok a
unfolding consume
consume-create codec cfg r arguments s json raw a v later t valid b left dumped made spelled live
      loads =
    let created = create-IsCreated codec cfg r arguments s json a t dumped made in
    let after = (create codec cfg r arguments s).1 in
    let kept = create-failure_windows codec cfg r arguments s in
    let pos = limits_of cfg.failures cfg.failures valid in
    let keyed = (create-IsTidy codec cfg r arguments s t).keyed a.nonce a created.stored in
    let taken =
      take_action_accepts codec a.nonce r.caller r.generation later after.actions a v
        created.well_formed created.stored live created.own created.current
        (check_arguments_accepts codec a v loads (sym keyed.2)) in
    let tested =
      is_exhausted-live cfg.failures r.caller later s.failure_windows pos.2 b.dict b.capped in
    let free : is_exhausted cfg.failures r.caller
          (prune_failures cfg.failures later after.failure_windows)
        ≡ false =
      rw kept (ground (arith, tested)) in
    rw (guarded_open cfg r.caller later _ after valid free, settle-result)
      (subst (λ n. (take_action codec n r.caller r.generation later after.actions).0 ≡ ok a)
        (sym spelled) taken)
