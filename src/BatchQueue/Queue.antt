-- ===== src/BatchQueue/Queue.antt =====
-- `UsageBatchQueue` and `AuditBatchQueue`. The body of a method runs under the condition's lock, up to
-- where it waits: a method is a function that gives its outcome, `wait` if it suspends, beside the
-- new state. Times are milliseconds.
use nonebot_plugin_moellmcha.Prelude.{
  ℕ, ◌+◌, Bool, true, false, not, ◌&&◌, ◌||◌, Option, none, some, List, [], ◌∷◌, map, if◌then◌else◌,
  leb, ltb, ◌==◌, length,
}

pub data State : Type 0 where
  open_ closing closed result_unknown : State

pub data Error : Type 0 where
  closed_error result_unknown_error ownership_error clock_error : Error
  record_invalid lease_invalid lease_not_active : Error

pub data Outcome {ℓ} (A : Type ℓ) : Type ℓ where
  return : A → Outcome A
  wait : Outcome A
  raise : Error → Outcome A

pub record Policy : Type 0 where
  pub max_batch_size : ℕ
  pub flush_interval : ℕ
  pub max_outstanding_records : ℕ

abbrev pub max_batch : ℕ
max_batch = 100

-- the checks of the policy's `__post_init__`
unfoldable pub policy_is_valid : Policy → Bool
policy_is_valid p =
    leb 1 p.max_batch_size
    && leb p.max_batch_size max_batch
    && (leb 1 p.flush_interval && leb p.flush_interval 60_000)
    && (leb p.max_batch_size p.max_outstanding_records && leb p.max_outstanding_records 100_000)

-- A process and its event loop. A process identifier of zero is what `pid_getter` may not return.
pub record Owner : Type 0 where
  pub pid : ℕ
  pub loop : ℕ

unfoldable pub same_owner : Owner → Owner → Bool
same_owner a b = a.pid == b.pid && a.loop == b.loop

-- The queue that made a lease stands in it by its token. The numbers of one queue's leases differ, so
-- the number is the lease's identity (`is`) among those.
pub record Lease (R : Type 0) : Type 0 where
  pub sequence : ℕ
  pub records : List R
  pub oldest_enqueued_at : ℕ
  pub leased_at : ℕ
  pub owner_token : ℕ

pub record Queue (R : Type 0) : Type 0 where
  pub policy : Policy
  pub pending : List (R × ℕ)
  pub leased_entries : List (R × ℕ)
  pub lease : Option (Lease R)
  pub owner_token : ℕ
  pub next_sequence : ℕ
  pub state : State
  pub owner : Option Owner
  pub last_clock : Option ℕ

abbrev pub Method : Type 0 → Type 0 → Type 0
Method R A = Queue R → Outcome A × Queue R

unfoldable pub is_closing : State → Bool
is_closing closing = true
is_closing _ = false

unfoldable pub is_unknown : State → Bool
is_unknown result_unknown = true
is_unknown _ = false

unfoldable pub moved_backwards : Option ℕ → ℕ → Bool
moved_backwards none now = false
moved_backwards (some last) now = ltb now last

unfoldable pub start_closing : State → State
start_closing open_ = closing
start_closing s = s

module _ {R : Type 0} where
  unfoldable pub init : Policy → ℕ → Queue R
  init policy token = record {
    policy = policy;
    pending = [];
    leased_entries = [];
    lease = none;
    owner_token = token;
    next_sequence = 1;
    state = open_;
    owner = none;
    last_clock = none;
  }

  unfoldable pub outstanding_count : Queue R → ℕ
  outstanding_count q =
      length q.pending + (elim q.lease [ none ↦ 0 | some lease ↦ length lease.records ])

  -- `_bind_owner`, then the method under the lock
  unfoldable pub bound : {A : Type 0} → Owner → Method R A → Method R A
  unfolding same_owner
  bound caller body q = if caller.pid == 0 then (raise ownership_error, q) else (elim q.owner [
    | none ↦ body (record q { owner = some caller })
    | some o ↦ if same_owner o caller then body q else (raise ownership_error, q)
  ])

  -- `_now`, and what follows it
  unfoldable pub at_time : {A : Type 0} → ℕ → Method R A → Method R A
  unfolding moved_backwards
  at_time now body q =
      if moved_backwards q.last_clock now
      then (raise clock_error, q)
      else body (record q { last_clock = some now })

  -- `_raise_if_result_unknown`, and what follows it
  unfoldable pub known : {A : Type 0} → Method R A → Method R A
  unfolding is_unknown
  known body q = if is_unknown q.state then (raise result_unknown_error, q) else body q

  unfoldable pub is_due : ℕ → List (R × ℕ) → Policy → Bool
  is_due now [] p = false
  is_due now ((r, at) ∷ rest) p =
      leb p.max_batch_size (length ((r, at) ∷ rest)) || leb (at + p.flush_interval) now

  unfoldable pub has_pending : List (R × ℕ) → Bool
  has_pending [] = false
  has_pending _ = true

  unfoldable pub has_lease : Option (Lease R) → Bool
  has_lease none = false
  has_lease (some _) = true

  -- `_ready`
  unfoldable pub is_ready : ℕ → Bool → Queue R → Bool
  unfolding is_due is_closing has_pending has_lease
  is_ready now force q =
      has_pending q.pending
      && not (has_lease q.lease)
      && (force || is_closing q.state || is_due now q.pending q.policy)

  unfoldable pub oldest : List (R × ℕ) → ℕ
  oldest [] = 0
  oldest ((r, at) ∷ rest) = at

  abbrev pub records_of : List (R × ℕ) → List R
  records_of = map (λ e. e.0)

  -- `_finish_close_if_empty`
  unfoldable pub finish_close : Queue R → Queue R
  unfolding is_closing has_pending has_lease
  finish_close q =
      if is_closing q.state && not (has_pending q.pending) && not (has_lease q.lease)
      then record q { state = closed }
      else q

  unfoldable pub is_active : Lease R → Option (Lease R) → Bool
  is_active lease none = false
  is_active lease (some current) =
      lease.sequence == current.sequence && lease.owner_token == current.owner_token

  -- `_require_active_lease`, and what follows it
  unfoldable pub active : {A : Type 0} → Lease R → Method R A → Method R A
  unfolding is_active
  active lease body q = if is_active lease q.lease then body q else (raise lease_not_active, q)
