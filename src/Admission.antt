-- ===== src/Admission.antt =====
-- nonebot_plugin_moellmchats/admission.py: `AdmissionController`, the bounded gate in front of LLM
-- requests and of compatible dispatch, and the counters that it publishes (runtime_metrics.py).
-- A method's body runs under the condition's lock, so it is one step. Keys are any hashable type.
pub mod Steps
mod Counts
mod Outcome
pub mod Invariant
pub mod Safety
mod Tests
use nonebot_plugin_moellmcha.Prelude.{
  ℕ, zero, suc, ◌+◌, ◌-◌, ◌≡◌, Bool, true, false, not, ◌&&◌, Option, none, some, List, [], ◌∷◌,
  String, String-discrete, ite, dec_le, if◌then◌else◌, ltb, leb, lookup, insert, pop, contains, add,
  discard,
}

pub record Metrics : Type 0 where
  pub llm_active : ℕ
  pub llm_pending : ℕ
  pub llm_rejected : ℕ
  pub dispatch_active : ℕ
  pub dispatch_pending : ℕ
  pub dispatch_rejected : ℕ

pub record Controller (K : Type 0) : Type 0 where
  pub name : String
  pub max_active : ℕ
  pub max_pending : ℕ
  pub max_per_key : Option ℕ
  pub active : ℕ
  pub pending : ℕ
  pub per_key : List (K × ℕ)
  pub active_keys : List K
  pub metrics : Metrics

-- `AdmissionRejected`, by its message.
pub data Rejection : Type 0 where
  queue_full per_key_limit : Rejection

pub data Reserved (K : Type 0) : Type 0 where
  accepted : Controller K → Reserved K
  rejected : Rejection → Controller K → Reserved K

module _ {K : Type 0} where
  unfoldable pub init : String → ℕ → ℕ → Option ℕ → Metrics → Controller K
  init name max_active max_pending max_per_key metrics = record {
    name = name;
    max_active = max_active;
    max_pending = max_pending;
    max_per_key = max_per_key;
    active = 0;
    pending = 0;
    per_key = [];
    active_keys = [];
    metrics = metrics;
  }

  -- `_publish`: the metrics are global, with one set of gauges for "llm" and one for all others.
  unfoldable pub gauges : Controller K → Metrics
  gauges c =
      ite (String-discrete c.name "llm")
        (record c.metrics { llm_active = c.active; llm_pending = c.pending })
        (record c.metrics { dispatch_active = c.active; dispatch_pending = c.pending })

  abbrev pub publish : Controller K → Controller K
  publish c = record c { metrics = gauges c }

  -- `_rejected`
  unfoldable pub refusals : Controller K → Metrics
  refusals c =
      ite (String-discrete c.name "llm")
        (record c.metrics { llm_rejected = c.metrics.llm_rejected + 1 })
        (record c.metrics { dispatch_rejected = c.metrics.dispatch_rejected + 1 })

  abbrev pub count_rejected : Controller K → Controller K
  count_rejected c = record c { metrics = refusals c }

  -- the end of `_reserve`, for a request that no limit refuses
  abbrev pub enqueue : Controller K → Controller K
  enqueue c = publish (record c { pending = c.pending + 1 })

module _ {K : Type 0} (dec : Discrete K) where
  -- `self._per_key.get(key, default)`
  unfoldable pub key_count : K → ℕ → List (K × ℕ) → ℕ
  key_count key default per_key = elim (lookup dec key per_key) [ none ↦ default | some n ↦ n ]

  -- `self._per_key[key] = key_count + 1`
  unfoldable pub charge : K → List (K × ℕ) → List (K × ℕ)
  unfolding key_count
  charge key per_key = insert dec key (key_count key 0 per_key + 1) per_key

  -- the test of `_reserve` on the key's own limit
  unfoldable pub reserve_key : Option K → Option ℕ → Controller K → Reserved K
  unfolding key_count charge
  reserve_key (some key) (some limit) c =
      if leb limit (key_count key 0 c.per_key)
      then rejected per_key_limit (count_rejected c)
      else accepted (enqueue (record c { per_key = charge key c.per_key }))
  reserve_key _ _ c = accepted (enqueue c)

  -- `_reserve`
  unfoldable pub reserve : Option K → Controller K → Reserved K
  unfolding reserve_key
  reserve key c =
      if leb c.max_pending c.pending
      then rejected queue_full (count_rejected c)
      else reserve_key key c.max_per_key c

  -- `remaining = self._per_key.get(key, 1) - 1`, which is stored while it is positive. The difference
  -- of integers is positive exactly when the one of numbers is.
  unfoldable pub discharge : Option K → Option ℕ → List (K × ℕ) → List (K × ℕ)
  unfolding key_count
  discharge (some key) (some limit) per_key =
      let remaining = key_count key 1 per_key - 1 in
      if ltb 0 remaining then insert dec key remaining per_key else pop dec key per_key
  discharge _ _ per_key = per_key

  unfoldable pub unmark : Option K → List K → List K
  unmark none active_keys = active_keys
  unmark (some key) active_keys = discard dec key active_keys

  -- `_release`
  unfoldable pub release : Option K → Controller K → Controller K
  unfolding unmark discharge
  release key c = publish (record c {
    active = c.active - 1;
    active_keys = unmark key c.active_keys;
    per_key = discharge key c.max_per_key c.per_key;
  })

  -- `_unreserve`
  unfoldable pub unreserve : Option K → Controller K → Controller K
  unfolding discharge
  unreserve key c =
      publish
        (record c { pending = c.pending - 1; per_key = discharge key c.max_per_key c.per_key })

  unfoldable pub key_is_free : Option K → Controller K → Bool
  key_is_free none c = true
  key_is_free (some key) c = not (contains dec key c.active_keys)

  -- `_can_activate`
  unfoldable pub can_activate : Option K → Controller K → Bool
  unfolding key_is_free
  can_activate key c = ltb c.active c.max_active && key_is_free key c

  unfoldable pub mark : Option K → List K → List K
  mark none active_keys = active_keys
  mark (some key) active_keys = add dec key active_keys

  -- the body of `slot` after `wait_for`
  unfoldable pub activate : Option K → Controller K → Controller K
  unfolding mark
  activate key c = publish (record c {
    pending = c.pending - 1;
    active = c.active + 1;
    active_keys = mark key c.active_keys;
  })
