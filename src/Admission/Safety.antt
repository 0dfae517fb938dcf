-- ===== src/Admission/Safety.antt =====
-- What the gate promises to the tasks that use it, under every schedule.
use nonebot_plugin_moellmcha.Prelude.{
  ℕ, ◌+◌, ◌≤◌, ◌<◌, ◌≡◌, ◌⊎◌, refl, true, false, Option, none, some, List, [], String, arith,
  length, Pick, Pick-length, lookup, contains, leb, if◌then◌else◌,
}
use nonebot_plugin_moellmcha.Admission.{
  Controller, Reserved, queue_full, per_key_limit, Metrics, Rejection, accepted, rejected, init,
  key_count, reserve, reserve_key, can_activate, activate, release, unreserve,
}
use nonebot_plugin_moellmcha.Admission.Counts.{tally, tally-le-length, contains-unmark}
use nonebot_plugin_moellmcha.Admission.Outcome.{reserve_rejected, reserve_accepted}
use nonebot_plugin_moellmcha.Admission.Invariant.{Inv, Reach-Inv, idle-Inv}
use nonebot_plugin_moellmcha.Admission.Steps.{
  System, Step, enter, refuse, start, finish, abandon, Reach, stay, more, idle,
}

pub record Limits : Type 0 where
  pub max_active : ℕ
  pub max_pending : ℕ
  pub max_per_key : Option ℕ

abbrev pub limits : {K : Type 0} → Controller K → Limits
limits c = record {
  max_active = c.max_active;
  max_pending = c.max_pending;
  max_per_key = c.max_per_key;
}

-- The reason of an answer of `reserve`, if it is a refusal.
abbrev pub refusal : {K : Type 0} → Reserved K → Option Rejection
refusal (accepted g) = none
refusal (rejected reason g) = some reason

module _ {K : Type 0} (dec : Discrete K) where
  limits-reserve_key :
      (key : Option K) (m : Option ℕ) (c g : Controller K)
      → reserve_key dec key m c ≡ accepted g
      → limits g ≡ limits c
  unfolding reserve_key
  limits-reserve_key none m c g e = ground arith
  limits-reserve_key (some key) none c g e = ground arith
  limits-reserve_key (some key) (some m) c g e = ground arith

  limits-Step : (s t : System K) → Step dec s t → limits t.gate ≡ limits s.gate
  unfolding activate release unreserve
  limits-Step s t (enter key e w r) =
      limits-reserve_key key s.gate.max_per_key s.gate t.gate
        (reserve_accepted dec s.gate key t.gate e).1
  limits-Step s t (refuse key reason e w r) =
      ground (arith, reserve_rejected dec s.gate key reason t.gate e)
  limits-Step s t (start key p can g r) = ground arith
  limits-Step s t (finish key p g w) = ground arith
  limits-Step s t (abandon key p g r) = ground arith

  limits-Reach : {s t : System K} → Reach dec s t → limits t.gate ≡ limits s.gate
  limits-Reach stay = refl
  limits-Reach (more {t} {u} reach step) = cc (limits-Step t u step, limits-Reach reach)

  from_idle :
      (name : String) (a p : ℕ) (l : Option ℕ) (m : Metrics) (s : System K)
      → Reach dec (idle name a p l m) s
      → Inv dec s
  from_idle name a p l m s reach = Reach-Inv dec (idle-Inv dec name a p l m) reach

  same_limits :
      (name : String) (a p : ℕ) (l : Option ℕ) (m : Metrics) (s : System K)
      → Reach dec (idle name a p l m) s
      → (s.gate.max_active ≡ a) × (s.gate.max_pending ≡ p) × (s.gate.max_per_key ≡ l)
  unfolding init
  same_limits name a p l m s reach = ground (arith, limits-Reach reach)

  -- In every state that the tasks of a new gate can reach, at most `a` tasks run, at most `p` wait,
  -- at most one task of a key runs, and at most `n` tasks of a key wait or run, where `a`, `p` and
  -- `n` are the gate's limits.
  pub capacity_respected :
      (name : String) (a p n : ℕ) (m : Metrics) (s : System K) (k : K)
      → Reach dec (idle name a p (some n) m) s
      → (length s.running ≤ a)
        × (length s.waiting ≤ p)
        × (tally dec k s.running ≤ 1)
        × (tally dec k s.waiting + tally dec k s.running ≤ n)
  capacity_respected name a p n m s k reach =
      let v = from_idle name a p (some n) m s reach in
      let e = same_limits name a p (some n) m s reach in
      (
        ground (arith, v.active, v.active_cap, e),
        ground (arith, v.pending, v.pending_cap, e),
        ground (arith, v.marked k),
        ground (arith, v.charged k n e.2),
      )

  empty_counts :
      (l : Option ℕ) (s : System K) (k : K)
      → s.gate.max_per_key ≡ l
      → Inv dec s
      → s.waiting ≡ []
      → s.running ≡ []
      → lookup dec k s.gate.per_key ≡ none
  unfolding lookup key_count
  empty_counts none s k e v w r = ground (arith, v.uncharged e)
  empty_counts (some n) s k e v w r = ground (arith, v.charged k n e, v.positive k)

  -- When every task has left, by whatever way, nothing is held back: the counters are zero, no key
  -- has a stored count, and no key is marked active.
  pub all_released :
      (name : String) (a p : ℕ) (l : Option ℕ) (m : Metrics) (s : System K) (k : K)
      → Reach dec (idle name a p l m) s
      → s.waiting ≡ []
      → s.running ≡ []
      → (s.gate.active ≡ 0)
        × (s.gate.pending ≡ 0)
        × (lookup dec k s.gate.per_key ≡ none)
        × (contains dec k s.gate.active_keys ≡ false)
  all_released name a p l m s k reach w r =
      let v = from_idle name a p l m s reach in
      (
        ground (arith, v.active),
        ground (arith, v.pending),
        empty_counts l s k (same_limits name a p l m s reach).2 v w r,
        ground (arith, v.marked k),
      )

  -- A release makes room for a task of the same key, or of none: the condition that such a waiting
  -- task waits for holds at once.
  pub release_admits_next :
      (name : String) (a p : ℕ) (l : Option ℕ) (m : Metrics) (s : System K) (key : Option K)
      (r : List (Option K))
      → Reach dec (idle name a p l m) s
      → Pick key s.running r
      → can_activate dec key (release dec key s.gate) ≡ true
  unfolding can_activate release
  release_admits_next name a p l m s none r reach picked =
      let v = from_idle name a p l m s reach in
      ground (arith, v.active, v.active_cap, Pick-length picked)
  release_admits_next name a p l m s (some k) r reach picked =
      let v = from_idle name a p l m s reach in
      ground (
        arith,
        v.active,
        v.active_cap,
        Pick-length picked,
        contains-unmark dec (some k) k s.gate.active_keys,
      )

  -- While a task waits and the gate allows any to run, some task runs or the waiting one may start.
  pub waiting_not_stuck :
      (name : String) (a p : ℕ) (l : Option ℕ) (m : Metrics) (s : System K) (key : Option K)
      (w : List (Option K))
      → 0 < a
      → Reach dec (idle name a p l m) s
      → Pick key s.waiting w
      → (0 < length s.running) ⊎ (can_activate dec key s.gate ≡ true)
  unfolding can_activate
  waiting_not_stuck name a p l m s none w pos reach picked =
      let v = from_idle name a p l m s reach in
      ground (arith, v.active, same_limits name a p l m s reach)
  waiting_not_stuck name a p l m s (some k) w pos reach picked =
      let v = from_idle name a p l m s reach in
      ground (
        arith,
        v.active,
        v.marked k,
        same_limits name a p l m s reach,
        tally-le-length dec k s.running,
      )

  -- A request is refused for a full queue exactly when `p` tasks wait, else for its key exactly when
  -- `n` tasks of the key wait or run; otherwise it is accepted.
  pub reserve-refusal :
      (name : String) (a p n : ℕ) (m : Metrics) (s : System K) (k : K)
      → Reach dec (idle name a p (some n) m) s
      → refusal (reserve dec (some k) s.gate) ≡ (
          if leb p (length s.waiting)
          then some queue_full
          else if leb n (tally dec k s.waiting + tally dec k s.running)
          then some per_key_limit
          else none)
  unfolding reserve reserve_key
  reserve-refusal name a p n m s k reach =
      let v = from_idle name a p (some n) m s reach in
      let e = same_limits name a p (some n) m s reach in
      rw e.2 (ground (arith, v.pending, e.1, v.charged k n e.2))
