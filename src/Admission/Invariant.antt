-- ===== src/Admission/Invariant.antt =====
-- What every schedule keeps true of the gate.
use nonebot_plugin_moellmcha.Prelude.{
  ℕ, ◌+◌, ◌≤◌, ◌<◌, ◌≡◌, refl, true, Option, none, some, List, [], ◌∷◌, String, arith, length, Pick,
  Pick-length, lookup, contains, if◌then◌else◌, inl, inr, ◌⊎◌, subst,
}
use nonebot_plugin_moellmcha.Admission.{
  Controller, Metrics, Rejection, accepted, rejected, init, enqueue, charge, key_count, reserve,
  reserve_key, can_activate, activate, release, unreserve, mark,
}
use nonebot_plugin_moellmcha.Admission.Counts.{
  tally, tally-Pick, key_count-charge, key_count-discharge, IsPositive, charge-IsPositive,
  discharge-IsPositive, discharge_untracked, contains-mark, contains-unmark, free_weight,
  weight_cases,
}
use nonebot_plugin_moellmcha.Admission.Outcome.{reserve_rejected, reserve_accepted}
use nonebot_plugin_moellmcha.Admission.Steps.{
  System, Step, enter, refuse, start, finish, abandon, Reach, stay, more, idle,
}

module _ {K : Type 0} (dec : Discrete K) where
  pub record Inv (s : System K) : Type 0 where
    pub active : s.gate.active ≡ length s.running
    pub pending : s.gate.pending ≡ length s.waiting
    pub active_cap : s.gate.active ≤ s.gate.max_active
    pub pending_cap : s.gate.pending ≤ s.gate.max_pending
    pub positive : IsPositive dec s.gate.per_key
    pub charged :
        (k : K) (m : ℕ)
        → s.gate.max_per_key ≡ some m
        → (key_count dec k 0 s.gate.per_key ≡ tally dec k s.waiting + tally dec k s.running)
          × (key_count dec k 0 s.gate.per_key ≤ m)
    pub uncharged : s.gate.max_per_key ≡ none → s.gate.per_key ≡ []
    pub marked :
        (k : K) → (if contains dec k s.gate.active_keys then 1 else 0) ≡ tally dec k s.running

  -- a request that is not counted by its key only adds a waiting task
  enqueue-Inv :
      (s : System K) (key : Option K)
      → (key ≡ none) ⊎ (s.gate.max_per_key ≡ none)
      → s.gate.pending < s.gate.max_pending
      → Inv s
      → Inv (record { gate = enqueue s.gate; waiting = key ∷ s.waiting; running = s.running })
  enqueue-Inv s key free room v = record {
    active = v.active;
    pending = ground (arith, v.pending);
    active_cap = v.active_cap;
    pending_cap = ground arith;
    positive = v.positive;
    charged = λ k m e. ground (arith, v.charged k m);
    uncharged = v.uncharged;
    marked = v.marked;
  }

  charge-Inv :
      (s : System K) (key : K) (m : ℕ)
      → s.gate.max_per_key ≡ some m
      → key_count dec key 0 s.gate.per_key < m
      → s.gate.pending < s.gate.max_pending
      → Inv s
      → Inv (record {
        gate = enqueue (record s.gate { per_key = charge dec key s.gate.per_key });
        waiting = some key ∷ s.waiting;
        running = s.running;
      })
  charge-Inv s key m l below room v = record {
    active = v.active;
    pending = ground (arith, v.pending);
    active_cap = v.active_cap;
    pending_cap = ground arith;
    positive = charge-IsPositive dec key s.gate.per_key v.positive;
    charged = λ k n e.
        ground (arith, key_count-charge dec key k s.gate.per_key, v.charged k n, v.charged key n);
    uncharged = λ e. cc;
    marked = v.marked;
  }

  reserve-Inv :
      (s : System K) (key : Option K) (limit : Option ℕ) (g : Controller K)
      → s.gate.max_per_key ≡ limit
      → reserve_key dec key limit s.gate ≡ accepted g
      → s.gate.pending < s.gate.max_pending
      → Inv s
      → Inv (record { gate = g; waiting = key ∷ s.waiting; running = s.running })
  unfolding reserve_key
  reserve-Inv s none limit g l e room v =
      subst (λ x. Inv (record { gate = x; waiting = none ∷ s.waiting; running = s.running })) (cc)
        (enqueue-Inv s none (inl refl) room v)
  reserve-Inv s (some key) none g l e room v =
      subst (λ x. Inv (record { gate = x; waiting = some key ∷ s.waiting; running = s.running }))
        (cc) (enqueue-Inv s (some key) (inr l) room v)
  reserve-Inv s (some key) (some m) g l e room v =
      subst (λ x. Inv (record { gate = x; waiting = some key ∷ s.waiting; running = s.running }))
        (ground arith) (charge-Inv s key m l (ground arith) room v)

  activate-Inv :
      (s : System K) (key : Option K) (w : List (Option K))
      → Pick key s.waiting w
      → can_activate dec key s.gate ≡ true
      → Inv s
      → Inv (record { gate = activate dec key s.gate; waiting = w; running = key ∷ s.running })
  unfolding can_activate activate
  activate-Inv s key w p can v = record {
    active = ground (arith, v.active);
    pending = ground (arith, v.pending, Pick-length p);
    active_cap = ground arith;
    pending_cap = ground (arith, Pick-length p);
    positive = v.positive;
    charged = λ k m e. ground (arith, v.charged k m e, tally-Pick dec k p);
    uncharged = v.uncharged;
    marked = λ k. marked_after k;
  }
    where
      marked_after :
          (k : K)
          → (if contains dec k (mark dec key s.gate.active_keys) then 1 else 0)
            ≡ tally dec k (key ∷ s.running)
      marked_after k = ground (
        arith,
        v.marked k,
        contains-mark dec key k s.gate.active_keys,
        free_weight dec key k s.gate,
        weight_cases dec k key,
      )

  release-Inv :
      (s : System K) (key : Option K) (r : List (Option K))
      → Pick key s.running r
      → Inv s
      → Inv (record { gate = release dec key s.gate; waiting = s.waiting; running = r })
  unfolding release
  release-Inv s key r p v = record {
    active = ground (arith, v.active, Pick-length p);
    pending = v.pending;
    active_cap = ground arith;
    pending_cap = v.pending_cap;
    positive = discharge-IsPositive dec key s.gate.max_per_key s.gate.per_key v.positive;
    charged = λ k m e. rw e (
        ground (
          arith,
          v.charged k m e,
          tally-Pick dec k p,
          key_count-discharge dec key m k s.gate.per_key,
        ));
    uncharged = λ e. rw (e, discharge_untracked) (v.uncharged e);
    marked = λ k. ground (
      arith,
      v.marked k,
      contains-unmark dec key k s.gate.active_keys,
      tally-Pick dec k p,
      weight_cases dec k key,
    );
  }

  unreserve-Inv :
      (s : System K) (key : Option K) (w : List (Option K))
      → Pick key s.waiting w
      → Inv s
      → Inv (record { gate = unreserve dec key s.gate; waiting = w; running = s.running })
  unfolding unreserve
  unreserve-Inv s key w p v = record {
    active = v.active;
    pending = ground (arith, v.pending, Pick-length p);
    active_cap = v.active_cap;
    pending_cap = ground arith;
    positive = discharge-IsPositive dec key s.gate.max_per_key s.gate.per_key v.positive;
    charged = λ k m e. rw e (
        ground (
          arith,
          v.charged k m e,
          tally-Pick dec k p,
          key_count-discharge dec key m k s.gate.per_key,
        ));
    uncharged = λ e. rw (e, discharge_untracked) (v.uncharged e);
    marked = v.marked;
  }

  refuse-Inv :
      (s : System K) (key : Option K) (reason : Rejection) (g : Controller K)
      → reserve dec key s.gate ≡ rejected reason g
      → Inv s
      → Inv (record s { gate = g })
  refuse-Inv s key reason g e v =
      subst (λ x. Inv (record s { gate = x })) (reserve_rejected dec s.gate key reason g e)
        (record {
          active = v.active;
          pending = v.pending;
          active_cap = v.active_cap;
          pending_cap = v.pending_cap;
          positive = v.positive;
          charged = v.charged;
          uncharged = v.uncharged;
          marked = v.marked;
        })

  system_eq :
      (s : System K) {g : Controller K} {w r : List (Option K)}
      → s.gate ≡ g
      → s.waiting ≡ w
      → s.running ≡ r
      → record { gate = g; waiting = w; running = r } ≡ s
  system_eq s p q r = cc

  -- Every step of every task keeps the invariant.
  pub Step-Inv : (s t : System K) → Step dec s t → Inv s → Inv t
  Step-Inv s t (enter key e w r) v = subst Inv (system_eq t refl w r) (
      reserve-Inv s key s.gate.max_per_key t.gate refl (reserve_accepted dec s.gate key t.gate e).1
        (reserve_accepted dec s.gate key t.gate e).0 v)
  Step-Inv s t (refuse key reason e w r) v =
      subst Inv (system_eq t refl w r) (refuse-Inv s key reason t.gate e v)
  Step-Inv s t (start key p can g r) v =
      subst Inv (system_eq t g refl r) (activate-Inv s key t.waiting p can v)
  Step-Inv s t (finish key p g w) v =
      subst Inv (system_eq t g w refl) (release-Inv s key t.running p v)
  Step-Inv s t (abandon key p g r) v =
      subst Inv (system_eq t g refl r) (unreserve-Inv s key t.waiting p v)

  pub Reach-Inv : {s t : System K} → Inv s → Reach dec s t → Inv t
  Reach-Inv v stay = v
  Reach-Inv v (more {t} {u} reach step) = Step-Inv t u step (Reach-Inv v reach)

  pub idle-Inv :
      (name : String) (max_active max_pending : ℕ) (max_per_key : Option ℕ) (m : Metrics)
      → Inv (idle name max_active max_pending max_per_key m)
  unfolding init contains lookup key_count
  idle-Inv name max_active max_pending max_per_key m = record {
    active = refl;
    pending = refl;
    active_cap = omega arith;
    pending_cap = omega arith;
    positive = λ k e. cc;
    charged = λ k limit e. (refl, omega arith);
    uncharged = λ e. refl;
    marked = λ k. refl;
  }
