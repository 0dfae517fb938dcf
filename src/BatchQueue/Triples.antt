-- ===== src/BatchQueue/Triples.antt =====
-- Rules for the wrappers of the queue's methods: what holds of a method's result when it holds of the
-- body's results and of every refusal.
use nonebot_plugin_moellmcha.Prelude.{
  ℕ, ◌≤◌, ◌≡◌, refl, inl, inr, arith, true, false, Option, none, some, Bool-cases, Option-cases,
}
use nonebot_plugin_moellmcha.BatchQueue.Queue.{
  Error, ownership_error, result_unknown_error, clock_error, lease_not_active, Outcome, raise,
  Owner, Lease, Queue, Method, is_unknown, moved_backwards, bound, at_time, known, is_active,
  active,
}

unfoldable pub clock_of : Option ℕ → ℕ
clock_of none = 0
clock_of (some t) = t

not_backwards : (last : Option ℕ) (now : ℕ) → moved_backwards last now ≡ false → clock_of last ≤ now
unfolding moved_backwards clock_of
not_backwards none now e = ground arith
not_backwards (some last) now e = ground arith

active_lease :
    {R : Type 0} (lease : Lease R) (o : Option (Lease R))
    → is_active lease o ≡ true
    → (current : Lease R) × (o ≡ some current)
unfolding is_active
active_lease lease none e = ground arith
active_lease lease (some current) e = (current, refl)

module _ {R A : Type 0} (P : Queue R → Type 0) (Q : Outcome A × Queue R → Type 0)
    (refused : (e : Error) (q : Queue R) → P q → Q (raise e, q)) where
  pub bound_triple :
      ((o : Owner) (q : Queue R) → P q → P (record q { owner = some o }))
      → (caller : Owner) (body : Method R A) → ((q : Queue R) → P q → Q (body q))
      → (q : Queue R) → P q
      → Q (bound caller body q)
  unfolding bound
  bound_triple owned caller body run q p = elim (Option-cases q.owner) [
    | inl e ↦ rw e (ground (arith, refused ownership_error q p, run _ (owned caller q p)))
    | inr (o, e) ↦ rw e (ground (arith, refused ownership_error q p, run q p))
  ]

  pub at_time_triple :
      ((now : ℕ) (q : Queue R)
        → clock_of q.last_clock ≤ now
        → P q
        → P (record q { last_clock = some now }))
      → (now : ℕ) (body : Method R A) → ((q : Queue R) → q.last_clock ≡ some now → P q → Q (body q))
      → (q : Queue R) → P q
      → Q (at_time now body q)
  unfolding at_time
  at_time_triple timed now body run q p = elim (Bool-cases (moved_backwards q.last_clock now)) [
    | inl b ↦ rw b (refused clock_error q p)
    | inr b ↦ rw b (run _ refl (timed now q (not_backwards q.last_clock now b) p))
  ]

  pub known_triple :
      (body : Method R A)
      → ((q : Queue R) → is_unknown q.state ≡ false → P q → Q (body q))
      → (q : Queue R) → P q
      → Q (known body q)
  unfolding known
  known_triple body run q p = elim (Bool-cases (is_unknown q.state)) [
    | inl b ↦ rw b (refused result_unknown_error q p)
    | inr b ↦ rw b (run q b p)
  ]

  pub active_triple :
      (lease : Lease R) (body : Method R A)
      → ((current : Lease R) (q : Queue R) → q.lease ≡ some current → P q → Q (body q))
      → (q : Queue R) → P q
      → Q (active lease body q)
  unfolding active
  active_triple lease body run q p = elim (Bool-cases (is_active lease q.lease)) [
    | inl b ↦ rw b (let (current, e) = active_lease lease q.lease b in run current q e p)
    | inr b ↦ rw b (refused lease_not_active q p)
  ]
