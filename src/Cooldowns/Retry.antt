-- ===== src/Cooldowns/Retry.antt =====
-- A refused claim says exactly how long to wait.
use nonebot_plugin_moellmcha.Prelude.{
  ℕ, ◌+◌, ◌-◌, ◌*◌, ◌<◌, ◌≡◌, inl, inr, refl, sym, ◌∙◌, ap, subst, arith, max, Bool, true, false,
  Option, none, some, String, ltb, lookup, insert, lookup-insert, Bool-cases, Option-cases,
}
use nonebot_plugin_moellmcha.Cooldowns.Claims.{
  Claim, retry_after, Outcome, ok, new_token, seconds_up,
}
use nonebot_plugin_moellmcha.Cooldowns.Memory.{
  Stamp, at, corrupt, Store, grant, claim_after, claim_stamped, claim,
}
use nonebot_plugin_moellmcha.Cooldowns.Blocking.{here, claim-stamped, claim-valid}

module _ {K : Type 0} (dec : Discrete K) where
  -- what a refused claim has seen
  Refusal : K → ℕ → ℕ → ℕ → Store K → Type 0
  Refusal user t c r s =
      (u : ℕ) × (lookup dec user s.values ≡ some (at u))
      × (t < u + c * 1_000)
      × (r ≡ max 1 (seconds_up (u + c * 1_000 - t)))

  claim_after-refused :
      (user : K) (t c r : ℕ) (draw : ℕ → String) (u : ℕ) (s : Store K)
      → lookup dec user s.values ≡ some (at u)
      → (claim_after dec user t c draw u s).0 ≡ ok (retry_after r)
      → Refusal user t c r (claim_after dec user t c draw u s).1
  unfolding claim_after grant Refusal
  claim_after-refused user t c r draw u s h e = elim (Bool-cases (ltb t (u + c * 1_000))) [
    | inl b ↦ rw b (u, h, ground (arith, b), ground (arith, b, e))
    | inr b ↦ elim (Option-cases (new_token draw 32 0)) [
      | inl n ↦ ground (arith, b, n, e)
      | inr (x, n) ↦ ground (arith, b, n, e)
    ]
  ]

  claim_stamped-refused :
      (user : K) (t c r : ℕ) (draw : ℕ → String) (o : Option Stamp) (s : Store K)
      → lookup dec user s.values ≡ o
      → (claim_stamped dec user t c draw o s).0 ≡ ok (retry_after r)
      → Refusal user t c r (claim_stamped dec user t c draw o s).1
  unfolding claim_stamped
  claim_stamped-refused user t c r draw none s h e =
      claim_after-refused user t c r draw 0 (record s { values = insert dec user (at 0) s.values })
        (lookup-insert dec user user (at 0) s.values ∙ here dec user _) e
  claim_stamped-refused user t c r draw (some (at u)) s h e =
      claim_after-refused user t c r draw u s h e
  claim_stamped-refused user t c r draw (some corrupt) s h e = ground (arith, e)

  unfoldable pub is_refusal : Outcome (Claim K) → Bool
  is_refusal (ok (retry_after r)) = true
  is_refusal _ = false

  whole_seconds : (t d k : ℕ) → t < d → ltb (t + k * 1_000) d ≡ ltb k (max 1 (seconds_up (d - t)))
  unfolding seconds_up
  whole_seconds t d k h = ground (arith, h)

  stamped_later :
      (user : K) (t c u k : ℕ) (draw : ℕ → String) (o : Option Stamp) (s : Store K)
      → o ≡ some (at u)
      → t < u + c * 1_000
      → is_refusal (claim_stamped dec user (t + k * 1_000) c draw o s).0
        ≡ ltb k (max 1 (seconds_up (u + c * 1_000 - t)))
  unfolding claim_stamped claim_after grant is_refusal
  stamped_later user t c u k draw o s e h = elim (Option-cases (new_token draw 32 0)) [
    | inl n ↦ rw e (ground (arith, n, whole_seconds t (u + c * 1_000) k h))
    | inr (x, n) ↦ rw e (ground (arith, n, whole_seconds t (u + c * 1_000) k h))
  ]

  claim-refused :
      (text : K → String) (user : K) (t c r : ℕ) (draw : ℕ → String) (s : Store K)
      → (claim dec text user t c draw s).0 ≡ ok (retry_after r)
      → Refusal user t c r (claim dec text user t c draw s).1
  claim-refused text user t c r draw s e =
      let b =
        claim-stamped dec text user t c draw s
          (claim-valid dec text user t c draw s (retry_after r) e) in
      subst (λ x. Refusal user t c r x.1) (sym b)
        (claim_stamped-refused user t c r draw (lookup dec user s.values) _ refl
          (subst (λ x. x.0 ≡ ok (retry_after r)) b e))

  -- The time that a refusal gives is exact: the same claim `k` whole seconds later is refused again if
  -- and only if `k` is less than that.
  pub retry_after_exact :
      (text : K → String) (user : K) (t c r k : ℕ) (draw draw' : ℕ → String) (s : Store K)
      → (claim dec text user t c draw s).0 ≡ ok (retry_after r)
      → is_refusal
          (claim dec text user (t + k * 1_000) c draw' (claim dec text user t c draw s).1).0
        ≡ ltb k r
  unfolding Refusal
  retry_after_exact text user t c r k draw draw' s e =
      let after = (claim dec text user t c draw s).1 in
      let (u, stamped, early, exact) = claim-refused text user t c r draw s e in
      let valid = claim-valid dec text user t c draw s (retry_after r) e in
      rw (claim-stamped dec text user (t + k * 1_000) c draw' after valid) (
        stamped_later user t c u k draw' (lookup dec user after.values) _ stamped early
        ∙ ap (λ r. ltb k r) (sym exact))
