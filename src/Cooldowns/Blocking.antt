-- ===== src/Cooldowns/Blocking.antt =====
-- A claim keeps its user waiting for the cooldown, and its lease undoes it once.
use nonebot_plugin_moellmcha.Prelude.{
  ℕ, ◌+◌, ◌-◌, ◌*◌, ◌<◌, ◌≡◌, inl, inr, refl, sym, ◌∙◌, ap, subst, arith, max, Bool, true, false,
  Option, none, some, List, [], ◌∷◌, ◌++◌, All, String, String-discrete, ite, ltb, ◌==◌, lookup,
  insert, pop, lookup-insert, lookup-pop, lookup-append_end, Bool-cases,
}
use nonebot_plugin_moellmcha.Cooldowns.Claims.{
  Lease, Claim, acquired, retry_after, Outcome, ok, is_user_id, new_token, seconds_up,
}
use nonebot_plugin_moellmcha.Cooldowns.Memory.{
  Stamp, at, corrupt, Owner, Store, is_stamp, same_owner, is_owner, prune_owners, grant,
  claim_after, claim_stamped, claim, release,
}
use nonebot_plugin_moellmcha.Cooldowns.Calls.{Call, run, LeavesAlone}
use nonebot_plugin_moellmcha.Cooldowns.Held.{lookup-prune_owners, IsHeld, run-IsHeld}

pub here : {A K : Type 0} {a : A} (dec : Discrete K) (k : K) (b : A) → ite (dec k k) a b ≡ a
here dec k b = elim (dec k k) [ yes e ↦ ground (arith, e) | no n ↦ elim (n refl) [ ] ]

same_lease :
    {K : Type 0} {a b : Lease K}
    → ◌≡◌ {A = Outcome (Claim K)} (ok (acquired a)) (ok (acquired b))
    → a ≡ b
same_lease e = ground (arith, e)

module _ {K : Type 0} (dec : Discrete K) where
  -- what a granted claim leaves behind
  pub record IsGranted (user : K) (t : ℕ) (lease : Lease K) (s : Store K) : Type 0 where
    pub own : lease.user_id ≡ user
    pub on_time : lease.claimed_at ≡ t
    pub stamped : lookup dec user s.values ≡ some (at t)
    pub owned :
        lookup dec user s.owners
        ≡ some (record { token = lease.token; claimed_at = lease.claimed_at })

  grant-IsGranted :
      (user : K) (t : ℕ) (token : Option String) (s : Store K) (lease : Lease K)
      → (grant dec user t token s).0 ≡ ok (acquired lease)
      → IsGranted user t lease (grant dec user t token s).1
  unfolding grant is_stamp
  grant-IsGranted user t none s lease e = ground (arith, e)
  grant-IsGranted user t (some token) s lease e =
      subst (λ l. IsGranted user t l (grant dec user t (some token) s).1) (same_lease e)
        (record {
          own = refl;
          on_time = refl;
          stamped = stamped;
          owned =
              lookup-prune_owners dec user values owners owner owned (rw stamped (ground arith));
        })
    where
      values : List (K × Stamp)
      values = insert dec user (at t) s.values

      owner : Owner
      owner = record { token = token; claimed_at = t }

      owners : List (K × Owner)
      owners = pop dec user s.owners ++ (user, owner) ∷ []

      stamped : lookup dec user values ≡ some (at t)
      stamped = lookup-insert dec user user (at t) s.values ∙ here dec user _

      owned : lookup dec user owners ≡ some owner
      owned =
          lookup-append_end dec user user owner (pop dec user s.owners)
            (lookup-pop dec user user s.owners ∙ here dec user _)
          ∙ here dec user _

  claim_after-IsGranted :
      (user : K) (t c : ℕ) (draw : ℕ → String) (previous : ℕ) (s : Store K) (lease : Lease K)
      → (claim_after dec user t c draw previous s).0 ≡ ok (acquired lease)
      → IsGranted user t lease (claim_after dec user t c draw previous s).1
  unfolding claim_after
  claim_after-IsGranted user t c draw previous s lease e =
      elim (Bool-cases (ltb t (previous + c * 1_000))) [
        | inl b ↦ ground (arith, b, e)
        | inr b ↦ rw b (grant-IsGranted user t (new_token draw 32 0) s lease (ground (arith, b, e)))
      ]

  claim_stamped-IsGranted :
      (user : K) (t c : ℕ) (draw : ℕ → String) (o : Option Stamp) (s : Store K) (lease : Lease K)
      → (claim_stamped dec user t c draw o s).0 ≡ ok (acquired lease)
      → IsGranted user t lease (claim_stamped dec user t c draw o s).1
  unfolding claim_stamped
  claim_stamped-IsGranted user t c draw none s lease e =
      claim_after-IsGranted user t c draw 0 (record s { values = insert dec user (at 0) s.values })
        lease e
  claim_stamped-IsGranted user t c draw (some (at u)) s lease e =
      claim_after-IsGranted user t c draw u s lease e
  claim_stamped-IsGranted user t c draw (some corrupt) s lease e = ground (arith, e)

  pub claim-stamped :
      (text : K → String) (user : K) (t c : ℕ) (draw : ℕ → String) (s : Store K)
      → is_user_id (text user) ≡ true
      → claim dec text user t c draw s
        ≡ claim_stamped dec user t c draw
            (lookup dec user s.values)
            (record s { owners = prune_owners dec s.values s.owners })
  unfolding claim
  claim-stamped text user t c draw s b = rw b refl

  pub claim-valid :
      (text : K → String) (user : K) (t c : ℕ) (draw : ℕ → String) (s : Store K) (a : Claim K)
      → (claim dec text user t c draw s).0 ≡ ok a
      → is_user_id (text user) ≡ true
  unfolding claim
  claim-valid text user t c draw s a e = elim (Bool-cases (is_user_id (text user))) [
    | inl b ↦ b
    | inr b ↦ ground (arith, b, e)
  ]

  claim-IsGranted :
      (text : K → String) (user : K) (t c : ℕ) (draw : ℕ → String) (s : Store K) (lease : Lease K)
      → (claim dec text user t c draw s).0 ≡ ok (acquired lease)
      → IsGranted user t lease (claim dec text user t c draw s).1
  claim-IsGranted text user t c draw s lease e =
      let b =
        claim-stamped text user t c draw s (claim-valid text user t c draw s (acquired lease) e) in
      subst (λ r. IsGranted user t lease r.1) (sym b)
        (claim_stamped-IsGranted user t c draw (lookup dec user s.values) _ lease
          (subst (λ r. r.0 ≡ ok (acquired lease)) b e))

  stamped_blocks :
      (user : K) (t later c : ℕ) (draw : ℕ → String) (o : Option Stamp) (s : Store K)
      → o ≡ some (at t)
      → later < t + c * 1_000
      → ((claim_stamped dec user later c draw o s).0
          ≡ ok (retry_after (max 1 (seconds_up (t + c * 1_000 - later)))))
        × ((claim_stamped dec user later c draw o s).1.values ≡ s.values)
  unfolding claim_stamped claim_after
  stamped_blocks user t later c draw o s e early = rw e (ground (arith, early))

  held :
      (user : K) (t : ℕ) (lease : Lease K) (s : Store K)
      → IsGranted user t lease s
      → IsHeld dec user t lease.token s
  held user t lease s g = record {
    stamped = g.stamped;
    owned = g.owned ∙ ap (λ u. some (record { token = lease.token; claimed_at = u })) g.on_time;
  }

  -- After a granted claim, and any calls since that leave it alone, every claim of the same user that
  -- comes before the cooldown it asks for has passed since the grant is refused with the time to wait,
  -- and changes no stamp. The calls leave it alone if each claim of the same user among them comes
  -- before its own cooldown has passed since the grant, each release for the user has another token
  -- than the grant, and neither is the user reset nor the store cleared.
  pub claim_blocks :
      (text : K → String) (user : K) (t c later c' : ℕ) (draw draw' : ℕ → String) (s : Store K)
      (lease : Lease K) (calls : List (Call K))
      → (claim dec text user t c draw s).0 ≡ ok (acquired lease)
      → All (LeavesAlone user t lease.token) calls
      → later < t + c' * 1_000
      → let after = run dec text calls (claim dec text user t c draw s).1 in
        ((claim dec text user later c' draw' after).0
          ≡ ok (retry_after (max 1 (seconds_up (t + c' * 1_000 - later)))))
        × ((claim dec text user later c' draw' after).1.values ≡ after.values)
  claim_blocks text user t c later c' draw draw' s lease calls e alone early =
      let granted = (claim dec text user t c draw s).1 in
      let after = run dec text calls granted in
      let valid = claim-valid text user t c draw s (acquired lease) e in
      let kept =
        run-IsHeld dec user t lease.token text calls granted alone
          (held user t lease granted (claim-IsGranted text user t c draw s lease e)) in
      rw (claim-stamped text user later c' draw' after valid)
        (stamped_blocks user t later c' draw' (lookup dec user after.values) _ kept.stamped early)

  release-refused :
      (lease : Lease K) (s : Store K)
      → lookup dec lease.user_id s.owners ≡ none
      → (release dec lease s).0 ≡ false
  unfolding release is_owner
  release-refused lease s e = ground (arith, e)

  release-accepted :
      (lease : Lease K) (s : Store K)
      → lookup dec lease.user_id s.owners
        ≡ some (record { token = lease.token; claimed_at = lease.claimed_at })
      → lookup dec lease.user_id s.values ≡ some (at lease.claimed_at)
      → ((release dec lease s).0 ≡ true)
        × (lookup dec lease.user_id (release dec lease s).1.values ≡ some (at 0))
        × (lookup dec lease.user_id (release dec lease s).1.owners ≡ none)
  unfolding release is_owner same_owner is_stamp
  release-accepted lease s e h = ground (
    arith,
    e,
    h,
    here {A = Bool} {a = lease.claimed_at == lease.claimed_at} String-discrete lease.token false,
    lookup-insert dec lease.user_id lease.user_id (at 0) s.values,
    lookup-pop dec lease.user_id lease.user_id s.owners,
    here {A = Option Stamp} {a = some (at 0)} dec lease.user_id (lookup dec lease.user_id s.values),
    here {A = Option Owner} {a = none} dec lease.user_id (lookup dec lease.user_id s.owners),
  )

  -- A lease undoes its claim: released right after it, it is accepted, the user's stamp is zero, and a
  -- second release of it is refused.
  pub release_undoes :
      (text : K → String) (user : K) (t c : ℕ) (draw : ℕ → String) (s : Store K) (lease : Lease K)
      → (claim dec text user t c draw s).0 ≡ ok (acquired lease)
      → let after = (claim dec text user t c draw s).1 in
        ((release dec lease after).0 ≡ true)
        × (lookup dec user (release dec lease after).1.values ≡ some (at 0))
        × ((release dec lease (release dec lease after).1).0 ≡ false)
  release_undoes text user t c draw s lease e =
      let granted = claim-IsGranted text user t c draw s lease e in
      let after = (claim dec text user t c draw s).1 in
      let accepted =
        release-accepted lease after
          (subst
            (λ k.
              lookup dec k after.owners
              ≡ some (record { token = lease.token; claimed_at = lease.claimed_at }))
            (sym granted.own) granted.owned)
          (subst (λ k. lookup dec k after.values ≡ some (at lease.claimed_at)) (sym granted.own)
            (granted.stamped ∙ ap (λ t. some (at t)) (sym granted.on_time))) in
      (
        accepted.0,
        subst (λ k. lookup dec k (release dec lease after).1.values ≡ some (at 0)) granted.own
            accepted.1,
        release-refused lease (release dec lease after).1 accepted.2,
      )
