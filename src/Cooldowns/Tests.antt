-- ===== src/Cooldowns/Tests.antt =====
-- Two claims of user 7 with a cooldown of three seconds.
use Prim.Native.String.{String}
use nonebot_plugin_moellmcha.Prelude.{
  ℕ, ◌+◌, ◌-◌, ◌*◌, ◌≡◌, refl, arith, max, true, false, some, List, All, [], ◌∷◌, ne_of_text_eq,
  ltb, ℕ_discrete, lookup, insert,
}
use nonebot_plugin_moellmcha.Cooldowns.Claims.{
  Lease, acquired, retry_after, ok, is_user_id, new_token, seconds_up,
}
use nonebot_plugin_moellmcha.Cooldowns.Memory.{at, Store, claim, release}
use nonebot_plugin_moellmcha.Cooldowns.Calls.{
  Call, call_claim, call_release, call_reset_user, run, LeavesAlone,
}
use nonebot_plugin_moellmcha.Cooldowns.Blocking.{claim_blocks, release_undoes}
use nonebot_plugin_moellmcha.Cooldowns.Retry.{is_refusal, retry_after_exact}

abbrev name_of : ℕ → String
name_of user = "7"

abbrev draws : ℕ → String
draws i = "0123456789abcdef0123456789abcdef"

abbrev empty : Store ℕ
empty = record { values = []; owners = [] }

abbrev lease : Lease ℕ
lease = record { user_id = 7; token = "0123456789abcdef0123456789abcdef"; claimed_at = 5_000 }

abbrev after : Store ℕ
after = (claim ℕ_discrete name_of 7 5_000 3 draws empty).1

grants : (claim ℕ_discrete name_of 7 5_000 3 draws empty).0 ≡ ok (acquired lease)
unfolding claim lookup insert ℕ_discrete is_user_id new_token
grants = refl

-- since the grant, user 7 claims too early, user 8 claims, a lease of user 7 with another token is
-- released, and user 9 is reset
abbrev calls : List (Call ℕ)
calls =
    call_claim 7 6_000 3 draws
    ∷ call_claim 8 6_100 3 draws
    ∷ call_release (record { user_id = 7; token = "ffff"; claimed_at = 5_000 })
    ∷ call_reset_user 9
    ∷ []

calls-LeavesAlone : All (LeavesAlone 7 5_000 lease.token) calls
calls-LeavesAlone = (
  λ e. omega arith,
  (
    λ e. omega (arith, e),
    (λ e. ne_of_text_eq "ffff" lease.token refl, (λ e. omega (arith, e), tt)),
  ),
)

claim_blocks_example :
    ((claim ℕ_discrete name_of 7 6_500 3 draws (run ℕ_discrete name_of calls after)).0
      ≡ ok (retry_after (max 1 (seconds_up (5_000 + 3 * 1_000 - 6_500)))))
    × ((claim ℕ_discrete name_of 7 6_500 3 draws (run ℕ_discrete name_of calls after)).1.values
        ≡ (run ℕ_discrete name_of calls after).values)
claim_blocks_example =
    claim_blocks ℕ_discrete name_of 7 5_000 3 6_500 3 draws draws empty lease calls grants
      calls-LeavesAlone (omega arith)

release_undoes_example :
    ((release ℕ_discrete lease after).0 ≡ true)
    × (lookup ℕ_discrete 7 (release ℕ_discrete lease after).1.values ≡ some (at 0))
    × ((release ℕ_discrete lease (release ℕ_discrete lease after).1).0 ≡ false)
release_undoes_example = release_undoes ℕ_discrete name_of 7 5_000 3 draws empty lease grants

-- A claim one and a half seconds after the origin waits two whole seconds.
refuses : (claim ℕ_discrete name_of 7 1_500 3 draws empty).0 ≡ ok (retry_after 2)
unfolding claim lookup insert ℕ_discrete is_user_id seconds_up
refuses = refl

retry_after_exact_example :
    is_refusal ℕ_discrete
      (claim ℕ_discrete name_of 7
        (1_500 + 1 * 1_000)
        3
        draws
        (claim ℕ_discrete name_of 7 1_500 3 draws empty).1).0
    ≡ ltb 1 2
retry_after_exact_example =
    retry_after_exact ℕ_discrete name_of 7 1_500 3 2 1 draws draws empty refuses
