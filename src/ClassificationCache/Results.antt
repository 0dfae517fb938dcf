-- ===== src/ClassificationCache/Results.antt =====
-- What a call that returns has read, and where its entry then stands.
use nonebot_plugin_moellmcha.Prelude.{
  ℕ, ◌≡◌, inl, inr, refl, sym, ◌∙◌, ap, subst, arith, true, false, Option, none, some, [], ◌∷◌,
  ◌++◌, ◌==◌, lookup, pop, lookup-pop, lookup-append_end, Bool-cases, Option-cases,
}
use nonebot_plugin_moellmcha.ClassificationCache.Key.{Key, Key-discrete}
use nonebot_plugin_moellmcha.ClassificationCache.State.{
  Outcome, return, Entry, Owner, Records, Cache, same_owner, Method, owned, is_before, timed,
}

same_owner-eq : (a b : Owner) → same_owner a b ≡ true → a ≡ b
unfolding same_owner
same_owner-eq a b h = ground (arith, h)

module _ {A : Type 0} where
  pub owned-returns :
      (i : Option Owner) (body : Method A) (c c' : Cache) (a : A)
      → owned i body c ≡ (return a, c')
      → (o : Owner) × (i ≡ some o)
        × ((o.pid == 0) ≡ false)
        × (body (record c { owner = some o }) ≡ (return a, c'))
  unfolding owned
  owned-returns none body c c' a h = absurd (ground (arith, h))
  owned-returns (some o) body c c' a h = elim (Option-cases c.owner) [
    | inl q ↦ (o, refl, ground (arith, h), ground (arith, h, q))
    | inr (p, q) ↦ elim (Bool-cases (same_owner o p)) [
      | inl b ↦
          let same : c ≡ record c { owner = some o } =
            ap (λ (w : Option Owner). record c { owner = w })
              (q ∙ ap some (sym (same_owner-eq o p b))) in
          (
            o,
            refl,
            ground (arith, h),
            subst (λ (x : Cache). body x ≡ (return a, c')) same (ground (arith, h, q, b)),
          )
      | inr b ↦ absurd (ground (arith, h, q, b))
    ]
  ]

  pub timed-returns :
      (clock : Option ℕ) (body : ℕ → Method A) (c c' : Cache) (a : A)
      → timed clock body c ≡ (return a, c')
      → (now : ℕ) × (clock ≡ some now)
        × (body now (record c { last_now = some now }) ≡ (return a, c'))
  unfolding timed
  timed-returns none body c c' a h = absurd (ground (arith, h))
  timed-returns (some now) body c c' a h = (now, refl, ground (arith, h))

pub owner_again :
    {A : Type 0} (o : Owner) (body : Method A) (c : Cache)
    → (o.pid == 0) ≡ false
    → c.owner ≡ some o
    → owned (some o) body c ≡ body c
unfolding owned same_owner
owner_again o body c alive same = ground (arith, alive, same)

pub clock_again :
    {A : Type 0} (now : ℕ) (body : ℕ → Method A) (c : Cache)
    → c.last_now ≡ some now
    → timed (some now) body c ≡ body now (record c { last_now = some now })
unfolding timed is_before
clock_again now body c same = ground (arith, same)

pub lookup_appended :
    (k : Key) (e : Entry) (d : Records)
    → lookup Key-discrete k d ≡ none
    → lookup Key-discrete k (d ++ (k, e) ∷ []) ≡ some e
lookup_appended k e d h = elim (Key-discrete k k) [
  | yes q ↦ lookup-append_end Key-discrete k k e d h ∙ ground (arith, q)
  | no n ↦ absurd (n refl)
]

pub pop_absent : (k : Key) (d : Records) → lookup Key-discrete k (pop Key-discrete k d) ≡ none
pop_absent k d = elim (Key-discrete k k) [
  | yes q ↦ lookup-pop Key-discrete k k d ∙ ground (arith, q)
  | no n ↦ absurd (n refl)
]

pub same_results :
    {A : Type 0} (a b : A) (c d : Cache)
    → ◌≡◌ {A = Outcome A × Cache} (return a, c) (return b, d)
    → (a ≡ b) × (c ≡ d)
same_results a b c d h = (ground (arith, h), ground (arith, h))
