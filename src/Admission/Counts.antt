-- ===== src/Admission/Counts.antt =====
-- The per-key counts of the gate, read as numbers of tasks.
use nonebot_plugin_moellmcha.Prelude.{
  ℕ, ◌⊎◌, inl, ◌+◌, ◌-◌, ◌≤◌, ◌≡◌, ◌≢◌, refl, true, false, Option, none, some, List, [], ◌∷◌, ite,
  ltb, not, ◌&&◌, ◌||◌, arith, length, Pick, here, there, lookup, contains, lookup-insert,
  lookup-pop, contains-add, contains-discard,
}
use nonebot_plugin_moellmcha.Admission.{
  Controller, charge, key_count, mark, unmark, discharge, key_is_free,
}

module _ {K : Type 0} (dec : Discrete K) where
  abbrev pub weight : K → Option K → ℕ
  weight k none = 0
  weight k (some j) = ite (dec j k) 1 0

  pub weight_cases : (k : K) (t : Option K) → (weight k t ≡ 0) ⊎ (weight k t ≡ 1)
  weight_cases k none = inl refl
  weight_cases k (some j) = ground arith

  -- how many of the tasks have this key
  abbrev pub tally : K → List (Option K) → ℕ
  tally k [] = 0
  tally k (t ∷ ts) = weight k t + tally k ts

  pub tally-Pick :
      (k : K) {t : Option K} {l m : List (Option K)}
      → Pick t l m
      → tally k l ≡ weight k t + tally k m
  tally-Pick k here = refl
  tally-Pick k (there p) = omega (arith, tally-Pick k p)

  pub tally-le-length : (k : K) (l : List (Option K)) → tally k l ≤ length l
  tally-le-length k [] = omega arith
  tally-le-length k (t ∷ ts) = ground (arith, weight_cases k t, tally-le-length k ts)

  pub key_count-charge :
      (key k : K) (d : List (K × ℕ))
      → key_count dec k 0 (charge dec key d) ≡ key_count dec k 0 d + weight k (some key)
  unfolding key_count charge
  key_count-charge key k d = ground (arith, lookup-insert dec key k (key_count dec key 0 d + 1) d)

  pub key_count-discharge :
      (t : Option K) (m : ℕ) (k : K) (d : List (K × ℕ))
      → key_count dec k 0 (discharge dec t (some m) d) ≡ key_count dec k 0 d - weight k t
  unfolding key_count discharge
  key_count-discharge none m k d = omega arith
  key_count-discharge (some key) m k d =
      ground (arith, lookup-insert dec key k (key_count dec key 1 d - 1) d, lookup-pop dec key k d)

  -- a stored count is positive, as `remaining` is tested for
  abbrev pub IsPositive : List (K × ℕ) → Type 0
  IsPositive d = (k : K) → lookup dec k d ≢ some 0

  pub charge-IsPositive :
      (key : K) (d : List (K × ℕ)) → IsPositive d → IsPositive (charge dec key d)
  unfolding charge
  charge-IsPositive key d h k =
      ground (arith, h k, lookup-insert dec key k (key_count dec key 0 d + 1) d)

  pub discharge-IsPositive :
      (t : Option K) (m : Option ℕ) (d : List (K × ℕ))
      → IsPositive d
      → IsPositive (discharge dec t m d)
  unfolding discharge
  discharge-IsPositive none m d h k = h k
  discharge-IsPositive (some key) none d h k = h k
  discharge-IsPositive (some key) (some m) d h k =
      ground
        (arith, h k, lookup-insert dec key k (key_count dec key 1 d - 1) d, lookup-pop dec key k d)

  pub discharge_untracked : (t : Option K) (d : List (K × ℕ)) → discharge dec t none d ≡ d
  unfolding discharge
  discharge_untracked none d = refl
  discharge_untracked (some key) d = refl

  pub contains-mark :
      (t : Option K) (k : K) (l : List K)
      → contains dec k (mark dec t l) ≡ (contains dec k l || ltb 0 (weight k t))
  unfolding mark
  contains-mark none k l = ground arith
  contains-mark (some key) k l = ground (arith, contains-add dec key k l)

  pub contains-unmark :
      (t : Option K) (k : K) (l : List K)
      → contains dec k (unmark dec t l) ≡ (contains dec k l && not (ltb 0 (weight k t)))
  unfolding unmark
  contains-unmark none k l = ground arith
  contains-unmark (some key) k l = ground (arith, contains-discard dec key k l)

  pub free_weight :
      (t : Option K) (k : K) (c : Controller K)
      → key_is_free dec t c ≡ true
      → (contains dec k c.active_keys && ltb 0 (weight k t)) ≡ false
  unfolding key_is_free
  free_weight none k c h = ground arith
  free_weight (some key) k c h = ground arith
