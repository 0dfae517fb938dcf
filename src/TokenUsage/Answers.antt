-- ===== src/TokenUsage/Answers.antt =====
-- What `format_token_usage_history` answers to the three documented forms of its argument.
use Prim.Native.Char.{Char, code}
use Prim.Native.String.{[], ◌∷◌, ◌++◌}
use text.Mathlib.TextLemmas.{nil-append, cons-append}
use nonebot_plugin_moellmcha.Prelude.{
  ℕ, ◌-◌, ◌<◌, ◌≡◌, ◌∙◌, subst, refl, arith, min, true, false, ◌||◌, some, String, if◌then◌else◌,
  ltb, ◌==◌,
}
use nonebot_plugin_moellmcha.TokenUsage.Range.{
  Digits, count_not_positive, last_not_positive, bad_range, beyond_end, shows, says, has_dash,
  before_dash, after_dash, starts_with_dash, tail, slice, all_digits, isdigit, int, select_last,
  select_first, select_between, select_by, select,
}

-- The first dash after a text without one ends that text.
module _ (t : String) where
  has_dash-append : (s : String) → has_dash (s ++ "-" ++ t) ≡ true
  unfolding has_dash
  has_dash-append [] = rw (nil-append ("-" ++ t), cons-append _ [] t) refl
  has_dash-append (c ∷ s) = rw (cons-append c s ("-" ++ t)) (ground (arith, has_dash-append s))

  before_dash-append : (s : String) → has_dash s ≡ false → before_dash (s ++ "-" ++ t) ≡ s
  unfolding has_dash before_dash
  before_dash-append [] h = rw (nil-append ("-" ++ t), cons-append _ [] t) refl
  before_dash-append (c ∷ s) h =
      rw (cons-append c s ("-" ++ t)) (ground (arith, h, before_dash-append s))

  after_dash-append : (s : String) → has_dash s ≡ false → after_dash (s ++ "-" ++ t) ≡ t
  unfolding has_dash after_dash
  after_dash-append [] h = rw (nil-append ("-" ++ t), cons-append _ [] t) (nil-append t)
  after_dash-append (c ∷ s) h =
      rw (cons-append c s ("-" ++ t)) (ground (arith, h, after_dash-append s))

module _ (digits : Digits) (dash : digits.is_digit b'-' ≡ false) where
  not_dash : (c : ℕ) → digits.is_digit c ≡ true → (c == b'-') ≡ false
  not_dash c h = ground (arith, h, dash)

  all_digits-has_dash : (s : String) → all_digits digits s ≡ true → has_dash s ≡ false
  unfolding all_digits has_dash
  all_digits-has_dash [] h = refl
  all_digits-has_dash (c ∷ s) h = ground (arith, h, not_dash (code c), all_digits-has_dash s)

  isdigit-has_dash : (s : String) → isdigit digits s ≡ true → has_dash s ≡ false
  unfolding isdigit
  isdigit-has_dash [] h = absurd (ground (arith, h))
  isdigit-has_dash (c ∷ s) h = all_digits-has_dash (c ∷ s) h

  module _ (total : ℕ) (some_records : 0 < total) where
    select_first-shows :
        (x : ℕ)
        → select_first digits total (some x)
          ≡ (if x == 0 then says count_not_positive else shows 0 (min x total))
    unfolding select_first slice
    select_first-shows x = ground (arith, some_records)

    select_last-shows :
        (x : ℕ)
        → select_last digits total (some x)
          ≡ (if x == 0 then says last_not_positive else shows (total - min x total) total)
    unfolding select_last slice
    select_last-shows x = ground (arith, some_records)

    select_between-shows :
        (x y : ℕ)
        → select_between digits total (some x) (some y) ≡ (
            if x == 0 || ltb y x
            then says bad_range
            else if ltb total x
            then says beyond_end
            else shows (x - 1) (min y total))
    unfolding select_between slice
    select_between-shows x y = ground (arith)

    answers_first :
        (s : String) (x : ℕ)
        → isdigit digits s ≡ true
        → int digits s ≡ some x
        → select digits s total ≡ select_first digits total (some x)
    unfolding select select_by starts_with_dash
    answers_first [] x h e = absurd (ground (arith, h))
    answers_first (c ∷ s) x h e = ground (arith, some_records, h, e, isdigit-has_dash (c ∷ s) h)

    answers_last :
        (s : String) (x : ℕ)
        → isdigit digits s ≡ true
        → int digits s ≡ some x
        → select digits ("-" ++ s) total ≡ select_last digits total (some x)
    unfolding select select_by starts_with_dash tail
    answers_last s x h e =
        rw (cons-append _ [] s, nil-append s) (ground (arith, some_records, h, e))

    select_by_between :
        (arg s t : String) (x y : ℕ)
        → (has_dash arg ≡ true) × (starts_with_dash arg ≡ false)
        → (before_dash arg ≡ s) × (after_dash arg ≡ t)
        → (isdigit digits s ≡ true) × (int digits s ≡ some x)
        → (isdigit digits t ≡ true) × (int digits t ≡ some y)
        → select_by digits arg total ≡ select_between digits total (some x) (some y)
    unfolding select_by
    select_by_between arg s t x y dashed parts first second =
        let plain = isdigit-has_dash t second.0 in
        rw (dashed.0, dashed.1, parts.0, parts.1, plain, first.0, second.0, first.1, second.1) refl

    select_nonempty :
        (c : Char) (s : String) → select digits (c ∷ s) total ≡ select_by digits (c ∷ s) total
    unfolding select
    select_nonempty c s = ground (arith, some_records)

    answers_between :
        (s t : String) (x y : ℕ)
        → (isdigit digits s ≡ true) × (int digits s ≡ some x)
        → (isdigit digits t ≡ true) × (int digits t ≡ some y)
        → select digits (s ++ "-" ++ t) total ≡ select_between digits total (some x) (some y)
    unfolding isdigit starts_with_dash has_dash
    answers_between [] t x y first second = absurd (ground (arith, first))
    answers_between (c ∷ s) t x y first second =
        let plain = isdigit-has_dash (c ∷ s) first.0 in
        let split = cons-append c s ("-" ++ t) in
        rw split (
          select_nonempty c (s ++ "-" ++ t)
          ∙ select_by_between (c ∷ (s ++ "-" ++ t)) (c ∷ s) t x y
              (
                subst (λ a. has_dash a ≡ true) split (has_dash-append t (c ∷ s)),
                ground (arith, plain),
              )
              (
                subst (λ a. before_dash a ≡ c ∷ s) split (before_dash-append t (c ∷ s) plain),
                subst (λ a. after_dash a ≡ t) split (after_dash-append t (c ∷ s) plain),
              )
              first second)

  -- When there are records, and the dash is not a digit, the three documented forms of the argument,
  -- made of texts of digits that `int` reads, are answered as documented. A number alone asks for that
  -- many records, from the first. A dash and a number ask for the last ones, as many. Two numbers
  -- around a dash ask for the records from the one to the other, both included, counted from one: there
  -- is a message if the first is zero or exceeds the second, or if it lies beyond the records. What
  -- reaches past the records is cut off at their end, and a message refuses zero records.
  pub documented_forms :
      (s t : String) (x y total : ℕ)
      → 0 < total
      → (isdigit digits s ≡ true) × (int digits s ≡ some x)
      → (isdigit digits t ≡ true) × (int digits t ≡ some y)
      → (select digits s total
          ≡ (if x == 0 then says count_not_positive else shows 0 (min x total)))
        × (select digits ("-" ++ s) total
            ≡ (if x == 0 then says last_not_positive else shows (total - min x total) total))
        × (select digits (s ++ "-" ++ t) total ≡ (
            if x == 0 || ltb y x
            then says bad_range
            else if ltb total x
            then says beyond_end
            else shows (x - 1) (min y total)))
  documented_forms s t x y total some_records first second = (
    answers_first total some_records s x first.0 first.1 ∙ select_first-shows total some_records x,
    answers_last total some_records s x first.0 first.1 ∙ select_last-shows total some_records x,
    answers_between total some_records s t x y first second
        ∙ select_between-shows total some_records x y,
  )
