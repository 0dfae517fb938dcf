-- ===== src/TokenUsage/Range.antt =====
-- `format_token_usage_history`, up to the choice of the records that it shows.
use Prim.Native.Char.{Char, code}
use Prim.Native.String.{[], ◌∷◌, count}
use nonebot_plugin_moellmcha.Prelude.{
  ℕ, ◌+◌, ◌-◌, ◌*◌, min, Bool, true, false, not, ◌&&◌, ◌||◌, Option, none, some, String,
  if◌then◌else◌, ltb, leb, ◌==◌,
}

-- What Python knows of a character: whether `str.isdigit` holds of it, and the value that `int`
-- reads it with, if it reads it; and the most digits that `int` reads, or zero for no such limit
-- (`sys.get_int_max_str_digits`, 4300 unless it is set).
pub record Digits : Type 0 where
  pub is_digit : ℕ → Bool
  pub value : ℕ → Option ℕ
  pub max_digits : ℕ

pub data Message : Type 0 where
  no_records count_not_positive last_not_positive bad_format bad_range unknown_argument beyond_end :
      Message

-- The records from one index to before another, a message, or a `ValueError`.
pub data Selection : Type 0 where
  shows : ℕ → ℕ → Selection
  says : Message → Selection
  raises : Selection

abbrev is_dash : Char → Bool
is_dash c = code c == b'-'

-- `"-" in arg`
unfoldable pub has_dash : String → Bool
has_dash [] = false
has_dash (c ∷ s) = is_dash c || has_dash s

-- the two parts around the first dash; `split` finds more parts if the second has a dash
unfoldable pub before_dash : String → String
before_dash [] = []
before_dash (c ∷ s) = let rest = before_dash s in if is_dash c then [] else c ∷ rest

unfoldable pub after_dash : String → String
after_dash [] = []
after_dash (c ∷ s) = let rest = after_dash s in if is_dash c then s else rest

-- `arg.startswith("-")`
unfoldable pub starts_with_dash : String → Bool
starts_with_dash [] = false
starts_with_dash (c ∷ s) = is_dash c

-- `arg[1:]`
unfoldable pub tail : String → String
tail [] = []
tail (c ∷ s) = s

-- the end of the choice: the test that some record is left, and the slice
unfoldable pub slice : ℕ → ℕ → ℕ → Selection
slice start end total = if leb total start then says beyond_end else shows start end

module _ (digits : Digits) where
  unfoldable pub all_digits : String → Bool
  all_digits [] = true
  all_digits (c ∷ s) = digits.is_digit (code c) && all_digits s

  -- `str.isdigit`
  unfoldable pub isdigit : String → Bool
  unfolding all_digits
  isdigit [] = false
  isdigit (c ∷ s) = all_digits (c ∷ s)

  -- the number that the characters of a text make, with the value of those before
  unfoldable pub read : ℕ → String → Option ℕ
  read n [] = some n
  read n (c ∷ s) = elim (digits.value (code c)) [ none ↦ none | some d ↦ read (n * 10 + d) s ]

  -- `int`, of a text that `str.isdigit` holds of; none where it raises a `ValueError`
  unfoldable pub int : String → Option ℕ
  unfolding read
  int s = if ltb 0 digits.max_digits && ltb digits.max_digits (count s) then none else read 0 s

  -- the last `n` records
  unfoldable pub select_last : ℕ → Option ℕ → Selection
  unfolding slice
  select_last total none = raises
  select_last total (some n) =
      if n == 0 then says last_not_positive else slice (total - min n total) total total

  -- the first `n` records
  unfoldable pub select_first : ℕ → Option ℕ → Selection
  unfolding slice
  select_first total none = raises
  select_first total (some n) =
      if n == 0 then says count_not_positive else slice 0 (min n total) total

  unfoldable pub select_between : ℕ → Option ℕ → Option ℕ → Selection
  unfolding slice
  select_between total none y = raises
  select_between total (some x) none = raises
  select_between total (some x) (some y) =
      if ltb y x || x == 0 then says bad_range else slice (x - 1) (min y total) total

  -- the three forms of an argument
  unfoldable pub select_by : String → ℕ → Selection
  unfolding isdigit int has_dash before_dash after_dash starts_with_dash tail select_last
      select_first select_between
  select_by arg total =
      if starts_with_dash arg && isdigit (tail arg)
      then select_last total (int (tail arg))
      else if has_dash arg
      then if has_dash (after_dash arg)
          || not (isdigit (before_dash arg))
          || not (isdigit (after_dash arg))
        then says bad_format
        else select_between total (int (before_dash arg)) (int (after_dash arg))
      else if isdigit arg
      then select_first total (int arg)
      else says unknown_argument

  -- the records to show of `total` ones, for an argument
  unfoldable pub select : String → ℕ → Selection
  unfolding slice select_by
  select [] total = if total == 0 then says no_records else slice 0 (min 5 total) total
  select (c ∷ s) total = if total == 0 then says no_records else select_by (c ∷ s) total
