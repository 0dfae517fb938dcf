-- ===== src/TokenUsage/Tests.antt =====
-- Arguments of the command that shows token usage, with the digits of ASCII and a superscript two.
use Prim.Native.String.{◌++◌}
use nonebot_plugin_moellmcha.Prelude.{
  ◌-◌, ◌≡◌, refl, arith, true, min, ltb, ◌&&◌, ◌||◌, none, some, if◌then◌else◌, leb, ◌==◌,
}
use nonebot_plugin_moellmcha.TokenUsage.Range.{
  Digits, count_not_positive, last_not_positive, beyond_end, bad_range, bad_format, isdigit, int,
  shows, says, raises, select,
}
use nonebot_plugin_moellmcha.TokenUsage.Answers.{documented_forms}

abbrev digits : Digits
digits = record {
  is_digit = λ c. (leb b'0' c && leb c b'9') || c == 178;
  value = λ c. if leb b'0' c && leb c b'9' then some (c - b'0') else none;
  max_digits = 4_300;
}

shows_between : select digits "2-4" 10 ≡ shows 1 4
unfolding select
shows_between = refl

shows_last : select digits "-3" 10 ≡ shows 7 10
unfolding select
shows_last = refl

shows_all : select digits "12" 5 ≡ shows 0 5
unfolding select
shows_all = refl

says_beyond : select digits "9-12" 5 ≡ says beyond_end
unfolding select
says_beyond = refl

says_order : select digits "4-2" 5 ≡ says bad_range
unfolding select
says_order = refl

says_format : select digits "1-2-3" 5 ≡ says bad_format
unfolding select
says_format = refl

-- A superscript two is a digit for `str.isdigit`, and `int` does not read it.
raises_on_superscript : select digits "²" 5 ≡ raises
unfolding select
raises_on_superscript = refl

-- Nor does it read a number of more digits than its limit, here lowered to three.
raises_on_long_number : select (record digits { max_digits = 3 }) "1234" 5 ≡ raises
unfolding select
raises_on_long_number = refl

reads_two : (isdigit digits "2" ≡ true) × (int digits "2" ≡ some 2)
unfolding isdigit int
reads_two = (refl, refl)

reads_four : (isdigit digits "4" ≡ true) × (int digits "4" ≡ some 4)
unfolding isdigit int
reads_four = (refl, refl)

documented_forms_example :
    (select digits "2" 10 ≡ (if 2 == 0 then says count_not_positive else shows 0 (min 2 10)))
    × (select digits ("-" ++ "2") 10
        ≡ (if 2 == 0 then says last_not_positive else shows (10 - min 2 10) 10))
    × (select digits ("2" ++ "-" ++ "4") 10 ≡ (
        if 2 == 0 || ltb 4 2
        then says bad_range
        else if ltb 10 2
        then says beyond_end
        else shows (2 - 1) (min 4 10)))
documented_forms_example =
    documented_forms digits refl "2" "4" 2 4 10 (omega arith) reads_two reads_four
