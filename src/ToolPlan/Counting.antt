-- ===== src/ToolPlan/Counting.antt =====
-- How often a tool is in a list: what sorting, sets and the heap keep, and that a list without
-- repetitions that is as long as one it lies in covers it.
use nonebot_plugin_moellmcha.Prelude.{
  ℕ, ◌+◌, ◌≤◌, ◌<◌, ◌≡◌, refl, sym, subst, arith, true, false, List, [], ◌∷◌, ◌++◌, String,
  String-discrete, ite, ltb, length, contains, discard, contains-discard, add, contains-add,
}
use nonebot_plugin_moellmcha.ToolPlan.Graph.{Edge, is, sort_insert, sort, targets_of, sources_of}
use nonebot_plugin_moellmcha.ToolPlan.Order.{to_set, pop_min}
use nonebot_plugin_moellmcha.ToolPlan.Scheduler.{is_distinct}
use nonebot_plugin_moellmcha.ToolPlan.Batches.{Has}
use nonebot_plugin_moellmcha.ToolPlan.Closure.{Inside, Has-head}

unfoldable pub count : String → List String → ℕ
count t [] = 0
count t (x ∷ l) = ite (String-discrete x t) 1 0 + count t l

pub contains-count :
    (t : String) (l : List String) → contains String-discrete t l ≡ ltb 0 (count t l)
unfolding contains count
contains-count t [] = refl
contains-count t (x ∷ l) = ground (arith, contains-count t l)

pub count-append : (t : String) (l m : List String) → count t (l ++ m) ≡ count t l + count t m
unfolding count
count-append t [] m = omega arith
count-append t (x ∷ l) m = omega (arith, count-append t l m)

count-sort_insert : (t x : String) (l : List String) → count t (sort_insert x l) ≡ count t (x ∷ l)
unfolding count sort_insert
count-sort_insert t x [] = refl
count-sort_insert t x (y ∷ l) = ground (arith, count-sort_insert t x l)

pub count-sort : (t : String) (l : List String) → count t (sort l) ≡ count t l
unfolding count sort
count-sort t [] = refl
count-sort t (x ∷ l) = omega (arith, count-sort t l, count-sort_insert t x (sort l))

pub count-to_set-le : (t : String) (l : List String) → count t (to_set l) ≤ 1
unfolding count to_set add
count-to_set-le t [] = omega arith
count-to_set-le t (x ∷ l) = elim (String-discrete x t) [
  | yes e ↦ ground (
    arith,
    e,
    count-to_set-le t l,
    contains-count x (to_set l),
    contains-count t (to_set l),
    subst (λ y. contains String-discrete y (to_set l) ≡ contains String-discrete t (to_set l))
        (sym e) refl,
  )
  | no n ↦ ground (arith, n, count-to_set-le t l)
]

pub contains-to_set :
    (t : String) (l : List String)
    → contains String-discrete t (to_set l) ≡ contains String-discrete t l
unfolding contains to_set
contains-to_set t [] = refl
contains-to_set t (x ∷ l) =
    ground (arith, contains-add String-discrete x t (to_set l), contains-to_set t l)

pub count-pop_min :
    (t x : String) (l : List String) → count t ((pop_min x l).0 ∷ (pop_min x l).1) ≡ count t (x ∷ l)
unfolding count pop_min
count-pop_min t x [] = refl
count-pop_min t x (y ∷ l) = ground (arith, count-pop_min t y l)

-- one of two tools depends on the other, seen from both
pub contains-sources_of :
    (s t : String) (es : List Edge)
    → contains String-discrete s (sources_of t es) ≡ contains String-discrete t (targets_of s es)
unfolding contains sources_of targets_of is
contains-sources_of s t [] = refl
contains-sources_of s t (e ∷ es) = ground (arith, contains-sources_of s t es)

pub is_distinct-count : (t : String) (l : List String) → is_distinct l ≡ true → count t l ≤ 1
unfolding is_distinct count
is_distinct-count t [] h = omega arith
is_distinct-count t (x ∷ l) h = elim (String-discrete x t) [
  | yes e ↦ ground (
    arith,
    h,
    e,
    contains-count t l,
    subst (λ y. contains String-discrete y l ≡ false) e (ground (arith, h)),
  )
  | no n ↦ ground (arith, h, n, is_distinct-count t l)
]

length-discard-lt :
    (t : String) (l : List String) → Has l t → length (discard String-discrete t l) < length l
unfolding contains discard
length-discard-lt t [] h = absurd (ground (arith, h))
length-discard-lt t (x ∷ l) h = ground (arith, h, length-discard-lt t l, length-discard-le t l)
  where
    length-discard-le :
        (s : String) (m : List String) → length (discard String-discrete s m) ≤ length m
    length-discard-le s [] = omega arith
    length-discard-le s (x ∷ m) = ground (arith, length-discard-le s m)

count-head : (x t : String) (l : List String) → x ≡ t → count x (x ∷ l) ≤ 1 → count t l ≡ 0
unfolding count
count-head x t l e once =
    subst (λ y. count y l ≡ 0) e
      (elim (String-discrete x x) [ yes r ↦ ground (arith, r, once) | no n ↦ absurd (n refl) ])

rest-Inside :
    (x : String) (l m : List String)
    → Inside (x ∷ l) m
    → count x (x ∷ l) ≤ 1
    → Inside l (discard String-discrete x m)
unfolding contains
rest-Inside x l m inside once s k = elim (String-discrete x s) [
  | yes e ↦ absurd (ground (arith, count-head x s l e once, contains-count s l, k))
  | no n ↦
      ground (arith, n, contains-discard String-discrete x s m, inside s (ground (arith, n, k)))
]

-- A list without repetitions, as long as one that it lies in, covers it.
pub covers :
    (l m : List String)
    → ((t : String) → count t l ≤ 1)
    → Inside l m
    → length m ≤ length l
    → Inside m l
unfolding count contains
covers [] [] once inside le t h = h
covers [] (y ∷ m) once inside le t h = absurd (omega (arith, le))
covers (x ∷ l) m once inside le t h = elim (String-discrete x t) [
  | yes e ↦ ground (arith, e)
  | no n ↦
      let later =
        covers l (discard String-discrete x m) (λ s. omega (arith, once s))
          (rest-Inside x l m inside (once x))
          (omega (arith, le, length-discard-lt x m (inside x (Has-head x l)))) t
          (ground (arith, n, h, contains-discard String-discrete x t m)) in
      ground (arith, n, later)
]
