-- ===== src/Prelude/Lists.antt =====
-- Lists measured by native numbers, and sets as lists without order.
use Prim.Native.Nat.{ℕ, zero, suc, ◌+◌, ◌-◌, min}
use mathlib.Core.Path.{◌≡◌, refl}
use mathlib.Core.Logic.{ite}
use mathlib.Core.Bool.{Bool, true, false}
use mathlib.Core.List.{List, [], ◌∷◌, ◌++◌}
use native.Mathlib.Omega.{arith}
use nonebot_plugin_moellmcha.Prelude.Tests.{if◌then◌else◌}

module _ {ℓ} {A : Type ℓ} where
  abbrev pub length : List A → ℕ
  length [] = 0
  length (x ∷ xs) = suc (length xs)

  pub length-append : (xs ys : List A) → length (xs ++ ys) ≡ length xs + length ys
  length-append [] ys = omega arith
  length-append (x ∷ xs) ys = omega (arith, length-append xs ys)

  unfoldable pub reverse : List A → List A
  reverse [] = []
  reverse (x ∷ xs) = reverse xs ++ x ∷ []

  pub length-reverse : (xs : List A) → length (reverse xs) ≡ length xs
  unfolding reverse
  length-reverse [] = refl
  length-reverse (x ∷ xs) = omega (arith, length-append (reverse xs) (x ∷ []), length-reverse xs)

  abbrev pub All {κ} : (A → Type κ) → List A → Type κ
  All P [] = Unit
  All P (x ∷ xs) = P x × All P xs

module _ {ℓ} {A : Type ℓ} where
  abbrev pub take : ℕ → List A → List A
  take zero xs = []
  take (suc n) [] = []
  take (suc n) (x ∷ xs) = x ∷ take n xs

  abbrev pub drop : ℕ → List A → List A
  drop zero xs = xs
  drop (suc n) [] = []
  drop (suc n) (x ∷ xs) = drop n xs

  pub take-append-drop : (n : ℕ) (xs : List A) → take n xs ++ drop n xs ≡ xs
  take-append-drop zero xs = refl
  take-append-drop (suc n) [] = refl
  take-append-drop (suc n) (x ∷ xs) = rw (take-append-drop n xs)

  pub length-take : (n : ℕ) (xs : List A) → length (take n xs) ≡ min n (length xs)
  length-take zero xs = omega arith
  length-take (suc n) [] = omega arith
  length-take (suc n) (x ∷ xs) = omega (arith, length-take n xs)

  pub length-drop : (n : ℕ) (xs : List A) → length (drop n xs) ≡ length xs - n
  length-drop zero xs = omega arith
  length-drop (suc n) [] = omega arith
  length-drop (suc n) (x ∷ xs) = omega (arith, length-drop n xs)

module _ {ℓ κ} {A : Type ℓ} (P : A → Type κ) where
  pub All-append : (xs ys : List A) → All P xs → All P ys → All P (xs ++ ys)
  All-append [] ys h k = k
  All-append (x ∷ xs) ys h k = (h.0, All-append xs ys h.1 k)

  pub All-take : (n : ℕ) (xs : List A) → All P xs → All P (take n xs)
  All-take zero xs h = tt
  All-take (suc n) [] h = tt
  All-take (suc n) (x ∷ xs) h = (h.0, All-take n xs h.1)

  pub All-drop : (n : ℕ) (xs : List A) → All P xs → All P (drop n xs)
  All-drop zero xs h = h
  All-drop (suc n) [] h = tt
  All-drop (suc n) (x ∷ xs) h = All-drop n xs h.1

-- A set keeps its elements in some order. `discard` drops every copy.
module _ {A : Type 0} (dec : Discrete A) where
  unfoldable pub contains : A → List A → Bool
  contains a [] = false
  contains a (x ∷ xs) = ite (dec x a) true (contains a xs)

  unfoldable pub discard : A → List A → List A
  discard a [] = []
  discard a (x ∷ xs) = let rest = discard a xs in ite (dec x a) rest (x ∷ rest)

  unfoldable pub add : A → List A → List A
  unfolding contains
  add a xs = if contains a xs then xs else a ∷ xs

  pub contains-discard :
      (a b : A) (xs : List A) → contains b (discard a xs) ≡ ite (dec a b) false (contains b xs)
  unfolding contains discard
  contains-discard a b [] = ground arith
  contains-discard a b (x ∷ xs) = ground (arith, contains-discard a b xs)

  pub contains-add :
      (a b : A) (xs : List A) → contains b (add a xs) ≡ ite (dec a b) true (contains b xs)
  unfolding contains add
  contains-add a b xs = ground (arith)

pub ruleset set_laws = (contains-discard, contains-add)

-- `Pick a l m`: taking one `a` out of `l` leaves `m`.
pub data Pick {ℓ} {A : Type ℓ} (a : A) : List A → List A → Type ℓ where
  here : {l : List A} → Pick a (a ∷ l) l
  there : {x : A} {l m : List A} → Pick a l m → Pick a (x ∷ l) (x ∷ m)

pub Pick-length {ℓ} : {A : Type ℓ} {a : A} {l m : List A} → Pick a l m → length l ≡ length m + 1
Pick-length here = omega arith
Pick-length (there p) = omega (arith, Pick-length p)
