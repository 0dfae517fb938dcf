-- ===== src/Prelude/Dict.antt =====
-- Python's `dict` and `OrderedDict` as a list of entries, oldest first. Writing a key that is there
-- keeps its place; a new key goes to the end.
use mathlib.Core.Path.{◌≡◌, refl}
use mathlib.Core.Logic.{ite}
use mathlib.Core.Option.{Option, none, some}
use Prim.Native.Nat.{ℕ, ◌+◌, ◌≤◌, ◌<◌}
use mathlib.Core.Bool.{Bool}
use mathlib.Core.List.{List, [], ◌∷◌, ◌++◌}
use native.Mathlib.Omega.{arith}
use nonebot_plugin_moellmcha.Prelude.Tests.{if◌then◌else◌, ltb}
use nonebot_plugin_moellmcha.Prelude.Lists.{length}

abbrev pub unless : {V : Type 0} → (V → Bool) → Option V → Option V
unless p none = none
unless p (some v) = if p v then none else some v

module _ {K V : Type 0} where
  -- the entries whose values do not pass the test
  unfoldable pub drop_where : (V → Bool) → List (K × V) → List (K × V)
  drop_where p [] = []
  drop_where p ((k, v) ∷ d) = let rest = drop_where p d in if p v then rest else (k, v) ∷ rest

  pub length-drop_where-le : (p : V → Bool) (d : List (K × V)) → length (drop_where p d) ≤ length d
  unfolding drop_where
  length-drop_where-le p [] = omega arith
  length-drop_where-le p ((k, v) ∷ d) = ground (arith, length-drop_where-le p d)

  -- `while len(d) > n: d.popitem(last=False)`
  unfoldable pub evict_above : ℕ → List (K × V) → List (K × V)
  evict_above n [] = []
  evict_above n (e ∷ d) =
      let rest = evict_above n d in if ltb n (length (e ∷ d)) then rest else e ∷ d

  pub length-evict_above-le : (n : ℕ) (d : List (K × V)) → length (evict_above n d) ≤ n
  unfolding evict_above
  length-evict_above-le n [] = omega arith
  length-evict_above-le n (e ∷ d) = ground (arith, length-evict_above-le n d)

module _ {K V : Type 0} (dec : Discrete K) where
  -- `d.get(k)`
  unfoldable pub lookup : K → List (K × V) → Option V
  lookup k [] = none
  lookup k ((j, v) ∷ d) = ite (dec j k) (some v) (lookup k d)

  -- `d[k] = v`
  unfoldable pub insert : K → V → List (K × V) → List (K × V)
  insert k v [] = (k, v) ∷ []
  insert k v ((j, w) ∷ d) = ite (dec j k) ((j, v) ∷ d) ((j, w) ∷ insert k v d)

  -- `d.pop(k, None)`
  unfoldable pub pop : K → List (K × V) → List (K × V)
  pop k [] = []
  pop k ((j, w) ∷ d) = let rest = pop k d in ite (dec j k) rest ((j, w) ∷ rest)

  pub lookup-insert :
      (k j : K) (v : V) (d : List (K × V))
      → lookup j (insert k v d) ≡ ite (dec k j) (some v) (lookup j d)
  unfolding lookup insert
  lookup-insert k j v [] = refl
  lookup-insert k j v ((i, w) ∷ d) = ground (arith, lookup-insert k j v d)

  pub lookup-pop :
      (k j : K) (d : List (K × V)) → lookup j (pop k d) ≡ ite (dec k j) none (lookup j d)
  unfolding lookup pop
  lookup-pop k j [] = ground arith
  lookup-pop k j ((i, w) ∷ d) = ground (arith, lookup-pop k j d)

  pub lookup-append_end :
      (k j : K) (v : V) (d : List (K × V))
      → lookup k d ≡ none
      → lookup j (d ++ (k, v) ∷ []) ≡ ite (dec k j) (some v) (lookup j d)
  unfolding lookup
  lookup-append_end k j v [] h = refl
  lookup-append_end k j v ((i, w) ∷ d) h = ground (arith, lookup-append_end k j v d)

  -- the keys are distinct, as in every dict
  abbrev pub IsDict : List (K × V) → Type 0
  IsDict [] = Unit {0}
  IsDict ((k, v) ∷ d) = (lookup k d ≡ none) × IsDict d

  pub insert-IsDict : (k : K) (v : V) (d : List (K × V)) → IsDict d → IsDict (insert k v d)
  unfolding lookup insert
  insert-IsDict k v [] h = (refl, tt)
  insert-IsDict k v ((j, w) ∷ d) h = ground (arith, lookup-insert k j v d, insert-IsDict k v d h.1)

  pub pop-IsDict : (k : K) (d : List (K × V)) → IsDict d → IsDict (pop k d)
  unfolding pop
  pop-IsDict k [] h = tt
  pop-IsDict k ((j, w) ∷ d) h = ground (arith, lookup-pop k j d, pop-IsDict k d h.1)

  pub append_end-IsDict :
      (k : K) (v : V) (d : List (K × V)) → lookup k d ≡ none → IsDict d → IsDict (d ++ (k, v) ∷ [])
  unfolding lookup
  append_end-IsDict k v [] e h = (refl, tt)
  append_end-IsDict k v ((j, w) ∷ d) e h =
      ground (arith, lookup-append_end k j v d, append_end-IsDict k v d)

  pub length-insert-le : (k : K) (v : V) (d : List (K × V)) → length (insert k v d) ≤ length d + 1
  unfolding insert
  length-insert-le k v [] = omega arith
  length-insert-le k v ((j, w) ∷ d) = ground (arith, length-insert-le k v d)

  pub length-pop-le : (k : K) (d : List (K × V)) → length (pop k d) ≤ length d
  unfolding pop
  length-pop-le k [] = omega arith
  length-pop-le k ((j, w) ∷ d) = ground (arith, length-pop-le k d)

  pub length-pop-lt :
      (k : K) (v : V) (d : List (K × V)) → lookup k d ≡ some v → length (pop k d) < length d
  unfolding lookup pop
  length-pop-lt k v [] h = absurd (cc)
  length-pop-lt k v ((j, w) ∷ d) h = ground (arith, length-pop-lt k v d, length-pop-le k d)

  pub drop_where-lookup-none :
      (p : V → Bool) (k : K) (d : List (K × V))
      → lookup k d ≡ none
      → lookup k (drop_where p d) ≡ none
  unfolding lookup drop_where
  drop_where-lookup-none p k [] h = refl
  drop_where-lookup-none p k ((j, w) ∷ d) h = ground (arith, drop_where-lookup-none p k d)

  pub lookup-drop_where :
      (p : V → Bool) (k : K) (d : List (K × V))
      → IsDict d
      → lookup k (drop_where p d) ≡ unless p (lookup k d)
  unfolding lookup drop_where
  lookup-drop_where p k [] h = refl
  lookup-drop_where p k ((j, w) ∷ d) h =
      ground (arith, lookup-drop_where p k d, drop_where-lookup-none p k d)

  pub drop_where-IsDict : (p : V → Bool) (d : List (K × V)) → IsDict d → IsDict (drop_where p d)
  unfolding drop_where
  drop_where-IsDict p [] h = tt
  drop_where-IsDict p ((k, v) ∷ d) h =
      ground (arith, drop_where-lookup-none p k d, drop_where-IsDict p d)

pub ruleset dict_laws = (lookup-insert, lookup-pop)
