-- ===== src/PendingActions/Supersede.antt =====
-- What the loop of `create` over the old entries leaves, finds and removes.
use nonebot_plugin_moellmcha.Prelude.{
  ℕ, ◌≤◌, ◌<◌, ◌≡◌, inl, inr, true, Option, none, some, [], ◌∷◌, String, String-discrete, arith,
  leb, length, lookup, pop, lookup-pop, IsDict, pop-IsDict, length-pop-le, lookup-drop_where,
  length-drop_where-le, Bool-cases, Option-cases,
}
use nonebot_plugin_moellmcha.PendingActions.Action.{Caller, PendingAction}
use nonebot_plugin_moellmcha.PendingActions.Store.{
  Actions, prune, supersede, is_same_request, is_repeat,
}

-- every entry of the first is an entry of the second
abbrev pub Sub : Actions → Actions → Type 0
Sub l m =
    (n : String) (a : PendingAction)
    → lookup String-discrete n l ≡ some a
    → lookup String-discrete n m ≡ some a

pub pop-Sub : (k : String) (l : Actions) → Sub (pop String-discrete k l) l
pop-Sub k l n a e = ground (arith, lookup-pop String-discrete k n l)

pub prune-Sub : (now : ℕ) (l : Actions) → IsDict String-discrete l → Sub (prune now l) l
unfolding prune
prune-Sub now l d n a e =
    ground (arith, lookup-drop_where String-discrete (λ x. leb x.expires_at now) n l d)

pub prune_live :
    (now : ℕ) (l : Actions) (n : String) (a : PendingAction)
    → IsDict String-discrete l
    → lookup String-discrete n (prune now l) ≡ some a
    → now < a.expires_at
unfolding prune
prune_live now l n a d e =
    ground (arith, lookup-drop_where String-discrete (λ x. leb x.expires_at now) n l d)

pub length-prune-le : (now : ℕ) (l : Actions) → length (prune now l) ≤ length l
unfolding prune
length-prune-le now l = length-drop_where-le (λ a. leb a.expires_at now) l

module _ (caller : Caller) (tool digest_of : String) (generation : ℕ) (digest : Option String) where
  abbrev scan : Actions → Actions → Option PendingAction × Actions
  scan = supersede caller tool digest_of generation digest

  pub supersede-IsDict :
      (old l : Actions) → IsDict String-discrete l → IsDict String-discrete (scan old l).1
  unfolding supersede
  supersede-IsDict [] l d = d
  supersede-IsDict ((n, a) ∷ old) l d = ground (
    arith,
    supersede-IsDict old l d,
    supersede-IsDict old (pop String-discrete n l) (pop-IsDict String-discrete n l d),
  )

  pub supersede-Sub : (old l : Actions) → Sub (scan old l).1 l
  unfolding supersede
  supersede-Sub [] l n a e = e
  supersede-Sub ((m, b) ∷ old) l n a e = ground (
    arith,
    supersede-Sub old l n a,
    supersede-Sub old (pop String-discrete m l) n a,
    pop-Sub m l n a,
  )

  pub length-supersede-le : (old l : Actions) → length (scan old l).1 ≤ length l
  unfolding supersede
  length-supersede-le [] l = omega arith
  length-supersede-le ((m, b) ∷ old) l = ground (
    arith,
    length-supersede-le old l,
    length-supersede-le old (pop String-discrete m l),
    length-pop-le String-discrete m l,
  )

  supersede-absent :
      (old l : Actions) (n : String)
      → lookup String-discrete n l ≡ none
      → lookup String-discrete n (scan old l).1 ≡ none
  supersede-absent old l n e = elim (Option-cases (lookup String-discrete n (scan old l).1)) [
    | inl gone ↦ gone
    | inr (a, there) ↦ absurd (ground (arith, supersede-Sub old l n a there))
  ]

  -- if no entry is returned, none is left for the same caller and tool
  pub supersede_clears :
      (old l : Actions) (n : String) (a : PendingAction)
      → lookup String-discrete n old ≡ some a
      → is_same_request caller tool a ≡ true
      → (scan old l).0 ≡ none
      → lookup String-discrete n (scan old l).1 ≡ none
  unfolding supersede lookup
  supersede_clears [] l n a e same found = absurd (cc)
  supersede_clears ((m, b) ∷ old) l n a e same found = ground (
    arith,
    supersede_clears old l n a,
    supersede_clears old (pop String-discrete m l) n a,
    supersede-absent old (pop String-discrete m l) n,
    lookup-pop String-discrete m n l,
  )

  -- an entry that is returned repeats the request, and stays where it was
  pub supersede_found :
      (old l : Actions) (a : PendingAction)
      → IsDict String-discrete old
      → (scan old l).0 ≡ some a
      → (n : String) × (lookup String-discrete n old ≡ some a)
        × (lookup String-discrete n (scan old l).1 ≡ lookup String-discrete n l)
        × (is_same_request caller tool a ≡ true)
        × (is_repeat digest_of generation digest a ≡ true)
  unfolding supersede lookup
  supersede_found [] l a d found = absurd (cc)
  supersede_found ((m, b) ∷ old) l a d found = elim (Bool-cases (is_same_request caller tool b)) [
    | inl same ↦ elim (Bool-cases (is_repeat digest_of generation digest b)) [
      | inl repeat ↦ (m, ground arith, rw (supersede, same, repeat), ground arith, ground arith)
      | inr differs ↦
          let (n, e, kept, p, q) =
            supersede_found old (pop String-discrete m l) a d.1 (ground arith) in
          (n, ground (arith, d.0), ground (arith, d.0, lookup-pop String-discrete m n l), p, q)
    ]
    | inr other ↦
        let (n, e, kept, p, q) = supersede_found old l a d.1 (ground arith) in
        (n, ground (arith, d.0), ground (arith, d.0), p, q)
  ]
