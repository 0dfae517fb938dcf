-- ===== src/ToolPlan/Resolution.antt =====
-- The conflicts among the selected tools are all decided, and who loses is dropped.
use nonebot_plugin_moellmcha.Prelude.{
  ◌≡◌, ◌⊎◌, inl, inr, refl, sym, ◌∙◌, ap, subst, arith, Bool, true, false, not, ◌&&◌, Option, none,
  some, List, [], ◌∷◌, String, String-discrete, ite, contains, contains-add, Bool-cases,
  Option-cases,
}
use nonebot_plugin_moellmcha.ToolPlan.Graph.{ToolGraph, is, sort, conflicts_for}
use nonebot_plugin_moellmcha.ToolPlan.Order.{PlanError, ok, fail, is_empty, kept_in}
use nonebot_plugin_moellmcha.ToolPlan.Scheduler.{minus, and_then}
use nonebot_plugin_moellmcha.ToolPlan.Termination.{Planned-cases}
use nonebot_plugin_moellmcha.ToolPlan.Batches.{Has}
use nonebot_plugin_moellmcha.ToolPlan.Plan.{contains-minus, same_ok}
use nonebot_plugin_moellmcha.ToolPlan.Safety.{and_then-ok}
use nonebot_plugin_moellmcha.ToolPlan.Conflicts.{
  Action, reject, prefer, Pair, canonical_pair, same_pair, Rule, Decision, allowed, Resolved,
  has_pair, add_pair, pairs_with, conflict_pairs, find_rule, decide_by, decide_all, is_reject,
  any_reject, losers, first_broken, rejection, unless_broken, settle,
}

is-eq : (a b : String) → is a b ≡ true → a ≡ b
unfolding is
is-eq a b h = elim (String-discrete a b) [ yes e ↦ e | no n ↦ ground (arith, h, n) ]

is_refl : (a : String) → is a a ≡ true
unfolding is
is_refl a = elim (String-discrete a a) [ yes e ↦ ground (arith, e) | no n ↦ elim (n refl) [ ] ]

same_pair_refl : (p : Pair) → same_pair p p ≡ true
unfolding same_pair
same_pair_refl p = ground (arith, is_refl p.0, is_refl p.1)

has_pair-add :
    (p q : Pair) (ps : List Pair) → has_pair p ps ≡ true → has_pair p (add_pair q ps) ≡ true
unfolding has_pair add_pair
has_pair-add p q [] h = ground (arith, h)
has_pair-add p q (r ∷ ps) h = ground (arith, h, has_pair-add p q ps)

has_pair-new : (p : Pair) (ps : List Pair) → has_pair p (add_pair p ps) ≡ true
unfolding has_pair add_pair
has_pair-new p [] = ground (arith, same_pair_refl p)
has_pair-new p (r ∷ ps) = ground (arith, same_pair_refl p, has_pair-new p ps)

pairs_with-keeps :
    (p : Pair) (tool : String) (others : List String) (ps : List Pair)
    → has_pair p ps ≡ true
    → has_pair p (pairs_with tool others ps) ≡ true
unfolding pairs_with
pairs_with-keeps p tool [] ps h = h
pairs_with-keeps p tool (o ∷ others) ps h =
    has_pair-add p (canonical_pair tool o) (pairs_with tool others ps)
      (pairs_with-keeps p tool others ps h)

pairs_with-new :
    (tool other : String) (others : List String) (ps : List Pair)
    → Has others other
    → has_pair (canonical_pair tool other) (pairs_with tool others ps) ≡ true
unfolding pairs_with contains
pairs_with-new tool other [] ps h = ground (arith, h)
pairs_with-new tool other (o ∷ others) ps h = elim (String-discrete o other) [
  | yes e ↦
      subst
        (λ x.
          has_pair (canonical_pair tool x)
            (add_pair (canonical_pair tool o) (pairs_with tool others ps))
          ≡ true)
        e (has_pair-new (canonical_pair tool o) (pairs_with tool others ps))
  | no n ↦
      has_pair-add _ (canonical_pair tool o) (pairs_with tool others ps)
        (pairs_with-new tool other others ps (ground (arith, h, n)))
]

pub contains-kept_in :
    (t : String) (seen l : List String)
    → contains String-discrete t (kept_in seen l)
      ≡ contains String-discrete t seen && contains String-discrete t l
unfolding kept_in contains
contains-kept_in t seen [] = ground arith
contains-kept_in t seen (x ∷ l) = elim (String-discrete x t) [
  | yes e ↦
      ground (arith, e, contains-kept_in t seen l, ap (λ x. contains String-discrete x seen) e)
  | no n ↦ ground (arith, n, contains-kept_in t seen l)
]

conflict_pairs-Has :
    (graph : ToolGraph) (s t : String) (selected tools : List String)
    → Has tools s
    → Has selected t
    → Has (conflicts_for graph s) t
    → has_pair (canonical_pair s t) (conflict_pairs graph selected tools) ≡ true
unfolding conflict_pairs contains
conflict_pairs-Has graph s t selected [] h k c = ground (arith, h)
conflict_pairs-Has graph s t selected (x ∷ tools) h k c = elim (String-discrete x s) [
  | yes e ↦
      subst
        (λ x.
          has_pair (canonical_pair s t) (
            pairs_with x (kept_in selected (conflicts_for graph x))
              (conflict_pairs graph selected tools))
          ≡ true)
        (sym e)
        (pairs_with-new s t (kept_in selected (conflicts_for graph s))
          (conflict_pairs graph selected tools)
          (ground (arith, k, c, contains-kept_in t selected (conflicts_for graph s))))
  | no n ↦
      pairs_with-keeps _ x (kept_in selected (conflicts_for graph x)) _
        (conflict_pairs-Has graph s t selected tools (ground (arith, h, n)) k c)
]

pub ite_same : (x : String) (a b : Bool) → ite (String-discrete x x) a b ≡ a
ite_same x a b = elim (String-discrete x x) [ yes e ↦ ground (arith, e) | no n ↦ elim (n refl) [ ] ]

pub Action-cases : (a : Action) → (a ≡ reject) ⊎ (a ≡ prefer)
Action-cases reject = inl refl
Action-cases prefer = inr refl

decide_by-loser :
    (p : Pair) (r : Option Rule) (d : Decision)
    → decide_by p r ≡ ok d
    → is_reject d.action ≡ false
    → (d.loser ≡ some p.0) ⊎ (d.loser ≡ some p.1)
unfolding decide_by is_reject
decide_by-loser p none d e n = ground (arith, e, n)
decide_by-loser p (some r) d e n = elim (Action-cases r.action) [
  | inl a ↦ ground (arith, a, e, n)
  | inr a ↦ elim (Option-cases r.winner) [
    | inl w ↦ ground (arith, a, w, e, n)
    | inr (x, w) ↦ ground (arith, a, w, e, n)
  ]
]

losers-head :
    (x : String) (d : Decision) (ds : List Decision) → d.loser ≡ some x → Has (losers (d ∷ ds)) x
unfolding losers contains
losers-head x d ds e = rw e (
    contains-add String-discrete x x (losers ds)
    ∙ ite_same x true (contains String-discrete x (losers ds)))

losers-tail :
    (x : String) (d : Decision) (ds : List Decision) → Has (losers ds) x → Has (losers (d ∷ ds)) x
unfolding losers
losers-tail x d ds h = elim (Option-cases d.loser) [
  | inl n ↦ rw n h
  | inr (y, n) ↦ rw n (ground (arith, h, contains-add String-discrete y x (losers ds)))
]

same_pair-eq : (p q : Pair) → same_pair q p ≡ true → (q.0 ≡ p.0) × (q.1 ≡ p.1)
unfolding same_pair
same_pair-eq p q h = (is-eq q.0 p.0 (ground (arith, h)), is-eq q.1 p.1 (ground (arith, h)))

decide_all-loser :
    (rules : List Rule) (p : Pair) (ps : List Pair) (ds : List Decision)
    → decide_all rules ps ≡ ok ds
    → any_reject ds ≡ false
    → has_pair p ps ≡ true
    → Has (losers ds) p.0 ⊎ Has (losers ds) p.1
unfolding decide_all has_pair any_reject
decide_all-loser rules p [] ds e n h = ground (arith, h)
decide_all-loser rules p (q ∷ ps) ds e n h =
    let (d, hd, e1) =
      and_then-ok (decide_by q (find_rule q rules))
        (λ d. and_then (decide_all rules ps) (λ ds. ok (d ∷ ds))) ds e in
    let (ds', hds, e2) = and_then-ok (decide_all rules ps) (λ ds. ok (d ∷ ds)) ds e1 in
    subst (λ ds. Has (losers ds) p.0 ⊎ Has (losers ds) p.1) (same_ok e2)
      (step d ds' hd (decide_all-loser rules p ps ds' hds)
        (subst (λ ds. any_reject ds ≡ false) (sym (same_ok e2)) n))
  where
    step :
        (d : Decision) (ds' : List Decision)
        → decide_by q (find_rule q rules) ≡ ok d
        → (any_reject ds' ≡ false
            → has_pair p ps ≡ true
            → Has (losers ds') p.0 ⊎ Has (losers ds') p.1)
        → any_reject (d ∷ ds') ≡ false
        → Has (losers (d ∷ ds')) p.0 ⊎ Has (losers (d ∷ ds')) p.1
    step d ds' hd rest m = elim (Bool-cases (same_pair q p)) [
      | inl b ↦
          let same = same_pair-eq p q b in
          elim (decide_by-loser q (find_rule q rules) d hd (ground (arith, m))) [
            | inl l ↦ inl (losers-head p.0 d ds' (l ∙ ap some same.0))
            | inr l ↦ inr (losers-head p.1 d ds' (l ∙ ap some same.1))
          ]
      | inr b ↦ elim (rest (ground (arith, m)) (ground (arith, b, h))) [
        | inl l ↦ inl (losers-tail p.0 d ds' l)
        | inr l ↦ inr (losers-tail p.1 d ds' l)
      ]
    ]

pub settle-allowed :
    (graph : ToolGraph) (selected : List String) (ds : List Decision) (res : Resolved)
    → settle graph selected ds ≡ ok res
    → res.status ≡ allowed
    → (any_reject ds ≡ false)
      × (first_broken graph (minus selected (losers ds)) (sort (minus selected (losers ds)))
          ≡ ok none)
      × (res ≡ unless_broken selected (minus selected (losers ds)) ds none)
unfolding settle rejection unless_broken and_then
settle-allowed graph selected ds res e a = elim (Bool-cases (any_reject ds)) [
  | inl b ↦ ground (arith, b, e, a)
  | inr b ↦ elim (Bool-cases (not (is_empty selected) && is_empty survivors)) [
    | inl c ↦ ground (arith, b, c, e, a)
    | inr c ↦
        kept b (Planned-cases (first_broken graph survivors (sort survivors)))
          (ground (arith, b, c, e))
  ]
]
  where
    survivors : List String
    survivors = minus selected (losers ds)

    Goal : Type 0
    Goal =
        (any_reject ds ≡ false)
        × (first_broken graph survivors (sort survivors) ≡ ok none)
        × (res ≡ unless_broken selected survivors ds none)

    kept :
        any_reject ds ≡ false
        → ((o : Option String) × (first_broken graph survivors (sort survivors) ≡ ok o))
          ⊎ ((f : PlanError) × (first_broken graph survivors (sort survivors) ≡ fail f))
        → and_then
            (first_broken graph survivors (sort survivors))
            (λ broken. ok (unless_broken selected survivors ds broken))
          ≡ ok res
        → Goal
    kept b (inl (none, h)) r = (b, h, ground (arith, h, r))
    kept b (inl (some t, h)) r = ground (arith, h, r, a)
    kept b (inr (f, h)) r = ground (arith, h, r)

pub survivors_free :
    (rules : List Rule) (graph : ToolGraph) (selected : List String) (ds : List Decision)
    (s t : String)
    → decide_all rules (conflict_pairs graph selected selected) ≡ ok ds
    → any_reject ds ≡ false
    → Has (minus selected (losers ds)) s
    → Has (minus selected (losers ds)) t
    → contains String-discrete t (conflicts_for graph s) ≡ false
unfolding canonical_pair
survivors_free rules graph selected ds s t e n hs ht =
    elim (Bool-cases (contains String-discrete t (conflicts_for graph s))) [
      | inr b ↦ b
      | inl b ↦ ground (
        arith,
        hs,
        ht,
        contains-minus s selected (losers ds),
        contains-minus t selected (losers ds),
        decide_all-loser rules (canonical_pair s t) (conflict_pairs graph selected selected) ds e n
            (conflict_pairs-Has graph s t selected selected
              (ground (arith, hs, contains-minus s selected (losers ds)))
              (ground (arith, ht, contains-minus t selected (losers ds))) b),
      )
    ]
