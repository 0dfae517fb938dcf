-- ===== src/ToolPlan/Kahn.antt =====
-- The rows of `_topological_order`, what `remove` does to them, and topological orders.
use nonebot_plugin_moellmcha.Prelude.{
  ◌≡◌, ◌≢◌, inl, inr, refl, sym, ◌∙◌, subst, arith, Bool, true, false, Option, some, List, [], ◌∷◌,
  ◌++◌, append_assoc, String, String-discrete, ite, contains, discard, lookup, Bool-cases,
  Option-cases,
}
use nonebot_plugin_moellmcha.ToolPlan.Graph.{Edge, is, targets_of}
use nonebot_plugin_moellmcha.ToolPlan.Order.{Rows, is_empty, remove}
use nonebot_plugin_moellmcha.ToolPlan.Batches.{Has, contains-append}
use nonebot_plugin_moellmcha.ToolPlan.Closure.{Inside}

pub is_empty-eq : (l : List String) → is_empty l ≡ true → l ≡ []
unfolding is_empty
is_empty-eq [] e = refl
is_empty-eq (x ∷ l) e = absurd (ground (arith, e))

-- what `remove` found and did
pub remove-lookup :
    (current d : String) (rows rows' : Rows) (b : Bool)
    → remove current d rows ≡ some (rows', b)
    → (row : List String) × (lookup String-discrete d rows ≡ some row)
      × Has row current
      × (b ≡ is_empty (discard String-discrete current row))
      × ((t : String)
          → lookup String-discrete t rows'
            ≡ ite
                (String-discrete d t)
                (some (discard String-discrete current row))
                (lookup String-discrete t rows))
unfolding remove lookup is
remove-lookup current d [] rows' b h = absurd (ground (arith, h))
remove-lookup current d ((tool, row) ∷ rows) rows' b h = elim (String-discrete tool d) [
  | yes e ↦ elim (Bool-cases (contains String-discrete current row)) [
    | inl c ↦
        let same : (tool, discard String-discrete current row) ∷ rows ≡ rows' =
          ground (arith, h, e, c) in
        (row, ground (arith, e), c, ground (arith, h, e, c), λ t. rw (← same) (ground (arith, e)))
    | inr c ↦ absurd (ground (arith, h, e, c))
  ]
  | no n ↦ elim (Option-cases (remove current d rows)) [
    | inl q ↦ absurd (ground (arith, h, n, q))
    | inr (r, q) ↦
        let (row', found, has, empty, after) = remove-lookup current d rows r.0 r.1 q in
        (
          row',
          ground (arith, n, found),
          has,
          ground (arith, h, n, q, empty),
          λ t. missed n t row' r.0 (after t) (ground (arith, h, n, q)),
        )
  ]
]
  where
    missed :
        (n : tool ≢ d) (t : String) (row' : List String) (rest : Rows)
        → lookup String-discrete t rest
          ≡ ite
              (String-discrete d t)
              (some (discard String-discrete current row'))
              (lookup String-discrete t rows)
        → (tool, row) ∷ rest ≡ rows'
        → lookup String-discrete t rows'
          ≡ ite
              (String-discrete d t)
              (some (discard String-discrete current row'))
              (ite (String-discrete tool t) (some row) (lookup String-discrete t rows))
    missed n t row' rest after same = rw (← same) (ground (arith, n, after))

-- each tool after those it depends on, where `before` come first
abbrev pub IsTopological : List Edge → List String → List String → Type 0
IsTopological edges before [] = Unit
IsTopological edges before (t ∷ l) =
    Inside (targets_of t edges) before × IsTopological edges (before ++ t ∷ []) l

pub same_some : {A : Type 0} {a b : A} → ◌≡◌ {A = Option A} (some a) (some b) → a ≡ b
same_some h = ground (arith, h)

pub contains-nil : (t : String) → contains String-discrete t [] ≡ false
unfolding contains
contains-nil t = refl

-- a tool whose row is not empty is in no list of tools with empty rows
pub not-free :
    (d current : String) (row : List String) (rows : Rows) (l : List String)
    → lookup String-discrete d rows ≡ some row
    → Has row current
    → ((t : String) → Has l t → lookup String-discrete t rows ≡ some [])
    → contains String-discrete d l ≡ false
not-free d current row rows l found has free = elim (Bool-cases (contains String-discrete d l)) [
  | inl b ↦
      let e : [] ≡ row = same_some (sym (free d b) ∙ found) in
      absurd (
        ground (
          arith,
          has,
          contains-nil current,
          subst (λ r. contains String-discrete current r ≡ false) e (contains-nil current),
        ))
  | inr b ↦ b
]

pub IsTopological-append :
    (edges : List Edge) (before l : List String) (t : String)
    → IsTopological edges before l
    → Inside (targets_of t edges) (before ++ l)
    → IsTopological edges before (l ++ t ∷ [])
IsTopological-append edges before [] t h inside =
    (λ s k. ground (arith, inside s k, contains-append s before [], contains-nil s), tt)
IsTopological-append edges before (x ∷ l) t h inside = (
  h.0,
  IsTopological-append edges (before ++ x ∷ []) l t h.1
      (subst (Inside (targets_of t edges)) (sym (append_assoc before (x ∷ []) l)) inside),
)
