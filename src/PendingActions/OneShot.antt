-- ===== src/PendingActions/OneShot.antt =====
-- A confirmation code works once, and only for the caller, the generation and the arguments that it
-- was given for.
use nonebot_plugin_moellmcha.Prelude.{
  ℕ, ◌<◌, ◌≡◌, ◌≢◌, inl, inr, refl, sym, subst, Option, List, All, false, none, some, String,
  String-discrete, ite, arith, lookup, pop, lookup-pop, Option-cases,
}
use nonebot_plugin_moellmcha.PendingActions.Action.{
  Result, ok, err, is_ok, Caller, PendingAction, Codec,
}
use nonebot_plugin_moellmcha.PendingActions.Store.{
  Actions, Store, Config, check_arguments, take_action, guarded, consume,
}
use nonebot_plugin_moellmcha.PendingActions.Calls.{Call, run}
use nonebot_plugin_moellmcha.PendingActions.Absence.{NeverDraws, run-Absent}

not_ok {ℓ} : {A : Type ℓ} (r : Result A) → ((a : A) → r ≡ ok a → ⊥) → is_ok r ≡ false
not_ok (ok a) h = absurd (h a refl)
not_ok (err e) h = refl

check_arguments-ok :
    (codec : Codec) (a b : PendingAction)
    → check_arguments codec a ≡ ok b
    → (b ≡ a) × (codec.sha256 a.arguments_json ≡ a.arguments_hash)
unfolding check_arguments
check_arguments-ok codec a b e = ground arith

-- what a successful `take_action` has checked of the entry `b` that it found
take_found :
    (codec : Codec) (n : String) (caller : Caller) (generation now : ℕ) (l : Actions)
    (a b : PendingAction)
    → lookup String-discrete n l ≡ some b
    → (take_action codec n caller generation now l).0 ≡ ok a
    → (check_arguments codec b ≡ ok a)
      × (now < b.expires_at)
      × (b.caller ≡ caller)
      × (b.generation ≡ generation)
      × ((take_action codec n caller generation now l).1 ≡ pop String-discrete n l)
unfolding take_action
take_found codec n caller generation now l a b found e =
    (ground arith, ground arith, ground arith, ground arith, ground arith)

take_missing :
    (codec : Codec) (n : String) (caller : Caller) (generation now : ℕ) (l : Actions)
    (a : PendingAction)
    → lookup String-discrete n l ≡ none
    → (take_action codec n caller generation now l).0 ≢ ok a
unfolding take_action
take_missing codec n caller generation now l a gone e = ground arith

-- What a consumed action has passed.
pub record IsAuthorised (codec : Codec) (caller : Caller) (generation now : ℕ) (a : PendingAction)
    : Type 0 where
  pub unexpired : now < a.expires_at
  pub own : a.caller ≡ caller
  pub current : a.generation ≡ generation
  pub intact : codec.sha256 a.arguments_json ≡ a.arguments_hash

take_action-ok :
    (codec : Codec) (n : String) (caller : Caller) (generation now : ℕ) (l : Actions)
    (a : PendingAction)
    → (take_action codec n caller generation now l).0 ≡ ok a
    → (lookup String-discrete n l ≡ some a)
      × IsAuthorised codec caller generation now a
      × ((take_action codec n caller generation now l).1 ≡ pop String-discrete n l)
take_action-ok codec n caller generation now l a e =
    elim (Option-cases (lookup String-discrete n l)) [
      | inl gone ↦ absurd (take_missing codec n caller generation now l a gone e)
      | inr (b, found) ↦
          let f = take_found codec n caller generation now l a b found e in
          let c = check_arguments-ok codec b a f.0 in
          (
            cc (c.0),
            record {
              unexpired = ground (arith, c.0);
              own = ground (arith, c.0);
              current = ground (arith, c.0);
              intact = ground (arith, c);
            },
            f.4,
          )
    ]

guarded-ok :
    (cfg : Config) (caller : Caller) (now : ℕ) (block : Actions → Result PendingAction × Actions)
    (s : Store) (a : PendingAction)
    → (guarded cfg caller now block s).0 ≡ ok a
    → ((block s.actions).0 ≡ ok a)
      × ((guarded cfg caller now block s).1.actions ≡ (block s.actions).1)
unfolding guarded
guarded-ok cfg caller now block s a e = (ground arith, ground arith)

-- A code that is confirmed stood in the store under its normal form, unexpired, for the same caller
-- and generation, and with arguments that match their hash; it is gone from the store afterwards,
-- and every other entry is as it was.
pub consume-IsAuthorised :
    (codec : Codec) (cfg : Config) (raw : String) (caller : Caller) (generation now : ℕ) (s : Store)
    (a : PendingAction) (j : String)
    → (consume codec cfg raw caller generation now s).0 ≡ ok a
    → (lookup String-discrete (codec.strip_upper raw) s.actions ≡ some a)
      × IsAuthorised codec caller generation now a
      × (lookup String-discrete j (consume codec cfg raw caller generation now s).1.actions
          ≡ ite
              (String-discrete (codec.strip_upper raw) j)
              none
              (lookup String-discrete j s.actions))
unfolding consume
consume-IsAuthorised codec cfg raw caller generation now s a j e =
    let n = codec.strip_upper raw in
    let g = guarded-ok cfg caller now (take_action codec n caller generation now) s a e in
    let t = take_action-ok codec n caller generation now s.actions a g.0 in
    (t.0, t.1, rw (g.1, t.2) (lookup-pop String-discrete n j s.actions))

gone :
    (n m : String) (o : Option PendingAction) (l : Actions)
    → m ≡ n
    → lookup String-discrete n l ≡ ite (String-discrete m n) none o
    → lookup String-discrete m l ≡ none
gone n m o l e h = ground (arith, e, h)

missing :
    (codec : Codec) (cfg : Config) (raw : String) (caller : Caller) (generation now : ℕ) (s : Store)
    → lookup String-discrete (codec.strip_upper raw) s.actions ≡ none
    → is_ok (consume codec cfg raw caller generation now s).0 ≡ false
missing codec cfg raw caller generation now s h = not_ok _ λ a e.
    let found = consume-IsAuthorised codec cfg raw caller generation now s a "" e in
    ground (arith, h, found.0)

-- After a code is confirmed it confirms nothing more: whatever calls come between, by any callers, at
-- any times and under any configurations, it is refused to whoever sends it again, in whatever
-- spelling, if the source of randomness of no creation in between returns the same code.
pub consume_once :
    (codec : Codec) (cfg cfg' : Config) (raw again : String) (caller other : Caller)
    (generation generation' now later : ℕ) (s : Store) (a : PendingAction)
    (calls : List (Call codec))
    → (consume codec cfg raw caller generation now s).0 ≡ ok a
    → codec.strip_upper again ≡ codec.strip_upper raw
    → All (NeverDraws codec (codec.strip_upper raw)) calls
    → is_ok
        (consume codec cfg' again other generation' later
          (run codec calls (consume codec cfg raw caller generation now s).1)).0
      ≡ false
consume_once codec cfg cfg' raw again caller other generation generation' now later s a calls e same
      never =
    let n = codec.strip_upper raw in
    let after = (consume codec cfg raw caller generation now s).1 in
    let first = consume-IsAuthorised codec cfg raw caller generation now s a n e in
    let absent =
      run-Absent codec n calls after never
        (gone n n (lookup String-discrete n s.actions) after.actions refl first.2) in
    missing codec cfg' again other generation' later (run codec calls after) (
      subst (λ k. lookup String-discrete k (run codec calls after).actions ≡ none) (sym same)
        absent)

-- A caller whom a live code was not given to is refused and does not use it up: every entry stays as
-- it was.
pub consume_foreign :
    (codec : Codec) (cfg : Config) (raw : String) (caller : Caller) (generation now : ℕ) (s : Store)
    (a : PendingAction)
    → lookup String-discrete (codec.strip_upper raw) s.actions ≡ some a
    → now < a.expires_at
    → a.caller ≢ caller
    → (is_ok (consume codec cfg raw caller generation now s).0 ≡ false)
      × ((consume codec cfg raw caller generation now s).1.actions ≡ s.actions)
unfolding consume guarded take_action
consume_foreign codec cfg raw caller generation now s a found live foreign =
    (ground arith, ground arith)
