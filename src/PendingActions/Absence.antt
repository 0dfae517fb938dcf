-- ===== src/PendingActions/Absence.antt =====
-- A code that is not in the store stays out of it until a creation draws it.
use nonebot_plugin_moellmcha.Prelude.{
  ℕ, zero, suc, ◌+◌, ◌≡◌, ◌≢◌, ◌⊎◌, inl, inr, refl, subst, arith, none, some, List, [], ◌∷◌, String,
  String-discrete, leb, length, lookup, insert, pop, lookup-insert, lookup-pop,
  drop_where-lookup-none, All, Option-cases, Bool-cases,
}
use nonebot_plugin_moellmcha.PendingActions.Action.{
  Error, Result, ok, err, Caller, PendingAction, Codec, is_nonce,
}
use nonebot_plugin_moellmcha.PendingActions.Supersede.{Sub, supersede-Sub}
use nonebot_plugin_moellmcha.PendingActions.Store.{
  Actions, Store, Config, prune, supersede, new_nonce, Request, make_action, append_action,
  create_locked, check_request, create, take_action, take_cancelled, settle, guarded, consume,
  cancel, size,
}
use nonebot_plugin_moellmcha.PendingActions.Calls.{
  Call, call_create, call_consume, call_cancel, call_clear, call_size, perform, run,
}

Result-cases : {A : Type 0} (r : Result A) → ((a : A) × (r ≡ ok a)) ⊎ ((e : Error) × (r ≡ err e))
Result-cases (ok a) = inl (a, refl)
Result-cases (err e) = inr (e, refl)

module _ (codec : Codec) (n : String) where
  -- a call that is not a creation whose source of randomness returns the code
  abbrev pub NeverDraws : Call codec → Type 0
  NeverDraws (call_create cfg r arguments) = (i : ℕ) → codec.strip_upper (r.draw i) ≢ n
  NeverDraws (call_consume cfg raw caller generation now) = Unit
  NeverDraws (call_cancel cfg raw caller now) = Unit
  NeverDraws call_clear = Unit
  NeverDraws (call_size now) = Unit

  abbrev pub Absent : Actions → Type 0
  Absent l = lookup String-discrete n l ≡ none

  Sub-Absent : (l m : Actions) → Sub l m → Absent m → Absent l
  Sub-Absent l m sub h = elim (Option-cases (lookup String-discrete n l)) [
    | inl e ↦ e
    | inr (a, e) ↦ absurd (ground (arith, h, sub n a e))
  ]

  new_nonce-drawn :
      (draw : ℕ → String) (k i : ℕ) (l : Actions) (m : String)
      → new_nonce codec.strip_upper draw k i l ≡ some m
      → (j : ℕ) × (codec.strip_upper (draw j) ≡ m)
  unfolding new_nonce
  new_nonce-drawn draw zero i l m e = absurd (cc)
  new_nonce-drawn draw (suc k) i l m e = elim (Bool-cases (is_nonce (codec.strip_upper (draw i)))) [
    | inl b ↦ elim (Option-cases (lookup String-discrete (codec.strip_upper (draw i)) l)) [
      | inl q ↦ (i, ground (arith, e, b, q))
      | inr (a, q) ↦ new_nonce-drawn draw k (i + 1) l m (ground (arith, e, b, q))
    ]
    | inr b ↦ new_nonce-drawn draw k (i + 1) l m (ground (arith, e, b))
  ]

  insert-Absent :
      (m : String) (a : PendingAction) (l : Actions)
      → m ≢ n
      → Absent l
      → Absent (insert String-discrete m a l)
  insert-Absent m a l other h = ground (arith, other, h, lookup-insert String-discrete m n a l)

  pop-Absent : (m : String) (l : Actions) → Absent l → Absent (pop String-discrete m l)
  pop-Absent m l h = ground (arith, h, lookup-pop String-discrete m n l)

  prune-Absent : (now : ℕ) (l : Actions) → Absent l → Absent (prune now l)
  unfolding prune
  prune-Absent now l h = drop_where-lookup-none String-discrete _ n l h

  append_action-Absent :
      (cfg : Config) (r : Request) (json : String) (l : Actions)
      → ((i : ℕ) → codec.strip_upper (r.draw i) ≢ n)
      → Absent l
      → Absent (append_action codec cfg r json l).1
  unfolding append_action
  append_action-Absent cfg r json l never h = elim (Bool-cases (leb cfg.max_entries (length l))) [
    | inl b ↦ rw (append_action, b) h
    | inr b ↦ elim (Option-cases (new_nonce codec.strip_upper r.draw 32 0 l)) [
      | inl q ↦ rw (append_action, b, q) h
      | inr (m, q) ↦
          let (j, drawn) = new_nonce-drawn r.draw 32 0 l m q in
          rw (append_action, b, q)
            (insert-Absent m (make_action codec cfg r json m) l
              (λ e. never j (subst (λ x. codec.strip_upper (r.draw j) ≡ x) e drawn)) h)
    ]
  ]

  create_locked-Absent :
      (cfg : Config) (r : Request) (json : String) (l : Actions)
      → ((i : ℕ) → codec.strip_upper (r.draw i) ≢ n)
      → Absent l
      → Absent (create_locked codec cfg r json l).1
  unfolding create_locked
  create_locked-Absent cfg r json l never h =
      let pruned = prune r.now l in
      let scan =
        supersede r.caller r.tool_name (codec.sha256 json) r.generation r.bundle_digest pruned
          pruned in
      let rest =
        Sub-Absent scan.1 pruned
          (supersede-Sub r.caller r.tool_name (codec.sha256 json) r.generation r.bundle_digest
            pruned pruned)
          (prune-Absent r.now l h) in
      elim (Option-cases scan.0) [
        | inl q ↦ rw (create_locked, q) (append_action-Absent cfg r json scan.1 never rest)
        | inr (old, q) ↦ rw (create_locked, q) rest
      ]

  create-Absent :
      (cfg : Config) (r : Request) (arguments : codec.Arguments) (s : Store)
      → ((i : ℕ) → codec.strip_upper (r.draw i) ≢ n)
      → Absent s.actions
      → Absent (create codec cfg r arguments s).1.actions
  unfolding create
  create-Absent cfg r arguments s never h =
      elim (Result-cases (check_request codec cfg arguments)) [
        | inl (json, q) ↦ rw (create, q) (create_locked-Absent cfg r json s.actions never h)
        | inr (e, q) ↦ rw (create, q) h
      ]

  take_action-Absent :
      (m : String) (caller : Caller) (generation now : ℕ) (l : Actions)
      → Absent l
      → Absent (take_action codec m caller generation now l).1
  unfolding take_action
  take_action-Absent m caller generation now l h =
      ground (arith, prune-Absent now l h, pop-Absent m l h)

  take_cancelled-Absent :
      (m : String) (caller : Caller) (now : ℕ) (l : Actions)
      → Absent l
      → Absent (take_cancelled m caller now l).1
  unfolding take_cancelled
  take_cancelled-Absent m caller now l h =
      let pruned = prune-Absent now l h in ground (arith, pruned, pop-Absent m (prune now l) pruned)

  guarded-Absent :
      (cfg : Config) (caller : Caller) (now : ℕ) (block : Actions → Result PendingAction × Actions)
      (s : Store)
      → Absent s.actions
      → Absent (block s.actions).1
      → Absent (guarded cfg caller now block s).1.actions
  unfolding guarded settle
  guarded-Absent cfg caller now block s h k = ground (arith, h, k)

  perform-Absent :
      (call : Call codec) (s : Store)
      → NeverDraws call
      → Absent s.actions
      → Absent (perform codec call s).actions
  unfolding perform consume cancel size lookup
  perform-Absent (call_create cfg r arguments) s never h = create-Absent cfg r arguments s never h
  perform-Absent (call_consume cfg raw caller generation now) s _ h =
      guarded-Absent cfg caller now
        (take_action codec (codec.strip_upper raw) caller generation now) s h
        (take_action-Absent (codec.strip_upper raw) caller generation now s.actions h)
  perform-Absent (call_cancel cfg raw caller now) s _ h =
      guarded-Absent cfg caller now (take_cancelled (codec.strip_upper raw) caller now) s h
        (take_cancelled-Absent (codec.strip_upper raw) caller now s.actions h)
  perform-Absent call_clear s _ h = refl
  perform-Absent (call_size now) s _ h = prune-Absent now s.actions h

  pub run-Absent :
      (calls : List (Call codec)) (s : Store)
      → All NeverDraws calls
      → Absent s.actions
      → Absent (run codec calls s).actions
  unfolding run
  run-Absent [] s _ h = h
  run-Absent (call ∷ calls) s never h =
      run-Absent calls (perform codec call s) never.1 (perform-Absent call s never.0 h)
