-- ===== src/PendingActions/Entries.antt =====
-- Well-formed tables of actions, and the step that adds one.
use nonebot_plugin_moellmcha.Prelude.{
  ℕ, zero, suc, ◌+◌, ◌<◌, ◌≡◌, ◌≢◌, ◌⊎◌, inl, inr, true, none, some, [], String, String-discrete,
  arith, leb, length, lookup, insert, lookup-insert, IsDict, insert-IsDict, Bool-cases,
  Option-cases,
}
use nonebot_plugin_moellmcha.PendingActions.Action.{
  Error, queue_full, no_nonce, ok, err, PendingAction, Codec, is_nonce,
}
use nonebot_plugin_moellmcha.PendingActions.Supersede.{Sub}
use nonebot_plugin_moellmcha.PendingActions.Store.{
  Actions, Config, Request, new_nonce, append_action, make_action,
}

-- The entries are keyed by well-formed codes, carry the hash of their arguments, and no two are for
-- the same caller and tool.
pub record IsTidy (codec : Codec) (l : Actions) : Type 0 where
  pub dict : IsDict String-discrete l
  pub keyed :
      (n : String) (a : PendingAction)
      → lookup String-discrete n l ≡ some a
      → (a.nonce ≡ n) × (is_nonce n ≡ true) × (a.arguments_hash ≡ codec.sha256 a.arguments_json)
  pub distinct :
      (n m : String) (a b : PendingAction)
      → lookup String-discrete n l ≡ some a
      → lookup String-discrete m l ≡ some b
      → a.caller ≡ b.caller
      → a.tool_name ≡ b.tool_name
      → n ≡ m

pub empty-IsTidy : (codec : Codec) → IsTidy codec []
unfolding lookup
empty-IsTidy codec = record {
  dict = tt;
  keyed = λ n a e. ground (arith, e);
  distinct = λ n m a b e. ground (arith, e);
}

pub Sub-IsTidy :
    (codec : Codec) (l m : Actions)
    → IsDict String-discrete l
    → Sub l m
    → IsTidy codec m
    → IsTidy codec l
Sub-IsTidy codec l m d sub t = record {
  dict = d;
  keyed = λ n a e. t.keyed n a (sub n a e);
  distinct = λ n k a b e f. t.distinct n k a b (sub n a e) (sub k b f);
}

new_nonce-some :
    (strip_upper : String → String) (draw : ℕ → String) (k i : ℕ) (l : Actions) (n : String)
    → new_nonce strip_upper draw k i l ≡ some n
    → (is_nonce n ≡ true) × (lookup String-discrete n l ≡ none)
unfolding new_nonce
new_nonce-some strip_upper draw zero i l n e = absurd (cc)
new_nonce-some strip_upper draw (suc k) i l n e =
    ground (arith, new_nonce-some strip_upper draw k (i + 1) l n)

-- `append_action` refuses, or stores one new entry under a fresh code.
pub append_action_cases :
    (codec : Codec) (cfg : Config) (r : Request) (json : String) (l : Actions)
    → ((e : Error) × (append_action codec cfg r json l ≡ (err e, l)))
      ⊎ ((n : String) × (is_nonce n ≡ true)
          × (lookup String-discrete n l ≡ none)
          × (length l < cfg.max_entries)
          × (append_action codec cfg r json l ≡ (
            ok (make_action codec cfg r json n),
            insert String-discrete n (make_action codec cfg r json n) l,
          )))
unfolding append_action
append_action_cases codec cfg r json l = elim (Bool-cases (leb cfg.max_entries (length l))) [
  | inl full ↦ inl (queue_full, rw (append_action, full))
  | inr room ↦ elim (Option-cases (new_nonce codec.strip_upper r.draw 32 0 l)) [
    | inl none_left ↦ inl (no_nonce, rw (append_action, room, none_left))
    | inr (n, drawn) ↦
        let (well, fresh) = new_nonce-some codec.strip_upper r.draw 32 0 l n drawn in
        inr (n, well, fresh, ground arith, rw (append_action, room, drawn))
  ]
]

module _ (l : Actions) (n : String) (new : PendingAction) where
  stored_new :
      (m : String) (a : PendingAction)
      → n ≡ m
      → lookup String-discrete m (insert String-discrete n new l) ≡ some a
      → a ≡ new
  stored_new m a p e = ground (arith, lookup-insert String-discrete n m new l)

  stored_old :
      (m : String) (a : PendingAction)
      → n ≢ m
      → lookup String-discrete m (insert String-discrete n new l) ≡ some a
      → lookup String-discrete m l ≡ some a
  stored_old m a p e = ground (arith, lookup-insert String-discrete n m new l)

pub insert-IsTidy :
    (codec : Codec) (l : Actions) (n : String) (new : PendingAction)
    → IsTidy codec l
    → is_nonce n ≡ true
    → (new.nonce ≡ n) × (new.arguments_hash ≡ codec.sha256 new.arguments_json)
    → ((m : String) (a : PendingAction)
        → lookup String-discrete m l ≡ some a
        → a.caller ≡ new.caller
        → a.tool_name ≡ new.tool_name
        → ⊥)
    → IsTidy codec (insert String-discrete n new l)
insert-IsTidy codec l n new t well own free = record {
  dict = insert-IsDict String-discrete n new l t.dict;
  keyed = λ m a e. keyed m a e;
  distinct = λ m k a b e f c d. distinct m k a b e f c d;
}
  where
    keyed :
        (m : String) (a : PendingAction)
        → lookup String-discrete m (insert String-discrete n new l) ≡ some a
        → (a.nonce ≡ m) × (is_nonce m ≡ true) × (a.arguments_hash ≡ codec.sha256 a.arguments_json)
    keyed m a e = elim (String-discrete n m) [
      | yes p ↦ let s = stored_new l n new m a p e in (cc (s, p, own.0), cc (p), cc (s, own.1))
      | no p ↦ t.keyed m a (stored_old l n new m a p e)
    ]

    distinct :
        (m k : String) (a b : PendingAction)
        → lookup String-discrete m (insert String-discrete n new l) ≡ some a
        → lookup String-discrete k (insert String-discrete n new l) ≡ some b
        → a.caller ≡ b.caller
        → a.tool_name ≡ b.tool_name
        → m ≡ k
    distinct m k a b e f c d = elim (String-discrete n m) [
      | yes p ↦ elim (String-discrete n k) [
        | yes q ↦ cc
        | no q ↦
            let s = stored_new l n new m a p e in
            absurd (free k b (stored_old l n new k b q f) (cc (s)) (cc (s)))
      ]
      | no p ↦ elim (String-discrete n k) [
        | yes q ↦
            let s = stored_new l n new k b q f in
            absurd (free m a (stored_old l n new m a p e) (cc (s)) (cc (s)))
        | no q ↦ t.distinct m k a b (stored_old l n new m a p e) (stored_old l n new k b q f) c d
      ]
    ]
