-- ===== src/PendingActions/Requests.antt =====
-- What `create` stores and returns.
use nonebot_plugin_moellmcha.Prelude.{
  ◌≤◌, ◌<◌, ◌≡◌, inl, inr, refl, sym, ◌∙◌, subst, true, false, Option, none, some, String,
  String-discrete, arith, leb, length, lookup, insert, lookup-insert, IsDict, length-insert-le,
  drop_where-IsDict, Bool-cases, Option-cases,
}
use nonebot_plugin_moellmcha.PendingActions.Action.{ok, PendingAction, Codec, is_nonce}
use nonebot_plugin_moellmcha.PendingActions.Entries.{
  IsTidy, Sub-IsTidy, append_action_cases, insert-IsTidy,
}
use nonebot_plugin_moellmcha.PendingActions.Supersede.{
  prune-Sub, prune_live, supersede-IsDict, supersede-Sub, supersede_clears, length-supersede-le,
  length-prune-le, supersede_found,
}
use nonebot_plugin_moellmcha.PendingActions.Store.{
  Actions, Config, Request, prune, supersede, append_action, create_locked, is_same_request,
  is_repeat, make_action, check_request,
}

-- What is known of the action that `create` returns for a request.
pub record IsCreated (codec : Codec) (r : Request) (json : String) (a : PendingAction) (l : Actions)
    : Type 0 where
  pub stored : lookup String-discrete a.nonce l ≡ some a
  pub well_formed : is_nonce a.nonce ≡ true
  pub own : a.caller ≡ r.caller
  pub same_tool : a.tool_name ≡ r.tool_name
  pub current : a.generation ≡ r.generation
  pub same_arguments : a.arguments_hash ≡ codec.sha256 json
  pub unexpired : r.now < a.expires_at

module _ (codec : Codec) (cfg : Config) (r : Request) (json : String) where
  same_request_parts :
      (a : PendingAction)
      → is_same_request r.caller r.tool_name a ≡ true
      → (a.caller ≡ r.caller) × (a.tool_name ≡ r.tool_name)
  unfolding is_same_request
  same_request_parts a e = (ground arith, ground arith)

  other_request :
      (a : PendingAction)
      → is_same_request r.caller r.tool_name a ≡ false
      → a.caller ≡ r.caller
      → a.tool_name ≡ r.tool_name
      → ⊥
  unfolding is_same_request
  other_request a e c d = ground arith

  repeat_parts :
      (a : PendingAction)
      → is_repeat (codec.sha256 json) r.generation r.bundle_digest a ≡ true
      → (a.arguments_hash ≡ codec.sha256 json) × (a.generation ≡ r.generation)
  unfolding is_repeat
  repeat_parts a e = (ground arith, ground arith)

  append_action-IsCreated :
      (l : Actions) (a : PendingAction)
      → 0 < cfg.ttl
      → (append_action codec cfg r json l).0 ≡ ok a
      → IsCreated codec r json a (append_action codec cfg r json l).1
  unfolding make_action
  append_action-IsCreated l a pos e = elim (append_action_cases codec cfg r json l) [
    | inl (x, refused) ↦ absurd (ground (arith, refused))
    | inr (n, well, fresh, room, added) ↦
        let new = make_action codec cfg r json n in
        let same : new ≡ a = ground (arith, added) in
        subst (λ p. IsCreated codec r json a p.1) (sym added)
          (subst (λ b. IsCreated codec r json b (insert String-discrete n new l)) same
            (record {
              stored = ground (arith, lookup-insert String-discrete n n new l);
              well_formed = well;
              own = refl;
              same_tool = refl;
              current = refl;
              same_arguments = refl;
              unexpired = omega arith;
            }))
  ]

  abbrev pruned : Actions → Actions
  pruned l = prune r.now l

  abbrev swept : Actions → Option PendingAction × Actions
  swept l =
      supersede r.caller r.tool_name (codec.sha256 json) r.generation r.bundle_digest (pruned l)
        (pruned l)

  -- `create_locked` after the loop
  create_repeat :
      (l : Actions) (old : PendingAction)
      → (swept l).0 ≡ some old
      → create_locked codec cfg r json l ≡ (ok old, (swept l).1)
  unfolding create_locked
  create_repeat l old e = rw (create_locked, e)

  create_new :
      (l : Actions)
      → (swept l).0 ≡ none
      → create_locked codec cfg r json l ≡ append_action codec cfg r json (swept l).1
  unfolding create_locked
  create_new l e = rw (create_locked, e)

  pruned-IsDict : (l : Actions) → IsDict String-discrete l → IsDict String-discrete (pruned l)
  unfolding prune
  pruned-IsDict l d = drop_where-IsDict String-discrete (λ a. leb a.expires_at r.now) l d

  swept-IsTidy : (l : Actions) → IsTidy codec l → IsTidy codec (swept l).1
  swept-IsTidy l t =
      Sub-IsTidy codec (swept l).1 l
        (supersede-IsDict r.caller r.tool_name (codec.sha256 json) r.generation r.bundle_digest
          (pruned l) (pruned l) (pruned-IsDict l t.dict))
        (λ n a e. prune-Sub r.now l t.dict n a (
          supersede-Sub r.caller r.tool_name (codec.sha256 json) r.generation r.bundle_digest
            (pruned l) (pruned l) n a e))
        t

  -- after the loop no other entry has the request's caller and tool
  swept-free :
      (l : Actions) (n : String) (a : PendingAction)
      → (swept l).0 ≡ none
      → lookup String-discrete n (swept l).1 ≡ some a
      → a.caller ≡ r.caller
      → a.tool_name ≡ r.tool_name
      → ⊥
  swept-free l n a e there c d = elim (Bool-cases (is_same_request r.caller r.tool_name a)) [
    | inl same ↦ absurd (
        ground (
          arith,
          there,
          supersede_clears r.caller r.tool_name (codec.sha256 json) r.generation r.bundle_digest
              (pruned l) (pruned l) n a
              (supersede-Sub r.caller r.tool_name (codec.sha256 json) r.generation r.bundle_digest
                (pruned l) (pruned l) n a there)
              same e,
        ))
    | inr other ↦ other_request a other c d
  ]

  pub create_locked-IsTidy :
      (l : Actions) → IsTidy codec l → IsTidy codec (create_locked codec cfg r json l).1
  unfolding make_action
  create_locked-IsTidy l t = elim (Option-cases (swept l).0) [
    | inr (old, e) ↦ rw (create_repeat l old e) (swept-IsTidy l t)
    | inl e ↦ rw (create_new l e) (elim (append_action_cases codec cfg r json (swept l).1) [
      | inl (x, refused) ↦ rw refused (swept-IsTidy l t)
      | inr (n, well, fresh, room, added) ↦ rw added (
          insert-IsTidy codec (swept l).1 n (make_action codec cfg r json n) (swept-IsTidy l t) well
            (refl, refl) (λ m a there c d. swept-free l m a e there c d))
    ])
  ]

  repeat-IsCreated :
      (l : Actions) (old : PendingAction)
      → IsTidy codec l
      → (swept l).0 ≡ some old
      → IsCreated codec r json old (swept l).1
  repeat-IsCreated l old t found =
      let (n, there, kept, same, repeat) =
        supersede_found r.caller r.tool_name (codec.sha256 json) r.generation r.bundle_digest
          (pruned l) (pruned l) old (pruned-IsDict l t.dict) found in
      let k = t.keyed n old (prune-Sub r.now l t.dict n old there) in
      let (c, d) = same_request_parts old same in
      let (h, g) = repeat_parts old repeat in
      record {
        stored =
            subst (λ x. lookup String-discrete x (swept l).1 ≡ some old) (sym k.0) (kept ∙ there);
        well_formed = rw (k.0) (k.1);
        own = c;
        same_tool = d;
        current = g;
        same_arguments = h;
        unexpired = prune_live r.now l n old t.dict there;
      }

  pub create_locked-IsCreated :
      (l : Actions) (a : PendingAction)
      → IsTidy codec l
      → 0 < cfg.ttl
      → (create_locked codec cfg r json l).0 ≡ ok a
      → IsCreated codec r json a (create_locked codec cfg r json l).1
  create_locked-IsCreated l a t pos e = elim (Option-cases (swept l).0) [
    | inl none_old ↦
        rw (create_new l none_old)
          (append_action-IsCreated (swept l).1 a pos (rw (create_new l none_old) at e))
    | inr (old, found) ↦
        let same : old ≡ a = ground (arith, create_repeat l old found) in
        rw (create_repeat l old found)
          (subst (λ b. IsCreated codec r json b (swept l).1) same (repeat-IsCreated l old t found))
  ]

module _ (codec : Codec) (cfg : Config) (r : Request) (json : String) (l : Actions) where
  append_action-length :
      (m : Actions)
      → length m ≤ cfg.max_entries
      → length (append_action codec cfg r json m).1 ≤ cfg.max_entries
  append_action-length m h = elim (append_action_cases codec cfg r json m) [
    | inl (x, refused) ↦ rw refused h
    | inr (n, well, fresh, room, added) ↦
        rw added (
          omega
            (arith, room, length-insert-le String-discrete n (make_action codec cfg r json n) m))
  ]

  pub create_locked-length :
      length l ≤ cfg.max_entries → length (create_locked codec cfg r json l).1 ≤ cfg.max_entries
  create_locked-length h =
      let small =
        length-supersede-le r.caller r.tool_name (codec.sha256 json) r.generation r.bundle_digest
          (pruned codec cfg r json l) (pruned codec cfg r json l) in
      let shorter = length-prune-le r.now l in
      elim (Option-cases (swept codec cfg r json l).0) [
        | inr (old, e) ↦
            rw (create_repeat codec cfg r json l old e) (omega (arith, h, small, shorter))
        | inl e ↦
            rw (create_new codec cfg r json l e)
              (append_action-length (swept codec cfg r json l).1 (omega (arith, h, small, shorter)))
      ]

pub check_request-ok :
    (codec : Codec) (cfg : Config) (arguments : codec.Arguments) (json : String)
    → check_request codec cfg arguments ≡ ok json
    → (codec.dumps arguments ≡ some json) × (0 < cfg.ttl) × (0 < cfg.max_entries)
unfolding check_request
check_request-ok codec cfg arguments json e = (ground arith, ground arith, ground arith)
