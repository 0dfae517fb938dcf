-- ===== src/ClassificationCache/Calls.antt =====
-- What any calls and the ends of tasks keep of a cache.
use nonebot_plugin_moellmcha.Prelude.{
  ℕ, ◌+◌, ◌≡◌, inl, inr, refl, sym, subst, arith, Option, none, some, List, [], ◌∷◌, String, ite,
  if◌then◌else◌, ◌==◌, lookup, All, Bool-cases,
}
use nonebot_plugin_moellmcha.HistoryCache.Entries.{All-pop}
use nonebot_plugin_moellmcha.ClassificationCache.Key.{Key, Key-discrete, Record}
use nonebot_plugin_moellmcha.ClassificationCache.State.{
  unavailable, conflict, ownership_error, value_error, builder_error, Outcome, return, raise,
  Settings, Flight, Cache, Input, init,
}
use nonebot_plugin_moellmcha.ClassificationCache.Cache.{
  publish, discard_if_own_publish, confirm, reread, settle, build_and_publish, drop_flight, land,
  finish, clear_records, clear, Call, call_lookup, call_publish, call_resolve, call_finish,
  call_clear, end_flight, perform, run,
}
use nonebot_plugin_moellmcha.ClassificationCache.Entries.{sum_bytes}
use nonebot_plugin_moellmcha.ClassificationCache.Invariant.{IsPast, IsSound, discard_entry_idle}
use nonebot_plugin_moellmcha.ClassificationCache.Methods.{
  if-IsSound, owned-Keeps, Keeps, lookup_record-Keeps, publish-Keeps, resolve_exact-Keeps,
}

module _ (utf8_length : String → ℕ) (settings : Settings) (first : ℕ) where
  -- the checks after a publication change nothing
  pub confirm_idle :
      (k : Key) (epoch : ℕ) (r : Record) (c : Cache)
      → IsSound utf8_length settings first c
      → (confirm utf8_length k epoch r c).1 ≡ c
  unfolding confirm
  confirm_idle k epoch r c h =
      elim (Key-discrete r.key k)
        as (λ d.
          let out : Outcome Record × Cache =
            ite d
              (
                return r,
                if epoch == c.clear_epoch then c else discard_if_own_publish utf8_length k r c,
              )
              (raise unavailable, c) in
          out.1 ≡ c) [
            | yes q ↦ elim (Bool-cases (epoch == c.clear_epoch)) [
              | inl b ↦ rw b refl
              | inr b ↦ rw b (discard_entry_idle utf8_length settings first k r c h)
            ]
            | no n ↦ refl
          ]

  confirm-Keeps :
      (k : Key) (epoch : ℕ) (r : Record)
      → Keeps utf8_length settings first (confirm utf8_length k epoch r)
  confirm-Keeps k epoch r c h =
      subst (IsSound utf8_length settings first) (sym (confirm_idle k epoch r c h)) h

  reread-IsSound :
      (k : Key) (epoch : ℕ) (x : Outcome (Option Record) × Cache)
      → IsSound utf8_length settings first x.1
      → IsSound utf8_length settings first (reread utf8_length k epoch x).1
  unfolding reread
  reread-IsSound k epoch (raise e, c) h = h
  reread-IsSound k epoch (return none, c) h = h
  reread-IsSound k epoch (return (some r), c) h = confirm-Keeps k epoch r c h

  settle-IsSound :
      (i : Input) (k : Key) (epoch : ℕ) (x : Outcome Record × Cache)
      → IsSound utf8_length settings first x.1
      → IsSound utf8_length settings first (settle utf8_length i k epoch x).1
  unfolding settle
  settle-IsSound i k epoch (return r, c) h = confirm-Keeps k epoch r c h
  settle-IsSound i k epoch (raise conflict, c) h =
      reread-IsSound k epoch _ (lookup_record-Keeps utf8_length settings first i k c h)
  settle-IsSound i k epoch (raise unavailable, c) h = h
  settle-IsSound i k epoch (raise ownership_error, c) h = h
  settle-IsSound i k epoch (raise value_error, c) h = h
  settle-IsSound i k epoch (raise builder_error, c) h = h

  build_and_publish-Keeps :
      (i j : Input) (k : Key) (epoch : ℕ) (built : Outcome Record)
      → Keeps utf8_length settings first (build_and_publish utf8_length i j k epoch built)
  unfolding build_and_publish
  build_and_publish-Keeps i j k epoch (raise e) c h = h
  build_and_publish-Keeps i j k epoch (return r) c h =
      elim (Key-discrete r.key k)
        as (λ d.
          let out : Outcome Record × Cache =
            ite d
              (if epoch == c.clear_epoch
                then settle utf8_length j k epoch (publish utf8_length i r c)
                else (return r, c))
              (raise value_error, c) in
          IsSound utf8_length settings first out.1) [
            | yes q ↦
                if-IsSound utf8_length settings first (epoch == c.clear_epoch) _ (return r, c)
                  (settle-IsSound j k epoch _ (publish-Keeps utf8_length settings first i r c h)) h
            | no n ↦ h
          ]

  drop_flight-IsSound :
      (k : Key) (task : ℕ) (o : Option Flight) (c : Cache)
      → IsSound utf8_length settings first c
      → IsSound utf8_length settings first (drop_flight utf8_length k task o c)
  unfolding drop_flight
  drop_flight-IsSound k task none c h = h
  drop_flight-IsSound k task (some f) c h = elim (Bool-cases (f.task == task)) [
    | inl b ↦
        rw (b, drop_flight)
          (record {
            within = h.within;
            distinct = h.distinct;
            entries = h.entries;
            tasks = All-pop (IsPast c.clear_epoch) Key-discrete k c.flights h.tasks;
            since = omega (arith, h.since);
            configured = h.configured;
          })
    | inr b ↦ rw (b, drop_flight) h
  ]

  end_flight-IsSound :
      (i j : Input) (k : Key) (built : Outcome Record) (o : Option Flight) (c : Cache)
      → IsSound utf8_length settings first c
      → IsSound utf8_length settings first (end_flight utf8_length i j k built o c)
  unfolding end_flight finish land
  end_flight-IsSound i j k built none c h = h
  end_flight-IsSound i j k built (some f) c h =
      drop_flight-IsSound k f.task _ _ (build_and_publish-Keeps i j k f.clear_epoch built c h)

  later-IsPast : (n : ℕ) (d : List (Key × Flight)) → All (IsPast n) d → All (IsPast (n + 1)) d
  later-IsPast n [] h = tt
  later-IsPast n ((k, f) ∷ d) h = (omega (arith, h.0), later-IsPast n d h.1)

  pub clear-Keeps : (i : Input) → Keeps utf8_length settings first (clear utf8_length i)
  unfolding clear clear_records sum_bytes
  clear-Keeps i = owned-Keeps utf8_length settings first i.caller _ (λ c h. record {
    within = record {
      total_right = refl;
      entries_bounded = omega arith;
      bytes_bounded = omega arith;
    };
    distinct = tt;
    entries = tt;
    tasks = later-IsPast c.clear_epoch c.flights h.tasks;
    since = omega (arith, h.since);
    configured = h.configured;
  })

  pub perform-IsSound :
      (call : Call utf8_length) (c : Cache)
      → IsSound utf8_length settings first c
      → IsSound utf8_length settings first (perform utf8_length call c)
  unfolding perform
  perform-IsSound (call_lookup i k) c h = lookup_record-Keeps utf8_length settings first i k c h
  perform-IsSound (call_publish i r) c h = publish-Keeps utf8_length settings first i r c h
  perform-IsSound (call_resolve i k) c h = resolve_exact-Keeps utf8_length settings first i k c h
  perform-IsSound (call_finish i j k built) c h =
      end_flight-IsSound i j k built (lookup Key-discrete k c.flights) c h
  perform-IsSound (call_clear i) c h = clear-Keeps i c h

  pub run-IsSound :
      (calls : List (Call utf8_length)) (c : Cache)
      → IsSound utf8_length settings first c
      → IsSound utf8_length settings first (run utf8_length calls c)
  unfolding run
  run-IsSound [] c h = h
  run-IsSound (call ∷ calls) c h =
      run-IsSound calls (perform utf8_length call c) (perform-IsSound call c h)

module _ (utf8_length : String → ℕ) where
  init-IsSound : (settings : Settings) → IsSound utf8_length settings 0 (init settings)
  unfolding init sum_bytes
  init-IsSound settings = record {
    within = record {
      total_right = refl;
      entries_bounded = omega arith;
      bytes_bounded = omega arith;
    };
    distinct = tt;
    entries = tt;
    tasks = tt;
    since = omega arith;
    configured = refl;
  }

  -- After any calls on a new cache, whatever they read, the entries are at most `max_entries`, their sizes add up
  -- to the total that is kept, which is at most `max_total_bytes`, no key stands twice, each entry stands under the
  -- key of its record and bears the cache's epoch, no task is of a
  -- later epoch, and the settings are still those it was made with.
  pub run-init-IsSound :
      (settings : Settings) (calls : List (Call utf8_length))
      → IsSound utf8_length settings 0 (run utf8_length calls (init settings))
  run-init-IsSound settings calls =
      run-IsSound utf8_length settings 0 calls (init settings) (init-IsSound settings)

  -- After any calls on a new cache, `_discard_if_own_publish` changes nothing, whatever key and record it is given:
  -- a publication that landed just after a clear bears the new epoch, and is kept.
  pub discard_never_acts :
      (settings : Settings) (calls : List (Call utf8_length)) (k : Key) (r : Record)
      → discard_if_own_publish utf8_length k r (run utf8_length calls (init settings))
        ≡ run utf8_length calls (init settings)
  discard_never_acts settings calls k r =
      discard_entry_idle utf8_length settings 0 k r _ (run-init-IsSound settings calls)
