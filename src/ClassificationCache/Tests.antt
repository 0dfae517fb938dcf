-- ===== src/ClassificationCache/Tests.antt =====
-- A cache for two classifications.
use nonebot_plugin_moellmcha.Prelude.{
  ℕ, ◌≡◌, refl, true, false, none, some, List, [], ◌∷◌, String, String-discrete, ℕ_discrete, lookup,
  pop,
}
use nonebot_plugin_moellmcha.ClassificationCache.Key.{
  user, unknown, Key, Key-discrete, is_key, Record, Record-discrete,
}
use nonebot_plugin_moellmcha.ClassificationCache.State.{
  Outcome, return, raise, conflict, Settings, settings_are_valid, Flight, Cache, Input, init,
}
use nonebot_plugin_moellmcha.ClassificationCache.Cache.{
  call_clear, waits, known, lookup_record, publish, resolve_exact, finish, clear, Call,
  call_publish, call_resolve, call_finish, perform, run, discard_if_own_publish,
}
use nonebot_plugin_moellmcha.ClassificationCache.Invariant.{IsSound}
use nonebot_plugin_moellmcha.ClassificationCache.Calls.{run-init-IsSound, discard_never_acts}
use nonebot_plugin_moellmcha.ClassificationCache.Clearing.{cleared_task_writes_nothing}
use nonebot_plugin_moellmcha.ClassificationCache.Publishing.{publish-lookup_record}

abbrev digest : String
digest = "0123456789abcdef0123456789abcdef0123456789abcdef0123456789abcdef"

abbrev key : ℕ → Key
key n = record {
  generation = n;
  permission = user;
  provider_cutover = false;
  tools_enabled = true;
  web_search_enabled = false;
  blacklist_digest = digest;
  catalog_digest = digest;
  normalized_prompt_hash = digest;
  capability_digest = digest;
  classifier_digest = digest;
  policy_version = "v1";
  ttl = 60_000;
  directory_digest = digest;
  scene = unknown;
}

abbrev bytes : String → ℕ
bytes s = 90

abbrev settings : Settings
settings = record { max_entries = 2; max_record_bytes = 128; max_total_bytes = 256 }

abbrev at : ℕ → Input
at now = record { caller = some (record { pid = 7; loop = 1 }); clock = some now }

abbrev easy : Record
easy = record { key = key 1; result_json = "easy" }

abbrev hard : Record
hard = record { key = key 1; result_json = "hard" }

abbrev other : Record
other = record { key = key 2; result_json = "easy" }

abbrev third : Record
third = record { key = key 3; result_json = "easy" }

key_is_valid : is_key (key 1) ≡ true
unfolding is_key String-discrete
key_is_valid = refl

valid_settings : settings_are_valid settings ≡ true
unfolding settings_are_valid
valid_settings = refl

abbrev published : Cache
published = (publish bytes (at 1_000) easy (init settings)).1

publishes : publish bytes (at 1_000) easy (run bytes [] (init settings)) ≡ (return easy, published)
unfolding publish init lookup pop Key-discrete Record-discrete String-discrete ℕ_discrete run
    perform
publishes = refl

finds_published : (lookup_record bytes (at 60_999) (key 1) published).0 ≡ return (some easy)
unfolding lookup_record publish init lookup pop Key-discrete Record-discrete String-discrete
    ℕ_discrete
finds_published = refl

forgets_expired : (lookup_record bytes (at 61_000) (key 1) published).0 ≡ return none
unfolding lookup_record publish init lookup pop Key-discrete Record-discrete String-discrete
    ℕ_discrete
forgets_expired = refl

refuses_other_result : (publish bytes (at 2_000) hard published).0 ≡ raise conflict
unfolding publish init lookup pop Key-discrete Record-discrete String-discrete ℕ_discrete
refuses_other_result = refl

evicts_oldest :
    (lookup_record bytes
      (at 2_000)
      (key 1)
      (run bytes (call_publish (at 1_000) other ∷ call_publish (at 1_000) third ∷ []) published)).0
    ≡ return none
unfolding lookup_record publish init lookup pop Key-discrete Record-discrete String-discrete
    ℕ_discrete run perform
evicts_oldest = refl

abbrev flight : Flight
flight = record { task = 0; clear_epoch = 0 }

abbrev before : List (Call bytes)
before = call_resolve (at 1_000) (key 1) ∷ []

abbrev cleared : Cache
cleared = (clear bytes (at 2_000) (run bytes before (init settings))).1

is_running : lookup Key-discrete (key 1) (run bytes before (init settings)).flights ≡ some flight
unfolding run init lookup pop Key-discrete Record-discrete String-discrete ℕ_discrete perform
is_running = refl

clears : clear bytes (at 2_000) (run bytes before (init settings)) ≡ (return tt, cleared)
unfolding clear run init lookup pop Key-discrete Record-discrete String-discrete ℕ_discrete perform
clears = refl

-- The second caller waits for the task of the first.
shares_task :
    (resolve_exact bytes (at 1_500) (key 1) (run bytes before (init settings))).0 ≡ return (waits 0)
unfolding resolve_exact run init lookup pop Key-discrete Record-discrete String-discrete ℕ_discrete
    perform
shares_task = refl

caches_built :
    (resolve_exact bytes (at 1_500) (key 1) (
      run bytes
        (call_finish (at 1_200) (at 1_200) (key 1) (return easy) ∷ [])
        (run bytes before (init settings)))).0
    ≡ return (known easy)
unfolding resolve_exact run init lookup pop Key-discrete Record-discrete String-discrete ℕ_discrete
    perform
caches_built = refl

cleared_task_writes_nothing_example :
    ((finish bytes
        (at 4_000)
        (at 4_000)
        (key 1)
        flight
        (return easy)
        (run bytes (call_publish (at 3_000) other ∷ []) cleared)).1.records
      ≡ (run bytes (call_publish (at 3_000) other ∷ []) cleared).records)
    × ((r : Record)
        → ◌≡◌ {A = Outcome Record} (return easy) (return r)
        → r.key ≡ key 1
        → (finish bytes
            (at 4_000)
            (at 4_000)
            (key 1)
            flight
            (return easy)
            (run bytes (call_publish (at 3_000) other ∷ []) cleared)).0
          ≡ return r)
cleared_task_writes_nothing_example =
    cleared_task_writes_nothing bytes settings before (call_publish (at 3_000) other ∷ [])
      (at 2_000) cleared (key 1) flight (at 4_000) (at 4_000) (return easy) is_running clears

publish-lookup_record_example :
    (easy ≡ easy) × ((lookup_record bytes (at 1_000) (key 1) published).0 ≡ return (some easy))
publish-lookup_record_example =
    publish-lookup_record bytes settings [] (at 1_000) easy easy published valid_settings
      key_is_valid publishes

run-init-IsSound_example : IsSound bytes settings 0 (run bytes before (init settings))
run-init-IsSound_example = run-init-IsSound bytes settings before

-- A clear falls between the check of the epoch and the publication, and the record stays.
discard_never_acts_example :
    discard_if_own_publish bytes
      (key 1)
      easy
      (run bytes (call_clear (at 2_000) ∷ call_publish (at 2_000) easy ∷ []) (init settings))
    ≡ run bytes (call_clear (at 2_000) ∷ call_publish (at 2_000) easy ∷ []) (init settings)
discard_never_acts_example =
    discard_never_acts bytes settings (call_clear (at 2_000) ∷ call_publish (at 2_000) easy ∷ [])
      (key 1) easy
