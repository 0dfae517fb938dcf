-- ===== src/ClassificationCache/State.antt =====
-- The state of `MemoryClassificationCache`, and what a method does first.
use nonebot_plugin_moellmcha.Prelude.{
  ℕ, Bool, false, ◌&&◌, Option, none, some, List, [], if◌then◌else◌, ltb, leb, ◌==◌,
}
use nonebot_plugin_moellmcha.ClassificationCache.Key.{Key, Record}

pub data Error : Type 0 where
  unavailable conflict ownership_error value_error builder_error : Error

pub data Outcome (A : Type 0) : Type 0 where
  return : A → Outcome A
  raise : Error → Outcome A

-- `MemoryClassificationCacheSettings`
pub record Settings : Type 0 where
  pub max_entries : ℕ
  pub max_record_bytes : ℕ
  pub max_total_bytes : ℕ

abbrev is_positive : ℕ → ℕ → Bool
is_positive maximum n = leb 1 n && leb n maximum

unfoldable pub settings_are_valid : Settings → Bool
settings_are_valid s =
    is_positive 65_536 s.max_entries
    && is_positive 1_048_576 s.max_record_bytes
    && is_positive 268_435_456 s.max_total_bytes
    && leb s.max_record_bytes s.max_total_bytes

-- `_MemoryClassificationEntry`
pub record Entry : Type 0 where
  pub value : Record
  pub expires_at : ℕ
  pub clear_epoch : ℕ

-- The task that builds the record of a key, by its number, and the epoch in which it was created.
pub record Flight : Type 0 where
  pub task : ℕ
  pub clear_epoch : ℕ

-- The process and the event loop of a call.
pub record Owner : Type 0 where
  pub pid : ℕ
  pub loop : ℕ

abbrev pub Records : Type 0
Records = List (Key × Entry)

pub record Cache : Type 0 where
  pub settings : Settings
  pub records : Records
  pub flights : List (Key × Flight)
  pub next_task : ℕ
  pub total_bytes : ℕ
  pub owner : Option Owner
  pub last_now : Option ℕ
  pub clear_epoch : ℕ

-- What a call reads: who calls, if that can be told, and the clock, if it works.
pub record Input : Type 0 where
  pub caller : Option Owner
  pub clock : Option ℕ

-- `__init__`
unfoldable pub init : Settings → Cache
init settings = record {
  settings = settings;
  records = [];
  flights = [];
  next_task = 0;
  total_bytes = 0;
  owner = none;
  last_now = none;
  clear_epoch = 0;
}

unfoldable pub same_owner : Owner → Owner → Bool
same_owner a b = a.pid == b.pid && a.loop == b.loop

abbrev pub Method : Type 0 → Type 0
Method A = Cache → Outcome A × Cache

unfoldable pub is_before : ℕ → Option ℕ → Bool
is_before now none = false
is_before now (some last) = ltb now last

module _ {A : Type 0} where
  -- `_claim_owner`, and what follows it
  unfoldable pub owned : Option Owner → Method A → Method A
  unfolding same_owner
  owned none body c = (raise unavailable, c)
  owned (some caller) body c = if caller.pid == 0 then (raise unavailable, c) else (elim c.owner [
    | none ↦ body (record c { owner = some caller })
    | some o ↦ if same_owner caller o then body c else (raise ownership_error, c)
  ])

  -- `_now_locked`, and what follows it
  unfoldable pub timed : Option ℕ → (ℕ → Method A) → Method A
  unfolding is_before
  timed none body c = (raise unavailable, c)
  timed (some now) body c =
      if is_before now c.last_now
      then (raise unavailable, c)
      else body now (record c { last_now = some now })
