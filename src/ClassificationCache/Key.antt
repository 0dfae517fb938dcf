-- ===== src/ClassificationCache/Key.antt =====
-- The identity of a cached classification, with its checks, and the record that is cached under it.
-- Times are whole milliseconds.
use Prim.Native.Char.{code}
use Prim.Native.String.{[], ◌∷◌}
use native.Mathlib.Decide.{ℕ_discrete}
use nonebot_plugin_moellmcha.Prelude.{
  ℕ, zero, suc, Bool, true, false, ◌&&◌, ◌||◌, String, String-discrete, leb, ◌==◌,
}
use nonebot_plugin_moellmcha.HistoryCache.Window.{bigint_max}
use nonebot_plugin_moellmcha.Cooldowns.Claims.{matches_token}

-- `ToolCatalogPermission` of tool_catalog_cache.py
pub data Permission : Type 0 where
  user superuser : Permission

pub data Scene : Type 0 where
  group private channel unknown : Scene

-- `ClassificationCacheKey`; the generation is a number that is not negative.
pub record Key : Type 0 where
  pub generation : ℕ
  pub permission : Permission
  pub provider_cutover : Bool
  pub tools_enabled : Bool
  pub web_search_enabled : Bool
  pub blacklist_digest : String
  pub catalog_digest : String
  pub normalized_prompt_hash : String
  pub capability_digest : String
  pub classifier_digest : String
  pub policy_version : String
  pub ttl : ℕ
  pub directory_digest : String
  pub scene : Scene

unfoldable pub Key-discrete : Discrete Key
Key-discrete = hlevel (ℕ_discrete, String-discrete)

abbrev is_letter_or_digit : ℕ → Bool
is_letter_or_digit c =
    (leb b'0' c && leb c b'9') || (leb b'A' c && leb c b'Z') || (leb b'a' c && leb c b'z')

abbrev is_version_character : ℕ → Bool
is_version_character c = is_letter_or_digit c || c == b'.' || c == b'_' || c == b'-'

-- what may follow the first character of a version, with the count of characters that still fit
unfoldable pub matches_version_rest : ℕ → String → Bool
matches_version_rest room [] = true
matches_version_rest zero (c ∷ s) = false
matches_version_rest (suc room) (c ∷ s) =
    is_version_character (code c) && matches_version_rest room s

-- `_POLICY_VERSION_RE.fullmatch`
unfoldable pub matches_policy_version : String → Bool
unfolding matches_version_rest
matches_policy_version [] = false
matches_policy_version (c ∷ s) = is_letter_or_digit (code c) && matches_version_rest 63 s

-- `_SHA256_RE.fullmatch`
unfoldable pub matches_sha256 : String → Bool
unfolding matches_token
matches_sha256 s = matches_token 64 s

-- `ClassificationCacheKey.__post_init__`, for whether it lets the key pass
unfoldable pub is_key : Key → Bool
unfolding matches_sha256 matches_policy_version
is_key k =
    leb k.generation bigint_max
    && matches_sha256 k.blacklist_digest
    && matches_sha256 k.catalog_digest
    && matches_sha256 k.normalized_prompt_hash
    && matches_sha256 k.capability_digest
    && matches_sha256 k.classifier_digest
    && matches_sha256 k.directory_digest
    && matches_policy_version k.policy_version
    && (leb 1_000 k.ttl && leb k.ttl 300_000)

-- `ClassificationCacheRecord`: what else it holds is computed from the text.
pub record Record : Type 0 where
  pub key : Key
  pub result_json : String

unfoldable pub Record-discrete : Discrete Record
Record-discrete = hlevel (Key-discrete, String-discrete)
