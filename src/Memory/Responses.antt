-- ===== src/Memory/Responses.antt =====
-- core/src/core/memory/service.py: the cache of responses.
pub mod Freshness
use repo_agent.Prelude.{ℕ, ◌+◌, String, Bool, Option, none, some, List, ltb, if◌then◌else◌}
use repo_agent.Prelude.Int.{ℤ, pos, negsuc}
use repo_agent.Prelude.Dict.{lookup, insert, erase}
use repo_agent.Memory.Tables.{CacheRow, Db, MemoryService}

-- created_at < now - ttl
unfoldable pub is_expired : ℤ → ℕ → ℕ → Bool
is_expired (pos ttl) now created_at = ltb (created_at + ttl) now
is_expired (negsuc n) now created_at = ltb created_at (now + n + 1)

-- A cached response, whose payload `json.loads` may not read.
pub data Cached {ℓ} (J : Type ℓ) : Type ℓ where
  absent : Cached J
  fresh : Option J → ℕ → Cached J

module _ {ℓ} {J : Type ℓ} (dumps : J → List ℕ) (loads : List ℕ → Option J) where
  cache_row : MemoryService → ℕ → String → Option CacheRow → Db → Cached J × Db
  unfolding is_expired
  cache_row m now key none db = (absent, db)
  cache_row m now key (some r) db =
      if is_expired m.cache_ttl now r.created_at
      then (absent, record db { response_cache = erase key db.response_cache })
      else (fresh (loads r.response_json) r.created_at, db)

  unfoldable pub cache_get : MemoryService → ℕ → String → Db → Cached J × Db
  unfolding cache_row
  cache_get m now key db = cache_row m now key (lookup key db.response_cache) db

  unfoldable pub cache_put : ℕ → String → J → Db → Db
  cache_put now key response db = record db {
    response_cache =
        insert key (record { response_json = dumps response; created_at = now }) db.response_cache;
  }
