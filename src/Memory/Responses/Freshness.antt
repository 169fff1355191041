-- ===== src/Memory/Responses/Freshness.antt =====
-- core/src/core/memory/service.py: what `cache_get` gives after `cache_put`.
use repo_agent.Prelude.{
  ℕ, ◌+◌, ◌≤◌, ◌<◌, String, ◌≡◌, refl, ◌≢◌, Bool, true, false, Option, none, some, List, arith,
  eq_iff, if◌then◌else◌,
}
use repo_agent.Prelude.Int.{ℤ, pos}
use repo_agent.Prelude.Dict.{
  Dict, lookup, erase, lookup-erase, lookup-insert_same, lookup-insert_other,
}
use repo_agent.Memory.Tables.{Db, MemoryService, CacheRow}
use repo_agent.Memory.Responses.{is_expired, Cached, absent, fresh, cache_row, cache_get, cache_put}

expires :
    (ttl now later : ℕ) (z : ℤ) → z ≡ pos ttl → now + ttl < later → is_expired z later now ≡ true
unfolding is_expired
expires ttl now later z e late = rw e (ground arith)

lasts :
    (ttl now later : ℕ) (z : ℤ) → z ≡ pos ttl → later ≤ now + ttl → is_expired z later now ≡ false
unfolding is_expired
lasts ttl now later z e soon = rw e (ground arith)

erased : (key : String) (d : Dict CacheRow) → lookup key (erase key d) ≡ none
erased key d = ground (arith, eq_iff key key, lookup-erase key key d)

module _ {ℓ} {J : Type ℓ} (dumps : J → List ℕ) (loads : List ℕ → Option J) where
  answer_if :
      (b : Bool) (x y x' y' : Cached J × Db)
      → x.0 ≡ x'.0
      → y.0 ≡ y'.0
      → (if b then x else y).0 ≡ (if b then x' else y').0
  answer_if true x y x' y' p q = p
  answer_if false x y x' y' p q = q

  -- The answer depends on the row alone.
  answer_row :
      (m : MemoryService) (now : ℕ) (key : String) (row : Option CacheRow) (db db' : Db)
      → (cache_row dumps loads m now key row db).0 ≡ (cache_row dumps loads m now key row db').0
  unfolding cache_row
  answer_row m now key none db db' = refl
  answer_row m now key (some r) db db' =
      answer_if (is_expired m.cache_ttl now r.created_at) _ _ _ _ refl refl

  -- With a time to live of `ttl`, and a payload that `loads` reads back from what `dumps` writes: a
  -- response that was put is got until `ttl` after that; later it is not, and its row is gone.
  -- Another key is answered as if nothing had been put.
  pub cache_get-put :
      (m : MemoryService) (ttl now later : ℕ) (key : String) (response : J) (db : Db)
      → m.cache_ttl ≡ pos ttl
      → loads (dumps response) ≡ some response
      → let put = cache_put dumps loads now key response db in
        (later ≤ now + ttl → (cache_get dumps loads m later key put).0 ≡ fresh (some response) now)
        × (now + ttl < later
            → ((cache_get dumps loads m later key put).0 ≡ absent)
              × (lookup key (cache_get dumps loads m later key put).1.response_cache ≡ none))
        × ((other : String)
            → key ≢ other
            → (cache_get dumps loads m later other put).0
              ≡ (cache_get dumps loads m later other db).0)
  unfolding cache_get cache_put cache_row
  cache_get-put m ttl now later key response db life reads =
      let row : CacheRow = record { response_json = dumps response; created_at = now } in
      let found = lookup-insert_same key row db.response_cache in
      (
        λ soon. rw found (rw (lasts ttl now later m.cache_ttl life soon) (rw reads refl)),
        λ late. rw found (rw (expires ttl now later m.cache_ttl life late) (refl, erased key _)),
        λ other apart.
            rw (lookup-insert_other key other row db.response_cache apart)
              (answer_row m later other (lookup other db.response_cache) _ db),
      )
