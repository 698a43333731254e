-- ===== src/Tests/Cache.antt =====
-- Runs of the cache, with a bound of two entries that live for ten milliseconds.
use upstride_api.Base.{ℕ, ◌≡◌, refl, none, some, List, [], ◌∷◌, arith}
use upstride_api.Cache.{
  Ptr, CacheNode, create, get, set, delete, insert, evict_lru, move_to_head, add_to_head,
  remove_node, remove_before, remove_after, write, map_set, map_delete,
}
use upstride_api.Cache.Served.{Request, answers, serve_all, promised, answers-promised}
use upstride_api.Cache.Kept.{get-serve_all-set}

abbrev unwritten : Ptr → CacheNode ℕ
unwritten p = record { key = 0; value = 0; expiry = 0; prev = none; next = none }

-- The key 1 is asked for, so that 2 is evicted for 3; at the time 12 the key 1 has expired.
abbrev calls : List (Request ℕ)
calls =
    Request.sets 0 1 10
    ∷ Request.sets 1 2 20
    ∷ Request.gets 2 1
    ∷ Request.sets 3 3 30
    ∷ Request.gets 4 2
    ∷ Request.gets 5 3
    ∷ Request.gets 12 1
    ∷ Request.deletes 3
    ∷ Request.gets 12 3
    ∷ []

cache_run :
    answers calls (create 2 10 unwritten)
    ≡ none ∷ none ∷ some 10 ∷ none ∷ none ∷ some 30 ∷ none ∷ none ∷ none ∷ []
unfolding create get set delete insert evict_lru move_to_head add_to_head remove_node remove_before
    remove_after write map_set map_delete
cache_run = refl

answers-promised_example : answers calls (create 2 10 unwritten) ≡ promised 2 10 calls []
answers-promised_example = answers-promised 2 10 unwritten calls

get-serve_all-set_example :
    (get 12 1 (
      serve_all
        (Request.sets 4 2 20 ∷ [])
        (set 3 1 11 (serve_all calls (create 2 10 unwritten))))).0
    ≡ some 11
get-serve_all-set_example =
    get-serve_all-set 2 10 3 12 1 11 unwritten calls (Request.sets 4 2 20 ∷ []) (omega arith)
      (omega arith) (omega arith)
