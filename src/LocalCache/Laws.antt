-- ===== src/LocalCache/Laws.antt =====
-- The size of a cache, and what it holds after an item was set.
use scrapy.Prelude.{ℕ, ◌+◌, ◌≤◌, ◌<◌, ◌≡◌, refl, some, [], ◌∷◌, HasEq, length, arith}
use scrapy.Dict
use scrapy.Dict.{Dict}
use scrapy.Dict.Laws.{get-put}
use scrapy.LocalCache.{make_room, set_item}

module _ {K V : Type 0} where
  make_room-length : (limit : ℕ) (d : Dict K V) → 0 < limit → length (make_room limit d) < limit
  unfolding make_room
  make_room-length limit [] h = h
  make_room-length limit (x ∷ d) h = ground (arith, make_room-length limit d h)

  module _ ⦃keys : HasEq K⦄ where
    put-length : (k : K) (v : V) (d : Dict K V) → length (Dict.put k v d) ≤ length d + 1
    unfolding Dict.put
    put-length k v [] = ground arith
    put-length k v ((j, w) ∷ d) = ground (arith, put-length k v d)

    -- A cache with a limit above 0 holds an item after it was set, and no more items than its limit,
    -- however many it held before.
    pub set_item-limit :
        (limit : ℕ) (k : K) (v : V) (d : Dict K V)
        → 0 < limit
        → (Dict.get k (set_item (some limit) k v d) ≡ some v)
          × (length (set_item (some limit) k v d) ≤ limit)
    unfolding set_item
    set_item-limit limit k v d h = (
      ground (arith, get-put k k v (make_room limit d), (keys.same_iff k k).1 refl),
      ground (arith, put-length k v (make_room limit d), make_room-length limit d h),
    )
