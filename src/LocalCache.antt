-- ===== src/LocalCache.antt =====
-- utils/datatypes.py: LocalCache, an ordered dict with a limit; `none` is no limit.
pub mod Laws
use scrapy.Prelude.{
  ℕ, Option, none, some, List, [], ◌∷◌, HasEq, if◌then◌else◌, leb, length, nat_beq,
}
use scrapy.Dict
use scrapy.Dict.{Dict}

module _ {K V : Type 0} where
  -- The loop of __setitem__: the oldest entries go, until there is room.
  unfoldable pub make_room : ℕ → Dict K V → Dict K V
  make_room limit [] = []
  make_room limit (x ∷ d) =
      let rest = make_room limit d in if leb limit (length (x ∷ d)) then rest else x ∷ d

  -- __setitem__
  unfoldable pub set_item : ⦃keys : HasEq K⦄ → Option ℕ → K → V → Dict K V → Dict K V
  set_item none key value d = Dict.put key value d
  set_item (some limit) key value d =
      if nat_beq limit 0 then d else Dict.put key value (make_room limit d)
