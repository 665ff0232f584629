-- ===== src/Stats.antt =====
-- statscollectors.py: StatsCollector, for stats that are numbers.
pub mod Laws
use Prim.Native.Nat.{max, min}
use scrapy.Prelude.{ℕ, ◌+◌, Option, none, some, [], String, get_or, string_eq}
use scrapy.Dict
use scrapy.Dict.{Dict}

abbrev pub Stats : Type 0
Stats = Dict String ℕ

unfoldable pub get_value : String → Option ℕ → Stats → Option ℕ
get_value key default d = elim (Dict.get key d) [ none ↦ default | some v ↦ some v ]

unfoldable pub set_value : String → ℕ → Stats → Stats
set_value key value d = Dict.put key value d

-- `d.setdefault(key, default)`: the value, and the dict after it
abbrev pub setdefault : String → ℕ → Stats → ℕ × Stats
setdefault key default d = elim (Dict.get key d) [
  | none ↦ (default, Dict.put key default d)
  | some v ↦ (v, d)
]

unfoldable pub inc_value : String → ℕ → ℕ → Stats → Stats
inc_value key count start d = let (v, d') = setdefault key start d in Dict.put key (v + count) d'

unfoldable pub max_value : String → ℕ → Stats → Stats
max_value key value d = let (v, d') = setdefault key value d in Dict.put key (max v value) d'

unfoldable pub min_value : String → ℕ → Stats → Stats
min_value key value d = let (v, d') = setdefault key value d in Dict.put key (min v value) d'

unfoldable pub clear_stats : Stats → Stats
clear_stats d = []

-- `stats.inc_value(key)`
abbrev pub inc : String → Stats → Stats
inc key d = inc_value key 1 0 d

-- The number that a counter shows: 0 before its first increment.
abbrev pub counter : String → Stats → ℕ
counter key d = get_or (get_value key none d) 0
