-- ===== src/Stats/Laws.antt =====
-- What the operations on stats leave under a key.
use Prim.Native.Nat.{max, min}
use scrapy.Prelude.{
  ℕ, ◌+◌, ◌≡◌, none, some, arith, String, get_or, if◌then◌else◌, ◌==◌, string_eq, Option-cases, inl,
  inr,
}
use text.Mathlib.TextEquality.{eq_iff}
use scrapy.Dict
use scrapy.Dict.Laws.{get-put}
use scrapy.Stats.{Stats, get_value, inc_value, max_value, min_value, counter, inc}

-- `inc_value` adds the count to the key's stat, or to the start where the key is not set, and
-- changes no other stat.
pub get-inc_value :
    (k j : String) (n start : ℕ) (d : Stats)
    → get_value j none (inc_value k n start d)
      ≡ (if k == j then some (get_or (get_value k none d) start + n) else get_value j none d)
unfolding get_value inc_value
get-inc_value k j n start d = elim (Option-cases (Dict.get k d)) [
  | inl e ↦ ground (arith, get-put k j (start + n) (Dict.put k start d), get-put k j start d)
  | inr (v, e) ↦ ground (arith, get-put k j (v + n) d)
]

pub counter-inc :
    (k j : String) (d : Stats)
    → counter j (inc k d) ≡ (if k == j then counter j d + 1 else counter j d)
counter-inc k j d = ground (arith, get-inc_value k j 1 0 d, eq_iff k j)

-- `max_value` leaves under its key the greatest value that it was ever given, and `min_value` the
-- least: the old stat, where there is one, against the new value.
pub get-max_value :
    (k j : String) (n : ℕ) (d : Stats)
    → get_value j none (max_value k n d)
      ≡ (if k == j then some (max (get_or (get_value k none d) n) n) else get_value j none d)
unfolding get_value max_value
get-max_value k j n d = elim (Option-cases (Dict.get k d)) [
  | inl e ↦ ground (arith, get-put k j (max n n) (Dict.put k n d), get-put k j n d)
  | inr (v, e) ↦ ground (arith, get-put k j (max v n) d)
]

pub get-min_value :
    (k j : String) (n : ℕ) (d : Stats)
    → get_value j none (min_value k n d)
      ≡ (if k == j then some (min (get_or (get_value k none d) n) n) else get_value j none d)
unfolding get_value min_value
get-min_value k j n d = elim (Option-cases (Dict.get k d)) [
  | inl e ↦ ground (arith, get-put k j (min n n) (Dict.put k n d), get-put k j n d)
  | inr (v, e) ↦ ground (arith, get-put k j (min v n) d)
]
