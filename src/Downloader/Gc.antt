-- ===== src/Downloader/Gc.antt =====
-- What the collection of unused slots keeps.
use scrapy.Prelude.{
  ℕ, ◌-◌, ◌≡◌, true, false, none, some, [], ◌∷◌, String, List, ap, ◌∙◌, arith, length, nat_beq,
  nat_eq, inl, inr, Bool-cases, string_eq, ◌==◌, contains,
}
use scrapy.Dict
use scrapy.Dict.{Dict}
use scrapy.Downloader.{Slot, Downloader, slot_gc, kept}

contains-length :
    (r : ℕ) (xs ys : List ℕ) → xs ≡ ys → contains r ys ≡ true → nat_beq (length xs) 0 ≡ false
contains-length r [] ys e h =
    absurd (let e' : contains r [] ≡ true = ap (contains r) e ∙ h in ground arith)
contains-length r (x ∷ xs) ys e h = ground arith

get-kept :
    (mintime r : ℕ) (key : String) (s : Slot) (d : Dict String Slot)
    → Dict.get key d ≡ some s
    → contains r s.active ≡ true
    → Dict.get key (kept mintime d) ≡ some s
unfolding kept Dict.get
get-kept mintime r key s [] h a = absurd (ground arith)
get-kept mintime r key s ((k, t) ∷ d) h a = elim (Bool-cases (k == key)) [
  | inl y ↦
      let q : some t ≡ some s = rw y at h in
      let n : nat_beq (length t.active) 0 ≡ false =
        contains-length r t.active s.active (ap (λ o. elim o [ none ↦ [] | some z ↦ z.active ]) q)
          a in
      rw (n, y, kept, Dict.get) q
  | inr n ↦ ground (arith, get-kept mintime r key s d (ground arith) a)
]

-- The collection never removes the slot of a request that is active, however old the slot is.
pub slot_gc-active :
    (now age r : ℕ) (key : String) (s : Slot) (d : Downloader)
    → Dict.get key d.slots ≡ some s
    → contains r s.active ≡ true
    → Dict.get key (slot_gc now age d).slots ≡ some s
unfolding slot_gc
slot_gc-active now age r key s d h a = get-kept (now - age) r key s d.slots h a
