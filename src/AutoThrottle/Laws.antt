-- ===== src/AutoThrottle/Laws.antt =====
-- The bounds of the delay, and when it falls.
use mathlib.Core.Path.{subst}
use scrapy.Prelude.{
  ◌==◌, ℕ, ◌≤◌, ◌≡◌, ◌≢◌, Bool, Option, some, List, [], ◌∷◌, String, nat_beq_iff, string_eq, arith,
  inl, inr, Option-cases, Bool-cases,
}
use scrapy.Dict
use scrapy.Dict.{Dict}
use scrapy.Dict.Laws.{get-put}
use scrapy.Downloader
use scrapy.Downloader.{Downloader}
use scrapy.Request.{Request}
use scrapy.Response.{Response}
use scrapy.AutoThrottle.{AutoThrottle, adjust_delay, response_downloaded, max, min}

adjust_delay-bounds :
    (t : AutoThrottle) (latency status delay : ℕ)
    → t.mindelay ≤ t.maxdelay
    → (min t.mindelay delay ≤ adjust_delay t latency status delay)
      × (adjust_delay t latency status delay ≤ max t.maxdelay delay)
      × ((status ≢ 200) → delay ≤ adjust_delay t latency status delay)
unfolding adjust_delay
adjust_delay-bounds t latency status delay h =
    (ground arith, ground arith, λ n. ground (arith, nat_beq_iff status 200))

-- The delays of all slots are between two bounds.
unfoldable pub Between : ℕ → ℕ → Downloader → Type 0
Between low high d =
    (key : String) (s : Downloader.Slot)
    → Dict.get key d.slots ≡ some s
    → (low ≤ s.delay) × (s.delay ≤ high)

pub put-Between :
    (low high : ℕ) (key : String) (s : Downloader.Slot) (d : Downloader)
    → low ≤ s.delay
    → s.delay ≤ high
    → Between low high d
    → Between low high (record d { slots = Dict.put key s d.slots })
unfolding Between
put-Between low high key s d l h w = λ k u g. elim (Bool-cases (key == k)) [
  | inl y ↦
      let same : s ≡ u = ground (arith, get-put key k s d.slots) in
      (subst (λ x. low ≤ x.delay) same l, subst (λ x. x.delay ≤ high) same h)
  | inr n ↦ w k u (ground (arith, get-put key k s d.slots))
]

response_downloaded-Between :
    (t : AutoThrottle) (low high : ℕ) (latency : Option ℕ) (dont_adjust : Bool) (p : Response)
    (r : Request) (d : Downloader)
    → t.mindelay ≤ t.maxdelay
    → low ≤ t.mindelay
    → t.maxdelay ≤ high
    → Between low high d
    → Between low high (response_downloaded t latency dont_adjust p r d)
unfolding response_downloaded Between
response_downloaded-Between t low high latency dont_adjust p r d m l h w =
    elim (Option-cases r.meta.download_slot) [
      | inl k ↦ rw (k, response_downloaded) w
      | inr (key, k) ↦ elim (Option-cases latency) [
        | inl a ↦ rw (k, response_downloaded) (rw a w)
        | inr (n, a) ↦ elim (Option-cases (Dict.get key d.slots)) [
          | inl g ↦ rw (k, response_downloaded) (rw a (rw g w))
          | inr (s, g) ↦ elim (Bool-cases dont_adjust) [
            | inl b ↦ rw (k, response_downloaded) (rw a (rw g (rw b w)))
            | inr b ↦
                let (old, new) = w key s g in
                let (least, most, rest) = adjust_delay-bounds t n p.status s.delay m in
                let s' = record s { delay = adjust_delay t n p.status s.delay } in
                rw (k, response_downloaded)
                  (rw a
                    (rw g (rw b (put-Between low high key s' d (ground arith) (ground arith) w))))
          ]
        ]
      ]
    ]

-- A response of a request, with its latency and whether it is not to adjust the delay.
abbrev pub Download : Type 0
Download = Option ℕ × Bool × Response × Request

abbrev pub throttled : AutoThrottle → List Download → Downloader → Downloader
throttled t [] d = d
throttled t ((latency, dont_adjust, p, r) ∷ rest) d =
    throttled t rest (response_downloaded t latency dont_adjust p r d)

-- Over any run of responses the delay of each slot stays between two bounds, where the least delay
-- is not above the greatest, the bounds are not inside of these, and they hold at the start.
pub throttled-Between :
    (t : AutoThrottle) (low high : ℕ) (xs : List Download) (d : Downloader)
    → t.mindelay ≤ t.maxdelay
    → low ≤ t.mindelay
    → t.maxdelay ≤ high
    → Between low high d
    → Between low high (throttled t xs d)
throttled-Between t low high [] d m l h w = w
throttled-Between t low high ((latency, dont_adjust, p, r) ∷ rest) d m l h w =
    throttled-Between t low high rest (response_downloaded t latency dont_adjust p r d) m l h
      (response_downloaded-Between t low high latency dont_adjust p r d m l h w)
