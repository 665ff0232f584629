-- ===== src/AutoThrottle.antt =====
-- extensions/throttle.py: AutoThrottle. Times are whole numbers of a unit, and so is the target
-- concurrency, which is above 0; quotients are rounded down. The slots are those of the downloader.
pub mod Laws
mod Tests
use scrapy.Prelude.{
  ℕ, ◌+◌, ◌/◌, Bool, true, false, not, ◌&&◌, ◌||◌, Option, none, some, List, [], ◌∷◌, String,
  if◌then◌else◌, leb, nat_beq, string_eq,
}
use scrapy.Dict
use scrapy.Downloader
use scrapy.Downloader.{Downloader}
use scrapy.Request.{Request}
use scrapy.Response.{Response}

abbrev pub min : ℕ → ℕ → ℕ
min m n = if leb m n then m else n

abbrev pub max : ℕ → ℕ → ℕ
max m n = if leb m n then n else m

pub record AutoThrottle : Type 0 where
  pub target_concurrency : ℕ
  pub mindelay : ℕ
  pub maxdelay : ℕ

-- _spider_opened, with the settings DOWNLOAD_DELAY, AUTOTHROTTLE_MAX_DELAY and
-- AUTOTHROTTLE_START_DELAY
unfoldable pub spider_opened : ℕ → ℕ → ℕ → AutoThrottle → Downloader → AutoThrottle × Downloader
spider_opened download_delay max_delay start_delay t d = (
  record t { mindelay = download_delay; maxdelay = max_delay },
  record d { delay = max download_delay start_delay },
)

-- _adjust_delay: the delay of a slot after a response
unfoldable pub adjust_delay : AutoThrottle → ℕ → ℕ → ℕ → ℕ
adjust_delay t latency status delay =
    let target_delay = latency / t.target_concurrency in
    let mean = (delay + target_delay) / 2 in
    let new_delay = min (max t.mindelay (max target_delay mean)) t.maxdelay in
    if not (nat_beq status 200) && leb new_delay delay then delay else new_delay

-- _response_downloaded, of the meta keys `download_latency` and `autothrottle_dont_adjust_delay`
unfoldable pub response_downloaded :
    AutoThrottle → Option ℕ → Bool → Response → Request → Downloader → Downloader
unfolding adjust_delay
response_downloaded t latency dont_adjust response r d = elim r.meta.download_slot [
  | none ↦ d
  | some key ↦ elim latency [
    | none ↦ d
    | some l ↦ elim (Dict.get key d.slots) [
      | none ↦ d
      | some slot ↦ if dont_adjust then d else record d {
        slots =
            Dict.put key (record slot { delay = adjust_delay t l response.status slot.delay })
              d.slots;
      }
    ]
  ]
]
