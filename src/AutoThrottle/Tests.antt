-- ===== src/AutoThrottle/Tests.antt =====
-- A slot that is throttled by two responses.
use scrapy.Prelude.{ℕ, ◌≡◌, refl, true, false, none, some, List, [], ◌∷◌, string_eq, arith}
use scrapy.Dict
use scrapy.Downloader
use scrapy.Downloader.{Downloader}
use scrapy.Request.{Request, new_request}
use scrapy.Response.{Response}
use scrapy.AutoThrottle.{AutoThrottle, response_downloaded, adjust_delay}
use scrapy.AutoThrottle.Laws.{Between, Download, throttled, throttled-Between, put-Between}

abbrev throttle : AutoThrottle
throttle = record { target_concurrency = 1; mindelay = 2; maxdelay = 60 }

abbrev empty : Downloader
empty = record {
  slots = [];
  active = [];
  total_concurrency = 16;
  domain_concurrency = 8;
  ip_concurrency = 0;
  delay = 5;
  randomize_delay = true;
  per_slot_settings = [];
}

abbrev slot : Downloader.Slot
slot = record {
  concurrency = 8;
  delay = 5;
  randomize_delay = true;
  active = [];
  queue = [];
  transferring = [];
  lastseen = 0;
  latercall = none;
  scheduled = [];
}

abbrev one_slot : Downloader
one_slot = record empty { slots = Dict.put "a" slot [] }

abbrev page : Request
page =
    let r = new_request "http://a/" in
    record r { meta = record (r.meta) { download_slot = some "a" } }

abbrev answer : ℕ → Response
answer status = record { url = "http://a/"; status = status; headers = []; body_size = 0 }

abbrev downloads : List Download
downloads = (some 100, false, answer 200, page) ∷ (some 1, false, answer 404, page) ∷ []

empty-Between : Between 2 60 empty
unfolding Between Dict.get
empty-Between = λ key s g. absurd (ground arith)

throttled_delay :
    Dict.get "a" (throttled throttle downloads one_slot).slots ≡ some (record slot { delay = 60 })
unfolding response_downloaded adjust_delay Dict.get Dict.put
throttled_delay = refl

throttled-Between_example : Between 2 60 (throttled throttle downloads one_slot)
throttled-Between_example =
    throttled-Between throttle 2 60 downloads one_slot (omega arith) (omega arith) (omega arith)
      (put-Between 2 60 "a" slot empty (omega arith) (omega arith) empty-Between)
