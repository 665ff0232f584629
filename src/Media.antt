-- ===== src/Media.antt =====
-- pipelines/media.py: MediaPipeline, the part that downloads each file once. A file is known by the
-- fingerprint of its request; a call of `_process_request` by a number. The dicts and the set of
-- SpiderInfo are functions. What the abstract methods and the engine do in a download is the result
-- that ends it, a file or a failure; errbacks of requests are left out, so an answer is what they get.
pub mod Laws
mod Calls
mod Tests
use scrapy.Prelude.{
  ℕ, Bool, true, false, Option, none, some, List, [], ◌∷◌, ◌++◌, map, if◌then◌else◌, HasEq, ◌==◌,
  updated,
}

module _ (F R : Type 0) where
  pub record SpiderInfo : Type 0 where
    pub downloading : F → Bool
    pub downloaded : F → Option R
    -- the calls that wait for each file
    pub waiting : F → List ℕ
    -- the results that calls have returned, and the downloads that were begun
    pub answers : List (ℕ × F × R)
    pub started : List F

  pub data Event : Type 0 where
    -- a call of _process_request, up to where it waits
    process : ℕ → F → Event
    -- the download of a file ends, with _cache_result_and_execute_waiters
    done : F → R → Event

module _ {F R : Type 0} ⦃e : HasEq F⦄ where
  -- open_spider
  unfoldable pub open_spider : SpiderInfo F R
  open_spider = record {
    downloading = λ fp. false;
    downloaded = λ fp. none;
    waiting = λ fp. [];
    answers = [];
    started = [];
  }

  -- _process_request: a cached result, a wait for the download that runs, or a new download
  unfoldable pub process_request : ℕ → F → SpiderInfo F R → SpiderInfo F R
  process_request call fp s = elim (s.downloaded fp) [
    | some r ↦ record s { answers = (call, fp, r) ∷ s.answers }
    | none ↦
        let s' = record s { waiting = updated fp (s.waiting fp ++ call ∷ []) s.waiting } in
        if s.downloading fp
        then s'
        else record s' { downloading = updated fp true s.downloading; started = fp ∷ s.started }
  ]

  -- _cache_result_and_execute_waiters
  unfoldable pub cache_result : R → F → SpiderInfo F R → SpiderInfo F R
  cache_result r fp s = record s {
    downloading = updated fp false s.downloading;
    downloaded = updated fp (some r) s.downloaded;
    waiting = updated fp [] s.waiting;
    answers = map (λ call. (call, fp, r)) (s.waiting fp) ++ s.answers;
  }

  -- A download that ends has begun, and its file is in `downloading` until it ends.
  unfoldable pub step : Event F R → SpiderInfo F R → Option (SpiderInfo F R)
  step (process call fp) s = some (process_request call fp s)
  step (done fp r) s = if s.downloading fp then some (cache_result r fp s) else none

  unfoldable pub run : List (Event F R) → SpiderInfo F R → Option (SpiderInfo F R)
  run [] s = some s
  run (x ∷ xs) s = elim (step x s) [ none ↦ none | some s' ↦ run xs s' ]
