-- ===== src/Engine/Idle.antt =====
-- The spider that is closed because it is idle.
use scrapy.Prelude.{
  ◌≡◌, ◌⊎◌, refl, true, false, some, List, [], ◌∷◌, arith, length, inl, inr, Bool-cases,
  Option-cases, ltb,
}
use scrapy.SchedulerClass.{SchedulerClass}
use scrapy.Scraper
use scrapy.Scraper.{is_empty}
use scrapy.Engine.{Engine, IdleAnswer, slot_is_idle, spider_is_idle, spider_idle}
use scrapy.Engine.Slot.{EngineSlot}

is_empty-nil : {A : Type 0} (xs : List A) → is_empty xs ≡ true → xs ≡ []
is_empty-nil [] h = refl
is_empty-nil (x ∷ xs) h = absurd (ground arith)

none_pending : {A : Type 0} (xs : List A) → ltb 0 (length xs) ≡ false → xs ≡ []
none_pending [] h = refl
none_pending (x ∷ xs) h = absurd (ground arith)

module _ {R : Type 0} {S : SchedulerClass R} where
  -- Nothing is left to do for the spider.
  pub record Finished (s : EngineSlot S) (e : Engine S) : Type 0 where
    pub pending : S.pending s.scheduler ≡ []
    pub downloading : e.downloader.active ≡ []
    pub starting : e.start ≡ false
    pub queued : e.scraper.queue ≡ []
    pub scraping : e.scraper.active ≡ []
    pub items : e.scraper.itemproc_size ≡ 0

  slot_is_idle-Finished : (s : EngineSlot S) (e : Engine S) → slot_is_idle s e ≡ true → Finished s e
  unfolding slot_is_idle Scraper.is_idle
  slot_is_idle-Finished s e h = record {
    pending = none_pending (S.pending s.scheduler) (ground (arith, S.has_pending_law s.scheduler));
    downloading = is_empty-nil e.downloader.active (ground arith);
    starting = ground arith;
    queued = is_empty-nil e.scraper.queue (ground arith);
    scraping = is_empty-nil e.scraper.active (ground arith);
    items = ground arith;
  }

  -- Where the engine asks to close a spider because it is idle, no handler of `spider_idle` has
  -- refused it, and nothing is left to do: no pending request, none in the downloader or the scraper,
  -- no item in the pipelines, and the start is exhausted. Else the engine is as the handlers leave it.
  pub spider_idle_lem :
      (handlers : Engine S → IdleAnswer × Engine S) (e : Engine S)
      → (spider_idle handlers e ≡ (handlers e).1)
        ⊎ (((handlers e).0.dont_close ≡ false)
            × (s : EngineSlot S) × ((handlers e).1.slot ≡ some s)
            × Finished s (handlers e).1)
  unfolding spider_idle spider_is_idle
  spider_idle_lem handlers e =
      let e1 = (handlers e).1 in
      elim (Bool-cases (handlers e).0.dont_close) [
        | inl d ↦ inl (ground arith)
        | inr d ↦ elim (Option-cases e1.slot) [
          | inl k ↦ inl (ground arith)
          | inr (s, k) ↦ elim (Bool-cases (slot_is_idle s e1)) [
            | inl i ↦ inr (d, s, k, slot_is_idle-Finished s e1 i)
            | inr i ↦ inl (ground arith)
          ]
        ]
      ]
