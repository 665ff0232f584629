-- ===== src/Robots/Laws.antt =====
-- The middleware refines the media pipeline: each robots.txt is downloaded once, and every request
-- of its site gets what came of it.
use scrapy.Prelude.{
  ◌⊎◌, ℕ, ◌≡◌, refl, sym, ap, ◌∙◌, Bool, true, false, Option, none, some, List, [], ◌∷◌, ◌++◌, map,
  String, if◌then◌else◌, ◌==◌, string_eq, arith, updated, Bool-cases, Option-cases, inl, inr,
}
use scrapy.Dict
use scrapy.Dict.{Dict}
use scrapy.Dict.Laws.{get-put}
use scrapy.Stats.{Stats, inc}
use scrapy.Media
use scrapy.Media.{SpiderInfo}
use scrapy.Media.Laws.{Once, calls, run-Once}
use scrapy.Robots.{
  exempt, Entry, deferred, parser, RobotsTxt, Download, response, failure, Event, request, download,
  init, robot_parser, settle, parse_robots, robots_error, downloaded, step, run,
}

module _ {RP : Type 0} where
  abbrev pub is_deferred : Option (Entry RP) → Bool
  is_deferred (some deferred) = true
  is_deferred _ = false

  abbrev pub parsed : Option (Entry RP) → Option (Option RP)
  parsed (some (parser rp)) = some rp
  parsed _ = none

  -- A robots.txt as a file that is downloaded once.
  abbrev pub view : RobotsTxt RP → SpiderInfo String (Option RP)
  view s = record {
    downloading = λ netloc. is_deferred (Dict.get netloc s.parsers);
    downloaded = λ netloc. parsed (Dict.get netloc s.parsers);
    waiting = s.waiting;
    answers = s.answers;
    started = s.started;
  }

  abbrev pub result_of : Download RP → Option RP
  result_of (response status rp) = some rp
  result_of (failure ignore) = none

  abbrev pub view_event : Event RP → List (Media.Event String (Option RP))
  view_event (request call r) = if exempt r then [] else Media.process call r.netloc ∷ []
  view_event (download netloc d) = Media.done netloc (result_of d) ∷ []

  abbrev pub view_events : List (Event RP) → List (Media.Event String (Option RP))
  view_events [] = []
  view_events (x ∷ xs) = view_event x ++ view_events xs

  info_eq :
      (d d' : String → Bool) (c c' : String → Option (Option RP))
      (s : SpiderInfo String (Option RP))
      → ((k : String) → d k ≡ d' k)
      → ((k : String) → c k ≡ c' k)
      → record s { downloading = d; downloaded = c }
        ≡ record s { downloading = d'; downloaded = c' }
  info_eq d d' c c' s p q = λ i. record s { downloading = λ k. p k i; downloaded = λ k. q k i }

  Entry-cases :
      (o : Option (Entry RP))
      → (o ≡ none) ⊎ ((o ≡ some deferred) ⊎ ((rp : Option RP) × (o ≡ some (parser rp))))
  Entry-cases none = inl refl
  Entry-cases (some deferred) = inr (inl refl)
  Entry-cases (some (parser rp)) = inr (inr (rp, refl))

  -- A set key, as the view sees it.
  put-deferred :
      (netloc : String) (o : Entry RP) (d : Dict String (Entry RP)) (k : String)
      → is_deferred (Dict.get k (Dict.put netloc o d))
        ≡ (if netloc == k then is_deferred (some o) else is_deferred (Dict.get k d))
  put-deferred netloc o d k = ground (arith, get-put netloc k o d)

  put-parsed :
      (netloc : String) (o : Entry RP) (d : Dict String (Entry RP)) (k : String)
      → parsed (Dict.get k (Dict.put netloc o d))
        ≡ (if netloc == k then parsed (some o) else parsed (Dict.get k d))
  put-parsed netloc o d k = ground (arith, get-put netloc k o d)

  first-parsed :
      (netloc : String) (d : Dict String (Entry RP))
      → Dict.get netloc d ≡ none
      → (k : String) → parsed (Dict.get k (Dict.put netloc deferred d)) ≡ parsed (Dict.get k d)
  first-parsed netloc d e k = elim (Bool-cases (netloc == k)) [
    | inr n ↦ put-parsed netloc deferred d k ∙ rw n refl
    | inl y ↦
        let same : Dict.get netloc d ≡ Dict.get k d =
          ap (λ j. Dict.get j d) ((string_eq.same_iff netloc k).0 y) in
        put-parsed netloc deferred d k ∙ rw y (ap parsed (sym e ∙ same))
  ]

  robot_parser-view :
      (call : ℕ) (netloc : String) (s : RobotsTxt RP)
      → view (robot_parser call netloc s) ≡ Media.process_request call netloc (view s)
  unfolding robot_parser Media.process_request
  robot_parser-view call netloc s = elim (Entry-cases (Dict.get netloc s.parsers)) [
    | inr (inr (rp, e)) ↦ rw (e, robot_parser, Media.process_request) refl
    | inr (inl e) ↦
        let busy : is_deferred (Dict.get netloc s.parsers) ≡ true = ap is_deferred e in
        rw (e, robot_parser, Media.process_request) (rw busy refl)
    | inl e ↦
        let more = updated netloc (s.waiting netloc ++ call ∷ []) s.waiting in
        let idle : is_deferred (Dict.get netloc s.parsers) ≡ false = ap is_deferred e in
        rw (e, robot_parser, Media.process_request)
          (rw idle (
            info_eq (λ k. is_deferred (Dict.get k (Dict.put netloc deferred s.parsers)))
              (updated netloc true (λ k. is_deferred (Dict.get k s.parsers)))
              (λ k. parsed (Dict.get k (Dict.put netloc deferred s.parsers)))
              (λ k. parsed (Dict.get k s.parsers))
              (record (view s) { waiting = more; started = netloc ∷ s.started })
              (put-deferred netloc deferred s.parsers) (first-parsed netloc s.parsers e)))
  ]

  settle-view :
      (rp : Option RP) (netloc : String) (s : RobotsTxt RP)
      → view (settle rp netloc s) ≡ Media.cache_result rp netloc (view s)
  unfolding settle Media.cache_result
  settle-view rp netloc s =
      info_eq (λ k. is_deferred (Dict.get k (Dict.put netloc (parser rp) s.parsers)))
        (updated netloc false (λ k. is_deferred (Dict.get k s.parsers)))
        (λ k. parsed (Dict.get k (Dict.put netloc (parser rp) s.parsers)))
        (updated netloc (some rp) (λ k. parsed (Dict.get k s.parsers)))
        (record (view s) {
          waiting = updated netloc [] s.waiting;
          answers = map (λ call. (call, netloc, rp)) (s.waiting netloc) ++ s.answers;
        })
        (put-deferred netloc (parser rp) s.parsers) (put-parsed netloc (parser rp) s.parsers)

  module _ (status_key : ℕ → String) (exception_key : String) where
    -- What the stats are does not show in the view.
    ended-view :
        (d : Download RP) (netloc : String) (s s' : RobotsTxt RP)
        → Dict.get netloc s.parsers ≡ some deferred
        → downloaded status_key exception_key d netloc s ≡ some s'
        → view s' ≡ Media.cache_result (result_of d) netloc (view s)
    unfolding downloaded parse_robots robots_error
    ended-view (response status rp) netloc s s' e h =
        let counted = record s {
          stats = inc (status_key status) (inc "robotstxt/response_count" s.stats);
        } in
        let t = settle (some rp) netloc counted in
        let same : record t { stats = inc "robotstxt/request_count" t.stats } ≡ s' = ground arith in
        ap view (sym same) ∙ settle-view (some rp) netloc counted
    ended-view (failure ignore) netloc s s' e h =
        let counted = record s { stats = if ignore then s.stats else inc exception_key s.stats } in
        let t = settle none netloc counted in
        let same : record t { stats = inc "robotstxt/request_count" t.stats } ≡ s' = ground arith in
        ap view (sym same) ∙ settle-view none netloc counted

    downloaded-view :
        (d : Download RP) (netloc : String) (s s' : RobotsTxt RP)
        → downloaded status_key exception_key d netloc s ≡ some s'
        → (is_deferred (Dict.get netloc s.parsers) ≡ true)
          × (view s' ≡ Media.cache_result (result_of d) netloc (view s))
    unfolding downloaded
    downloaded-view d netloc s s' h = elim (Entry-cases (Dict.get netloc s.parsers)) [
      | inl e ↦ absurd (let no_entry : none ≡ some s' = rw (e, downloaded) at h in ground arith)
      | inr (inr (rp, e)) ↦
          absurd (let no_wait : none ≡ some s' = rw (e, downloaded) at h in ground arith)
      | inr (inl e) ↦ (ap is_deferred e, ended-view d netloc s s' e h)
    ]

    step-view :
        (x : Event RP) (s s' : RobotsTxt RP)
        → step status_key exception_key x s ≡ some s'
        → Media.run (view_event x) (view s) ≡ some (view s')
    unfolding step Media.run Media.step
    step-view (request call r) s s' h = elim (Bool-cases (exempt r)) [
      | inl y ↦
          let same : s ≡ s' = ground arith in rw (y, view_event) (ap (λ x. some (view x)) same)
      | inr n ↦
          let same : robot_parser call r.netloc s ≡ s' = ground arith in
          rw (n, view_event)
            (ap some (sym (robot_parser-view call r.netloc s)) ∙ ap (λ x. some (view x)) same)
    ]
    step-view (download netloc d) s s' h =
        let (busy, e) = downloaded-view d netloc s s' h in
        rw (busy, Media.run, Media.step) (ap some (sym e))

    run-append :
        (xs ys : List (Media.Event String (Option RP))) (s t : SpiderInfo String (Option RP))
        → Media.run xs s ≡ some t
        → Media.run (xs ++ ys) s ≡ Media.run ys t
    unfolding Media.run
    run-append [] ys s t h = let same : s ≡ t = ground arith in ap (Media.run ys) same
    run-append (x ∷ xs) ys s t h = elim (Option-cases (Media.step x s)) [
      | inl n ↦ absurd (ground arith)
      | inr (q, e) ↦ rw (e, Media.run) (run-append xs ys q t (rw (e, Media.run) at h))
    ]

    -- A run of the middleware is a run of the media pipeline, in which a robots.txt is a file: its
    -- download is begun, waited for and answered in the same steps.
    pub run-view :
        (xs : List (Event RP)) (s s' : RobotsTxt RP)
        → run status_key exception_key xs s ≡ some s'
        → Media.run (view_events xs) (view s) ≡ some (view s')
    unfolding run Media.run
    run-view [] s s' h = let same : s ≡ s' = ground arith in ap (λ x. some (view x)) same
    run-view (x ∷ xs) s s' h = elim (Option-cases (step status_key exception_key x s)) [
      | inl n ↦ absurd (ground arith)
      | inr (q, e) ↦
          run-append (view_event x) (view_events xs) (view s) (view q) (step-view x s q e)
          ∙ run-view xs q s' (ground arith)
    ]

    -- After any run of the middleware, from its start, for each site: its robots.txt was downloaded at
    -- most once; every request that has to obey it has its answer or waits, and none waits unless the
    -- download is running; and every answer is what came of that download, the parser or none.
    pub run-Once_robots :
        (netloc : String) (xs : List (Event RP)) (stats : Stats) (s : RobotsTxt RP)
        → run status_key exception_key xs (init stats) ≡ some s
        → Once netloc (calls netloc (view_events xs)) (view s)
    unfolding init Media.open_spider Dict.get
    run-Once_robots netloc xs stats s h =
        run-Once netloc (view_events xs) (view s) (run-view xs (init stats) s h)
