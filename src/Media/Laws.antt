-- ===== src/Media/Laws.antt =====
-- Over a run of a media pipeline each file is downloaded once, and each call gets its result.
use mathlib.Core.Path.{subst}
use scrapy.Prelude.{
  ℕ, ◌+◌, ◌≡◌, ◌⊎◌, refl, sym, ap, ◌∙◌, true, false, ◌||◌, Option, none, some, List, [], ◌∷◌, ◌++◌,
  map, if◌then◌else◌, HasEq, ◌==◌, length, total, total-append, length-append, All, All-append,
  is_some, arith, inl, inr, Bool-cases, Option-cases, updated,
}
use scrapy.Media.{
  SpiderInfo, Event, process, done, open_spider, process_request, cache_result, step, run,
}

abbrev pub is_for : {K : Type 0} ⦃keys : HasEq K⦄ → K → K → ℕ
is_for fp k = if k == fp then 1 else 0

module _ {F R : Type 0} ⦃e : HasEq F⦄ where
  -- The number of calls of a run that ask for a file.
  abbrev pub calls : F → List (Event F R) → ℕ
  calls fp [] = 0
  calls fp (process call k ∷ xs) = is_for fp k + calls fp xs
  calls fp (done k r ∷ xs) = calls fp xs

  abbrev pub answered : F → SpiderInfo F R → ℕ
  answered fp s = total (λ a. is_for fp a.1) s.answers

  abbrev pub begun : F → SpiderInfo F R → ℕ
  begun fp s = total (is_for fp) s.started

  abbrev pub Agrees : F → Option R → ℕ × F × R → Type 0
  Agrees fp cached a = ((a.1 == fp) ≡ false) ⊎ (cached ≡ some a.2)

  -- What holds of one file after `n` calls for it.
  pub record Once (fp : F) (n : ℕ) (s : SpiderInfo F R) : Type 0 where
    pub counted : n ≡ answered fp s + length (s.waiting fp)
    pub once : begun fp s ≡ (if s.downloading fp || is_some (s.downloaded fp) then 1 else 0)
    pub apart : (s.downloading fp ≡ false) ⊎ (s.downloaded fp ≡ none)
    pub waits : (s.downloading fp ≡ true) ⊎ (s.waiting fp ≡ [])
    pub agree : All (Agrees fp (s.downloaded fp)) s.answers

  total-answers :
      (fp k : F) (r : R) (cs : List ℕ)
      → total (λ (a : ℕ × F × R). is_for fp a.1) (map (λ call. (call, k, r)) cs)
        ≡ (if k == fp then length cs else 0)
  total-answers fp k r [] = ground arith
  total-answers fp k r (c ∷ cs) = ground (arith, total-answers fp k r cs)

  answers-agree :
      (fp : F) (cached : Option R) (k : F) (r : R) (cs : List ℕ)
      → Agrees fp cached (0, k, r)
      → All (Agrees fp cached) (map (λ call. (call, k, r)) cs)
  answers-agree fp cached k r [] h = _
  answers-agree fp cached k r (c ∷ cs) h = (h, answers-agree fp cached k r cs h)

  -- Answers that agree with no cached result are for other files.
  agree-later :
      (fp : F) (r : R) (answers : List (ℕ × F × R))
      → All (Agrees fp none) answers
      → All (Agrees fp (some r)) answers
  agree-later fp r [] h = _
  agree-later fp r (a ∷ answers) (h, hs) = (ground arith, agree-later fp r answers hs)

  -- The result that is cached for a file agrees with its cache.
  cached-Agrees :
      (fp k : F) (call : ℕ) (r : R) (cache : F → Option R)
      → cache k ≡ some r
      → Agrees fp (cache fp) (call, k, r)
  cached-Agrees fp k call r cache d = elim (Bool-cases (k == fp)) [
    | inl y ↦ inr (ap cache (sym ((e.same_iff k fp).0 y)) ∙ d)
    | inr n ↦ inl n
  ]

  cached-Once :
      (fp : F) (n call : ℕ) (k : F) (r : R) (s : SpiderInfo F R)
      → s.downloaded k ≡ some r
      → Once fp n s
      → Once fp (is_for fp k + n) (record s { answers = (call, k, r) ∷ s.answers })
  cached-Once fp n call k r s d h = record {
    counted = ground (arith, h.counted);
    once = h.once;
    apart = h.apart;
    waits = h.waits;
    agree = (cached-Agrees fp k call r s.downloaded d, h.agree);
  }

  -- A call for a file more that waits.
  waiting-length :
      (fp : F) (call : ℕ) (k : F) (s : SpiderInfo F R)
      → length (updated k (s.waiting k ++ call ∷ []) s.waiting fp)
        ≡ is_for fp k + length (s.waiting fp)
  waiting-length fp call k s = elim (Bool-cases (k == fp)) [
    | inl y ↦ ground (
      arith,
      length-append (s.waiting k) (call ∷ []),
      ap (λ x. length (s.waiting x)) ((e.same_iff k fp).0 y),
    )
    | inr n ↦ ground arith
  ]

  waiting-Once :
      (fp : F) (n call : ℕ) (k : F) (s : SpiderInfo F R)
      → s.downloading k ≡ true
      → Once fp n s
      → Once fp
          (is_for fp k + n)
          (record s { waiting = updated k (s.waiting k ++ call ∷ []) s.waiting })
  waiting-Once fp n call k s d h = record {
    counted = omega (arith, h.counted, waiting-length fp call k s);
    once = h.once;
    apart = h.apart;
    waits = elim (Bool-cases (k == fp)) [
      | inl y ↦ inl (ap s.downloading (sym ((e.same_iff k fp).0 y)) ∙ d)
      | inr m ↦ ground (arith, h.waits)
    ];
    agree = h.agree;
  }

  fresh-Once :
      (fp : F) (n call : ℕ) (k : F) (s : SpiderInfo F R)
      → s.downloaded k ≡ none
      → s.downloading k ≡ false
      → Once fp n s
      → Once fp (is_for fp k + n) (record s {
        waiting = updated k (s.waiting k ++ call ∷ []) s.waiting;
        downloading = updated k true s.downloading;
        started = k ∷ s.started;
      })
  fresh-Once fp n call k s d b h = record {
    counted = omega (arith, h.counted, waiting-length fp call k s);
    once = elim (Bool-cases (k == fp)) [
      | inl y ↦
          let same = (e.same_iff k fp).0 y in
          ground (arith, h.once, sym (ap s.downloading same) ∙ b, sym (ap s.downloaded same) ∙ d)
      | inr m ↦ ground (arith, h.once)
    ];
    apart = elim (Bool-cases (k == fp)) [
      | inl y ↦ inr (sym (ap s.downloaded ((e.same_iff k fp).0 y)) ∙ d)
      | inr m ↦ ground (arith, h.apart)
    ];
    waits = elim (Bool-cases (k == fp)) [
      | inl y ↦ inl (ground arith)
      | inr m ↦ ground (arith, h.waits)
    ];
    agree = h.agree;
  }

  process_request-Once :
      (fp : F) (n call : ℕ) (k : F) (s : SpiderInfo F R)
      → Once fp n s
      → Once fp (is_for fp k + n) (process_request call k s)
  unfolding process_request
  process_request-Once fp n call k s h = elim (Option-cases (s.downloaded k)) [
    | inr (r, d) ↦ rw (d, process_request) (cached-Once fp n call k r s d h)
    | inl d ↦ elim (Bool-cases (s.downloading k)) [
      | inl b ↦ rw (d, process_request) (rw b (waiting-Once fp n call k s b h))
      | inr b ↦ rw (d, process_request) (rw b (fresh-Once fp n call k s d b h))
    ]
  ]

  -- The number of answers for a file after those of a download.
  answers-total :
      (fp k : F) (r : R) (s : SpiderInfo F R)
      → answered fp (cache_result r k s)
        ≡ (if k == fp then length (s.waiting k) else 0) + answered fp s
  unfolding cache_result
  answers-total fp k r s =
      let new = map (λ call. (call, k, r)) (s.waiting k) in
      let sum = total-append (λ (a : ℕ × F × R). is_for fp a.1) new s.answers in
      omega (arith, sum, total-answers fp k r (s.waiting k))

  own_result-Once :
      (fp : F) (n : ℕ) (r : R) (s : SpiderInfo F R)
      → s.downloading fp ≡ true
      → Once fp n s
      → Once fp n (cache_result r fp s)
  unfolding cache_result
  own_result-Once fp n r s b h =
      let yes = (e.same_iff fp fp).1 refl in
      let none_yet : s.downloaded fp ≡ none = ground (arith, h.apart) in
      let cache = λ (j : F). if fp == j then some r else s.downloaded j in
      record {
        counted = ground (arith, h.counted, answers-total fp fp r s);
        once = ground (arith, h.once);
        apart = inl (ground arith);
        waits = inr (ground arith);
        agree =
            All-append (Agrees fp (cache fp)) (map (λ call. (call, fp, r)) (s.waiting fp)) s.answers
              (answers-agree fp (cache fp) fp r (s.waiting fp) (inr (ground arith)))
              (rw yes (
                agree-later fp r s.answers
                  (subst (λ o. All (Agrees fp o) s.answers) none_yet h.agree)));
      }

  other_result-Once :
      (fp : F) (n : ℕ) (k : F) (r : R) (s : SpiderInfo F R)
      → (k == fp) ≡ false
      → Once fp n s
      → Once fp n (cache_result r k s)
  unfolding cache_result
  other_result-Once fp n k r s m h =
      let cache = λ (j : F). if k == j then some r else s.downloaded j in
      record {
        counted = ground (arith, h.counted, answers-total fp k r s);
        once = ground (arith, h.once);
        apart = ground (arith, h.apart);
        waits = ground (arith, h.waits);
        agree =
            All-append (Agrees fp (cache fp)) (map (λ call. (call, k, r)) (s.waiting k)) s.answers
              (answers-agree fp (cache fp) k r (s.waiting k) (inl m)) (rw m h.agree);
      }

  cache_result-Once :
      (fp : F) (n : ℕ) (k : F) (r : R) (s : SpiderInfo F R)
      → s.downloading k ≡ true
      → Once fp n s
      → Once fp n (cache_result r k s)
  cache_result-Once fp n k r s b h = elim (Bool-cases (k == fp)) [
    | inl y ↦
        let same = (e.same_iff k fp).0 y in
        subst (λ x. Once fp n (cache_result r x s)) (sym same)
          (own_result-Once fp n r s (sym (ap s.downloading same) ∙ b) h)
    | inr m ↦ other_result-Once fp n k r s m h
  ]

  run-Once-from :
      (fp : F) (n : ℕ) (xs : List (Event F R)) (s s' : SpiderInfo F R)
      → run xs s ≡ some s'
      → Once fp n s
      → Once fp (calls fp xs + n) s'
  unfolding run step
  run-Once-from fp n [] s s' h w =
      let same : s ≡ s' = ground arith in
      let count : n ≡ 0 + n = omega arith in
      subst (λ m. Once fp m s') count (subst (Once fp n) same w)
  run-Once-from fp n (process call k ∷ xs) s s' h w =
      let count : calls fp xs + (is_for fp k + n) ≡ is_for fp k + calls fp xs + n = omega arith in
      subst (λ m. Once fp m s') count
        (run-Once-from fp (is_for fp k + n) xs (process_request call k s) s' (ground arith)
          (process_request-Once fp n call k s w))
  run-Once-from fp n (done k r ∷ xs) s s' h w =
      run-Once-from fp n xs (cache_result r k s) s' (ground arith)
        (cache_result-Once fp n k r s (ground arith) w)

  pub run-Once :
      (fp : F) (xs : List (Event F R)) (s : SpiderInfo F R)
      → run xs open_spider ≡ some s
      → Once fp (calls fp xs) s
  unfolding open_spider
  run-Once fp xs s h =
      let count : calls fp xs + 0 ≡ calls fp xs = omega arith in
      subst (λ m. Once fp m s) count
        (run-Once-from fp 0 xs open_spider s h
          (record { counted = refl; once = refl; apart = inl refl; waits = inr refl; agree = _ }))
