-- ===== src/Media/Calls.antt =====
-- Each call of `_process_request` of pipelines/media.py has an answer or waits for one.
use scrapy.Prelude.{
  ℕ, ◌+◌, ◌≡◌, refl, sym, ap, ◌∙◌, false, ◌&&◌, some, List, [], ◌∷◌, ◌++◌, map, if◌then◌else◌,
  HasEq, ◌==◌, nat_eq, total, total-append, arith, inl, inr, Bool-cases, Option-cases, updated,
}
use scrapy.Media.{
  SpiderInfo, Event, process, done, open_spider, process_request, cache_result, step, run,
}
use scrapy.Media.Laws.{Once, calls, run-Once}

abbrev pub is_call : {F : Type 0} ⦃e : HasEq F⦄ → ℕ → F → ℕ → F → ℕ
is_call call fp c k = if c == call && k == fp then 1 else 0

others_lem :
    {F : Type 0} ⦃e : HasEq F⦄ (call : ℕ) (fp k : F) (cs : List ℕ)
    → (k == fp) ≡ false
    → total (λ c. is_call call fp c k) cs ≡ 0
others_lem call fp k [] n = refl
others_lem call fp k (c ∷ cs) n = ground (arith, n, others_lem call fp k cs n)

module _ {F R : Type 0} ⦃e : HasEq F⦄ where
  -- How often a run makes a call of this number for a file.
  abbrev pub asked : ℕ → F → List (Event F R) → ℕ
  asked call fp [] = 0
  asked call fp (process c k ∷ xs) = is_call call fp c k + asked call fp xs
  asked call fp (done k r ∷ xs) = asked call fp xs

  -- The answers that it has, and how often it waits.
  abbrev pub answers_of : ℕ → F → SpiderInfo F R → ℕ
  answers_of call fp s = total (λ (a : ℕ × F × R). is_call call fp a.0 a.1) s.answers

  abbrev pub waits_of : ℕ → F → SpiderInfo F R → ℕ
  waits_of call fp s = total (λ c. is_call call fp c fp) (s.waiting fp)

  module _ (call : ℕ) (fp : F) where
    new_wait :
        (c : ℕ) (k : F) (s : SpiderInfo F R)
        → total (λ x. is_call call fp x fp) (updated k (s.waiting k ++ c ∷ []) s.waiting fp)
          ≡ is_call call fp c k + waits_of call fp s
    new_wait c k s = elim (Bool-cases (k == fp)) [
      | inl y ↦
          let same = (e.same_iff k fp).0 y in
          let own = (e.same_iff fp fp).1 refl in
          ground (
            arith,
            own,
            total-append (λ x. is_call call fp x fp) (s.waiting k) (c ∷ []),
            ap (λ x. total (λ c'. is_call call fp c' fp) (s.waiting x)) same,
          )
      | inr n ↦ ground arith
    ]

    process_request-asked :
        (c : ℕ) (k : F) (s : SpiderInfo F R)
        → answers_of call fp (process_request c k s) + waits_of call fp (process_request c k s)
          ≡ is_call call fp c k + (answers_of call fp s + waits_of call fp s)
    unfolding process_request
    process_request-asked c k s = elim (Option-cases (s.downloaded k)) [
      | inr (r, d) ↦ rw (process_request, d) (omega arith)
      | inl d ↦ elim (Bool-cases (s.downloading k)) [
        | inl b ↦ rw (process_request, d) (rw b (omega (arith, new_wait c k s)))
        | inr b ↦ rw (process_request, d) (rw b (omega (arith, new_wait c k s)))
      ]
    ]

    given_lem :
        (k : F) (r : R) (cs : List ℕ)
        → total (λ (a : ℕ × F × R). is_call call fp a.0 a.1) (map (λ c. (c, k, r)) cs)
          ≡ total (λ c. is_call call fp c k) cs
    given_lem k r [] = refl
    given_lem k r (c ∷ cs) = ap (λ n. is_call call fp c k + n) (given_lem k r cs)

    cache_result-asked :
        (k : F) (r : R) (s : SpiderInfo F R)
        → answers_of call fp (cache_result r k s) + waits_of call fp (cache_result r k s)
          ≡ answers_of call fp s + waits_of call fp s
    unfolding cache_result
    cache_result-asked k r s =
        let given = given_lem k r (s.waiting k) in
        let sum =
          total-append (λ (a : ℕ × F × R). is_call call fp a.0 a.1)
            (map (λ c. (c, k, r)) (s.waiting k)) s.answers in
        elim (Bool-cases (k == fp)) [
          | inl y ↦
              let same = (e.same_iff k fp).0 y in
              let moved = ap (λ x. total (λ c. is_call call fp c x) (s.waiting x)) same in
              rw y (omega (arith, sum, given, moved))
          | inr n ↦ rw n (omega (arith, sum, given, others_lem call fp k (s.waiting k) n))
        ]

    run-asked :
        (xs : List (Event F R)) (s s' : SpiderInfo F R)
        → run xs s ≡ some s'
        → answers_of call fp s' + waits_of call fp s'
          ≡ asked call fp xs + (answers_of call fp s + waits_of call fp s)
    unfolding run step
    run-asked [] s s' h =
        let same : s ≡ s' = ground arith in
        ap (λ x. answers_of call fp x + waits_of call fp x) (sym same) ∙ omega arith
    run-asked (process c k ∷ xs) s s' h =
        let rest = run-asked xs (process_request c k s) s' (ground arith) in
        omega (arith, rest, process_request-asked c k s)
    run-asked (done k r ∷ xs) s s' h =
        let rest = run-asked xs (cache_result r k s) s' (ground arith) in
        omega (arith, rest, cache_result-asked k r s)

  -- After any run from the start, for each file: its download was begun at most once; each call for
  -- it has as many answers and waits as it was made, and none waits unless the download is running;
  -- and every answer is the result that the download had.
  pub run-Served :
      (fp : F) (xs : List (Event F R)) (s : SpiderInfo F R)
      → run xs open_spider ≡ some s
      → Once fp (calls fp xs) s
        × ((call : ℕ) → asked call fp xs ≡ answers_of call fp s + waits_of call fp s)
  unfolding open_spider
  run-Served fp xs s h =
      (run-Once fp xs s h, λ call. omega (arith, run-asked call fp xs open_spider s h))
