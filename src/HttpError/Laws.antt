-- ===== src/HttpError/Laws.antt =====
-- Which responses reach the spider.
use scrapy.Prelude.{
  ℕ, ◌≡◌, ◌≤◌, ◌<◌, ◌↔◌, true, ◌&&◌, none, some, List, contains, leb, ltb, nat_eq, arith, get_or,
  Bool-cases, Option-cases, inl, inr,
}
use scrapy.Request.{Meta}
use scrapy.Response.{Response}
use scrapy.HttpError.{HttpErrorMiddleware, process_spider_input}

-- The reasons to let a response pass, in the order of their precedence.
pub data Allowed (m : HttpErrorMiddleware) (meta : Meta) (p : Response) : Type 0 where
  success : (200 ≤ p.status) → (p.status < 300) → Allowed m meta p
  all_by_meta : meta.handle_httpstatus_all ≡ true → Allowed m meta p
  by_meta :
      (l : List ℕ)
      → meta.handle_httpstatus_list ≡ some l
      → contains p.status l ≡ true
      → Allowed m meta p
  all_by_setting :
      meta.handle_httpstatus_list ≡ none → m.handle_httpstatus_all ≡ true → Allowed m meta p
  by_list :
      meta.handle_httpstatus_list ≡ none
      → contains p.status (get_or m.spider_list m.handle_httpstatus_list) ≡ true
      → Allowed m meta p

-- Every response that is allowed passes.
Allowed-passes :
    (m : HttpErrorMiddleware) (meta : Meta) (p : Response)
    → Allowed m meta p
    → process_spider_input m meta p ≡ true
unfolding process_spider_input
Allowed-passes m meta p (success a b) = ground arith
Allowed-passes m meta p (all_by_meta a) = ground arith
Allowed-passes m meta p (by_meta l a b) = ground arith
Allowed-passes m meta p (all_by_setting a b) = ground arith
Allowed-passes m meta p (by_list a b) = ground arith

passes-Allowed :
    (m : HttpErrorMiddleware) (meta : Meta) (p : Response)
    → process_spider_input m meta p ≡ true
    → Allowed m meta p
unfolding process_spider_input
passes-Allowed m meta p h = elim (Bool-cases (leb 200 p.status && ltb p.status 300)) [
  | inl y ↦ success (ground arith) (ground arith)
  | inr n ↦ elim (Bool-cases meta.handle_httpstatus_all) [
    | inl y ↦ all_by_meta y
    | inr k ↦ elim (Option-cases meta.handle_httpstatus_list) [
      | inr (l, e) ↦ by_meta l e (ground arith)
      | inl e ↦ elim (Bool-cases m.handle_httpstatus_all) [
        | inl y ↦ all_by_setting e y
        | inr q ↦ by_list e (ground arith)
      ]
    ]
  ]
]

-- A response reaches the spider exactly if it is a success, or its request allows all statuses or
-- lists this one, or, where the request lists none, the setting allows all, or the spider's list,
-- or without one the setting's list, has the status.
pub process_spider_input_lem :
    (m : HttpErrorMiddleware) (meta : Meta) (p : Response)
    → (process_spider_input m meta p ≡ true) ↔ Allowed m meta p
process_spider_input_lem m meta p = (passes-Allowed m meta p, Allowed-passes m meta p)
