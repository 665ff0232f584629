-- ===== src/Middleware/Laws.antt =====
-- The order in which middlewares see a request and its response.
use scrapy.Prelude.{
  ◌≡◌, refl, ap, sym, ◌∙◌, Option, none, some, List, [], ◌∷◌, ◌++◌, append_assoc, append-nil,
}
use scrapy.Request.{Request}
use scrapy.Middleware.{
  Result, done, raised, RequestMethod, ResponseMethod, ExceptionMethod, Download, Middleware,
  Methods, append_some, prepend_some, add_middleware, add_middlewares, process_request, nothing,
  outcome, other, exception,
}

module _ {ℓ} {A : Type ℓ} where
  append-append_some :
      (xs : List A) (o : Option A) (ys : List A) → append_some xs o ++ ys ≡ xs ++ prepend_some o ys
  append-append_some xs none ys = refl
  append-append_some xs (some x) ys = append_assoc xs (x ∷ []) ys

module _ {W E : Type 0} where
  -- The methods of the middlewares, in the order of the middlewares and in the reverse order.
  abbrev pub requests_of : List (Middleware W E) → List (RequestMethod W E)
  requests_of [] = []
  requests_of (mw ∷ mws) = prepend_some mw.process_request (requests_of mws)

  abbrev pub responses_of : List (Middleware W E) → List (ResponseMethod W E)
  responses_of [] = []
  responses_of (mw ∷ mws) = append_some (responses_of mws) mw.process_response

  abbrev pub exceptions_of : List (Middleware W E) → List (ExceptionMethod W E)
  exceptions_of [] = []
  exceptions_of (mw ∷ mws) = append_some (exceptions_of mws) mw.process_exception

  -- With middlewares that are already there, the new ones see requests after them, in their order,
  -- and responses and exceptions before them, in the reverse order.
  pub add_middlewares_lem :
      (mws : List (Middleware W E)) (ms : Methods W E)
      → ((add_middlewares mws ms).process_request ≡ ms.process_request ++ requests_of mws)
        × ((add_middlewares mws ms).process_response ≡ responses_of mws ++ ms.process_response)
        × ((add_middlewares mws ms).process_exception ≡ exceptions_of mws ++ ms.process_exception)
  unfolding add_middlewares add_middleware
  add_middlewares_lem [] ms = (sym (append-nil ms.process_request), refl, refl)
  add_middlewares_lem (mw ∷ mws) ms =
      let (a, b, c) = add_middlewares_lem mws (add_middleware mw ms) in
      (
        a ∙ append-append_some ms.process_request mw.process_request (requests_of mws),
        b ∙ sym (append-append_some (responses_of mws) mw.process_response ms.process_response),
        c ∙ sym (append-append_some (exceptions_of mws) mw.process_exception ms.process_exception),
      )

  module _ (invalid_output : E) where
    -- The middlewares wrap the download in layers: a chain of methods behaves like its first part
    -- around a download that is the second part around the download.
    pub process_request-append :
        (fs gs : List (RequestMethod W E)) (download : Download W E) (r : Request) (w : W)
        → process_request invalid_output (fs ++ gs) download r w
          ≡ process_request invalid_output fs (process_request invalid_output gs download) r w
    unfolding process_request
    process_request-append [] gs download r w = refl
    process_request-append (f ∷ fs) gs download r w =
        ap
          (λ rest. elim (f r w).0 as (λ _. Result E × W) [
            | nothing ↦ rest
            | outcome x ↦ (done x, (f r w).1)
            | other ↦ (raised invalid_output, (f r w).1)
            | exception e ↦ (raised e, (f r w).1)
          ])
          (process_request-append fs gs download r (f r w).1)
