-- ===== src/Middleware.antt =====
-- core/downloader/middleware.py: DownloaderMiddlewareManager. `W` is the state that the methods of
-- the middlewares read and change, `E` the exceptions. Waiting is left out: the methods of one
-- request run one after the other.
pub mod Laws
mod Tests
use scrapy.Prelude.{Option, none, some, List, [], ◌∷◌, ◌++◌}
use scrapy.Request.{Request}
use scrapy.Response.{Response, Outcome, response, request}

-- What a method does: it returns None, a response or a request, or something else, or raises.
pub data Answer (E : Type 0) : Type 0 where
  nothing : Answer E
  outcome : Outcome Request → Answer E
  other : Answer E
  exception : E → Answer E

pub data Result (E : Type 0) : Type 0 where
  done : Outcome Request → Result E
  raised : E → Result E

module _ (W E : Type 0) where
  abbrev pub RequestMethod : Type 0
  RequestMethod = Request → W → Answer E × W

  abbrev pub ResponseMethod : Type 0
  ResponseMethod = Request → Response → W → Answer E × W

  abbrev pub ExceptionMethod : Type 0
  ExceptionMethod = Request → E → W → Answer E × W

  abbrev pub Download : Type 0
  Download = Request → W → Result E × W

  -- A middleware, with the methods that it has.
  pub record Middleware : Type 0 where
    pub process_request : Option RequestMethod
    pub process_response : Option ResponseMethod
    pub process_exception : Option ExceptionMethod

  -- `self.methods`
  pub record Methods : Type 0 where
    pub process_request : List RequestMethod
    pub process_response : List ResponseMethod
    pub process_exception : List ExceptionMethod

module _ {ℓ} {A : Type ℓ} where
  abbrev pub append_some : List A → Option A → List A
  append_some xs none = xs
  append_some xs (some x) = xs ++ x ∷ []

  -- `appendleft`, where there is something to append
  abbrev pub prepend_some : Option A → List A → List A
  prepend_some none xs = xs
  prepend_some (some x) xs = x ∷ xs

module _ {W E : Type 0} where
  -- _add_middleware
  unfoldable pub add_middleware : Middleware W E → Methods W E → Methods W E
  add_middleware mw ms = record {
    process_request = append_some ms.process_request mw.process_request;
    process_response = prepend_some mw.process_response ms.process_response;
    process_exception = prepend_some mw.process_exception ms.process_exception;
  }

  -- The loop over the middlewares in the constructor of MiddlewareManager.
  unfoldable pub add_middlewares : List (Middleware W E) → Methods W E → Methods W E
  unfolding add_middleware
  add_middlewares [] ms = ms
  add_middlewares (mw ∷ mws) ms = add_middlewares mws (add_middleware mw ms)

  -- `invalid_output` is the exception for an answer of a wrong type.
  module _ (invalid_output : E) where
    -- _process_request
    unfoldable pub process_request : List (RequestMethod W E) → Download W E → Download W E
    process_request [] download r w = download r w
    process_request (f ∷ fs) download r w =
        let (o, w') = f r w in
        let rest = process_request fs download r w' in
        elim o [
          | nothing ↦ rest
          | outcome x ↦ (done x, w')
          | other ↦ (raised invalid_output, w')
          | exception e ↦ (raised e, w')
        ]

    -- The loop of _process_response; None is an answer of a wrong type there.
    unfoldable pub process_responses :
        List (ResponseMethod W E) → Request → Response → W → Result E × W
    process_responses [] r p w = (done (response p), w)
    process_responses (f ∷ fs) r p w =
        let (o, w') = f r p w in
        elim o [
          | nothing ↦ (raised invalid_output, w')
          | outcome x ↦ elim x [
            | response q ↦ process_responses fs r q w'
            | request y ↦ (done (request y), w')
          ]
          | other ↦ (raised invalid_output, w')
          | exception e ↦ (raised e, w')
        ]

    -- _process_response: a request is handed on at once.
    unfoldable pub process_response :
        List (ResponseMethod W E) → Request → Outcome Request → W → Result E × W
    unfolding process_responses
    process_response fs r (request y) w = (done (request y), w)
    process_response fs r (response p) w = process_responses fs r p w

    -- _process_exception
    unfoldable pub process_exception : List (ExceptionMethod W E) → Request → E → W → Result E × W
    process_exception [] r e w = (raised e, w)
    process_exception (f ∷ fs) r e w =
        let (o, w') = f r e w in
        let rest = process_exception fs r e w' in
        elim o [
          | nothing ↦ rest
          | outcome x ↦ (done x, w')
          | other ↦ (raised invalid_output, w')
          | exception e' ↦ (raised e', w')
        ]

    -- download_async
    unfoldable pub download_async : Methods W E → Download W E → Download W E
    unfolding process_request process_response process_exception
    download_async ms download r w =
        let (o, w') = process_request ms.process_request download r w in
        let (o', w'') = elim o as (λ _. Result E × W) [
          | done x ↦ (done x, w')
          | raised e ↦ process_exception ms.process_exception r e w'
        ] in
        elim o' [
          | done x ↦ process_response ms.process_response r x w''
          | raised e ↦ (raised e, w'')
        ]
