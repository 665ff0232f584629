-- ===== src/SpiderMiddleware.antt =====
-- core/spidermw.py: SpiderMiddlewareManager, the chains for the output of a callback and for its
-- exceptions. An asynchronous iterator is the items that it gives and the exception that may end it;
-- the methods of middlewares that make one are generators, which raise only when they are iterated.
-- Waiting, and the state that the methods may share, are left out.
pub mod Laws
mod Tests
use scrapy.Middleware.{append_some}
use scrapy.Prelude.{Bool, true, false, Option, none, some, List, [], ◌∷◌, ◌++◌, if◌then◌else◌}

module _ (A E : Type 0) where
  pub record Stream : Type 0 where
    pub items : List A
    pub ending : Option E

  -- What a method for exceptions does: it returns None, an iterable or something else, or raises.
  pub data Answer : Type 0 where
    nothing : Answer
    handled : Stream → Answer
    other : Answer
    exception : E → Answer

  -- The methods of a middleware, which have the same index in the lists of `self.methods`.
  pub record Middleware : Type 0 where
    pub process_spider_output : Option (Stream → Stream)
    pub process_spider_exception : Option (E → Answer)

  -- A method returns a chain of iterators, or raises.
  pub data Result : Type 0 where
    chain : Stream → Result
    raised : E → Result

  -- The two chains from an index on.
  pub record Handlers : Type 0 where
    pub on_exception : E → Result
    -- of an iterator and of what was recovered before
    pub on_output : Stream → Stream → Stream

  -- What a method for the input does: it returns None or something else, or raises.
  pub data InputAnswer : Type 0 where
    accepted : InputAnswer
    wrong : InputAnswer
    refused : E → InputAnswer

  -- What the callback or the errback gets.
  pub data Input : Type 0 where
    response : Input
    failure : E → Input

  -- `self.methods`: the methods for the input, and the others, which are the middlewares here
  pub record Methods : Type 0 where
    pub process_spider_input : List InputAnswer
    pub middlewares : List Middleware

module _ {A E : Type 0} where
  -- _add_middleware, of the method for the input and the two others
  unfoldable pub add_middleware :
      Option (InputAnswer A E) → Middleware A E → Methods A E → Methods A E
  add_middleware input mw ms = record {
    process_spider_input = append_some ms.process_spider_input input;
    middlewares = mw ∷ ms.middlewares;
  }

  abbrev pub empty : Stream A E
  empty = record { items = []; ending = none }

  -- MutableAsyncChain of two iterators
  abbrev pub joined : Stream A E → Stream A E → Stream A E
  joined s t = elim s.ending [
    | none ↦ record { items = s.items ++ t.items; ending = t.ending }
    | some ex ↦ s
  ]

  -- _evaluate_iterable: what it gives, and what `recover_to` is extended by; the handlers are those
  -- from the index on.
  unfoldable pub evaluate_iterable : Handlers A E → Stream A E → Stream A E × Stream A E
  evaluate_iterable handlers s = elim s.ending [
    | none ↦ (s, empty)
    | some ex ↦ elim (handlers.on_exception ex) [
      | chain t ↦ (record s { ending = none }, t)
      | raised ex' ↦ (record s { ending = some ex' }, empty)
    ]
  ]

  -- `invalid_output` is the exception for an answer of a wrong type, and `is_invalid` tells whether an
  -- exception is one.
  module _ (invalid_output : E) (is_invalid : E → Bool) where
    -- One round of the loop of _process_spider_exception; `rest` stands for the later rounds.
    unfoldable pub exception_round : Middleware A E → Handlers A E → E → Result A E
    exception_round mw rest ex = elim mw.process_spider_exception [
      | none ↦ rest.on_exception ex
      | some method ↦ elim (method ex) [
        | nothing ↦ rest.on_exception ex
        | handled s ↦ chain (rest.on_output s empty)
        | other ↦ raised invalid_output
        | exception ex' ↦ raised ex'
      ]
    ]

    -- One round of the loop of _process_spider_output.
    unfoldable pub output_round :
        Middleware A E → Handlers A E → Stream A E → Stream A E → Stream A E
    output_round mw rest s recovered = elim mw.process_spider_output [
      | none ↦ rest.on_output s recovered
      | some method ↦
          let (t, more) = evaluate_iterable rest (method s) in
          rest.on_output t (joined recovered more)
    ]

    -- The loops, from an index on: with no round left the exception is raised again, or the iterator
    -- and what was recovered are chained.
    unfoldable pub handlers_from : List (Middleware A E) → Handlers A E
    unfolding exception_round output_round
    handlers_from [] = record { on_exception = λ ex. raised ex; on_output = joined }
    handlers_from (mw ∷ mws) =
        let rest = handlers_from mws in
        record {
          on_exception = λ ex. if is_invalid ex then raised ex else exception_round mw rest ex;
          on_output = output_round mw rest;
        }

    -- _process_spider_exception, from the first middleware on
    unfoldable pub process_spider_exception : List (Middleware A E) → E → Result A E
    process_spider_exception mws ex = (handlers_from mws).on_exception ex

    -- _process_spider_output, from the first middleware on
    unfoldable pub process_spider_output : List (Middleware A E) → Stream A E → Stream A E
    process_spider_output mws s = (handlers_from mws).on_output s empty

    -- _process_callback_output
    unfoldable pub process_callback_output : List (Middleware A E) → Stream A E → Stream A E
    unfolding process_spider_output
    process_callback_output mws s =
        let (t, recovered) = evaluate_iterable (handlers_from mws) s in
        joined (process_spider_output mws t) recovered

    -- _process_spider_input; the methods are given by what they do with the response.
    unfoldable pub process_spider_input :
        List (InputAnswer A E) → (Input A E → Result A E) → Result A E
    process_spider_input [] scrape_func = scrape_func response
    process_spider_input (accepted ∷ methods) scrape_func = process_spider_input methods scrape_func
    process_spider_input (wrong ∷ methods) scrape_func = raised invalid_output
    process_spider_input (refused ex ∷ methods) scrape_func =
        if is_invalid ex then raised ex else scrape_func (failure ex)

    -- scrape_response_async
    unfoldable pub scrape_response : Methods A E → (Input A E → Result A E) → Result A E
    unfolding process_spider_input process_callback_output process_spider_exception
    scrape_response ms scrape_func =
        elim (process_spider_input ms.process_spider_input scrape_func) [
          | chain s ↦ chain (process_callback_output ms.middlewares s)
          | raised ex ↦ process_spider_exception ms.middlewares ex
        ]
