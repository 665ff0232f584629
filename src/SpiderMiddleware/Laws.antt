-- ===== src/SpiderMiddleware/Laws.antt =====
-- Where output and exceptions go.
use mathlib.Core.Path.{subst}
use scrapy.Prelude.{
  ◌≡◌, refl, Bool, false, Option, none, some, List, [], ◌∷◌, ◌++◌, All, arith, inl, inr,
  Option-cases, append-nil,
}
use scrapy.SpiderMiddleware.{
  Stream, Answer, nothing, handled, Middleware, chain, raised, empty, joined, evaluate_iterable,
  exception_round, output_round, handlers_from, process_spider_exception, process_spider_output,
  process_callback_output,
}

module _ {A E : Type 0} where
  -- The methods for the output, one after the other.
  abbrev pub composed : List (Middleware A E) → Stream A E → Stream A E
  composed [] s = s
  composed (mw ∷ mws) s = elim mw.process_spider_output [
    | none ↦ composed mws s
    | some method ↦ composed mws (method s)
  ]

  abbrev pub SilentMethod : E → Option (E → Answer A E) → Type 0
  SilentMethod ex none = Unit {0}
  SilentMethod ex (some method) = method ex ≡ nothing

  -- The middleware does not handle an exception: it has no method for it, or that returns None.
  abbrev pub Silent : E → Middleware A E → Type 0
  Silent ex mw = SilentMethod ex mw.process_spider_exception

  Silent-answer :
      (ex : E) (mw : Middleware A E) (method : E → Answer A E)
      → mw.process_spider_exception ≡ some method
      → Silent ex mw
      → method ex ≡ nothing
  Silent-answer ex mw method e h = subst (SilentMethod ex) e h

  joined-empty : (s : Stream A E) → joined s empty ≡ s
  joined-empty s = elim (Option-cases s.ending) [
    | inl e ↦ ground (arith, append-nil s.items)
    | inr (ex, e) ↦ ground arith
  ]

  module _ (invalid_output : E) (is_invalid : E → Bool) where
    silent_lem :
        (mws : List (Middleware A E)) (ex : E)
        → All (Silent ex) mws
        → (handlers_from invalid_output is_invalid mws).on_exception ex ≡ raised ex
    unfolding handlers_from exception_round
    silent_lem [] ex h = refl
    silent_lem (mw ∷ mws) ex (h, hs) = elim (Option-cases mw.process_spider_exception) [
      | inl e ↦ ground (arith, silent_lem mws ex hs)
      | inr (method, e) ↦ ground (arith, silent_lem mws ex hs, Silent-answer ex mw method e h)
    ]

    -- No middleware handles any exception.
    abbrev pub AllSilent : List (Middleware A E) → Type 0
    AllSilent mws = (ex : E) → All (Silent ex) mws

    evaluate_silent :
        (mws : List (Middleware A E)) (s : Stream A E)
        → AllSilent mws
        → evaluate_iterable (handlers_from invalid_output is_invalid mws) s ≡ (s, empty)
    unfolding evaluate_iterable
    evaluate_silent mws s h = elim (Option-cases s.ending) [
      | inl e ↦ ground arith
      | inr (ex, e) ↦ ground (arith, silent_lem mws ex (h ex))
    ]

    output_silent :
        (mws : List (Middleware A E)) (s : Stream A E)
        → AllSilent mws
        → (handlers_from invalid_output is_invalid mws).on_output s empty ≡ composed mws s
    unfolding handlers_from output_round
    output_silent [] s h = joined-empty s
    output_silent (mw ∷ mws) s h =
        let hs : AllSilent mws = λ ex. (h ex).1 in
        elim (Option-cases mw.process_spider_output) [
          | inl e ↦ ground (arith, output_silent mws s hs)
          | inr (method, e) ↦
              ground (arith, evaluate_silent mws (method s) hs, output_silent mws (method s) hs)
        ]

    -- Where no middleware handles exceptions, the output of a callback goes through the methods for
    -- the output, one after the other, and nothing else is done to it; an exception that ends it ends
    -- what the methods get.
    pub process_callback_output-composed :
        (mws : List (Middleware A E)) (s : Stream A E)
        → AllSilent mws
        → process_callback_output invalid_output is_invalid mws s ≡ composed mws s
    unfolding process_callback_output process_spider_output
    process_callback_output-composed mws s h =
        ground
          (arith, evaluate_silent mws s h, output_silent mws s h, joined-empty (composed mws s))

    -- An exception that is not of the type for wrong answers goes to the first middleware that handles
    -- it. What that gives goes through the chains of the later middlewares only.
    pub process_spider_exception-first :
        (earlier later : List (Middleware A E)) (mw : Middleware A E) (method : E → Answer A E)
        (ex : E) (s : Stream A E)
        → is_invalid ex ≡ false
        → All (Silent ex) earlier
        → mw.process_spider_exception ≡ some method
        → method ex ≡ handled s
        → process_spider_exception invalid_output is_invalid (earlier ++ mw ∷ later) ex
          ≡ chain (process_spider_output invalid_output is_invalid later s)
    unfolding process_spider_exception process_spider_output handlers_from exception_round
    process_spider_exception-first [] later mw method ex s i h e k = ground arith
    process_spider_exception-first (m ∷ earlier) later mw method ex s i (h, hs) e k =
        let rest = process_spider_exception-first earlier later mw method ex s i hs e k in
        elim (Option-cases m.process_spider_exception) [
          | inl n ↦ ground (arith, rest)
          | inr (f, n) ↦ ground (arith, rest, Silent-answer ex m f n h)
        ]
