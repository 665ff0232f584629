-- ===== src/SpiderMiddleware/Tests.antt =====
-- Two middlewares on numbers: one doubles them, the other gives a number for an exception.
use scrapy.Prelude.{ℕ, ◌+◌, ◌≡◌, refl, Bool, false, none, some, [], ◌∷◌, map, String}
use scrapy.SpiderMiddleware.{
  Stream, Answer, handled, Middleware, process_callback_output, process_spider_output,
  handlers_from, exception_round, output_round, evaluate_iterable,
}
use scrapy.SpiderMiddleware.Laws.{composed, process_callback_output-composed}

abbrev doubles : Middleware ℕ String
doubles = record {
  process_spider_output = some (λ s. record s { items = map (λ n. n + n) s.items });
  process_spider_exception = none;
}

abbrev recovers : Middleware ℕ String
recovers = record {
  process_spider_output = none;
  process_spider_exception = some (λ ex. handled (record { items = 7 ∷ []; ending = none }));
}

abbrev not_invalid : String → Bool
not_invalid ex = false

-- An output that ends with an exception.
abbrev broken : Stream ℕ String
broken = record { items = 1 ∷ []; ending = some "error" }

process_callback_output-composed_example :
    process_callback_output "invalid" not_invalid (doubles ∷ doubles ∷ []) broken
    ≡ composed (doubles ∷ doubles ∷ []) broken
process_callback_output-composed_example =
    process_callback_output-composed "invalid" not_invalid (doubles ∷ doubles ∷ []) broken
      (λ ex. (_, (_, _)))

abbrev answer : Stream ℕ String
answer = record { items = 7 ∷ []; ending = none }

abbrev answers : String → Answer ℕ String
answers ex = handled answer

recovered :
    process_callback_output "invalid" not_invalid (recovers ∷ doubles ∷ []) broken
    ≡ record { items = 2 ∷ 14 ∷ []; ending = none }
unfolding process_callback_output process_spider_output handlers_from exception_round output_round
    evaluate_iterable
recovered = refl
