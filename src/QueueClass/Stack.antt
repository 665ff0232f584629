-- ===== src/QueueClass/Stack.antt =====
-- A downstream queue for tests: a stack that cannot store a request with an empty url.
use text.Mathlib.Text.{◌==◌ as str_eq}
use scrapy.Prelude.{
  ◌+◌, ◌≡◌, refl, Option, none, some, [], ◌∷◌, List, arith, length, total, if◌then◌else◌, ℕ,
}
use scrapy.Request.{Request}
use scrapy.QueueClass.{QueueClass}

unfoldable pub push_stack : Request → List Request → Option (List Request)
push_stack r q = if str_eq r.url "" then none else some (r ∷ q)

unfoldable pub pop_stack : List Request → Option Request × List Request
pop_stack [] = (none, [])
pop_stack (r ∷ q) = (some r, q)

unfoldable pub peek_stack : List Request → Option Request
peek_stack [] = none
peek_stack (r ∷ q) = some r

pub push_stack_law :
    (r : Request) (q q' : List Request)
    → push_stack r q ≡ some q'
    → (w : Request → ℕ) → total w q' ≡ w r + total w q
unfolding push_stack
push_stack_law r q q' h w = ground arith

pub pop_stack_law :
    (q : List Request) (r : Request) (rs : List Request)
    → q ≡ r ∷ rs
    → ((pop_stack q).0 ≡ some r) × ((pop_stack q).1 ≡ rs)
unfolding pop_stack
pop_stack_law q r rs e = (ground arith, ground arith)

pub pop_stack_empty : (q : List Request) → q ≡ [] → pop_stack q ≡ (none, q)
unfolding pop_stack
pop_stack_empty [] e = refl
pop_stack_empty (r ∷ q) e = absurd (ground arith)

pub peek_stack_law :
    (q : List Request) (r : Request) (rs : List Request) → q ≡ r ∷ rs → peek_stack q ≡ some r
unfolding peek_stack
peek_stack_law q r rs e = ground arith

pub peek_stack_empty : (q : List Request) → q ≡ [] → peek_stack q ≡ none
unfolding peek_stack
peek_stack_empty q e = ground arith

abbrev pub stack : QueueClass
stack = record {
  Q = List Request;
  fresh = [];
  push = push_stack;
  pop = pop_stack;
  peek = peek_stack;
  size = length;
  items = λ q. q;
  size_law = λ q. refl;
  fresh_law = refl;
  push_law = push_stack_law;
  pop_empty = pop_stack_empty;
  pop_law = pop_stack_law;
  peek_law = peek_stack_law;
  peek_empty = peek_stack_empty;
}
