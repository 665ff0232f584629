-- ===== src/Depth/Laws.antt =====
-- The depth of requests along a path of links.
use scrapy.Prelude.{
  ℕ, ◌+◌, ◌≤◌, ◌≡◌, ◌⊎◌, refl, false, Option, none, some, List, [], ◌∷◌, arith, if◌then◌else◌, All,
}
use scrapy.Request.{Request}
use scrapy.Stats.{Stats}
use scrapy.Depth.{cons_some, DepthMiddleware, get_processed_request, process_output}

-- What a request that is passed on has become, one level below a response.
abbrev pub Below : DepthMiddleware → ℕ → Request → Type 0
Below m d r =
    (depth : ℕ) × (r.meta.depth ≡ some depth)
    × ((depth ≡ d + 1) ⊎ (depth ≡ 0))
    × ((m.maxdepth ≡ 0) ⊎ (depth ≤ m.maxdepth))
    × (r.meta.depth_reset ≡ false)

get_processed_request-Below :
    (m : DepthMiddleware) (d : ℕ) (r x : Request) (stats : Stats)
    → (get_processed_request m (some d) r stats).0 ≡ some x
    → Below m d x
unfolding get_processed_request
get_processed_request-Below m d r x stats h = (
  (if r.meta.depth_reset then 0 else d + 1),
  ground arith,
  ground arith,
  ground arith,
  ground arith,
)

All-cons_some :
    (P : Request → Type 0) (o : Option Request) (out : List Request)
    → ((x : Request) → o ≡ some x → P x)
    → All P out
    → All P (cons_some o out)
All-cons_some P none out f h = h
All-cons_some P (some x) out f h = (f x refl, h)

-- A request that is passed on is one level below the response that it comes from, or starts anew at
-- depth 0, and keeps within the limit if there is one.
pub process_output-Below :
    (m : DepthMiddleware) (d : ℕ) (rs : List Request) (stats : Stats)
    → All (Below m d) (process_output m (some d) rs stats).0
unfolding process_output
process_output-Below m d [] stats = tt
process_output-Below m d (r ∷ rs) stats =
    let stats' = (get_processed_request m (some d) r stats).1 in
    let rest = process_output-Below m d rs stats' in
    let o = (get_processed_request m (some d) r stats).0 in
    let out = (process_output m (some d) rs stats').0 in
    All-cons_some (Below m d) o out (λ x e. get_processed_request-Below m d r x stats e) rest
