-- ===== src/Depth.antt =====
-- spidermiddlewares/depth.py: DepthMiddleware, and the loop over the spider's output that it takes
-- from spidermiddlewares/base.py, for requests. A DEPTH_LIMIT of 0 is no limit.
pub mod Laws
mod Tests
use Prim.Native.String.{◌++◌ as append, slice}
use scrapy.Prelude.{
  ℕ, zero, suc, ◌+◌, ◌/◌, ◌%◌, Bool, true, false, not, ◌&&◌, Option, none, some, List, [], ◌∷◌,
  String, get_or, is_some, ltb, nat_beq, if◌then◌else◌,
}
use scrapy.Prelude.Int.{ℤ, ◌-ℤ◌, ◌*ℤ◌}
use scrapy.Request.{Request}
use scrapy.Stats.{Stats, inc, max_value}

-- A decimal digit.
abbrev pub digit : ℕ → String
digit n = slice "0123456789" n (n + 1)

-- The decimal digits of a number, with fuel; a number below its fuel has enough.
unfoldable pub digits : ℕ → ℕ → String
digits zero n = ""
digits (suc fuel) n =
    let front = digits fuel (n / 10) in append (if ltb n 10 then "" else front) (digit (n % 10))

pub record DepthMiddleware : Type 0 where
  pub maxdepth : ℕ
  pub verbose_stats : Bool
  pub prio : ℤ

abbrev pub depth_count : ℕ → String
depth_count depth = append "request_depth_count/" (digits (suc depth) depth)

-- _init_depth: the depth of the request of the response, after it has been set, and the stats
unfoldable pub init_depth : DepthMiddleware → Option ℕ → Stats → ℕ × Stats
init_depth m (some depth) stats = (depth, stats)
init_depth m none stats = (0, if m.verbose_stats then inc "request_depth_count/0" stats else stats)

-- get_processed_request; the depth of the response is absent for a start request, and `none` in
-- the result is a request that is dropped.
unfoldable pub get_processed_request :
    DepthMiddleware → Option ℕ → Request → Stats → Option Request × Stats
get_processed_request m response_depth r stats =
    let r0 = record r { meta = record (r.meta) { depth_reset = false } } in
    elim response_depth [
      | none ↦ (some r0, stats)
      | some d ↦
          let depth = if r.meta.depth_reset then 0 else d + 1 in
          let r1 = record r0 {
            meta = record (r0.meta) { depth = some depth };
            priority = r.priority -ℤ depth *ℤ m.prio;
          } in
          if ltb 0 m.maxdepth && ltb m.maxdepth depth
          then (none, inc "depth/request_ignored_count" stats)
          else (
            some r1,
            max_value "request_depth_max" depth
                (if m.verbose_stats then inc (depth_count depth) stats else stats),
          )
    ]

-- `if (o := ...) is not None: yield o`
abbrev pub cons_some : Option Request → List Request → List Request
cons_some none out = out
cons_some (some x) out = x ∷ out

-- The requests of the output that are passed on.
unfoldable pub process_output :
    DepthMiddleware → Option ℕ → List Request → Stats → List Request × Stats
unfolding get_processed_request
process_output m d [] stats = ([], stats)
process_output m d (r ∷ rs) stats =
    let (o, stats') = get_processed_request m d r stats in
    let (out, end) = process_output m d rs stats' in (cons_some o out, end)

-- process_spider_output: `response_depth` is `response.meta.get("depth")`, if there is a response
unfoldable pub process_spider_output :
    DepthMiddleware → Option (Option ℕ) → List Request → Stats → List Request × Stats
unfolding process_output
process_spider_output m none rs stats = process_output m none rs stats
process_spider_output m (some response_depth) rs stats =
    let (d, stats') = init_depth m response_depth stats in process_output m (some d) rs stats'
