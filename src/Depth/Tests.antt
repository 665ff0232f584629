-- ===== src/Depth/Tests.antt =====
-- Runs of the depth middleware.
use scrapy.Prelude.{true, [], ◌∷◌, List, ◌≡◌, refl}
use scrapy.Prelude.Int.{pos}
use scrapy.Request.{Request, new_request}
use scrapy.Depth.{DepthMiddleware, digits}

abbrev two_levels : DepthMiddleware
two_levels = record { maxdepth = 2; verbose_stats = true; prio = pos 1 }

abbrev links : List Request
links = new_request "http://a" ∷ new_request "http://b" ∷ []

digits-120 : digits 121 120 ≡ "120"
unfolding digits
digits-120 = refl
