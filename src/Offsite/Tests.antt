-- ===== src/Offsite/Tests.antt =====
-- Requests of a spider with one allowed domain, "a.b".
use scrapy.Prelude.{ℕ, ◌≡◌, ◌↔◌, refl, true, false, some, List, [], ◌∷◌, contains}
use scrapy.Headers.{bytes_eq}
use scrapy.Offsite.{Request, escape, alternatives, get_host_regex, search, run}
use scrapy.Offsite.Regex.{dots, matches, search_from, search_in}
use scrapy.Offsite.Search.{IsWithin, search_iff}
use scrapy.Offsite.Laws.{Counts, filtered, filtered_hosts, run-Counts}

abbrev domain : List ℕ
domain = b'a' ∷ b'.' ∷ b'b' ∷ []

abbrev to : List ℕ → List (List ℕ) × Request
to host = (domain ∷ [], record { dont_filter = false; allow_offsite = false; hostname = some host })

-- "w.a.b", which is below the domain; "wa.b", twice; and "b".
abbrev requests : List (List (List ℕ) × Request)
requests = to (b'w' ∷ b'.' ∷ domain) ∷ to (b'w' ∷ domain) ∷ to (b'w' ∷ domain) ∷ to (b'b' ∷ []) ∷ []

three : filtered requests ≡ 3
unfolding search get_host_regex escape alternatives search_in search_from matches dots
three = refl

run-Counts_example :
    Counts
      (filtered requests)
      (filtered_hosts requests)
      (run requests (record { stats = []; domains_seen = []; allowed_domains = [] }))
run-Counts_example = run-Counts requests

search_iff_example :
    (search (domain ∷ []) (b'w' ∷ domain) ≡ true)
    ↔ ((d : List ℕ) × (contains d (domain ∷ []) ≡ true) × IsWithin d (b'w' ∷ domain))
search_iff_example = search_iff domain [] (b'w' ∷ domain) refl
