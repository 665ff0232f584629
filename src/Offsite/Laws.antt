-- ===== src/Offsite/Laws.antt =====
-- What the offsite middleware counts, and which hosts it lets through.
use mathlib.Core.Path.{subst}
use scrapy.Prelude.{
  ℕ, ◌+◌, ◌≡◌, refl, sym, ap, ◌∙◌, Bool, false, ◌||◌, none, some, List, [], ◌∷◌, ◌++◌,
  if◌then◌else◌, ◌==◌, get_or, contains, length, arith, Option-cases, append-nil, append_assoc,
  Bool-cases, inl, inr,
}
use scrapy.Headers.{bytes_eq, bytes_beq_iff}
use scrapy.Dict.{get}
use scrapy.Stats.{counter, get_value}
use scrapy.Stats.Laws.{counter-inc}
use scrapy.Offsite.{
  Request, OffsiteMiddleware, search, update_host_regex, should_follow, see, process_request, run,
}

-- Whether a request goes on.
abbrev pub passes : List (List ℕ) → Request → Bool
passes domains r = r.dont_filter || r.allow_offsite || search domains (get_or r.hostname [])

abbrev pub filtered : List (List (List ℕ) × Request) → ℕ
filtered [] = 0
filtered ((domains, r) ∷ rs) = (if passes domains r then 0 else 1) + filtered rs

-- The hosts of the requests that do not go on, but for those without a host, the last first.
abbrev pub host_of : Request → List (List ℕ)
host_of r = elim r.hostname [ none ↦ [] | some [] ↦ [] | some (c ∷ s) ↦ (c ∷ s) ∷ [] ]

abbrev pub filtered_hosts : List (List (List ℕ) × Request) → List (List ℕ)
filtered_hosts [] = []
filtered_hosts ((domains, r) ∷ rs) =
    filtered_hosts rs ++ (if passes domains r then [] else host_of r)

abbrev pub Distinct : List (List ℕ) → Type 0
Distinct [] = Unit
Distinct (d ∷ ds) = (contains d ds ≡ false) × Distinct ds

pub record Counts (n : ℕ) (hosts : List (List ℕ)) (m : OffsiteMiddleware) : Type 0 where
  pub filtered_count : counter "offsite/filtered" m.stats ≡ n
  pub domains_count : counter "offsite/domains" m.stats ≡ length m.domains_seen
  pub distinct : Distinct m.domains_seen
  -- just the hosts of these
  pub seen : (h : List ℕ) → contains h m.domains_seen ≡ contains h hosts

see-Counts :
    (n : ℕ) (hosts : List (List ℕ)) (r : Request) (m : OffsiteMiddleware)
    → Counts n hosts m
    → Counts n (host_of r ++ hosts) (see r.hostname m)
unfolding see
see-Counts n hosts r m w = elim (Option-cases r.hostname) [
  | inl e ↦ rw e w
  | inr ([], e) ↦ rw e w
  | inr (c ∷ s, e) ↦ elim (Bool-cases (contains (c ∷ s) m.domains_seen)) [
    | inl y ↦
        rw (e, y)
          (record {
            filtered_count = w.filtered_count;
            domains_count = w.domains_count;
            distinct = w.distinct;
            seen = λ h. elim (Bool-cases (h == (c ∷ s))) [
              | inl at ↦
                  let same : h ≡ c ∷ s = (bytes_beq_iff h (c ∷ s)).0 at in
                  rw at (ap (λ x. contains x m.domains_seen) same ∙ y)
              | inr n ↦ rw n (w.seen h)
            ];
          })
    | inr new ↦
        rw (e, new)
          (record {
            filtered_count =
                ground (
                  arith,
                  w.filtered_count,
                  counter-inc "offsite/domains" "offsite/filtered" m.stats,
                );
            domains_count =
                ground
                  (arith, w.domains_count, counter-inc "offsite/domains" "offsite/domains" m.stats);
            distinct = (new, w.distinct);
            seen = λ h. ap (λ b. h == (c ∷ s) || b) (w.seen h);
          })
  ]
]

process_request-Counts :
    (n : ℕ) (hosts domains : List (List ℕ)) (r : Request) (m : OffsiteMiddleware)
    → Counts n hosts m
    → Counts
        ((if passes domains r then 0 else 1) + n)
        ((if passes domains r then [] else host_of r) ++ hosts)
        (process_request domains r m).1
unfolding process_request should_follow update_host_regex
process_request-Counts n hosts domains r m w =
    let m' = update_host_regex domains m in
    let w' : Counts n hosts m' = record {
      filtered_count = w.filtered_count;
      domains_count = w.domains_count;
      distinct = w.distinct;
      seen = w.seen;
    } in
    let zero : n ≡ 0 + n = omega arith in
    elim (Bool-cases (r.dont_filter || r.allow_offsite)) [
      | inl a ↦ rw a (subst (λ k. Counts k hosts m) zero w)
      | inr a ↦ elim (Bool-cases (search domains (get_or r.hostname []))) [
        | inl b ↦ rw (a, b) (subst (λ k. Counts k hosts m') zero w')
        | inr b ↦
            let m'' = see r.hostname m' in
            let v = see-Counts n hosts r m' w' in
            rw (a, b)
              (record {
                filtered_count = ground (
                  arith,
                  v.filtered_count,
                  counter-inc "offsite/filtered" "offsite/filtered" m''.stats,
                );
                domains_count = ground (
                  arith,
                  v.domains_count,
                  counter-inc "offsite/filtered" "offsite/domains" m''.stats,
                );
                distinct = v.distinct;
                seen = v.seen;
              })
      ]
    ]

run-Counts-from :
    (rs : List (List (List ℕ) × Request)) (n : ℕ) (hosts : List (List ℕ)) (m : OffsiteMiddleware)
    → Counts n hosts m
    → Counts (filtered rs + n) (filtered_hosts rs ++ hosts) (run rs m)
unfolding run
run-Counts-from [] n hosts m w =
    let same : n ≡ 0 + n = omega arith in subst (λ k. Counts k hosts m) same w
run-Counts-from ((domains, r) ∷ rs) n hosts m w =
    let one = if passes domains r then 0 else 1 in
    let own = if passes domains r then [] else host_of r in
    let same : filtered rs + (one + n) ≡ one + filtered rs + n = omega arith in
    let after = run ((domains, r) ∷ rs) m in
    subst (λ k. Counts k (filtered_hosts rs ++ own ++ hosts) after) same
      (subst (λ l. Counts (filtered rs + (one + n)) l after)
        (sym (append_assoc (filtered_hosts rs) own hosts))
        (run-Counts-from rs (one + n) (own ++ hosts) (process_request domains r m).1
          (process_request-Counts n hosts domains r m w)))

-- Over any requests, from stats that are empty: the stat of filtered requests counts those that are
-- neither exempt nor found by the expression of the spider's domains at the time, the hosts that were
-- seen are just the hosts of these, and the stat of domains counts them, each once.
pub run-Counts :
    (rs : List (List (List ℕ) × Request))
    → Counts
        (filtered rs)
        (filtered_hosts rs)
        (run rs (record { stats = []; domains_seen = []; allowed_domains = [] }))
unfolding get_value get
run-Counts rs =
    let start : OffsiteMiddleware = record {
      stats = [];
      domains_seen = [];
      allowed_domains = [];
    } in
    let w : Counts 0 [] start = record {
      filtered_count = refl;
      domains_count = refl;
      distinct = tt;
      seen = λ h. refl;
    } in
    let same : filtered rs + 0 ≡ filtered rs = omega arith in
    subst (λ k. Counts k (filtered_hosts rs) (run rs start)) same
      (subst (λ l. Counts (filtered rs + 0) l (run rs start)) (append-nil (filtered_hosts rs))
        (run-Counts-from rs 0 [] start w))
