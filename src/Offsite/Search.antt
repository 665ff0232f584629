-- ===== src/Offsite/Search.antt =====
-- Which hosts the expression of get_host_regex of downloadermiddlewares/offsite.py finds.
use scrapy.Prelude.{
  ℕ, nat_eq, ◌≡◌, ◌↔◌, ◌⊎◌, refl, sym, ap, ◌∙◌, Bool, true, false, ◌||◌, List, [], ◌∷◌, ◌++◌, map,
  ◌==◌, contains, append-nil, arith, Bool-cases, inl, inr,
}
use scrapy.Headers.{bytes_eq, bytes_beq_iff}
use scrapy.Offsite.Regex.{
  Pattern, start, end_of_text, byte, any_bytes, seq, optional, is_end, dots, matches, accept,
  search_from, search_in,
}
use scrapy.Offsite.{escape, alternatives, get_host_regex, search}

-- A host is a domain, or stands below it.
abbrev pub IsWithin : List ℕ → List ℕ → Type 0
IsWithin d host = (d ≡ host) ⊎ ((front : List ℕ) × (front ++ b'.' ∷ d ≡ host))

contains-append :
    (c : ℕ) (a b : List ℕ)
    → contains c (a ++ b) ≡ false
    → (contains c a ≡ false) × (contains c b ≡ false)
contains-append c [] b h = (refl, h)
contains-append c (x ∷ a) b h =
    let rest : contains c (a ++ b) ≡ false = ground (arith, h) in
    let (l, r) = contains-append c a b rest in (ground (arith, h, l), r)

end_lem : (s : List ℕ) → is_end s ≡ true → contains 10 s ≡ false → s ≡ []
end_lem [] h n = refl
end_lem (c ∷ []) h n = absurd (ground arith)
end_lem (c ∷ d ∷ s) h n = absurd (ground arith)

module _ (k : Bool → List ℕ → Bool) where
  escape-front :
      (d : List ℕ) (at_start : Bool) (s : List ℕ)
      → matches (escape d) at_start s k ≡ true
      → (at : Bool) × (rest : List ℕ) × (d ++ rest ≡ s) × (k at rest ≡ true)
  unfolding escape matches
  escape-front [] at_start s h = (at_start, s, refl, h)
  escape-front (c ∷ d) at_start [] h = absurd (ground arith)
  escape-front (c ∷ d) at_start (x ∷ s) h =
      let (at, rest, e, accepted) = escape-front d false s (ground (arith, h)) in
      let same : c ≡ x = ground (arith, h) in
      (at, rest, ap (λ l. c ∷ l) e ∙ ap (λ y. y ∷ s) same, accepted)

  escape-append :
      (d rest : List ℕ) (at_start : Bool)
      → ((at : Bool) → k at rest ≡ true)
      → matches (escape d) at_start (d ++ rest) k ≡ true
  unfolding escape matches
  escape-append [] rest at_start h = h at_start
  escape-append (c ∷ d) rest at_start h = ground (arith, escape-append d rest false h)

  alternatives-some :
      (d : List ℕ) (ds : List (List ℕ)) (at_start : Bool) (s : List ℕ)
      → matches (alternatives (map escape (d ∷ ds))) at_start s k ≡ true
      → (e : List ℕ) × (contains e (d ∷ ds) ≡ true) × (matches (escape e) at_start s k ≡ true)
  unfolding alternatives matches
  alternatives-some d [] at_start s h = (d, ground (arith, bytes_beq_iff d d), h)
  alternatives-some d (d' ∷ ds) at_start s h = elim (Bool-cases (matches (escape d) at_start s k)) [
    | inl y ↦ (d, ground (arith, bytes_beq_iff d d), y)
    | inr n ↦
        let (e, found, m) = alternatives-some d' ds at_start s (ground (arith, h, n)) in
        (e, ground (arith, found), m)
  ]

  alternatives-in :
      (d : List ℕ) (ds : List (List ℕ)) (at_start : Bool) (s e : List ℕ)
      → contains e (d ∷ ds) ≡ true
      → matches (escape e) at_start s k ≡ true
      → matches (alternatives (map escape (d ∷ ds))) at_start s k ≡ true
  unfolding alternatives matches
  alternatives-in d [] at_start s e c m =
      let same : e ≡ d = (bytes_beq_iff e d).0 (ground (arith, c)) in
      ap (λ x. matches (escape x) at_start s k) (sym same) ∙ m
  alternatives-in d (d' ∷ ds) at_start s e c m = elim (Bool-cases (e == d)) [
    | inl y ↦
        let first = ap (λ x. matches (escape x) at_start s k) (sym ((bytes_beq_iff e d).0 y)) ∙ m in
        ground (arith, first)
    | inr n ↦ ground (arith, alternatives-in d' ds at_start s e (ground (arith, c, n)) m)
  ]

  dots-front :
      (at_start : Bool) (s : List ℕ)
      → dots at_start s k ≡ true
      → (at : Bool) × (front : List ℕ) × (rest : List ℕ) × (front ++ rest ≡ s) × (k at rest ≡ true)
  unfolding dots
  dots-front at_start [] h = (at_start, [], [], refl, h)
  dots-front at_start (c ∷ s) h = elim (Bool-cases (k at_start (c ∷ s))) [
    | inl y ↦ (at_start, [], c ∷ s, refl, y)
    | inr n ↦
        let (at, front, rest, e, accepted) = dots-front false s (ground (arith, h, n)) in
        (at, c ∷ front, rest, ap (λ l. c ∷ l) e, accepted)
  ]

  dots-append :
      (front rest : List ℕ) (at_start : Bool)
      → contains 10 front ≡ false
      → ((at : Bool) → k at rest ≡ true)
      → dots at_start (front ++ rest) k ≡ true
  unfolding dots
  dots-append [] [] at_start n h = h at_start
  dots-append [] (c ∷ s) at_start n h = ground (arith, h at_start)
  dots-append (c ∷ front) rest at_start n h =
      ground (arith, n, dots-append front rest false (ground (arith, n)) h)

-- What follows the optional part of the expression.
abbrev tail : List ℕ → List (List ℕ) → Pattern
tail d ds = seq (alternatives (map escape (d ∷ ds))) end_of_text

tail-some :
    (d : List ℕ) (ds : List (List ℕ)) (at_start : Bool) (s : List ℕ)
    → contains 10 s ≡ false
    → matches (tail d ds) at_start s accept ≡ true
    → contains s (d ∷ ds) ≡ true
unfolding matches
tail-some d ds at_start s n h =
    let close : Bool → List ℕ → Bool = λ at t. matches end_of_text at t accept in
    let (e, found, m) = alternatives-some close d ds at_start s h in
    let (at, rest, parts, closed) = escape-front close e at_start s m in
    let clean = (contains-append 10 e rest (ap (contains 10) parts ∙ n)).1 in
    let done : rest ≡ [] = end_lem rest (ground (arith, closed)) clean in
    let same : e ≡ s = sym (append-nil e) ∙ ap (λ t. e ++ t) (sym done) ∙ parts in
    ap (λ t. contains t (d ∷ ds)) (sym same) ∙ found

tail-in :
    (d : List ℕ) (ds : List (List ℕ)) (at_start : Bool) (s : List ℕ)
    → contains s (d ∷ ds) ≡ true
    → matches (tail d ds) at_start s accept ≡ true
unfolding matches
tail-in d ds at_start s c =
    let close : Bool → List ℕ → Bool = λ at t. matches end_of_text at t accept in
    alternatives-in close d ds at_start s s c (
      ap (λ t. matches (escape s) at_start t close) (sym (append-nil s))
      ∙ escape-append close s [] at_start (λ at. refl))

-- Not at the start, an expression that begins with it finds nothing.
later_none : (r : Pattern) (s : List ℕ) → search_from (seq start r) false s ≡ false
unfolding search_from matches
later_none r [] = refl
later_none r (c ∷ s) = ground (arith, later_none r s)

search-start : (r : Pattern) (s : List ℕ) → search_in (seq start r) s ≡ matches r true s accept
unfolding search_in search_from matches
search-start r [] = refl
search-start r (c ∷ s) = ground (arith, later_none r s)

-- What follows the dots of the expression.
abbrev below : List ℕ → List (List ℕ) → Bool → List ℕ → Bool
below d ds at s = matches (byte b'.') at s (λ at' t. matches (tail d ds) at' t accept)

below-some :
    (d : List ℕ) (ds : List (List ℕ)) (at : Bool) (s : List ℕ)
    → contains 10 s ≡ false
    → below d ds at s ≡ true
    → (e : List ℕ) × (contains e (d ∷ ds) ≡ true) × (s ≡ b'.' ∷ e)
unfolding matches
below-some d ds at [] n h = absurd (ground arith)
below-some d ds at (c ∷ s) n h =
    let rest : matches (tail d ds) false s accept ≡ true = ground (arith, h) in
    let dot : c ≡ b'.' = ground (arith, h) in
    (s, tail-some d ds false s (ground (arith, n)) rest, ap (λ x. x ∷ s) dot)

below-in :
    (d : List ℕ) (ds : List (List ℕ)) (at : Bool) (e : List ℕ)
    → contains e (d ∷ ds) ≡ true
    → below d ds at (b'.' ∷ e) ≡ true
unfolding matches
below-in d ds at e c = ground (arith, tail-in d ds false e c)

search_lem :
    (d : List ℕ) (ds : List (List ℕ)) (host : List ℕ)
    → search (d ∷ ds) host ≡ (dots true host (below d ds) || matches (tail d ds) true host accept)
unfolding search get_host_regex matches
search_lem d ds host = search-start (seq (optional (seq any_bytes (byte b'.'))) (tail d ds)) host

-- For a spider with allowed domains, the expression of get_host_regex is found in a host, which has
-- no line break, exactly when the host is one of the domains or ends with a dot and one of them.
pub search_iff :
    (first : List ℕ) (others : List (List ℕ)) (host : List ℕ)
    → contains 10 host ≡ false
    → (search (first ∷ others) host ≡ true)
      ↔ ((d : List ℕ) × (contains d (first ∷ others) ≡ true) × IsWithin d host)
search_iff first others host n =
    let whole = search_lem first others host in
    (
      λ h. elim (Bool-cases (dots true host (below first others))) [
        | inl y ↦
            let (at, front, rest, e, accepted) = dots-front (below first others) true host y in
            let clean = (contains-append 10 front rest (ap (contains 10) e ∙ n)).1 in
            let (d, found, dot) = below-some first others at rest clean accepted in
            (d, found, inr (front, ap (λ t. front ++ t) (sym dot) ∙ e))
        | inr m ↦ (host, tail-some first others true host n (ground (arith, whole, h, m)), inl refl)
      ],
      λ w. elim w.2 [
        | inl same ↦
            let found = ap (λ t. contains t (first ∷ others)) (sym same) ∙ w.1 in
            ground (arith, whole, tail-in first others true host found)
        | inr (front, e) ↦
            let clean = (contains-append 10 front (b'.' ∷ w.0) (ap (contains 10) e ∙ n)).0 in
            let dotted =
              ap (λ t. dots true t (below first others)) (sym e)
              ∙ dots-append (below first others) front (b'.' ∷ w.0) true clean
                  (λ at. below-in first others at w.0 w.1) in
            ground (arith, whole, dotted)
      ],
    )
