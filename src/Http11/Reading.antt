-- ===== src/Http11/Reading.antt =====
-- The name and the value that the lenient parser of core/downloader/handlers/http11.py reads from the
-- bytes of a header.
use scrapy.Prelude.{
  ℕ, nat_eq, nat_beq, Bool, true, false, ◌≡◌, ◌⊎◌, refl, sym, ap, ◌∙◌, none, some, List, [], ◌∷◌,
  ◌++◌, ◌&&◌, contains, arith, Bool-cases, Option-cases, inl, inr,
}
use scrapy.Http11.Parser.{is_space, lstrip, rstrip, strip, split_colon, header_of}

abbrev pub all_space : List ℕ → Bool
all_space [] = true
all_space (c ∷ s) = is_space c && all_space s

-- Neither a blank at the front nor at the end.
abbrev pub begins_blank : List ℕ → Bool
begins_blank [] = false
begins_blank (c ∷ s) = is_space c

abbrev pub ends_blank : List ℕ → Bool
ends_blank [] = false
ends_blank (c ∷ []) = is_space c
ends_blank (c ∷ d ∷ s) = ends_blank (d ∷ s)

-- The value, with blanks around it, makes up the text.
pub record IsStripped (text value : List ℕ) : Type 0 where
  pub before : List ℕ
  pub after : List ℕ
  pub text_of : text ≡ before ++ (value ++ after)
  pub before_space : all_space before ≡ true
  pub after_space : all_space after ≡ true
  pub no_front : begins_blank value ≡ false
  pub no_end : ends_blank value ≡ false

-- The header is its name, which has no colon, a colon, and its value with blanks around it.
abbrev pub IsHeader : List ℕ → List ℕ × List ℕ → Type 0
IsHeader text (name, value) =
    (contains b':' name ≡ false)
    × (rest : List ℕ) × (text ≡ name ++ b':' ∷ rest)
    × IsStripped rest value

lstrip_lem :
    (s : List ℕ)
    → (before : List ℕ) × (s ≡ before ++ lstrip s)
      × (all_space before ≡ true)
      × (begins_blank (lstrip s) ≡ false)
unfolding lstrip
lstrip_lem [] = ([], refl, refl, refl)
lstrip_lem (c ∷ s) = elim (Bool-cases (is_space c)) [
  | inl y ↦
      let (before, e, blank, front) = lstrip_lem s in
      (c ∷ before, rw y (ap (λ t. c ∷ t) e), ground (arith, blank), rw y front)
  | inr n ↦ ([], rw n refl, refl, rw n n)
]

List-cases : (s : List ℕ) → (s ≡ []) ⊎ ((d : ℕ) × (t : List ℕ) × (s ≡ d ∷ t))
List-cases [] = inl refl
List-cases (d ∷ t) = inr (d, t, refl)

rstrip_lem :
    (s : List ℕ)
    → (after : List ℕ) × (s ≡ rstrip s ++ after)
      × (all_space after ≡ true)
      × (ends_blank (rstrip s) ≡ false)
      × (begins_blank s ≡ false → begins_blank (rstrip s) ≡ false)
unfolding rstrip
rstrip_lem [] = ([], refl, refl, refl, λ k. refl)
rstrip_lem (c ∷ s) =
    let (after, e, blank, tail, keeps) = rstrip_lem s in
    elim (List-cases (rstrip s)) [
      | inl n ↦
          let all : s ≡ after = e ∙ ap (λ t. t ++ after) n in
          elim (Bool-cases (is_space c)) [
            | inl y ↦ (
              c ∷ after,
              rw (rstrip, n, y) (ap (λ t. c ∷ t) all),
              ground (arith, blank),
              rw (rstrip, n, y) refl,
              λ k. rw (rstrip, n, y) refl,
            )
            | inr m ↦ (
              after,
              rw (rstrip, n, m) (ap (λ t. c ∷ t) all),
              blank,
              rw (rstrip, n, m) m,
              λ k. rw (rstrip, n, m) m,
            )
          ]
      | inr (d, t, n) ↦
          let whole : s ≡ d ∷ t ++ after = e ∙ ap (λ l. l ++ after) n in
          (
            after,
            rw (rstrip, n) (ap (λ l. c ∷ l) whole),
            blank,
            rw (rstrip, n) (rw n at tail),
            λ k. rw (rstrip, n) k,
          )
    ]

strip_lem : (s : List ℕ) → IsStripped s (strip s)
unfolding strip
strip_lem s =
    let (before, e, blank, front) = lstrip_lem s in
    let (after, e', blank', tail, keeps) = rstrip_lem (lstrip s) in
    record {
      before = before;
      after = after;
      text_of = e ∙ ap (λ t. before ++ t) e';
      before_space = blank;
      after_space = blank';
      no_front = keeps front;
      no_end = tail;
    }

split_colon-none : (s : List ℕ) → split_colon s ≡ none → contains b':' s ≡ false
unfolding split_colon
split_colon-none [] h = refl
split_colon-none (c ∷ s) h = elim (Bool-cases (nat_beq c b':')) [
  | inl y ↦ absurd (ground arith)
  | inr n ↦ elim (Option-cases (split_colon s)) [
    | inl e ↦ ground (arith, split_colon-none s e)
    | inr (p, e) ↦ absurd (ground arith)
  ]
]

split_colon-some :
    (s name value : List ℕ)
    → split_colon s ≡ some (name, value)
    → (s ≡ name ++ b':' ∷ value) × (contains b':' name ≡ false)
unfolding split_colon
split_colon-some [] name value h = absurd (ground arith)
split_colon-some (c ∷ s) name value h = elim (Bool-cases (nat_beq c b':')) [
  | inl y ↦ (ground arith, ground arith)
  | inr n ↦ elim (Option-cases (split_colon s)) [
    | inl e ↦ absurd (ground arith)
    | inr ((front, v), e) ↦
        let (parts, clean) = split_colon-some s front v e in
        let same : name ≡ c ∷ front = ground arith in
        let same' : value ≡ v = ground arith in
        (
          ap (λ t. c ∷ t) parts
              ∙ ap (λ t. c ∷ front ++ b':' ∷ t) (sym same')
              ∙ ap (λ t. t ++ b':' ∷ value) (sym same),
          ground (arith, clean),
        )
  ]
]

-- A text is read as a header exactly as it is written.
pub header_of_lem :
    (text : List ℕ)
    → ((header_of text ≡ none) × (contains b':' text ≡ false))
      ⊎ ((h : List ℕ × List ℕ) × (header_of text ≡ some h) × IsHeader text h)
unfolding header_of
header_of_lem text = elim (Option-cases (split_colon text)) [
  | inl e ↦ inl (rw (header_of, e) refl, split_colon-none text e)
  | inr ((name, value), e) ↦
      let (parts, clean) = split_colon-some text name value e in
      inr ((name, strip value), rw (header_of, e) refl, (clean, value, parts, strip_lem value))
]
