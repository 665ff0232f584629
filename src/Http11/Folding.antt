-- ===== src/Http11/Folding.antt =====
-- The lenient parser reads each header of a response, with the lines that continue it.
use scrapy.Prelude.{
  ℕ, Bool, true, false, ◌≡◌, refl, sym, ap, ◌∙◌, Option, none, some, List, [], ◌∷◌, ◌++◌, concat,
  append-nil, append_assoc, All, Option-cases, inl, inr, ◌⊎◌, contains, nat_eq,
}
use mathlib.Core.Path.{subst}
use scrapy.Http11.Reading.{IsHeader, header_of_lem}
use scrapy.Http11.Parser.{
  Parser, new_parser, strip_cr, header_of, flush, begins_header, header_line, line_received,
  lines_received,
}

-- A header as it is sent: the line that begins it, of a byte and more, and those that continue it.
pub record Folded : Type 0 where
  pub initial : ℕ
  pub line : List ℕ
  pub continued : List (List ℕ)

abbrev pub lines_of : Folded → List (List ℕ)
lines_of f = (f.initial ∷ f.line) ∷ f.continued

-- No carriage return at the end.
abbrev pub Bare : List ℕ → Type 0
Bare line = strip_cr line ≡ line

pub record IsFolded (f : Folded) : Type 0 where
  pub begins : begins_header (f.initial ∷ f.line) ≡ true
  pub bare : Bare (f.initial ∷ f.line)
  pub continues : All (λ line. Bare line × (begins_header line ≡ false)) f.continued

-- The header that lines make up, if it has a colon.
abbrev pub header_in : List (List ℕ) → List (List ℕ × List ℕ)
header_in lines = elim (header_of (concat lines)) [ none ↦ [] | some h ↦ h ∷ [] ]

abbrev pub headers_in : List Folded → List (List ℕ × List ℕ)
headers_in [] = []
headers_in (f ∷ fs) = header_in (lines_of f) ++ headers_in fs

abbrev pub all_lines : List Folded → List (List ℕ)
all_lines [] = []
all_lines (f ∷ fs) = lines_of f ++ all_lines fs

abbrev pub parser : List ℕ → Option (List (List ℕ)) → List (List ℕ × List ℕ) → Bool → Parser
parser status partial hs complete = record {
  in_header = true;
  partial_header = partial;
  status_line = some status;
  headers = hs;
  complete = complete;
}

abbrev pending_in : Option (List (List ℕ)) → List (List ℕ × List ℕ)
pending_in none = []
pending_in (some lines) = header_in lines

flush_lem :
    (status : List ℕ) (partial : Option (List (List ℕ))) (hs : List (List ℕ × List ℕ))
    → flush (parser status partial hs false)
      ≡ parser status partial (hs ++ pending_in partial) false
unfolding flush
flush_lem status none hs = ap (λ l. parser status none l false) (sym (append-nil hs))
flush_lem status (some lines) hs = elim (Option-cases (header_of (concat lines))) [
  | inl n ↦
      rw (n, flush, header_in) (ap (λ l. parser status (some lines) l false) (sym (append-nil hs)))
  | inr (h, y) ↦ rw (y, flush, header_in) refl
]

next_line :
    (line : List ℕ) (ls : List (List ℕ)) (p p' : Parser)
    → line_received line p ≡ some p'
    → lines_received (line ∷ ls) p ≡ lines_received ls p'
unfolding lines_received
next_line line ls p p' e = rw (e, lines_received) refl

begin_lem :
    (status : List ℕ) (partial : Option (List (List ℕ))) (hs : List (List ℕ × List ℕ)) (c : ℕ)
    (s : List ℕ)
    → begins_header (c ∷ s) ≡ true
    → Bare (c ∷ s)
    → line_received (c ∷ s) (parser status partial hs false)
      ≡ some (parser status (some ((c ∷ s) ∷ [])) (hs ++ pending_in partial) false)
unfolding line_received header_line
begin_lem status partial hs c s begins bare =
    rw (bare, begins)
      (ap (λ (q : Parser). some (record q { partial_header = some ((c ∷ s) ∷ []) }))
        (flush_lem status partial hs))

more_lem :
    (status : List ℕ) (hs : List (List ℕ × List ℕ)) (line : List ℕ) (lines : List (List ℕ))
    → begins_header line ≡ false
    → Bare line
    → line_received line (parser status (some lines) hs false)
      ≡ some (parser status (some (lines ++ line ∷ [])) hs false)
unfolding line_received header_line
more_lem status hs line lines goes_on bare = rw (bare, goes_on) refl

continued_lem :
    (status : List ℕ) (hs : List (List ℕ × List ℕ)) (rest lines more : List (List ℕ))
    → All (λ line. Bare line × (begins_header line ≡ false)) more
    → lines_received (more ++ rest) (parser status (some lines) hs false)
      ≡ lines_received rest (parser status (some (lines ++ more)) hs false)
continued_lem status hs rest lines [] a =
    ap (λ l. lines_received rest (parser status (some l) hs false)) (sym (append-nil lines))
continued_lem status hs rest lines (line ∷ more) ((bare, goes_on), a) =
    next_line line (more ++ rest) (parser status (some lines) hs false)
      (parser status (some (lines ++ line ∷ [])) hs false)
      (more_lem status hs line lines goes_on bare)
    ∙ continued_lem status hs rest (lines ++ line ∷ []) more a
    ∙ ap (λ l. lines_received rest (parser status (some l) hs false))
        (append_assoc lines (line ∷ []) more)

empty_lem :
    (status : List ℕ) (partial : Option (List (List ℕ))) (hs : List (List ℕ × List ℕ))
    → lines_received ([] ∷ []) (parser status partial hs false)
      ≡ some (parser status partial (hs ++ pending_in partial) true)
unfolding lines_received line_received header_line strip_cr
empty_lem status partial hs =
    ap (λ (q : Parser). some (record q { complete = true })) (flush_lem status partial hs)

folded_lem :
    (status : List ℕ) (partial : Option (List (List ℕ))) (hs : List (List ℕ × List ℕ))
    (fs : List Folded)
    → All IsFolded fs
    → (p : Parser) × (lines_received (all_lines fs ++ [] ∷ []) (parser status partial hs false)
        ≡ some p)
      × (p.status_line ≡ some status)
      × (p.headers ≡ hs ++ pending_in partial ++ headers_in fs)
      × (p.complete ≡ true)
folded_lem status partial hs [] a = (
  parser status partial (hs ++ pending_in partial) true,
  empty_lem status partial hs,
  refl,
  sym (append-nil (hs ++ pending_in partial)),
  refl,
)
folded_lem status partial hs (f ∷ fs) (w, a) =
    let now = hs ++ pending_in partial in
    let line = f.initial ∷ f.line in
    let (p, e, s, h, c) = folded_lem status (some (lines_of f)) now fs a in
    (
      p,
      next_line line (f.continued ++ all_lines fs ++ [] ∷ []) (parser status partial hs false)
            (parser status (some (line ∷ [])) now false)
            (begin_lem status partial hs f.initial f.line w.begins w.bare)
          ∙ ap (λ ls. lines_received ls (parser status (some (line ∷ [])) now false))
              (append_assoc f.continued (all_lines fs) ([] ∷ []))
          ∙ continued_lem status now (all_lines fs ++ [] ∷ []) (line ∷ []) f.continued w.continues
          ∙ e,
      s,
      h ∙ append_assoc now (header_in (lines_of f)) (headers_in fs),
      c,
    )

-- The headers that are read from what is sent, in its order: nothing from one without a colon, and
-- from another its name and its value, without the blanks around it.
abbrev pub Reads : List Folded → List (List ℕ × List ℕ) → Type 0
Reads [] hs = hs ≡ []
Reads (f ∷ fs) hs =
    ((contains b':' (concat (lines_of f)) ≡ false) × Reads fs hs)
    ⊎ ((h : List ℕ × List ℕ) × (rest : List (List ℕ × List ℕ)) × (hs ≡ h ∷ rest)
        × IsHeader (concat (lines_of f)) h
        × Reads fs rest)

headers_in-Reads : (fs : List Folded) → Reads fs (headers_in fs)
headers_in-Reads [] = refl
headers_in-Reads (f ∷ fs) = elim (header_of_lem (concat (lines_of f))) [
  | inl (n, no_colon) ↦
      inl (no_colon, subst (Reads fs) (rw (headers_in, header_in, n) refl) (headers_in-Reads fs))
  | inr (h, y, is) ↦
      inr (h, headers_in fs, rw (headers_in, header_in, y) refl, is, headers_in-Reads fs)
]

pub lines_received_lem :
    (status : List ℕ) (fs : List Folded)
    → Bare status
    → All IsFolded fs
    → (p : Parser) × (lines_received (status ∷ all_lines fs ++ [] ∷ []) new_parser ≡ some p)
      × (p.status_line ≡ some status)
      × Reads fs p.headers
      × (p.complete ≡ true)
unfolding line_received new_parser
lines_received_lem status fs bare a =
    let (p, e, s, h, c) = folded_lem status none [] fs a in
    (
      p,
      next_line status (all_lines fs ++ [] ∷ []) new_parser (parser status none [] false)
            (rw bare refl)
          ∙ e,
      s,
      subst (Reads fs) (sym h) (headers_in-Reads fs),
      c,
    )
