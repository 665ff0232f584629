-- ===== src/Http11/Parser.antt =====
-- core/downloader/handlers/http11.py: _LenientHTTPClientParser.lineReceived, over bytes. What
-- Twisted's parser does with the status line and with a header is a record of them; a line is
-- received in the states STATUS and HEADER only. The result none is an AttributeError.
use scrapy.Prelude.{
  ℕ, Bool, true, false, not, ◌||◌, Option, none, some, List, [], ◌∷◌, ◌++◌, if◌then◌else◌, nat_beq,
  concat,
}

pub record Parser : Type 0 where
  -- self.state == HEADER
  pub in_header : Bool
  pub partial_header : Option (List (List ℕ))
  pub status_line : Option (List ℕ)
  pub headers : List (List ℕ × List ℕ)
  -- allHeadersReceived was called
  pub complete : Bool

unfoldable pub new_parser : Parser
new_parser = record {
  in_header = false;
  partial_header = none;
  status_line = none;
  headers = [];
  complete = false;
}

-- The white space that strip() removes.
abbrev pub is_space : ℕ → Bool
is_space c =
    nat_beq c 32 || nat_beq c 9 || nat_beq c 10 || nat_beq c 11 || nat_beq c 12 || nat_beq c 13

unfoldable pub lstrip : List ℕ → List ℕ
lstrip [] = []
lstrip (c ∷ s) = let rest = lstrip s in if is_space c then rest else c ∷ s

unfoldable pub rstrip : List ℕ → List ℕ
rstrip [] = []
rstrip (c ∷ s) = elim (rstrip s) [ [] ↦ if is_space c then [] else c ∷ [] | d ∷ t ↦ c ∷ d ∷ t ]

unfoldable pub strip : List ℕ → List ℕ
strip s = rstrip (lstrip s)

-- line[:-1] when the line ends with a carriage return
unfoldable pub strip_cr : List ℕ → List ℕ
strip_cr [] = []
strip_cr (c ∷ []) = if nat_beq c 13 then [] else c ∷ []
strip_cr (c ∷ d ∷ s) = c ∷ strip_cr (d ∷ s)

-- header.split(b":", 1), for a header that has a colon
unfoldable pub split_colon : List ℕ → Option (List ℕ × List ℕ)
split_colon [] = none
split_colon (c ∷ s) =
    let rest = split_colon s in
    if nat_beq c b':'
    then some ([], s)
    else elim rest [ none ↦ none | some (name, value) ↦ some (c ∷ name, value) ]

-- The name and the value of a header, if it has a colon.
unfoldable pub header_of : List ℕ → Option (List ℕ × List ℕ)
header_of header = elim (split_colon header) [
  | none ↦ none
  | some (name, value) ↦ some (name, strip value)
]

-- headerReceived of the header that the earlier lines make up
unfoldable pub flush : Parser → Parser
flush p = elim p.partial_header [
  | none ↦ p
  | some lines ↦ elim (header_of (concat lines)) [
    | none ↦ p
    | some h ↦ record p { headers = p.headers ++ h ∷ [] }
  ]
]

-- Not a continuation: the line is empty or begins with neither a space nor a tab.
abbrev pub begins_header : List ℕ → Bool
begins_header [] = true
begins_header (c ∷ s) = not (nat_beq c 32 || nat_beq c 9)

unfoldable pub header_line : List ℕ → Parser → Option Parser
header_line line p =
    if begins_header line
    then elim line [
      | [] ↦ some (record (flush p) { complete = true })
      | c ∷ s ↦ some (record (flush p) { partial_header = some ((c ∷ s) ∷ []) })
    ]
    else elim p.partial_header [
      | none ↦ none
      | some lines ↦ some (record p { partial_header = some (lines ++ line ∷ []) })
    ]

unfoldable pub line_received : List ℕ → Parser → Option Parser
line_received line p =
    let l = strip_cr line in
    if p.in_header
    then header_line l p
    else some (record p { in_header = true; status_line = some l })

unfoldable pub lines_received : List (List ℕ) → Parser → Option Parser
lines_received [] p = some p
lines_received (l ∷ ls) p = elim (line_received l p) [
  | none ↦ none
  | some p' ↦ lines_received ls p'
]
