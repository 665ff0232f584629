-- ===== src/Offsite/Regex.antt =====
-- The expressions that get_host_regex of downloadermiddlewares/offsite.py builds, by their parts, and
-- what `re` documents of them: where `^` and `$` match, that a dot is any byte but a line break, and
-- that search looks for a match at each position. Which of the matches is taken does not matter.
use scrapy.Prelude.{ℕ, Bool, true, false, not, ◌&&◌, ◌||◌, List, [], ◌∷◌, nat_beq}

pub data Pattern : Type 0 where
  -- ^
  start : Pattern
  -- $
  end_of_text : Pattern
  -- a byte that stands for itself, as re.escape makes it
  byte : ℕ → Pattern
  -- .
  any_byte : Pattern
  -- r*, of one byte: .*
  any_bytes : Pattern
  empty : Pattern
  seq : Pattern → Pattern → Pattern
  either : Pattern → Pattern → Pattern

-- r?
abbrev pub optional : Pattern → Pattern
optional r = either r empty

-- The end of the text, or the line break before it.
abbrev pub is_end : List ℕ → Bool
is_end [] = true
is_end (c ∷ []) = nat_beq c 10
is_end (c ∷ d ∷ s) = false

unfoldable pub dots : Bool → List ℕ → (Bool → List ℕ → Bool) → Bool
dots at_start [] k = k at_start []
dots at_start (c ∷ s) k =
    let rest = dots false s k in k at_start (c ∷ s) || (not (nat_beq c 10) && rest)

-- Whether the expression matches the front of a text, so that `k` accepts the rest of it; `at_start`
-- tells whether the text begins here.
unfoldable pub matches : Pattern → Bool → List ℕ → (Bool → List ℕ → Bool) → Bool
unfolding dots
matches start at_start s k = at_start && k at_start s
matches end_of_text at_start s k = is_end s && k at_start s
matches (byte c) at_start [] k = false
matches (byte c) at_start (d ∷ s) k = nat_beq c d && k false s
matches any_byte at_start [] k = false
matches any_byte at_start (d ∷ s) k = not (nat_beq d 10) && k false s
matches any_bytes at_start s k = dots at_start s k
matches empty at_start s k = k at_start s
matches (seq r q) at_start s k = matches r at_start s (λ at t. matches q at t k)
matches (either r q) at_start s k = matches r at_start s k || matches q at_start s k

abbrev pub accept : Bool → List ℕ → Bool
accept at_start s = true

unfoldable pub search_from : Pattern → Bool → List ℕ → Bool
unfolding matches
search_from r at_start [] = matches r at_start [] accept
search_from r at_start (c ∷ s) =
    let later = search_from r false s in matches r at_start (c ∷ s) accept || later

-- regex.search(text)
unfoldable pub search_in : Pattern → List ℕ → Bool
unfolding search_from
search_in r s = search_from r true s
