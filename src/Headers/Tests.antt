-- ===== src/Headers/Tests.antt =====
-- Headers with names in several cases.
use scrapy.Prelude.{ℕ, ◌≡◌, refl, List, [], ◌∷◌, ◌++◌}
use scrapy.Dict.{get, put}
use scrapy.Headers.{
  bytes_eq, title, normkey, no_value, text, normvalue, Headers, set_item, getlist, appendlist,
  update, collect, put_all, setdefault,
}
use scrapy.Headers.Laws.{appendlist_lem}

abbrev te_lower : List ℕ
te_lower = b't' ∷ b'-' ∷ b'e' ∷ []

abbrev te_upper : List ℕ
te_upper = b'T' ∷ b'-' ∷ b'E' ∷ []

abbrev te_mixed : List ℕ
te_mixed = b'T' ∷ b'-' ∷ b'e' ∷ []

one_key : normkey te_mixed ≡ te_upper
unfolding normkey title
one_key = refl

abbrev filled : Headers
unfolding set_item normkey title normvalue put
filled = set_item te_lower (text (b'1' ∷ [])) []

-- An update replaces the values of a name, and collects those of one name in its argument.
replaced :
    update ((te_upper, text (b'2' ∷ [])) ∷ (te_mixed, text (b'3' ∷ [])) ∷ []) filled
    ≡ (te_upper, (b'2' ∷ []) ∷ (b'3' ∷ []) ∷ []) ∷ []
unfolding filled set_item normkey title normvalue put update collect put_all setdefault get
replaced = refl

appendlist_lem_example :
    getlist te_upper no_value (appendlist te_mixed (text (b'2' ∷ [])) filled)
    ≡ getlist te_mixed no_value filled ++ normvalue (text (b'2' ∷ []))
appendlist_lem_example = appendlist_lem te_mixed te_upper (text (b'2' ∷ [])) filled
