-- ===== src/Router/Query.antt =====
-- src/router.zig, `parseQueryString`: the parameters of the query, and how many there may be.
use dusty.Base.{
  ℕ, true, false, List, [], ◌∷◌, Option, none, some, leb, length, cut_at, split_scalar,
}
use dusty.Request.{url_unescape}
use dusty.Router.Params.{Params, put}

-- `too_many_query_params` and `invalid_escape` are the errors, with what stood in the map then.
pub data Query : Type 0 where
  parsed : Params → Query
  too_many_query_params : Params → Query
  invalid_escape : Params → Query

abbrev pub both : Option (List ℕ) → Option (List ℕ) → Option (List ℕ × List ℕ)
both (some key) (some value) = some (key, value)
both _ _ = none

-- A part of the query with or without an equals sign, none for error.InvalidEscapeSequence.
abbrev pub entry_in : List ℕ → Option (List ℕ × List ℕ) → Option (List ℕ × List ℕ)
entry_in pair (some (key, value)) = both (url_unescape key) (url_unescape value)
entry_in pair none = both (url_unescape pair) (some [])

unfoldable pub entry_of : List ℕ → Option (List ℕ × List ℕ)
unfolding url_unescape cut_at
entry_of pair = entry_in pair (cut_at b'=' pair)

unfoldable pub parse_pairs : ℕ → List (List ℕ) → Params → Query
unfolding entry_of put
parse_pairs max_query_count [] query = parsed query
parse_pairs max_query_count ([] ∷ pairs) query = parse_pairs max_query_count pairs query
parse_pairs max_query_count ((b ∷ bs) ∷ pairs) query = elim (leb max_query_count (length query)) [
  | true ↦ too_many_query_params query
  | false ↦ elim (entry_of (b ∷ bs)) [
    | none ↦ invalid_escape query
    | some entry ↦ parse_pairs max_query_count pairs (put entry.0 entry.1 query)
  ]
]

unfoldable pub parse_query_string : ℕ → List ℕ → Params → Query
unfolding parse_pairs split_scalar
parse_query_string max_query_count [] query = parsed query
parse_query_string max_query_count (b ∷ bs) query =
    parse_pairs max_query_count (split_scalar b'&' (b ∷ bs)) query
