-- ===== src/Router/QueryTrip.antt =====
-- What src/router.zig's `parseQueryString` reads from a query that was written for a list of keys
-- and values.
use dusty.Base.{
  ℕ, suc, ◌+◌, ◌≤◌, ◌≡◌, refl, ap, sym, subst, ◌∙◌, false, List, [], ◌∷◌, ◌++◌, Option, none, some,
  arith, leb, ◌<◌, length-append, if◌then◌else◌, length, cut_at, split_scalar, Lacks, cut_at-append,
  split_scalar-append, split_scalar-Lacks, bytes_eq,
}
use dusty.Request.Escape.{Escapes, url_unescape-Escapes}
use dusty.Router.Params.{Params, put, get, get-put, length-put}
use dusty.Router.Query.{parsed, entry_of, parse_pairs, parse_query_string, entry_in}

-- A key and its value, with the separators escaped where they are not to separate.
pub record Written (pair : List ℕ × List ℕ) (text : List ℕ) : Type 0 where
  pub key : List ℕ
  pub value : List ℕ
  pub key_escapes : Escapes pair.0 key
  pub value_escapes : Escapes pair.1 value
  pub key_lacks_eq : Lacks b'=' key
  pub key_lacks_and : Lacks b'&' key
  pub value_lacks_and : Lacks b'&' value
  pub joined : text ≡ key ++ b'=' ∷ value

pub data WrittenQuery : Params → List ℕ → Type 0 where
  last :
      {text : List ℕ} (pair : List ℕ × List ℕ) → Written pair text → WrittenQuery (pair ∷ []) text
  more :
      {text rest : List ℕ} {pairs : Params} (pair : List ℕ × List ℕ)
      → Written pair text
      → WrittenQuery pairs rest
      → WrittenQuery (pair ∷ pairs) (text ++ b'&' ∷ rest)

-- The value that the last pair with a key gives it.
pub last_of : List ℕ → Params → Option (List ℕ) → Option (List ℕ)
last_of name [] before = before
last_of name ((k, v) ∷ pairs) before =
    last_of name pairs (if bytes_eq k name then some v else before)

put_all : Params → Params → Params
put_all [] query = query
put_all (pair ∷ pairs) query = put_all pairs (put pair.0 pair.1 query)

get-put_all :
    (name : List ℕ) (pairs query : Params)
    → get name (put_all pairs query) ≡ last_of name pairs (get name query)
unfolding put_all last_of
get-put_all name [] query = refl
get-put_all name ((k, v) ∷ pairs) query =
    get-put_all name pairs (put k v query) ∙ ap (last_of name pairs) (get-put k v name query)

entry_of-Written :
    (pair : List ℕ × List ℕ) (text : List ℕ) → Written pair text → entry_of text ≡ some pair
unfolding entry_of
entry_of-Written (k, v) text w =
    ap (λ t. entry_in t (cut_at b'=' t)) w.joined
    ∙ ap (entry_in (w.key ++ b'=' ∷ w.value)) (cut_at-append b'=' w.key w.value w.key_lacks_eq)
    ∙ rw (url_unescape-Escapes k w.key w.key_escapes)
        (rw (url_unescape-Escapes v w.value w.value_escapes) refl)

Lacks-append : (b : ℕ) (xs ys : List ℕ) → Lacks b xs → Lacks b ys → Lacks b (xs ++ ys)
Lacks-append b [] ys h g = g
Lacks-append b (x ∷ xs) ys h g = (h.0, Lacks-append b xs ys h.1 g)

Written-Lacks : (pair : List ℕ × List ℕ) (text : List ℕ) → Written pair text → Lacks b'&' text
Written-Lacks pair text w =
    subst (Lacks b'&') (sym (w.joined))
      (Lacks-append b'&' (w.key) (b'=' ∷ w.value) (w.key_lacks_and) (refl, w.value_lacks_and))

length-Written : (key value : List ℕ) → 0 < length (key ++ b'=' ∷ value)
length-Written key value = omega (arith, length-append key (b'=' ∷ value))

length-WrittenQuery : {pairs : Params} {text : List ℕ} → WrittenQuery pairs text → 0 < length text
length-WrittenQuery (last pair w) =
    subst (λ t. 0 < length t) (sym (w.joined)) (length-Written (w.key) (w.value))
length-WrittenQuery (more {text = text} {rest = rest} pair w ws) =
    omega (arith, length-append text (b'&' ∷ rest))

leb_above : (limit n : ℕ) → suc n ≤ limit → leb limit n ≡ false
leb_above limit n h = ground arith

end_of_query : (limit : ℕ) (query : Params) → parse_pairs limit [] query ≡ parsed query
unfolding parse_pairs
end_of_query limit query = refl

parse_pairs-Written :
    (limit : ℕ) (pair : List ℕ × List ℕ) (text : List ℕ) (rest : List (List ℕ)) (query : Params)
    → Written pair text
    → suc (length query) ≤ limit
    → parse_pairs limit (text ∷ rest) query ≡ parse_pairs limit rest (put pair.0 pair.1 query)
unfolding parse_pairs
parse_pairs-Written limit pair [] rest query w h =
    absurd (let n = length-Written (w.key) (w.value) in omega (arith, n, ap length (w.joined)))
parse_pairs-Written limit pair (b ∷ bs) rest query w h =
    rw (parse_pairs, leb_above limit (length query) h, entry_of-Written pair (b ∷ bs) w) refl

parse_pairs-WrittenQuery :
    (limit : ℕ) (pairs : Params) (text : List ℕ) (query : Params)
    → WrittenQuery pairs text
    → length pairs + length query ≤ limit
    → parse_pairs limit (split_scalar b'&' text) query ≡ parsed (put_all pairs query)
unfolding put_all
parse_pairs-WrittenQuery limit _ _ query (last {text = text} pair w) h =
    ap (λ parts. parse_pairs limit parts query)
      (split_scalar-Lacks b'&' text (Written-Lacks pair text w))
    ∙ parse_pairs-Written limit pair text [] query w (omega (arith, h))
    ∙ end_of_query limit (put pair.0 pair.1 query)
parse_pairs-WrittenQuery limit _ _ query
      (more {text = text} {rest = rest} {pairs = pairs} pair w ws) h =
    ap (λ parts. parse_pairs limit parts query)
      (split_scalar-append b'&' text rest (Written-Lacks pair text w))
    ∙ parse_pairs-Written limit pair text (split_scalar b'&' rest) query w (omega (arith, h))
    ∙ parse_pairs-WrittenQuery limit pairs rest (put pair.0 pair.1 query) ws
        (omega (arith, h, length-put pair.0 pair.1 query))

-- A query that is written for no more pairs than are allowed is read without an error, and then a
-- lookup of a name gives the value of the last pair with that name, and none when no pair has it;
-- any byte of a key or a value may be percent-encoded, and what would separate is.
pub parse_query_string-Written :
    (max_query_count : ℕ) (pairs : Params) (text : List ℕ)
    → WrittenQuery pairs text
    → length pairs ≤ max_query_count
    → (query : Params) × (parse_query_string max_query_count text [] ≡ parsed query)
      × ((name : List ℕ) → get name query ≡ last_of name pairs none)
unfolding parse_query_string get
parse_query_string-Written limit pairs [] w h =
    absurd (let n = length-WrittenQuery w in omega (arith, n))
parse_query_string-Written limit pairs (b ∷ bs) w h = (
  put_all pairs [],
  parse_pairs-WrittenQuery limit pairs (b ∷ bs) [] w (omega (arith, h)),
  (λ name. get-put_all name pairs []),
)
