-- ===== src/Router/Find.antt =====
-- src/router.zig, `findHandler`: the query is split off and read, then the path is matched in the
-- tree of its method and, for a HEAD, in that of GET.
use dusty.Base.{
  ℕ, ◌+◌, Bool, true, List, [], ◌∷◌, Option, none, some, ◌==◌, length, cut_at, split_scalar,
}
use dusty.Router.{Route}
use dusty.Router.Params.{Params}
use dusty.Router.Match.{Answer, route, no_route, too_many_params, match_in}
use dusty.Router.Query.{Query, parsed, too_many_query_params, invalid_escape, parse_query_string}
use dusty.Router.Register.{Router, get_method, head_method}

-- The segments of the path that are not empty, with their offsets.
unfoldable pub segments_from : ℕ → List (List ℕ) → List (List ℕ × ℕ)
segments_from offset [] = []
segments_from offset ([] ∷ parts) = segments_from (offset + 0 + 1) parts
segments_from offset ((b ∷ bs) ∷ parts) =
    (b ∷ bs, offset) ∷ segments_from (offset + length (b ∷ bs) + 1) parts

pub record Limits : Type 0 where
  pub max_param_count : ℕ
  pub max_query_count : ℕ

pub data Reply : Type 0 where
  handler : Route → Reply
  no_handler : Reply
  params_error : Reply
  query_error : Reply
  escape_error : Reply

-- What is returned, and the parameters and the query of the request then.
pub record Found : Type 0 where
  pub reply : Reply
  pub params : Params
  pub query : Params

abbrev pub reply_to : Answer → Params → Found
reply_to (route r ps) query = record { reply = handler r; params = ps; query = query }
reply_to (no_route ps) query = record { reply = no_handler; params = ps; query = query }
reply_to (too_many_params ps) query = record { reply = params_error; params = ps; query = query }

abbrev pub or_get : (Params → Answer) → Bool → Answer → Answer
or_get in_get true (no_route ps) = in_get ps
or_get in_get head answer = answer

module _ (router : Router) (limits : Limits) (method : ℕ) where
  -- Behind the query, with the parameters that the request comes with.
  unfoldable pub find_path : List ℕ → Params → Answer
  unfolding match_in segments_from split_scalar
  find_path path ps =
      let segments = segments_from 0 (split_scalar b'/' path) in
      or_get (λ qs. match_in (limits.max_param_count) path segments (router.trees get_method) qs)
        (method == head_method)
        (match_in (limits.max_param_count) path segments (router.trees method) ps)

  abbrev pub find_after : List ℕ → Params → Query → Found
  find_after path ps (parsed query) = reply_to (find_path path ps) query
  find_after path ps (too_many_query_params query) = record {
    reply = query_error;
    params = ps;
    query = query;
  }
  find_after path ps (invalid_escape query) = record {
    reply = escape_error;
    params = ps;
    query = query;
  }

  abbrev pub find_cut : List ℕ → Params → Option (List ℕ × List ℕ) → Found
  find_cut url ps none = find_after url ps (parsed [])
  find_cut url ps (some (path, query_string)) =
      find_after path ps (parse_query_string (limits.max_query_count) query_string [])

  unfoldable pub find_handler : List ℕ → Params → Found
  unfolding find_path parse_query_string cut_at
  find_handler url ps = find_cut url ps (cut_at b'?' url)
