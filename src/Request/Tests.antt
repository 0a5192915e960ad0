-- ===== src/Request/Tests.antt =====
-- Bodies in three chunks, with a handler registered after the first.
use harmony_http.Prelude.{
  ◌≡◌, refl, arith, List, [], ◌∷◌, ◌++◌, Bytes, codes, bytes_eq, take, map, false,
}
use harmony_http.Router.Paths.{path_of}
use harmony_http.Request.Params
use harmony_http.Request.Params.{Segment, static, variable, text, value, get_param, get_param_lem}
use harmony_http.Request.{new_request, on_data, handle_body}
use harmony_http.Request.Delivery.{receive, ChunkCalls, on_data_lem}

abbrev early : List Bytes
early = codes "ab" ∷ []

abbrev late : List Bytes
late = codes "c" ∷ codes "de" ∷ []

on_data_lem_example :
    ChunkCalls
      (handle_body (receive late (on_data (receive early new_request)))).delivered
      (codes "abcde")
on_data_lem_example = on_data_lem early late

-- The route "/users/{id:int}/{name}".
abbrev before_name : List Segment
before_name = static (codes "users") ∷ variable (codes "id:int}") ∷ []

id-Misses : (rest : Bytes) → bytes_eq (take 4 (codes "id:int}" ++ rest)) (codes "name") ≡ false
unfolding bytes_eq
id-Misses rest = refl

get_param_lem_example :
    get_param
      (path_of (map text (before_name ++ variable (codes "name" ++ codes "}") ∷ [])))
      (codes "name")
      (codes "7" ∷ codes "bob" ∷ [])
    ≡ value (codes "bob")
get_param_lem_example =
    get_param_lem (codes "name") (codes "}") (codes "7" ∷ codes "bob" ∷ []) [] before_name
      (ground arith) (id-Misses, tt)

-- A label is also found at a variable that it is a prefix of.
get_param_prefix :
    get_param (codes "/{name}/{na}") (codes "na") (codes "a" ∷ codes "b" ∷ []) ≡ value (codes "a")
unfolding get_param Params.param_loop Params.after_brace Params.try_label bytes_eq
get_param_prefix = refl
