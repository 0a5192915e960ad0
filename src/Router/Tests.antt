-- ===== src/Router/Tests.antt =====
-- Routes and requests on which the router's theorems apply.
use harmony_http.Prelude.{
  ℕ, ◌≡◌, refl, arith, List, [], ◌∷◌, map, Bytes, true, false, codes, bytes_eq,
}
use harmony_http.Router.{
  get, post, Node, node, nil, cons, Memory, ok, insert_path, insert_level, place, mark_new, or_bit,
  has_bit, npos, match, match_level, or_else, at_node, pop_back,
}
use harmony_http.Router.Level.{
  param_string, root, fits, parse_level, break_at, split_path, starts_slash, all_digits, captures,
}
use harmony_http.Router.Routes.{Routed, stop}
use harmony_http.Router.Vars.{match_restores_vars}
use harmony_http.Router.Paths.{AllLevels, path_of}
use harmony_http.Router.Complete.{Fit}
use harmony_http.Router.Table.{
  HttpRouter, Route, empty_router, register, dispatch_route, AllProper, AllOf,
}
use harmony_http.Router.Registered.{Invokes, register_handles}

abbrev memory : Memory
memory = record { methods = 5; route_index = 7 ∷ 7 ∷ 7 ∷ 7 ∷ 7 ∷ 7 ∷ 7 ∷ 7 ∷ [] }

-- GET /a/{id:int}, GET /a and GET /.
abbrev user_levels : List Bytes
user_levels = codes "a" ∷ codes "{id:int}" ∷ []

abbrev user_route : Route ℕ
user_route = record { method = get; levels = user_levels; handler = 10 }

abbrev routes : List (Route ℕ)
routes =
    user_route
    ∷ record { method = get; levels = codes "a" ∷ []; handler = 11 }
    ∷ record { method = get; levels = []; handler = 12 }
    ∷ []

abbrev request : List Bytes
request = codes "a" ∷ codes "42" ∷ []

routes-AllProper : AllProper routes
routes-AllProper = (
  (
    (omega arith, tt),
    (
      (
        omega arith,
        (
          omega arith,
          (
            omega arith,
            (omega arith, (omega arith, (omega arith, (omega arith, (omega arith, tt))))),
          ),
        ),
      ),
      tt,
    ),
  ),
  (((omega arith, tt), tt), (tt, tt)),
)

request-Fit : Fit (map parse_level user_levels) request
unfolding fits parse_level break_at all_digits bytes_eq
request-Fit = (refl, refl, (omega arith, tt), (refl, refl, (omega arith, (omega arith, tt)), tt))

routes-AllOf : AllOf get routes
routes-AllOf = (refl, (refl, (refl, tt)))

register_handles_example :
    (r : HttpRouter ℕ) × (register (λ h n. memory) (empty_router memory) routes ≡ ok r)
    × Invokes routes request (dispatch_route get (path_of request) r)
register_handles_example =
    register_handles (λ h n. memory) memory routes 0 user_route request (λ h n. refl) refl
      routes-AllProper routes-AllOf (omega arith) refl request-Fit

user-AllLevels : AllLevels user_levels
user-AllLevels = routes-AllProper.0

-- A root whose route is "/", before and after POST /b is inserted.
abbrev before : Node
before = node (record { kind = root; label = [] }) true 1 (9 ∷ 7 ∷ []) nil

abbrev after : Node
after =
    node (record { kind = root; label = [] }) true 3 (9 ∷ 7 ∷ [])
      (cons (node (parse_level (codes "b")) true 2 (7 ∷ 4 ∷ 7 ∷ 7 ∷ 7 ∷ 7 ∷ 7 ∷ 7 ∷ []) nil) nil)

after-inserted : insert_path (λ n. memory) post 4 3 (path_of (codes "b" ∷ [])) before ≡ ok after
unfolding insert_path insert_level place mark_new or_bit has_bit split_path starts_slash break_at
    bytes_eq
after-inserted = refl

before-Routed : Routed get [] before
unfolding has_bit
before-Routed = stop (record { kind = root; label = [] }) 1 (9 ∷ 7 ∷ []) nil refl

-- A level that is captured, with no route at its node and no child.
abbrev dead_end : Node
dead_end = node (record { kind = param_string; label = codes "id" }) false 1 [] nil

dead_end-npos : (match get dead_end (codes "/x/y") (codes "v" ∷ [])).0 ≡ npos
unfolding match match_level or_else at_node pop_back has_bit split_path starts_slash break_at fits
    captures bytes_eq
dead_end-npos = refl

match_restores_vars_example :
    (match get dead_end (codes "/x/y") (codes "v" ∷ [])).1 ≡ codes "v" ∷ []
match_restores_vars_example =
    match_restores_vars get dead_end (codes "/x/y") (codes "v" ∷ []) dead_end-npos
