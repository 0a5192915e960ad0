-- ===== src/Router/Registered.antt =====
-- src/httprouter.cc: the requests that fit registered routes.
use mathlib.Core.Path.{subst}
use harmony_http.Prelude.{
  ℕ, zero, suc, ◌+◌, ◌%◌, ◌^◌, ◌≤◌, sym, ◌≡◌, refl, ap, ◌∙◌, arith, List, [], ◌∷◌, Bytes, some,
  length, get_elem?, map,
}
use harmony_http.Router.{Method, Node, Memory, ok, Answer, npos, found, failed, Vars}
use harmony_http.Router.Level.{NodeData, parse_level}
use harmony_http.Router.Routes.{Routed}
use harmony_http.Router.Complete.{Fit, Answers, root-Answers}
use harmony_http.Router.Indexed.{Indexed}
use harmony_http.Router.Found.{FitsFront, Found, root-Found}
use harmony_http.Router.Paths.{AllLevels, path_of}
use harmony_http.Router.Table.{
  HttpRouter, Dispatch, invoke, AllOf, empty_router, run_handler, after_match, dispatch_route,
  Route, register, AllProper, AllRouted,
}
use harmony_http.Router.AddRoutes.{handler_of, Sized, AllOwn, register-AllRouted}

some-eq : {A : Type 0} {x y : A} → some x ≡ some y → x ≡ y
some-eq e = cc

-- The route of the list that stands at the index has these levels.
abbrev IsRouteAt : {H : Type 0} → List (Route H) → List NodeData → ℕ → Type 0
IsRouteAt {H} xs ds j = (y : Route H) × (get_elem? xs j ≡ some y) × (map parse_level y.levels ≡ ds)

-- The handler of a route of the list is run, with its index, and the levels of the route fit the
-- first levels of the request.
abbrev pub Invokes : {H : Type 0} → List (Route H) → List Bytes → Dispatch H → Type 0
Invokes {H} xs ls d =
    (j : ℕ) × (y : Route H) × (vars : Vars) × (get_elem? xs j ≡ some y)
    × FitsFront (map parse_level y.levels) ls
    × (d ≡ invoke j y.handler vars)

handler-at :
    {H : Type 0} (xs : List (Route H)) (j : ℕ) (y : Route H)
    → get_elem? xs j ≡ some y
    → get_elem? (map handler_of xs) j ≡ some y.handler
handler-at [] j y e = cc
handler-at (x ∷ xs) zero y e = ap (λ z. some z.handler) (some-eq e)
handler-at (x ∷ xs) (suc j) y e = handler-at xs j y e

Found-Invokes :
    {H : Type 0} (m : Method) (xs : List (Route H)) (ls : List Bytes) (handlers : List H)
    (r : Answer × Vars)
    → handlers ≡ map handler_of xs
    → Answers r
    → Found m (IsRouteAt xs) [] ls r.0
    → Invokes xs ls (after_match handlers r)
unfolding after_match run_handler
Found-Invokes m xs ls handlers (npos, v) e h f = absurd (h refl)
Found-Invokes m xs ls handlers (found j, v) e h (ds, (y, at_j, levels), front) = (
  j,
  y,
  v,
  at_j,
  subst (λ x. FitsFront x ls) (sym levels) front,
  rw (run_handler, ap (λ l. get_elem? l j) e, handler-at xs j y at_j) refl,
)
Found-Invokes m xs ls handlers (failed, v) e h f = absurd f

-- The routes behind the first `k` of a list of at most 2^16.
AllOwn-IsRouteAt :
    {H : Type 0} (all xs : List (Route H)) (k : ℕ)
    → ((j : ℕ) → get_elem? all (k + j) ≡ get_elem? xs j)
    → k + length xs ≤ 2 ^ 16
    → AllOwn (IsRouteAt all) k xs
AllOwn-IsRouteAt all [] k h fits = tt
AllOwn-IsRouteAt all (x ∷ xs) k h fits =
    let small : k % 2 ^ 16 ≡ k = omega arith in
    let first : k + 0 ≡ k = omega arith in
    (
      (x, ap (get_elem? all) small ∙ ap (get_elem? all) (sym first) ∙ h 0, refl),
      AllOwn-IsRouteAt all xs (suc k)
          (λ j.
            let next : suc k + j ≡ k + suc j = omega arith in ap (get_elem? all) next ∙ h (suc j))
          (omega arith),
    )

Fit-AllLevels : (ds : List NodeData) (ls : List Bytes) → Fit ds ls → AllLevels ls
Fit-AllLevels [] [] f = tt
Fit-AllLevels [] (l ∷ ls) f = absurd f
Fit-AllLevels (d ∷ ds) [] f = absurd f
Fit-AllLevels (d ∷ ds) (l ∷ ls) (inner, fit, p, f) = (p, Fit-AllLevels ds ls f)

AllRouted-at :
    {H : Type 0} (xs : List (Route H)) (n : Node) (i : ℕ) (x : Route H)
    → get_elem? xs i ≡ some x
    → AllRouted xs n
    → Routed x.method (map parse_level x.levels) n
AllRouted-at [] n i x e a = cc
AllRouted-at (y ∷ ys) n zero x e (r, a) =
    subst (λ z. Routed z.method (map parse_level z.levels) n) (some-eq e) r
AllRouted-at (y ∷ ys) n (suc i) x e (r, a) = AllRouted-at ys n i x e a

-- At most 2^16 routes whose levels are non-empty and hold no slash are all registered, in any order
-- and whatever the uninitialised members of each new node hold, of which the array of indices has 8
-- entries. If all routes are of one method, then for a request of this method whose levels fit a
-- registered route `dispatch_route` runs a handler: it does not return false, read `handlers_` out of
-- range or stop at an assertion. The handler is that of a registered route whose levels fit the
-- request's levels, or the first of them.
pub register_handles :
    {H : Type 0} (memory : ℕ → ℕ → Memory) (first : Memory) (xs : List (Route H)) (i : ℕ)
    (x : Route H) (ls : List Bytes)
    → Sized memory
    → length first.route_index ≡ 8
    → AllProper xs
    → AllOf x.method xs
    → length xs ≤ 2 ^ 16
    → get_elem? xs i ≡ some x
    → Fit (map parse_level x.levels) ls
    → (r : HttpRouter H) × (register memory (empty_router first) xs ≡ ok r)
      × Invokes xs ls (dispatch_route x.method (path_of ls) r)
unfolding dispatch_route Indexed
register_handles memory first xs i x ls sized size p same few at_i fit =
    let (r, made, e, k, all, handlers, indexed) =
      register-AllRouted memory xs (empty_router first) sized p refl in
    let own =
      AllOwn-IsRouteAt xs xs 0
        (λ j. let same_index : 0 + j ≡ j = omega arith in ap (get_elem? xs) same_index)
        (omega arith) in
    let right = indexed x.method (IsRouteAt xs) same own (size, tt, tt) in
    (
      r,
      made,
      Found-Invokes x.method xs ls r.handlers _ handlers
          (root-Answers x.method ls [] (AllRouted-at xs r.root_node i x at_i all) e fit)
          (root-Found x.method (IsRouteAt xs) r.root_node ls [] e
            (Fit-AllLevels (map parse_level x.levels) ls fit) right),
    )
