-- ===== src/Router/AddRoutes.antt =====
-- src/httprouter.cc: routes registered one after another.
use mathlib.Core.Path.{subst}
use harmony_http.Prelude.{
  ℕ, suc, ◌%◌, ◌^◌, ◌≤◌, sym, append-nil, append_assoc, ◌≡◌, refl, ap, ◌∙◌, arith, List, [], ◌∷◌,
  ◌++◌, Bytes, length, map, length-append,
}
use harmony_http.Router.{Method, Node, Memory, data_of, ok}
use harmony_http.Router.Level.{NodeData, root, parse_level}
use harmony_http.Router.Routes.{Routed, Keeps, Keeps-refl, insert_path-Keeps}
use harmony_http.Router.Adding.{insert_path-Routed}
use harmony_http.Router.Indexed.{Indexed, insert_path-Indexed}
use harmony_http.Router.Paths.{AllLevels, join, path_of}
use harmony_http.Router.Table.{HttpRouter, AllOf, add_route, Route, register, AllProper, AllRouted}

length-join : (ls : List Bytes) → length ls ≤ length (join ls)
length-join [] = omega arith
length-join (l ∷ ls) = omega (arith, length-join ls, length-append {0} l (join ls))

length-path_of : (ls : List Bytes) → length ls ≤ length (path_of ls)
length-path_of [] = omega arith
length-path_of (l ∷ ls) = length-join (l ∷ ls)

abbrev pub handler_of : {H : Type 0} → Route H → H
handler_of x = x.handler

AllRouted-Keeps :
    {H : Type 0} (xs : List (Route H)) {n n' : Node} → Keeps n n' → AllRouted xs n → AllRouted xs n'
AllRouted-Keeps [] k a = tt
AllRouted-Keeps (x ∷ xs) k (r, a) =
    (k.routes x.method (map parse_level x.levels) r, AllRouted-Keeps xs k a)

-- A call keeps the indices of a method those of its routes, if its own is one.
abbrev IndexedFor : {H : Type 0} → Route H → HttpRouter H → HttpRouter H → Type 1
IndexedFor x r r' =
    (P : List NodeData → ℕ → Type 0)
    → P (map parse_level x.levels) (length r.handlers % 2 ^ 16)
    → Indexed x.method P [] r.root_node
    → Indexed x.method P [] r'.root_node

-- Every node's array holds a place for each method.
abbrev pub Sized : (ℕ → ℕ → Memory) → Type 0
Sized memory = (h n : ℕ) → length (memory h n).route_index ≡ 8

add_route-Routed :
    {H : Type 0} (memory : ℕ → ℕ → Memory) (x : Route H) (r : HttpRouter H)
    → Sized memory
    → AllLevels x.levels
    → (data_of r.root_node).kind ≡ root
    → (r' : HttpRouter H) × (add_route memory x.method (path_of x.levels) x.handler r ≡ ok r')
      × ((data_of r'.root_node).kind ≡ root)
      × Keeps r.root_node r'.root_node
      × Routed x.method (map parse_level x.levels) r'.root_node
      × (r'.handlers ≡ r.handlers ++ x.handler ∷ [])
      × IndexedFor x r r'
unfolding add_route
add_route-Routed memory x r sized p e =
    let h = length r.handlers in
    let path = path_of x.levels in
    let fuel = suc (length path) in
    let (n', made, same, routed) =
      insert_path-Routed (memory h) x.method h x.levels fuel r.root_node p
        (omega (arith, length-path_of x.levels)) e in
    (
      record {
        root_node = n';
        handlers = r.handlers ++ x.handler ∷ [];
        route_paths = r.route_paths ++ path ∷ [];
      },
      rw made refl,
      ap (λ d. d.kind) same ∙ e,
      insert_path-Keeps (memory h) x.method h fuel path r.root_node n' made,
      routed,
      refl,
      λ P own i.
          insert_path-Indexed x.method P h (memory h) (sized h) x.levels fuel r.root_node n' p own e
            made i,
    )

-- Every route of the list may have the index that it gets behind those that stand before it.
abbrev pub AllOwn : {H : Type 0} → (List NodeData → ℕ → Type 0) → ℕ → List (Route H) → Type 0
AllOwn P k [] = Unit {0}
AllOwn P k (x ∷ xs) = P (map parse_level x.levels) (k % 2 ^ 16) × AllOwn P (suc k) xs

pub register-AllRouted :
    {H : Type 0} (memory : ℕ → ℕ → Memory) (xs : List (Route H)) (r : HttpRouter H)
    → Sized memory
    → AllProper xs
    → (data_of r.root_node).kind ≡ root
    → (r' : HttpRouter H) × (register memory r xs ≡ ok r')
      × ((data_of r'.root_node).kind ≡ root)
      × Keeps r.root_node r'.root_node
      × AllRouted xs r'.root_node
      × (r'.handlers ≡ r.handlers ++ map handler_of xs)
      × ((m : Method) (P : List NodeData → ℕ → Type 0)
          → AllOf m xs
          → AllOwn P (length r.handlers) xs
          → Indexed m P [] r.root_node
          → Indexed m P [] r'.root_node)
unfolding register
register-AllRouted memory [] r sized p e =
    (r, refl, e, Keeps-refl r.root_node, tt, sym (append-nil r.handlers), λ m P same own i. i)
register-AllRouted memory (x ∷ xs) r sized (p, ps) e =
    let (r₁, made, e₁, k₁, routed, one, indexed) = add_route-Routed memory x r sized p e in
    let (r₂, rest, e₂, k₂, all, others, more) = register-AllRouted memory xs r₁ sized ps e₁ in
    let size : suc (length r.handlers) ≡ length r₁.handlers =
      omega (arith, ap length one, length-append {0} r.handlers (x.handler ∷ [])) in
    (
      r₂,
      rw (made, register) rest,
      e₂,
      record {
        same_data = k₂.same_data ∙ k₁.same_data;
        routes = λ k ds t. k₂.routes k ds (k₁.routes k ds t);
      },
      (k₂.routes x.method (map parse_level x.levels) routed, all),
      others
          ∙ ap (λ l. l ++ map handler_of xs) one
          ∙ append_assoc r.handlers (x.handler ∷ []) (map handler_of xs),
      λ m P same own i. more m P same.1 (subst (λ k. AllOwn P k xs) size own.1) (
          subst (λ k. Indexed k P [] r₁.root_node) same.0
            (indexed P own.0 (subst (λ k. Indexed k P [] r.root_node) (sym same.0) i))),
    )
