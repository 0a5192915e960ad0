-- ===== src/Response/Tests.antt =====
-- A response with twelve pairs, whose status is set twice.
use harmony_http.Prelude.{ℕ, ◌≡◌, refl, List, [], ◌∷◌}
use harmony_http.Response.{fresh, get_buffer}
use harmony_http.Response.Order.{Op, push, status, run, get_buffer-fresh}

abbrev slots : List ℕ
slots = 90 ∷ 91 ∷ 92 ∷ 93 ∷ 94 ∷ 95 ∷ 96 ∷ 97 ∷ 98 ∷ []

abbrev calls : List (Op ℕ)
calls =
    push 1
    ∷ push 2
    ∷ push 3
    ∷ push 4
    ∷ push 5
    ∷ push 6
    ∷ status 200
    ∷ push 7
    ∷ push 8
    ∷ push 9
    ∷ push 10
    ∷ push 11
    ∷ push 12
    ∷ status 404
    ∷ []

get_buffer-fresh_example :
    get_buffer (run calls (fresh (99 ∷ slots)))
    ≡ 404 ∷ 1 ∷ 2 ∷ 3 ∷ 4 ∷ 5 ∷ 6 ∷ 7 ∷ 8 ∷ 9 ∷ 10 ∷ 11 ∷ 12 ∷ []
get_buffer-fresh_example = get_buffer-fresh 99 slots calls refl
