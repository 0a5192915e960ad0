-- ===== src/Worker/Laws.antt =====
-- What is relied on of the queue: it hands out what was put in, once and in order.
use harmony_http.Prelude.{ℕ, ◌≡◌, List, [], ◌∷◌, ◌++◌, Option, none, some}
use harmony_http.Worker.{FdQueue}

-- What `try_dequeue` does to the contents.
abbrev pub Hands : {Q : Type 0} → (Q → List ℕ) → List ℕ → Option ℕ × Q → Type 0
Hands held xs (none, q) = (xs ≡ []) × (held q ≡ [])
Hands held xs (some fd, q) = xs ≡ fd ∷ held q

pub record IsFifo {Q : Type 0} (queue : FdQueue Q) (held : Q → List ℕ) : Type 0 where
  pub puts : (fd : ℕ) (q : Q) → held (queue.emplace fd q) ≡ held q ++ fd ∷ []
  pub takes : (q : Q) → Hands held (held q) (queue.try_dequeue q)
