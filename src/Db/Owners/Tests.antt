-- ===== src/Db/Owners/Tests.antt =====
-- A shared result that is copied, moved and let go, and a second one.
use harmony_http.Prelude.{◌≡◌, refl, List, [], ◌∷◌, some, none}
use harmony_http.Db.Owners
use harmony_http.Db.Owners.{
  Op, Owner, Heap, created, move_made, copy_made, destroyed, move_assigned, copy_assigned, new_heap,
  run,
}
use harmony_http.Db.Owners.Counts.{IsSettled}
use harmony_http.Db.Owners.Freed.{run-IsSettled}

abbrev ops : List Op
ops =
    created
    ∷ copy_made 0
    ∷ created
    ∷ destroyed 0
    ∷ move_made 1
    ∷ move_assigned 3 2
    ∷ copy_assigned 1 3
    ∷ destroyed 3
    ∷ []

run_runs : run ops new_heap ≡ record {
  objects =
      record { base = none; ptr = none }
      ∷ record { base = some 1; ptr = some 1 }
      ∷ record { base = none; ptr = none }
      ∷ record { base = none; ptr = none }
      ∷ [];
  made = 2;
  freed = 0 ∷ [];
}
unfolding run Owners.apply Owners.create Owners.move_make Owners.copy_make Owners.destroy
    Owners.move_assign Owners.copy_assign Owners.let_go Owners.owners Owners.owns
run_runs = refl

run-IsSettled_example : IsSettled (run ops new_heap)
run-IsSettled_example = run-IsSettled ops
