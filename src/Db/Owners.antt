-- ===== src/Db/Owners.antt =====
-- src/dbresult.cc and src/dbnotify.cc: `Result`, `SharedResult`, `Notify` and `SharedNotify`, objects that own what libpq
-- allocated. An object is the pointer of its base and the smart pointer that owns; only the shared
-- classes can be copied. A smart pointer frees what it lets go of when no other one owns it.
pub mod Counts
pub mod Freed
mod Tests
use harmony_http.Prelude.{
  ℕ, zero, suc, ◌+◌, List, [], ◌∷◌, ◌++◌, length, get_or, set, Bool, true, false, ◌&&◌, Option,
  none, some, ltb, ◌==◌, if◌then◌else◌,
}

-- `pg_result_` (or `pg_notify_`) and `ptr_`, by the number of what they point to.
pub record Owner : Type 0 where
  pub base : Option ℕ
  pub ptr : Option ℕ

-- A destroyed object and one that was moved from hold nothing. `made` is how much libpq allocated so far,
-- and `freed` the calls of the deleter.
pub record Heap : Type 0 where
  pub objects : List Owner
  pub made : ℕ
  pub freed : List ℕ

pub data Op : Type 0 where
  created : Op
  move_made copy_made destroyed : ℕ → Op
  move_assigned copy_assigned : ℕ → ℕ → Op

abbrev pub new_heap : Heap
new_heap = record { objects = []; made = 0; freed = [] }

abbrev pub nothing : Owner
nothing = record { base = none; ptr = none }

unfoldable pub owns : Option ℕ → ℕ → ℕ
owns none p = 0
owns (some q) p = if q == p then 1 else 0

-- How many objects own a pointer.
unfoldable pub owners : List Owner → ℕ → ℕ
unfolding owns
owners [] p = 0
owners (o ∷ os) p = owns o.ptr p + owners os p

-- A smart pointer lets go, with the objects that are left.
unfoldable pub let_go : Option ℕ → List Owner → List ℕ → List ℕ
unfolding owners
let_go none os freed = freed
let_go (some p) os freed = if owners os p == 0 then freed ++ p ∷ [] else freed

-- `Result(void *)`: an object for a new allocation.
unfoldable pub create : Heap → Heap
create h = record h {
  objects = h.objects ++ (record { base = some h.made; ptr = some h.made }) ∷ [];
  made = h.made + 1;
}

-- The move constructor: `ptr_` is taken, `assign` copies the base's pointer and the other's is reset.
unfoldable pub move_make : ℕ → Heap → Heap
move_make i h =
    let o = get_or h.objects i nothing in
    if ltb i (length h.objects) then record h { objects = set h.objects i nothing ++ o ∷ [] } else h

-- The copy constructor of the shared classes.
unfoldable pub copy_make : ℕ → Heap → Heap
copy_make i h =
    let o = get_or h.objects i nothing in
    if ltb i (length h.objects) then record h { objects = h.objects ++ o ∷ [] } else h

-- The destructor.
unfoldable pub destroy : ℕ → Heap → Heap
unfolding let_go
destroy i h =
    let o = get_or h.objects i nothing in
    let os = set h.objects i nothing in
    if ltb i (length h.objects)
    then record h { objects = os; freed = let_go o.ptr os h.freed }
    else h

-- Object i is assigned object j by a move; a smart pointer moved to itself stays as it is.
unfoldable pub move_assign : ℕ → ℕ → Heap → Heap
unfolding let_go
move_assign i j h =
    let o = get_or h.objects i nothing in
    let b = get_or h.objects j nothing in
    let os = set (set h.objects i b) j nothing in
    if ltb i (length h.objects) && ltb j (length h.objects)
    then if i == j
      then record h { objects = set h.objects i (record o { base = none }) }
      else record h { objects = os; freed = let_go o.ptr os h.freed }
    else h

-- Object i is assigned a copy of object j.
unfoldable pub copy_assign : ℕ → ℕ → Heap → Heap
unfolding let_go
copy_assign i j h =
    let o = get_or h.objects i nothing in
    let b = get_or h.objects j nothing in
    let os = set h.objects i b in
    if ltb i (length h.objects) && ltb j (length h.objects)
    then record h { objects = os; freed = let_go o.ptr os h.freed }
    else h

unfoldable pub apply : Op → Heap → Heap
unfolding create move_make copy_make destroy move_assign copy_assign
apply created h = create h
apply (move_made i) h = move_make i h
apply (copy_made i) h = copy_make i h
apply (destroyed i) h = destroy i h
apply (move_assigned i j) h = move_assign i j h
apply (copy_assigned i j) h = copy_assign i j h

unfoldable pub run : List Op → Heap → Heap
unfolding apply
run [] h = h
run (o ∷ ops) h = run ops (apply o h)
