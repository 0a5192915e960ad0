-- ===== src/Events.antt =====
-- src/event.h and src/eventdispatcher.cc: events, and the registry of a worker's event streams by
-- channel. A stream is known by a number in place of its address; a slot that `remove` cleared is
-- none. Views that `std::visit` makes of a payload are its bytes.
pub mod Registry
pub mod Stream
pub mod Text
pub mod Sent
pub mod Chunks
mod Tests
use harmony_http.Prelude.{
  ℕ, List, [], ◌∷◌, Bytes, bytes_eq, Option, some, none, ◌==◌, if◌then◌else◌,
}
use harmony_http.Router.Level.{break_at}

pub record Event : Type 0 where
  pub name : Bytes
  pub channel : Bytes
  pub content : Bytes

-- The constructors: the name is the channel up to its first slash.
unfoldable pub make_event : Bytes → Bytes → Event
unfolding break_at
make_event channel payload = record {
  name = (break_at b'/' channel).0;
  channel = channel;
  content = payload;
}

abbrev pub Slots : Type 0
Slots = List (Option ℕ)

abbrev pub Channels : Type 0
Channels = List (Bytes × Slots)

-- The first cleared slot is used again.
unfoldable pub insert_stream : ℕ → Slots → Slots
insert_stream es [] = some es ∷ []
insert_stream es (none ∷ vec) = some es ∷ vec
insert_stream es (some e ∷ vec) = some e ∷ insert_stream es vec

unfoldable pub suscribe : Bytes → ℕ → Channels → Channels
unfolding insert_stream
suscribe channel es [] = (channel, some es ∷ []) ∷ []
suscribe channel es ((k, vec) ∷ registry) =
    let rest = suscribe channel es registry in
    if bytes_eq k channel then (k, insert_stream es vec) ∷ registry else (k, vec) ∷ rest

unfoldable pub clear_stream : ℕ → Slots → Slots
clear_stream es [] = []
clear_stream es (none ∷ vec) = none ∷ clear_stream es vec
clear_stream es (some e ∷ vec) = (if e == es then none else some e) ∷ clear_stream es vec

unfoldable pub remove : ℕ → Channels → Channels
unfolding clear_stream
remove es [] = []
remove es ((k, vec) ∷ registry) = (k, clear_stream es vec) ∷ remove es registry

unfoldable pub live : Slots → List ℕ
live [] = []
live (none ∷ vec) = live vec
live (some e ∷ vec) = e ∷ live vec

-- The streams that `publish` submits an event of the channel to, in their order.
unfoldable pub receivers : Bytes → Channels → List ℕ
unfolding live
receivers channel [] = []
receivers channel ((k, vec) ∷ registry) =
    let rest = receivers channel registry in if bytes_eq k channel then live vec else rest

-- `es->submit(event)` for each of them.
abbrev pub submit_all : Event → List ℕ → List (ℕ × Event)
submit_all event [] = []
submit_all event (es ∷ ess) = (es, event) ∷ submit_all event ess

unfoldable pub publish : Event → Channels → List (ℕ × Event)
unfolding receivers
publish event registry = submit_all event (receivers event.channel registry)
