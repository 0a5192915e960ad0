-- ===== src/Events/Registry.antt =====
-- src/eventdispatcher.cc: sequences of `suscribe` and `remove`, and whom `publish` reaches.
use harmony_http.Prelude.{
  ℕ, ◌≡◌, refl, sym, ap, ◌∙◌, arith, List, [], ◌∷◌, Bytes, Bool, true, false, ◌&&◌, ◌||◌,
  Bool-cases, inl, inr, bytes_eq, bytes_eq_refl, bytes_eq_sound, some, none, ◌==◌, if◌then◌else◌,
}
use harmony_http.Events.{
  Event, Slots, Channels, insert_stream, suscribe, clear_stream, remove, live, receivers,
  submit_all, publish,
}

pub data Op : Type 0 where
  listen : Bytes → ℕ → Op
  remove_stream : ℕ → Op

unfoldable pub run : List Op → Channels → Channels
run [] registry = registry
run (listen channel es ∷ ops) registry = run ops (suscribe channel es registry)
run (remove_stream es ∷ ops) registry = run ops (remove es registry)

-- Whether a stream listens to a channel: it did so after it was last removed.
unfoldable pub listens : Bytes → ℕ → List Op → Bool → Bool
listens channel es [] now = now
listens channel es (listen k e ∷ ops) now =
    listens channel es ops ((bytes_eq k channel && (e == es)) || now)
listens channel es (remove_stream e ∷ ops) now =
    listens channel es ops (if e == es then false else now)

abbrev member_of : ℕ → List ℕ → Bool
member_of es [] = false
member_of es (e ∷ ess) = (e == es) || member_of es ess

-- Whether `publish` submits to the stream.
abbrev pub submitted : ℕ → List (ℕ × Event) → Bool
submitted es [] = false
submitted es ((e, event) ∷ rest) = (e == es) || submitted es rest

submitted-submit_all :
    (es : ℕ) (event : Event) (ess : List ℕ) → submitted es (submit_all event ess) ≡ member_of es ess
submitted-submit_all es event [] = refl
submitted-submit_all es event (e ∷ ess) =
    ap (λ b. (e == es) || b) (submitted-submit_all es event ess)

or-swap : (a b c : Bool) → a || (b || c) ≡ b || (a || c)
or-swap true true c = refl
or-swap true false c = refl
or-swap false b c = refl

member_of-insert_stream :
    (es e : ℕ) (vec : Slots)
    → member_of es (live (insert_stream e vec)) ≡ (e == es) || member_of es (live vec)
unfolding live insert_stream
member_of-insert_stream es e [] = refl
member_of-insert_stream es e (none ∷ vec) = refl
member_of-insert_stream es e (some x ∷ vec) =
    ap (λ b. (x == es) || b) (member_of-insert_stream es e vec)
    ∙ or-swap (x == es) (e == es) (member_of es (live vec))

same-number : (a b : ℕ) → (a == b) ≡ true → a ≡ b
same-number a b h = ground arith

other-number : (a b c : ℕ) → (a == b) ≡ false → (b == c) ≡ true → (a == c) ≡ false
other-number a b c h k = ground arith

member_of-clear_stream :
    (es e : ℕ) (vec : Slots)
    → member_of es (live (clear_stream e vec))
      ≡ (if e == es then false else member_of es (live vec))
unfolding live clear_stream
member_of-clear_stream es e [] = elim (Bool-cases (e == es)) [
  | inl h ↦ rw h refl
  | inr h ↦ rw h refl
]
member_of-clear_stream es e (none ∷ vec) = member_of-clear_stream es e vec
member_of-clear_stream es e (some x ∷ vec) =
    let below = member_of-clear_stream es e vec in
    elim (Bool-cases (x == e)) [
      | inl same ↦ elim (Bool-cases (e == es)) [
        | inl h ↦ rw (same, h) (rw h at below)
        | inr h ↦
            let x_other : (x == es) ≡ false = ap (λ y. y == es) (same-number x e same) ∙ h in
            rw (same, h, x_other) (rw h at below)
      ]
      | inr differs ↦ elim (Bool-cases (e == es)) [
        | inl h ↦ rw (differs, h, other-number x e es differs h) (rw h at below)
        | inr h ↦ rw (differs, h) (ap (λ b. (x == es) || b) (rw h at below))
      ]
    ]

true-false : true ≡ false → ⊥
true-false e = cc

bytes_eq-false_sym : (a b : Bytes) → bytes_eq a b ≡ false → bytes_eq b a ≡ false
bytes_eq-false_sym a b h = elim (Bool-cases (bytes_eq b a)) [
  | inr e ↦ e
  | inl e ↦
      absurd (
        true-false
          (sym (bytes_eq_refl a) ∙ ap (λ x. bytes_eq a x) (sym (bytes_eq_sound b a e)) ∙ h))
]

-- A channel's slots decide alone who receives its events.
member_of-suscribe :
    (channel k : Bytes) (es e : ℕ) (registry : Channels)
    → member_of es (receivers channel (suscribe k e registry))
      ≡ (bytes_eq k channel && (e == es)) || member_of es (receivers channel registry)
unfolding receivers suscribe
member_of-suscribe channel k es e [] = elim (Bool-cases (bytes_eq k channel)) [
  | inl h ↦ rw h (unfold live in refl)
  | inr h ↦ rw h refl
]
member_of-suscribe channel k es e ((j, vec) ∷ registry) = elim (Bool-cases (bytes_eq j k)) [
  | inl same ↦
      let e_jk = bytes_eq_sound j k same in
      elim (Bool-cases (bytes_eq k channel)) [
        | inl h ↦
            let hj = ap (λ x. bytes_eq x channel) e_jk ∙ h in
            rw (same, hj, h) (member_of-insert_stream es e vec)
        | inr h ↦ let hj = ap (λ x. bytes_eq x channel) e_jk ∙ h in rw (same, hj, h) refl
      ]
  | inr differs ↦ elim (Bool-cases (bytes_eq j channel)) [
    | inl h ↦
        let away =
          ap (λ x. bytes_eq k x) (sym (bytes_eq_sound j channel h))
          ∙ bytes_eq-false_sym j k differs in
        rw (differs, h, away) refl
    | inr h ↦ rw (differs, h) (member_of-suscribe channel k es e registry)
  ]
]

member_of-remove :
    (channel : Bytes) (es e : ℕ) (registry : Channels)
    → member_of es (receivers channel (remove e registry))
      ≡ (if e == es then false else member_of es (receivers channel registry))
unfolding receivers remove
member_of-remove channel es e [] = elim (Bool-cases (e == es)) [
  | inl h ↦ rw h refl
  | inr h ↦ rw h refl
]
member_of-remove channel es e ((k, vec) ∷ registry) = elim (Bool-cases (bytes_eq k channel)) [
  | inl h ↦ rw h (member_of-clear_stream es e vec)
  | inr h ↦ rw h (member_of-remove channel es e registry)
]

member_of-run :
    (channel : Bytes) (es : ℕ) (ops : List Op) (registry : Channels)
    → member_of es (receivers channel (run ops registry))
      ≡ listens channel es ops (member_of es (receivers channel registry))
unfolding run listens
member_of-run channel es [] registry = refl
member_of-run channel es (listen k e ∷ ops) registry =
    member_of-run channel es ops (suscribe k e registry)
    ∙ ap (listens channel es ops) (member_of-suscribe channel k es e registry)
member_of-run channel es (remove_stream e ∷ ops) registry =
    member_of-run channel es ops (remove e registry)
    ∙ ap (listens channel es ops) (member_of-remove channel es e registry)

-- After any subscriptions and removals, in any order, an event is submitted to a stream exactly if
-- the stream subscribed to the event's channel after it was last removed.
pub submitted-publish :
    (event : Event) (es : ℕ) (ops : List Op)
    → submitted es (publish event (run ops [])) ≡ listens event.channel es ops false
unfolding publish receivers
submitted-publish event es ops =
    submitted-submit_all es event (receivers event.channel (run ops []))
    ∙ member_of-run event.channel es ops []
