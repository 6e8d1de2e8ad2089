-- ===== src/Concurrency/MoveContainer.antt =====
-- src/concurrency/move_container.cpp: the last move of every player, and whether it is new.
use computer_networks_projec.Base.{
  ℕ, zero, suc, ◌≡◌, refl, ◌∙◌, ◌==◌, Bool, true, false, Option, none, some, List, [], ◌∷◌, arith,
  leb, if◌then◌else◌, length, get_elem?, set, replicate, length-replicate, length-set,
  get_elem?-set, get_elem?_beyond,
}
use computer_networks_projec.Messages.{ClientMessage, join}

-- `container_t`
abbrev pub Slots : Type 0
Slots = List (Bool × ClientMessage)

-- `MoveContainer(num_slots)`; a `ClientMessage` starts as its first alternative.
unfoldable pub create : ℕ → Slots
create num_slots = replicate num_slots (false, join [])

-- The slots are marked one after the other while the mutex is held.
unfoldable pub mark_seen : Slots → Slots
mark_seen [] = []
mark_seen ((updated, m) ∷ slots) = (false, m) ∷ mark_seen slots

-- The snapshot, and the container after it.
unfoldable pub atomic_snapshot_and_clear : Slots → Slots × Slots
unfolding mark_seen
atomic_snapshot_and_clear slots = (slots, mark_seen slots)

-- `none`: `std::runtime_error`.
unfoldable pub update_slot : ℕ → ClientMessage → Slots → Option Slots
update_slot slot_id m slots =
    if leb (length slots) slot_id then none else some (set slots slot_id (true, m))

pub length-create : (num_slots : ℕ) → length (create num_slots) ≡ num_slots
unfolding create
length-create num_slots = length-replicate {A = Bool × ClientMessage} num_slots (false, join [])

pub length-mark_seen : (slots : Slots) → length (mark_seen slots) ≡ length slots
unfolding mark_seen
length-mark_seen [] = refl
length-mark_seen ((b, m) ∷ slots) = omega (arith, length-mark_seen slots)

-- What a call of `update_slot` leaves in the container; one that throws changes nothing.
unfoldable pub written : ℕ → ClientMessage → Slots → Slots
unfolding update_slot
written id m slots = elim (update_slot id m slots) [ none ↦ slots | some slots' ↦ slots' ]

-- A sequence of calls of `update_slot`.
unfoldable pub receive : List (ℕ × ClientMessage) → Slots → Slots
unfolding written
receive [] slots = slots
receive ((id, m) ∷ updates) slots = receive updates (written id m slots)

-- The last of the moves for a slot.
unfoldable pub last_move : ℕ → List (ℕ × ClientMessage) → Option ClientMessage
last_move id [] = none
last_move id ((j, m) ∷ updates) =
    let later = last_move id updates in
    elim later [ some n ↦ some n | none ↦ if j == id then some m else none ]

-- A slot keeps what it held, unless one of the moves is for it.
abbrev pub overwritten :
    Option ClientMessage → Option (Bool × ClientMessage) → Option (Bool × ClientMessage)
overwritten m none = none
overwritten none (some slot) = some slot
overwritten (some m) (some slot) = some (true, m)

-- A new move replaces the old one, and is marked as new.
get_elem?-written :
    (i id : ℕ) (m : ClientMessage) (slots : Slots)
    → get_elem? (written id m slots) i
      ≡ overwritten (if id == i then some m else none) (get_elem? slots i)
unfolding written update_slot
get_elem?-written i id m slots =
    ground (arith, get_elem?-set slots id i (true, m), get_elem?_beyond slots i)

pub length-written :
    (id : ℕ) (m : ClientMessage) (slots : Slots) → length (written id m slots) ≡ length slots
unfolding written update_slot
length-written id m slots = ground (arith, length-set slots id (true, m))

pub length-receive :
    (updates : List (ℕ × ClientMessage)) (slots : Slots)
    → length (receive updates slots) ≡ length slots
unfolding receive
length-receive [] slots = refl
length-receive ((id, m) ∷ updates) slots =
    length-receive updates (written id m slots) ∙ length-written id m slots

get_elem?-receive :
    (i : ℕ) (updates : List (ℕ × ClientMessage)) (slots : Slots)
    → get_elem? (receive updates slots) i ≡ overwritten (last_move i updates) (get_elem? slots i)
unfolding receive last_move
get_elem?-receive i [] slots = ground arith
get_elem?-receive i ((id, m) ∷ updates) slots =
    ground (arith, get_elem?-receive i updates (written id m slots), get_elem?-written i id m slots)

get_elem?-mark_seen :
    (i : ℕ) (slots : Slots)
    → get_elem? (mark_seen slots) i
      ≡ elim (get_elem? slots i) [ none ↦ none | some slot ↦ some (false, slot.1) ]
unfolding mark_seen
get_elem?-mark_seen i [] = refl
get_elem?-mark_seen zero ((b, m) ∷ slots) = refl
get_elem?-mark_seen (suc i) ((b, m) ∷ slots) = get_elem?-mark_seen i slots

-- Between two snapshots any calls of `update_slot` may come, for any slots. For a slot that is
-- there, the second snapshot has the last of the moves for it, marked as new; if no move came for
-- it, it keeps its old move, marked as seen.
pub snapshot-receive :
    (i : ℕ) (m : ClientMessage) (b : Bool) (slots : Slots) (updates : List (ℕ × ClientMessage))
    → get_elem? slots i ≡ some (b, m)
    → let after = (atomic_snapshot_and_clear slots).1 in
      get_elem? (atomic_snapshot_and_clear (receive updates after)).0 i
      ≡ some (elim (last_move i updates) [ none ↦ (false, m) | some n ↦ (true, n) ])
unfolding atomic_snapshot_and_clear
snapshot-receive i m b slots updates e =
    ground (arith, get_elem?-receive i updates (mark_seen slots), get_elem?-mark_seen i slots)
