-- ===== src/Concurrency/AcceptedPlayers.antt =====
-- src/concurrency/accepted_player_container.cpp: the players who joined the game that is about to
-- start.
use computer_networks_projec.Base.{
  ℕ, min, ◌∙◌, ◌+◌, ◌-◌, ◌%◌, ◌<◌, ◌≤◌, ◌≡◌, refl, false, Option, none, some, List, [], ◌∷◌, arith,
  ltb, ltb→lt, leb, ◌==◌, if◌then◌else◌, length, Option-cases, Bool-cases, inl, inr, sym, subst,
}
use computer_networks_projec.Config.{u8_size}
use computer_networks_projec.Messages.{Player, AcceptedPlayer}
use computer_networks_projec.Container.Map
use computer_networks_projec.Container.Laws.{Has, insert-Has}
use computer_networks_projec.Concurrency.Blocking.{Blocking, returned, blocked, threw}

pub record AcceptedPlayers : Type 0 where
  pub accepted_players : List (ℕ × Player)
  pub target_players_count : ℕ

unfoldable pub create : ℕ → AcceptedPlayers
create target = record { accepted_players = []; target_players_count = target }

-- The players of the message `GameStarted`.
unfoldable pub return_when_target_players_joined : AcceptedPlayers → Blocking (List (ℕ × Player))
return_when_target_players_joined c =
    if c.target_players_count == length c.accepted_players
    then returned c.accepted_players
    else blocked

-- The identifier of the new player; `none`: `RejectedPlayerException`.
unfoldable pub add_new_player : Player → AcceptedPlayers → Option (ℕ × AcceptedPlayers)
add_new_player p c =
    let players = Map.insert (length c.accepted_players % u8_size) p c.accepted_players in
    if c.target_players_count == length c.accepted_players
    then none
    else some ((length players - 1) % u8_size, record c { accepted_players = players })

unfoldable pub get_accepted_player : ℕ → AcceptedPlayers → Blocking AcceptedPlayer
get_accepted_player id c =
    if leb c.target_players_count id
    then threw
    else if ltb id (length c.accepted_players)
    then elim (Map.find id c.accepted_players) [
      | none ↦ threw
      | some p ↦ returned (record { id = id; player = p })
    ]
    else blocked

-- The players of a lobby with the identifiers 0 … n - 1.
pub record IsFullLobby (n : ℕ) (players : List (ℕ × Player)) : Type 0 where
  pub joined : Has n players
  pub nobody_else : (k : ℕ) → n ≤ k → Map.find k players ≡ none

-- The state that the methods reach: at most the target's number of players, with the identifiers
-- from 0 on; the target is one byte.
pub record IsValid (c : AcceptedPlayers) : Type 0 where
  pub small : c.target_players_count < u8_size
  pub room : length c.accepted_players ≤ c.target_players_count
  pub numbered : IsFullLobby (length c.accepted_players) c.accepted_players

pub create-IsValid : (target : ℕ) → target < u8_size → IsValid (create target)
unfolding create Map.find
create-IsValid target h = record {
  small = h;
  room = omega arith;
  numbered = record { joined = λ k lt e. omega arith; nobody_else = λ k lt. refl };
}

small_size : (n : ℕ) → n < u8_size → n % u8_size ≡ n
small_size n h = omega arith

module _ (p : Player) (c : AcceptedPlayers) (v : IsValid c) where
  -- In a valid container with room left a player is accepted: the identifier is the number of
  -- players before, the container holds the player under it and everybody else as before, and it
  -- stays valid.
  pub add_new_player_lem :
      length c.accepted_players < c.target_players_count
      → (c' : AcceptedPlayers) × (add_new_player p c ≡ some (length c.accepted_players, c'))
        × (length c'.accepted_players ≡ length c.accepted_players + 1)
        × (Map.find (length c.accepted_players) c'.accepted_players ≡ some p)
        × ((k : ℕ)
            → k < length c.accepted_players
            → Map.find k c'.accepted_players ≡ Map.find k c.accepted_players)
        × (c'.target_players_count ≡ c.target_players_count)
        × IsValid c'
  unfolding add_new_player
  add_new_player_lem h =
      let n = length c.accepted_players in
      let m = Map.insert n p c.accepted_players in
      let fresh = v.numbered.nobody_else n (omega arith) in
      let longer = Map.length-insert n p c.accepted_players fresh in
      (
        record c { accepted_players = m },
        rw (small_size n (omega (arith, v.small))) (ground (arith, longer)),
        omega (arith, longer),
        ground (arith, Map.find-insert n n p c.accepted_players, fresh),
        λ k lt. ground (arith, Map.find-insert k n p c.accepted_players),
        refl,
        record {
          small = v.small;
          room = omega (arith, longer);
          numbered =
              subst (λ i. IsFullLobby i m) (sym longer)
                (record {
                  joined = insert-Has n p c.accepted_players v.numbered.joined;
                  nobody_else = λ k lt.
                      ground
                        (arith, Map.find-insert k n p c.accepted_players, v.numbered.nobody_else k);
                });
        },
      )

  -- With a full set of players the call throws.
  pub add_new_player_rejects :
      length c.accepted_players ≡ c.target_players_count → add_new_player p c ≡ none
  unfolding add_new_player
  add_new_player_rejects h = ground arith

-- What a call leaves in the container; a thread that is rejected leaves it as it was.
unfoldable pub after_call : Player → AcceptedPlayers → AcceptedPlayers
after_call p c = elim (add_new_player p c) [ none ↦ c | some (id, c') ↦ c' ]

-- What several threads add, in the order in which they get the mutex.
unfoldable pub add_players : List Player → AcceptedPlayers → AcceptedPlayers
add_players [] c = c
add_players (p ∷ ps) c = add_players ps (after_call p c)

pub after_call_lem :
    (p : Player) (c : AcceptedPlayers)
    → IsValid c
    → (length (after_call p c).accepted_players
        ≡ min c.target_players_count (length c.accepted_players + 1))
      × ((after_call p c).target_players_count ≡ c.target_players_count)
      × IsValid (after_call p c)
unfolding after_call
after_call_lem p c v = elim (Bool-cases (ltb (length c.accepted_players) c.target_players_count)) [
  | inl room ↦
      let lt = ltb→lt _ _ room in
      let (c', e, longer, _, _, same, v') = add_new_player_lem p c v lt in
      let r : after_call p c ≡ c' = rw (after_call, e) refl in rw r (omega arith, same, v')
  | inr full ↦
      let eq = full_lobby c v full in
      let r : after_call p c ≡ c = rw (after_call, add_new_player_rejects p c v eq) refl in
      rw r (omega arith, refl, v)
]
  where
    full_lobby :
        (d : AcceptedPlayers)
        → IsValid d
        → ltb (length d.accepted_players) d.target_players_count ≡ false
        → length d.accepted_players ≡ d.target_players_count
    full_lobby d u h = ground (arith, u.room)

-- However many players ask a valid container, in whatever order: all are accepted until the target
-- is met, and nobody after that; the container stays valid.
pub add_players_lem :
    (ps : List Player) (c : AcceptedPlayers)
    → IsValid c
    → (length (add_players ps c).accepted_players
        ≡ min c.target_players_count (length c.accepted_players + length ps))
      × ((add_players ps c).target_players_count ≡ c.target_players_count)
      × IsValid (add_players ps c)
unfolding add_players
add_players_lem [] c v = (omega (arith, v.room), refl, v)
add_players_lem (p ∷ ps) c v =
    let (one, same, v') = after_call_lem p c v in
    let (all, same', v'') = add_players_lem ps (after_call p c) v' in
    (omega (arith, one, same, all), same' ∙ same, v'')

-- When the wait of a valid container for a full set of players ends, the message has the players 0
-- … n - 1 and nobody else, for the target n.
pub return_when_target_players_joined-IsFullLobby :
    (c : AcceptedPlayers) (players : List (ℕ × Player))
    → IsValid c
    → return_when_target_players_joined c ≡ returned players
    → IsFullLobby c.target_players_count players
unfolding return_when_target_players_joined
return_when_target_players_joined-IsFullLobby c players v e =
    elim (Bool-cases (c.target_players_count == length c.accepted_players)) [
      | inl full ↦
          subst (λ i. IsFullLobby i players) (ground arith)
            (subst (IsFullLobby (length c.accepted_players)) (ground arith) v.numbered)
      | inr open_seats ↦ ground arith
    ]

-- In a valid container the call throws for an identifier that no player of this game can have,
-- waits for a player who can come and is not there yet, and returns the player who was added under
-- the identifier.
pub get_accepted_player_lem :
    (id : ℕ) (c : AcceptedPlayers)
    → IsValid c
    → (c.target_players_count ≤ id → get_accepted_player id c ≡ threw)
      × (id < c.target_players_count
          → length c.accepted_players ≤ id
          → get_accepted_player id c ≡ blocked)
      × (id < length c.accepted_players
          → (p : Player) × (Map.find id c.accepted_players ≡ some p)
            × (get_accepted_player id c ≡ returned (record { id = id; player = p })))
unfolding get_accepted_player
get_accepted_player_lem id c v = (
  λ h. ground arith,
  λ h k. ground arith,
  λ h. elim (Option-cases (Map.find id c.accepted_players)) [
    | inl e ↦ absurd (v.numbered.joined id h e)
    | inr (p, e) ↦ (p, e, ground (arith, v.room))
  ],
)
