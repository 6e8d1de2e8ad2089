-- ===== src/Container/PositionSet.antt =====
-- `std::unordered_set<Position, Position::HashFunction>`: a list of positions in iteration order.
use computer_networks_projec.Base.{
  ||_iff, ◌⊎◌, ◌≡◌, refl, ◌↔◌, Bool, true, false, not, ◌&&◌, ◌||◌, List, [], ◌∷◌, if◌then◌else◌,
  arith, ap,
}
use computer_networks_projec.Messages.{Position, same}

unfoldable pub contains : Position → List Position → Bool
contains p [] = false
contains p (q ∷ s) = same q p || contains p s

-- The new element may stand anywhere, here in front.
unfoldable pub insert : Position → List Position → List Position
unfolding contains
insert p s = if contains p s then s else p ∷ s

unfoldable pub insert_all : List Position → List Position → List Position
unfolding insert
insert_all [] s = s
insert_all (p ∷ ps) s = insert_all ps (insert p s)

unfoldable pub erase : Position → List Position → List Position
erase p [] = []
erase p (q ∷ s) = if same q p then erase p s else q ∷ erase p s

-- `for (const Position &pos : ps) s.erase(pos)`
unfoldable pub erase_all : List Position → List Position → List Position
unfolding erase
erase_all [] s = s
erase_all (p ∷ ps) s = erase_all ps (erase p s)

pub same_iff : (p q : Position) → (same p q ≡ true) ↔ (p ≡ q)
unfolding same
same_iff p q = ground arith

pub same_self : (p : Position) → same p p ≡ true
unfolding same
same_self p = ground arith

pub contains-insert :
    (q p : Position) (s : List Position) → contains q (insert p s) ≡ (same p q || contains q s)
unfolding contains insert
contains-insert q p s =
    ground (arith, same_iff p q, ap (λ (r : Position). contains r s) {x = p} {y = q})

pub contains-insert_iff :
    (q p : Position) (s : List Position)
    → (contains q (insert p s) ≡ true) ↔ ((same p q ≡ true) ⊎ (contains q s ≡ true))
contains-insert_iff q p s = rw (contains-insert q p s) (||_iff (same p q) (contains q s))

pub contains-insert_all :
    (q : Position) (ps s : List Position)
    → contains q (insert_all ps s) ≡ (contains q ps || contains q s)
unfolding contains insert_all
contains-insert_all q [] s = refl
contains-insert_all q (p ∷ ps) s =
    ground (arith, contains-insert_all q ps (insert p s), contains-insert q p s)

pub contains-erase :
    (q p : Position) (s : List Position) → contains q (erase p s) ≡ (not (same p q) && contains q s)
unfolding contains erase
contains-erase q p [] = ground arith
contains-erase q p (r ∷ s) =
    ground (arith, contains-erase q p s, same_iff r p, same_iff p q, same_iff r q)

pub contains-erase_all :
    (q : Position) (ps s : List Position)
    → contains q (erase_all ps s) ≡ (not (contains q ps) && contains q s)
unfolding contains erase_all
contains-erase_all q [] s = refl
contains-erase_all q (p ∷ ps) s =
    ground (arith, contains-erase_all q ps (erase p s), contains-erase q p s)
