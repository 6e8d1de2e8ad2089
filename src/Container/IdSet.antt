-- ===== src/Container/IdSet.antt =====
-- `std::set<types::player_id_t>`: an ascending list of numbers.
use computer_networks_projec.Base.{
  ℕ, ◌<◌, ◌≡◌, refl, Bool, false, ◌||◌, List, [], ◌∷◌, ◌==◌, ltb, if◌then◌else◌, arith,
}

unfoldable pub contains : ℕ → List ℕ → Bool
contains k [] = false
contains k (j ∷ s) = j == k || contains k s

unfoldable pub insert : ℕ → List ℕ → List ℕ
insert k [] = k ∷ []
insert k (j ∷ s) = if ltb k j then k ∷ j ∷ s else if j == k then j ∷ s else j ∷ insert k s

unfoldable pub insert_all : List ℕ → List ℕ → List ℕ
insert_all [] s = s
insert_all (k ∷ ks) s = insert_all ks (insert k s)

-- The elements ascend, and all are above the bound, if there is one.
abbrev pub IsAbove : ℕ → List ℕ → Type 0
IsAbove b [] = Unit {0}
IsAbove b (k ∷ s) = (b < k) × IsAbove k s

abbrev pub IsAscending : List ℕ → Type 0
IsAscending [] = Unit {0}
IsAscending (k ∷ s) = IsAbove k s

pub contains-insert : (k j : ℕ) (s : List ℕ) → contains k (insert j s) ≡ (j == k || contains k s)
unfolding contains insert
contains-insert k j [] = refl
contains-insert k j (i ∷ s) = ground (arith, contains-insert k j s)

pub contains-insert_all :
    (k : ℕ) (js s : List ℕ) → contains k (insert_all js s) ≡ (contains k js || contains k s)
unfolding contains insert_all
contains-insert_all k [] s = refl
contains-insert_all k (j ∷ js) s =
    ground (arith, contains-insert_all k js (insert j s), contains-insert k j s)

insert-IsAbove : (b k : ℕ) (s : List ℕ) → b < k → IsAbove b s → IsAbove b (insert k s)
unfolding insert
insert-IsAbove b k [] h a = (h, tt)
insert-IsAbove b k (j ∷ s) h a = ground (arith, insert-IsAbove j k s)

pub insert-IsAscending : (k : ℕ) (s : List ℕ) → IsAscending s → IsAscending (insert k s)
unfolding insert
insert-IsAscending k [] a = tt
insert-IsAscending k (j ∷ s) a = ground (arith, insert-IsAbove j k s)

pub insert_all-IsAscending : (ks s : List ℕ) → IsAscending s → IsAscending (insert_all ks s)
unfolding insert_all
insert_all-IsAscending [] s a = a
insert_all-IsAscending (k ∷ ks) s a =
    insert_all-IsAscending ks (insert k s) (insert-IsAscending k s a)

pub contains-above : (b k : ℕ) (s : List ℕ) → IsAbove b s → k < b → contains k s ≡ false
unfolding contains
contains-above b k [] a h = refl
contains-above b k (j ∷ s) a h = ground (arith, contains-above j k s)

pub contains_self : (k : ℕ) (s : List ℕ) → IsAbove k s → contains k s ≡ false
unfolding contains
contains_self k [] a = refl
contains_self k (j ∷ s) a = ground (arith, contains-above j k s)
