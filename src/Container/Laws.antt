-- ===== src/Container/Laws.antt =====
-- What holds of every value of a map, or of every element of a set, after an operation on it.
use computer_networks_projec.Base.{
  ℕ, suc, ◌<◌, ◌≡◌, ◌≢◌, refl, subst, true, inl, inr, Bool-cases, Option-cases, none, some, List,
  [], ◌∷◌, arith, ap,
}
use computer_networks_projec.Messages.{Position, same}
use computer_networks_projec.Container.Map
use computer_networks_projec.Container.PositionSet

module _ {V : Type 0} where
  abbrev pub MapAll : (V → Type 0) → List (ℕ × V) → Type 0
  MapAll P m = (k : ℕ) (v : V) → Map.find k m ≡ some v → P v

  -- The keys 0 … n - 1 are there.
  abbrev pub Has : ℕ → List (ℕ × V) → Type 0
  Has n m = (k : ℕ) → k < n → Map.find k m ≢ none

  abbrev pub IsDistinct : List (ℕ × V) → Type 0
  IsDistinct [] = Unit {0}
  IsDistinct ((k, v) ∷ m) = (Map.find k m ≡ none) × IsDistinct m

  module _ (P : V → Type 0) (k : ℕ) (v : V) (m : List (ℕ × V)) where
    pub assign-MapAll : P v → MapAll P m → MapAll P (Map.assign k v m)
    assign-MapAll pv h j w e =
        ground (arith, Map.find-assign j k v m, h j w, h k w, ap P {x = v} {y = w})

    pub insert-MapAll : P v → MapAll P m → MapAll P (Map.insert k v m)
    insert-MapAll pv h j w e = ground (arith, Map.find-insert j k v m, h j w, h k w)

    pub emplace-MapAll : P v → MapAll P m → MapAll P (Map.emplace k v m)
    emplace-MapAll pv h j w e = ground (arith, Map.find-emplace j k v m, h j w, h k w)

  pub erase-MapAll :
      (P : V → Type 0) (k : ℕ) (m : List (ℕ × V)) → MapAll P m → MapAll P (Map.erase k m)
  erase-MapAll P k m h j w e = ground (arith, Map.find-erase j k m, h j w)

  pub emplace-IsDistinct :
      (k : ℕ) (v : V) (m : List (ℕ × V)) → IsDistinct m → IsDistinct (Map.emplace k v m)
  unfolding Map.emplace
  emplace-IsDistinct k v m d = ground arith

  pub erase-IsDistinct : (k : ℕ) (m : List (ℕ × V)) → IsDistinct m → IsDistinct (Map.erase k m)
  unfolding Map.erase
  erase-IsDistinct k [] d = tt
  erase-IsDistinct k ((j, w) ∷ m) d = ground (arith, Map.find-erase j k m, erase-IsDistinct k m d.1)

  pub map_values-IsDistinct :
      (f : V → V) (m : List (ℕ × V)) → IsDistinct m → IsDistinct (Map.map_values f m)
  unfolding Map.map_values
  map_values-IsDistinct f [] d = tt
  map_values-IsDistinct f ((j, w) ∷ m) d =
      (rw (Map.find-map_values j f m, d.0) refl, map_values-IsDistinct f m d.1)

  pub assign-Has : (n k : ℕ) (v : V) (m : List (ℕ × V)) → Has n m → Has n (Map.assign k v m)
  assign-Has n k v m h j lt e =
      ground (arith, Map.find-assign j k v m, h j lt, ap (λ (i : ℕ). Map.find i m) {x = k} {y = j})

  pub insert-Has : (n : ℕ) (v : V) (m : List (ℕ × V)) → Has n m → Has (suc n) (Map.insert n v m)
  insert-Has n v m h j lt e = ground (arith, Map.find-insert j n v m, h j)

module _ (P : Position → Type 0) where
  abbrev pub SetAll : List Position → Type 0
  SetAll s = (p : Position) → PositionSet.contains p s ≡ true → P p

  pub insert-SetAll :
      (p : Position) (s : List Position) → P p → SetAll s → SetAll (PositionSet.insert p s)
  insert-SetAll p s pp h q e = elim (Bool-cases (same p q)) [
    | inl hit ↦ subst P ((PositionSet.same_iff p q).0 hit) pp
    | inr miss ↦ h q (ground (arith, PositionSet.contains-insert q p s))
  ]

  pub erase_all-SetAll : (ps s : List Position) → SetAll s → SetAll (PositionSet.erase_all ps s)
  erase_all-SetAll ps s h q e = h q (ground (arith, PositionSet.contains-erase_all q ps s))

pub map_values-MapAll :
    {V : Type 0} (P : V → Type 0) (f : V → V) (m : List (ℕ × V))
    → ((v : V) → P v → P (f v))
    → MapAll P m
    → MapAll P (Map.map_values f m)
map_values-MapAll P f m keep h k w e = elim (Option-cases (Map.find k m)) [
  | inl missing ↦ ground (arith, Map.find-map_values k f m)
  | inr (v, found) ↦ subst P (ground (arith, Map.find-map_values k f m)) (keep v (h k v found))
]
