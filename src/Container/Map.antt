-- ===== src/Container/Map.antt =====
-- `std::map` and `std::unordered_map` with numbers for keys, as lists of entries.
use computer_networks_projec.Base.{
  ℕ, suc, ◌≡◌, refl, Option, none, some, List, [], ◌∷◌, ◌==◌, ltb, if◌then◌else◌, arith, length, ap,
}

module _ {ℓ} {V : Type ℓ} where
  -- `find`, and `at`, which throws where this is `none`.
  unfoldable pub find : ℕ → List (ℕ × V) → Option V
  find k [] = none
  find k ((j, v) ∷ m) = if j == k then some v else find k m

  -- A new entry of a `std::map` goes to the place that its key has.
  unfoldable pub place : ℕ → V → List (ℕ × V) → List (ℕ × V)
  place k v [] = (k, v) ∷ []
  place k v ((j, w) ∷ m) = if ltb k j then (k, v) ∷ (j, w) ∷ m else (j, w) ∷ place k v m

  -- `insert` of a `std::map`: a key that is there keeps its value.
  unfoldable pub insert : ℕ → V → List (ℕ × V) → List (ℕ × V)
  unfolding place
  insert k v m = elim (find k m) [ some w ↦ m | none ↦ place k v m ]

  -- `insert` of a `std::unordered_map`: the new entry may stand anywhere, here in front.
  unfoldable pub emplace : ℕ → V → List (ℕ × V) → List (ℕ × V)
  emplace k v m = elim (find k m) [ some w ↦ m | none ↦ (k, v) ∷ m ]

  -- `it->second = v` at an iterator that `find` returned; nothing where it returned `end()`.
  unfoldable pub assign : ℕ → V → List (ℕ × V) → List (ℕ × V)
  assign k v [] = []
  assign k v ((j, w) ∷ m) = if j == k then (j, v) ∷ m else (j, w) ∷ assign k v m

  unfoldable pub erase : ℕ → List (ℕ × V) → List (ℕ × V)
  erase k [] = []
  erase k ((j, w) ∷ m) = if j == k then erase k m else (j, w) ∷ erase k m

  abbrev pub or_else : Option V → V → V
  or_else none v = v
  or_else (some w) v = w

  pub find-place :
      (j k : ℕ) (v : V) (m : List (ℕ × V))
      → find k m ≡ none
      → find j (place k v m) ≡ (if k == j then some v else find j m)
  unfolding find place
  find-place j k v [] h = refl
  find-place j k v ((i, w) ∷ m) h = ground (arith, find-place j k v m)

  pub find-insert :
      (j k : ℕ) (v : V) (m : List (ℕ × V))
      → find j (insert k v m) ≡ (if k == j then some (or_else (find k m) v) else find j m)
  unfolding insert
  find-insert j k v m = ground (arith, find-place j k v m, ap (λ (i : ℕ). find i m) {x = j} {y = k})

  pub find-emplace :
      (j k : ℕ) (v : V) (m : List (ℕ × V))
      → find j (emplace k v m) ≡ (if k == j then some (or_else (find k m) v) else find j m)
  unfolding emplace find
  find-emplace j k v m = ground arith

  pub find-assign :
      (j k : ℕ) (v : V) (m : List (ℕ × V))
      → find j (assign k v m)
        ≡ (if k == j then elim (find k m) [ none ↦ none | some w ↦ some v ] else find j m)
  unfolding find assign
  find-assign j k v [] = ground arith
  find-assign j k v ((i, w) ∷ m) = ground (arith, find-assign j k v m)

  pub find-erase :
      (j k : ℕ) (m : List (ℕ × V)) → find j (erase k m) ≡ (if k == j then none else find j m)
  unfolding find erase
  find-erase j k [] = ground arith
  find-erase j k ((i, w) ∷ m) = ground (arith, find-erase j k m)

  pub length-assign : (k : ℕ) (v : V) (m : List (ℕ × V)) → length (assign k v m) ≡ length m
  unfolding assign
  length-assign k v [] = refl
  length-assign k v ((i, w) ∷ m) = ground (arith, length-assign k v m)

  length-place : (k : ℕ) (v : V) (m : List (ℕ × V)) → length (place k v m) ≡ suc (length m)
  unfolding place
  length-place k v [] = refl
  length-place k v ((j, w) ∷ m) = ground (arith, length-place k v m)

  pub length-insert :
      (k : ℕ) (v : V) (m : List (ℕ × V)) → find k m ≡ none → length (insert k v m) ≡ suc (length m)
  unfolding insert
  length-insert k v m h = rw (h, insert) (length-place k v m)

  -- `for (auto &[key, value] : m) value = f(value)`
  unfoldable pub map_values : (V → V) → List (ℕ × V) → List (ℕ × V)
  map_values f [] = []
  map_values f ((j, w) ∷ m) = (j, f w) ∷ map_values f m

  abbrev pub map_option : (V → V) → Option V → Option V
  map_option f none = none
  map_option f (some v) = some (f v)

  pub find-map_values :
      (k : ℕ) (f : V → V) (m : List (ℕ × V)) → find k (map_values f m) ≡ map_option f (find k m)
  unfolding find map_values
  find-map_values k f [] = refl
  find-map_values k f ((j, w) ∷ m) = ground (arith, find-map_values k f m)
