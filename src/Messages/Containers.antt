-- ===== src/Messages/Containers.antt =====
-- Strings, vectors and maps go over a channel.
use computer_networks_projec.Base.{
  ℕ, zero, suc, false, ◌<◌, ◌≤◌, ◌%◌, ◌≡◌, refl, sym, ap, subst, Bool-cases, inl, inr, Option, none,
  some, ◌>>=◌, List, [], ◌∷◌, ◌++◌, arith, append-nil, append_assoc, length, take, ltb, All,
  All-append, map,
}
use computer_networks_projec.Config.{IsU8, u8_size, container_len_max, str_len_max, Text, IsText}
use computer_networks_projec.Container.Map
use computer_networks_projec.Messages.Write.{
  put_all, serialize_string, serialize_vector, serialize_map, put_entry, sent_length,
}
use computer_networks_projec.Messages.Read.{
  Reader, read_elements, read_entry, read_entries, read_string, read_vector, read_map,
}
use computer_networks_projec.Messages.Carries.{
  Carries, Carries-map, Carries-put, Carries-some, Carries-bind, put_all-Carries,
}
use computer_networks_projec.Network.ByteOrder.{Platform, IsPlatform, u8, u32}
use computer_networks_projec.Network.Tcp.{read_element}
use computer_networks_projec.Network.Channel.{Channel, IsChannel}

-- What arrives of a string: its first 255 bytes.
abbrev pub clip : Text → Text
clip = take str_len_max

pub map_id : {A : Type 0} (s : List A) → map (λ b. b) s ≡ s
map_id [] = refl
map_id {A} (b ∷ s) = ap (λ (r : List A). b ∷ r) (map_id s)

pub take_all : (n : ℕ) (s : Text) → length s ≤ n → take n s ≡ s
take_all zero [] h = refl
take_all zero (b ∷ s) h = absurd (omega arith)
take_all (suc n) [] h = refl
take_all (suc n) (b ∷ s) h = ap (λ (r : Text). b ∷ r) (take_all n s (omega arith))

length-take_min : (n : ℕ) (s : Text) → n ≤ length s → length (take n s) ≡ n
length-take_min zero s h = refl
length-take_min (suc n) [] h = absurd (omega arith)
length-take_min (suc n) (b ∷ s) h = ap suc (length-take_min n s (omega arith))

pub take-sent_length : (s : Text) → take (sent_length s) s ≡ clip s
unfolding sent_length
take-sent_length s = elim (Bool-cases (ltb (length s) str_len_max)) [
  | inl short ↦
      let n : length s % u8_size ≡ length s = ground arith in
      rw (short, n, take_all (length s) s (omega arith))
        (sym (take_all str_len_max s (ground arith)))
  | inr long ↦ rw long refl
]

pub length-sent : (s : Text) → length (clip s) ≡ sent_length s
unfolding sent_length
length-sent s = elim (Bool-cases (ltb (length s) str_len_max)) [
  | inl short ↦ rw (short, take_all str_len_max s (ground arith)) (ground arith)
  | inr long ↦ rw long (length-take_min str_len_max s (ground arith))
]

pub sent_length-IsU8 : (s : Text) → sent_length s < u8_size
unfolding sent_length
sent_length-IsU8 s = ground arith

pub All-take : (P : ℕ → Type 0) (n : ℕ) (s : List ℕ) → All P s → All P (take n s)
All-take P zero s a = tt
All-take P (suc n) [] a = tt
All-take P (suc n) (b ∷ s) a = (a.0, All-take P n s a.1)

module _ {V : Type 0} where
  -- The entries of a `std::map`: their keys are bytes and ascend.
  abbrev pub IsSorted : List (ℕ × V) → Type 0
  IsSorted [] = Unit {0}
  IsSorted ((k, v) ∷ m) = All (λ e. k < e.0) m × IsSorted m

  abbrev IsBelow : ℕ → List (ℕ × V) → Type 0
  IsBelow k = All (λ e. e.0 < k)

  find_below : (k : ℕ) (m : List (ℕ × V)) → IsBelow k m → Map.find k m ≡ none
  unfolding Map.find
  find_below k [] a = refl
  find_below k ((j, w) ∷ m) a = ground (arith, find_below k m)

  place_below :
      (k : ℕ) (v : V) (m : List (ℕ × V)) → IsBelow k m → Map.place k v m ≡ m ++ (k, v) ∷ []
  unfolding Map.place
  place_below k v [] a = refl
  place_below k v ((j, w) ∷ m) a = ground (arith, place_below k v m)

  insert_below :
      (k : ℕ) (v : V) (m : List (ℕ × V)) → IsBelow k m → Map.insert k v m ≡ m ++ (k, v) ∷ []
  unfolding Map.insert
  insert_below k v m a = rw (Map.insert, find_below k m a) (place_below k v m a)

  All-both :
      (P Q R : ℕ × V → Type 0) (m : List (ℕ × V))
      → ((e : ℕ × V) → P e → Q e → R e)
      → All P m
      → All Q m
      → All R m
  All-both P Q R [] f a b = tt
  All-both P Q R (e ∷ m) f a b = (f e a.0 b.0, All-both P Q R m f a.1 b.1)

All-IsBelow : (V : Type 0) {W : Type 0} (m : List (ℕ × W)) → All (λ e. IsBelow {V = V} e.0 []) m
All-IsBelow V [] = tt
All-IsBelow V (e ∷ m) = (tt, All-IsBelow V m)

module _ {c : Channel} (l : IsChannel c) (p : Platform) (laws : IsPlatform p) where
  -- A string of bytes arrives as its first 255 bytes.
  pub string-Carries :
      (s : Text) → IsText s → Carries l (serialize_string c s) (read_string p) (clip s)
  unfolding serialize_string read_string
  string-Carries s a =
      subst (λ u. Carries l (serialize_string c s) (read_string p) u) (map_id (clip s))
        (Carries-bind l (c.put u8 (sent_length s)) (put_all c (c.put u8) (take (sent_length s) s))
          (read_element p u8) (λ n t. read_elements (read_element p u8) n [] t)
          (Carries-put l p laws u8 (sent_length s) (sent_length-IsU8 s))
          (rw (take-sent_length s, sym (length-sent s))
            (put_all-Carries l IsU8 (λ b. b) (c.put u8) (read_element p u8)
              (λ b h. Carries-put l p laws u8 b h) (clip s) [] (All-take IsU8 str_len_max s a))))

  module _ {A B : Type 0} (P : A → Type 0) (h : A → B) (f : A → c.State → Option c.State)
      (g : Reader B) (k : (a : A) → P a → Carries l (f a) g (h a)) where
    pub vector-Carries :
        (v : List A)
        → length v ≤ container_len_max
        → All P v
        → Carries l (serialize_vector c f v) (read_vector p g) (map h v)
    unfolding serialize_vector read_vector
    vector-Carries v small a =
        let fits : ltb container_len_max (length v) ≡ false = ground arith in
        let same : length v % 4294967296 ≡ length v = omega arith in
        rw (fits, same)
          (Carries-bind l (c.put u32 (length v)) (put_all c f v) (read_element p u32)
            (λ n t. read_elements g n [] t) (Carries-put l p laws u32 (length v) (omega arith))
            (put_all-Carries l P h f g k v [] a))

    entry-Carries :
        (key : ℕ) (value : A)
        → IsU8 key × P value
        → Carries l (put_entry c f (key, value)) (read_entry (read_element p u8) g) (key, h value)
    unfolding put_entry read_entry
    entry-Carries key value fits =
        Carries-bind l (c.put u8 key) (f value) (read_element p u8)
          (λ i t. g t >>= λ v. some ((i, v.0), v.1)) (Carries-put l p laws u8 key fits.0)
          (Carries-map l (λ b. (key, b)) (f value) g (k value fits.1))

    entries-Carries :
        (m : List (ℕ × A)) (acc : List (ℕ × B))
        → All (λ e. IsU8 e.0 × P e.1) m
        → IsSorted m
        → All (λ e. IsBelow e.0 acc) m
        → Carries l
            (put_all c (put_entry c f) m)
            (read_entries (read_element p u8) g (length m) acc)
            (acc ++ map (λ e. (e.0, h e.1)) m)
    unfolding put_all put_entry read_entries
    entries-Carries [] acc fits sorted below =
        subst (λ u. Carries l (λ t. some t) (λ t. some (acc, t)) u) (sym (append-nil acc))
          (Carries-some l acc)
    entries-Carries ((key, value) ∷ m) acc fits sorted below =
        (let acc' = acc ++ (key, h value) ∷ [] in
          let below' =
            All-both (λ e. key < e.0) (λ e. IsBelow e.0 acc) (λ e. IsBelow e.0 acc') m
              (λ e lt b. All-append (λ d. d.0 < e.0) acc ((key, h value) ∷ []) b (lt, tt)) sorted.0
              below.1 in
          subst
            (λ u.
              Carries l (put_all c (put_entry c f) ((key, value) ∷ m))
                (read_entries (read_element p u8) g (suc (length m)) acc) u)
            (append_assoc acc ((key, h value) ∷ []) (map (λ e. (e.0, h e.1)) m))
            (Carries-bind l (put_entry c f (key, value)) (put_all c (put_entry c f) m)
              (read_entry (read_element p u8) g)
              (λ e t. read_entries (read_element p u8) g (length m) (Map.insert e.0 e.1 acc) t)
              (entry-Carries key value fits.0)
              (rw (insert_below key (h value) acc below.0)
                (entries-Carries m acc' fits.1 sorted.1 below'))))

    pub map-Carries :
        (m : List (ℕ × A))
        → length m ≤ container_len_max
        → All (λ e. IsU8 e.0 × P e.1) m
        → IsSorted m
        → Carries l (serialize_map c f m) (read_map p g) (map (λ e. (e.0, h e.1)) m)
    unfolding serialize_map read_map
    map-Carries m small fits sorted =
        let short : ltb container_len_max (length m) ≡ false = ground arith in
        let same : length m % 4294967296 ≡ length m = omega arith in
        rw (short, same)
          (Carries-bind l (c.put u32 (length m)) (put_all c (put_entry c f) m) (read_element p u32)
            (λ n t. read_entries (read_element p u8) g n [] t)
            (Carries-put l p laws u32 (length m) (omega arith))
            (entries-Carries m [] fits sorted (All-IsBelow B m)))
