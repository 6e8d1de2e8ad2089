-- ===== src/Messages/Carries.antt =====
-- A value goes over a channel: what a serialiser writes, a reader of a TCP connection reads.
use computer_networks_projec.Base.{
  ℕ, suc, sym, subst, Option, some, ◌>>=◌, List, [], ◌∷◌, ◌++◌, append-nil, append_assoc, length,
  All, map,
}
use computer_networks_projec.Messages.Write.{put_all}
use computer_networks_projec.Messages.Read.{Reader, read_elements}
use computer_networks_projec.Network.ByteOrder.{
  Platform, IsPlatform, Width, size_of, Fits, big_endian,
}
use computer_networks_projec.Network.Tcp.{read_element}
use computer_networks_projec.Network.Stream.{Reads, Reads-bind, Reads-some, read_element-Reads}
use computer_networks_projec.Network.Channel.{
  Channel, IsChannel, Writes, Writes-put, Writes-bind, Writes-some,
}

module _ {c : Channel} (l : IsChannel c) where
  -- The bytes that `f` writes are those from which `g` reads the value.
  abbrev pub Carries : {A : Type 0} → (c.State → Option c.State) → Reader A → A → Type 0
  Carries f g a = (bytes : List ℕ) × Writes l f bytes × Reads g bytes a

  pub Carries-put :
      (p : Platform) (laws : IsPlatform p) (w : Width) (v : ℕ)
      → Fits w v
      → Carries (c.put w v) (read_element p w) v
  Carries-put p laws w v h =
      (big_endian (size_of w) v, Writes-put l w v h, read_element-Reads p laws w v h)

  pub Carries-some : {A : Type 0} (a : A) → Carries (λ t. some t) (λ t. some (a, t)) a
  Carries-some a = ([], Writes-some l, Reads-some a)

  pub Carries-bind :
      {A B : Type 0} (f f' : c.State → Option c.State) (g : Reader A) (g' : A → Reader B) {a : A}
      {b : B}
      → Carries f g a
      → Carries f' (g' a) b
      → Carries (λ t. f t >>= f') (λ t. g t >>= λ r. g' r.0 r.1) b
  Carries-bind f f' g g' {a} {b} (bytes, w, r) (bytes', w', r') =
      (bytes ++ bytes', Writes-bind l f f' bytes bytes' w w', Reads-bind g g' bytes bytes' a b r r')

  -- The reader only packs up what it has read.
  pub Carries-map :
      {A B : Type 0} (h : A → B) (f : c.State → Option c.State) (g : Reader A) {a : A}
      → Carries f g a
      → Carries f (λ t. g t >>= λ r. some (h r.0, r.1)) (h a)
  Carries-map h f g {a} (bytes, w, r) = (
    bytes,
    w,
    subst (λ bs. Reads (λ t. g t >>= λ r. some (h r.0, r.1)) bs (h a)) (append-nil bytes)
        (Reads-bind g (λ x t. some (h x, t)) bytes [] a (h a) r (Reads-some (h a))),
  )

  -- Every element of the list arrives, as `h` of it.
  pub put_all-Carries :
      {A B : Type 0} (P : A → Type 0) (h : A → B) (f : A → c.State → Option c.State) (g : Reader B)
      → ((a : A) → P a → Carries (f a) g (h a))
      → (v : List A) (w : List B) → All P v
      → Carries (put_all c f v) (read_elements g (length v) w) (w ++ map h v)
  unfolding put_all read_elements
  put_all-Carries P h f g k [] w a =
      subst (λ u. Carries (λ t. some t) (λ t. some (w, t)) u) (sym (append-nil w)) (Carries-some w)
  put_all-Carries P h f g k (x ∷ v) w a =
      subst (λ u. Carries (put_all c f (x ∷ v)) (read_elements g (suc (length v)) w) u)
        (append_assoc w (h x ∷ []) (map h v))
        (Carries-bind (f x) (put_all c f v) g (λ b t. read_elements g (length v) (w ++ b ∷ []) t)
          (k x a.0) (put_all-Carries P h f g k v (w ++ h x ∷ []) a.1))
