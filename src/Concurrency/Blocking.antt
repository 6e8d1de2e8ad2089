-- ===== src/Concurrency/Blocking.antt =====
-- What a call that may wait on a condition variable comes to in a state of its container.

-- `blocked`: the call waits, and looks again after the next `notify_all`.
pub data Blocking {ℓ} (A : Type ℓ) : Type ℓ where
  returned : A → Blocking A
  blocked threw : Blocking A
