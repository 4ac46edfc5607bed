-- ===== src/Backends/Netbox/Monad.antt =====
-- The asynchronous methods of the backend: each takes the world and gives a result and the world
-- that it leaves, also where it fails.
use rsdhcp.Backends.{BackendError, BackendResult, granted, panicked, refused, starved}

abbrev pub Action {ℓ} : Type 0 → Type ℓ → Type ℓ
Action W A = W → BackendResult A × W

module _ {ℓ} {W : Type 0} {A : Type ℓ} where
  abbrev pub pure : A → Action W A
  pure a w = (granted a, w)

  abbrev pub raise : BackendError → Action W A
  raise e w = (refused e, w)

  abbrev pub starve : Action W A
  starve w = (starved, w)

-- What a result does to the rest: a method that fails ends with its failure.
abbrev pub continue {ℓ κ} :
    {W : Type 0} {A : Type ℓ} {B : Type κ} → BackendResult A → (A → Action W B) → Action W B
continue (granted a) k w = k a w
continue (refused e) k w = (refused e, w)
continue panicked k w = (panicked, w)
continue starved k w = (starved, w)

infixl 5 ◌>>=◌ ◌>>◌
abbrev pub ◌>>=◌ {ℓ κ} :
    {W : Type 0} {A : Type ℓ} {B : Type κ} → Action W A → (A → Action W B) → Action W B
◌>>=◌ m k w = continue (m w).0 k (m w).1

abbrev pub ◌>>◌ {ℓ κ} :
    {W : Type 0} {A : Type ℓ} {B : Type κ} → Action W A → Action W B → Action W B
m >> k = m >>= λ a. k
