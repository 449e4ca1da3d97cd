-- ===== src/Server/Lifecycle/Traffic.antt =====
-- The callbacks of clients that leave after they came, for the count in server/server.go.
use ftpserver.Base.{ℕ, zero, suc, ◌+◌, ◌≤◌, List, [], ◌∷◌, length, arith}
use ftpserver.Server.Lifecycle.{Event, connected, disconnected, stopped}

-- Each client leaves after it came: `Traffic n es m` says that the callbacks `es` take `n`
-- clients to `m`, never below zero, and hold no stop.
pub data Traffic : ℕ → List Event → ℕ → Type 0 where
  quiet : {n : ℕ} → Traffic n [] n
  comes : {n m : ℕ} {es : List Event} → Traffic (suc n) es m → Traffic n (connected ∷ es) m
  leaves : {n m : ℕ} {es : List Event} → Traffic n es m → Traffic (suc n) (disconnected ∷ es) m

pub Traffic-bound : {n m : ℕ} {es : List Event} → Traffic n es m → m ≤ n + length es
Traffic-bound quiet = omega arith
Traffic-bound (comes t) = omega (arith, Traffic-bound t)
Traffic-bound (leaves t) = omega (arith, Traffic-bound t)

-- How often the count has been zero after a disconnection, `z` times before these callbacks.
unfoldable pub zeros : (z n : ℕ) → List Event → ℕ
zeros z n [] = z
zeros z n (connected ∷ es) = zeros z (suc n) es
zeros z zero (disconnected ∷ es) = zeros z zero es
zeros z (suc zero) (disconnected ∷ es) = zeros (suc z) zero es
zeros z (suc (suc n)) (disconnected ∷ es) = zeros z (suc n) es
zeros z n (stopped ∷ es) = zeros z n es

-- The same with the beginning, if no client is connected then.
unfoldable pub visits : ℕ → List Event → ℕ
unfolding zeros
visits zero es = zeros 1 zero es
visits (suc n) es = zeros 0 (suc n) es

pub zeros-grows : (z n : ℕ) (es : List Event) → z ≤ zeros z n es
unfolding zeros
zeros-grows z n [] = omega arith
zeros-grows z n (connected ∷ es) = zeros-grows z (suc n) es
zeros-grows z zero (disconnected ∷ es) = zeros-grows z zero es
zeros-grows z (suc zero) (disconnected ∷ es) = omega (arith, zeros-grows (suc z) zero es)
zeros-grows z (suc (suc n)) (disconnected ∷ es) = zeros-grows z (suc n) es
zeros-grows z n (stopped ∷ es) = zeros-grows z n es
