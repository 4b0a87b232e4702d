-- ===== src/Startup/Seed.antt =====
-- Which secret keys give different hosts: `fmt.Sprintf("%032b", config.SecretKey)` of
-- internal/trans_network/node.go.
use apron_gateway_p2p.Prelude.{ℕ, zero, suc, ◌+◌, ◌-◌, ◌*◌, ◌≤◌, [], ◌∷◌, Bytes, replicate, arith}

abbrev power_of_two : ℕ → ℕ
power_of_two zero = 1
power_of_two (suc k) = 2 * power_of_two k

power_of_two_pos : (k : ℕ) → 1 ≤ power_of_two k
power_of_two_pos zero = omega arith
power_of_two_pos (suc k) = omega (arith, power_of_two_pos k)

-- the number that binary digits stand for, behind others
abbrev pub binary_value : ℕ → Bytes → ℕ
binary_value acc [] = acc
binary_value acc (d ∷ ds) = binary_value (2 * acc + (d - 48)) ds

abbrev zeros : ℕ → Bytes
zeros n = replicate n 48
