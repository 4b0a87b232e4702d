-- ===== src/Wire/BigEndian.antt =====
-- `binary.BigEndian.PutUint64`, and the decoding by `binary.Read` into a `uint64`, as
-- internal/trans_network/network_helper.go uses them.
use apron_gateway_p2p.Prelude.{
  ℕ, ◌+◌, ◌*◌, ◌/◌, ◌%◌, ◌^◌, ◌<◌, ◌≡◌, refl, [], ◌∷◌, Bytes, length, arith,
}

-- `binary.BigEndian.PutUint64(msgLenBytes, v)`
unfoldable pub put_uint64 : ℕ → Bytes
put_uint64 v =
    v / 2 ^ 56 % 256
    ∷ v / 2 ^ 48 % 256
    ∷ v / 2 ^ 40 % 256
    ∷ v / 2 ^ 32 % 256
    ∷ v / 2 ^ 24 % 256
    ∷ v / 2 ^ 16 % 256
    ∷ v / 2 ^ 8 % 256
    ∷ v % 256
    ∷ []

-- the value of bytes, the most significant first
unfoldable pub be_value : ℕ → Bytes → ℕ
be_value acc [] = acc
be_value acc (b ∷ bs) = be_value (acc * 256 + b) bs

pub length-put_uint64 : (v : ℕ) → length (put_uint64 v) ≡ 8
unfolding put_uint64
length-put_uint64 v = refl

-- Eight bytes hold any 64-bit number.
pub be_value-put_uint64 : (v : ℕ) → v < 2 ^ 64 → be_value 0 (put_uint64 v) ≡ v
unfolding put_uint64 be_value
be_value-put_uint64 v h = omega arith
