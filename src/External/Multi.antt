-- ===== src/External/Multi.antt =====
-- The crates `unsigned_varint` and `multibase` (base 58), as src/multiformat.rs uses them.
use rust_ma_core.Common.{
  ℕ, ◌<◌, ◌^◌, Str, Bytes, Option, none, some, [], ◌∷◌, ◌++◌, ◌≡◌, refl, ◌==◌, if◌then◌else◌,
}

abbrev pub u64_mod : ℕ
u64_mod = 2 ^ 64

pub record MultiLib : Type 0 where
  -- `encode::u64` and `decode::u64`, which returns the number and the remaining bytes.
  pub varint_encode : ℕ → Bytes
  pub varint_decode : Bytes → Option (ℕ × Bytes)
  -- `multibase::encode(Base::Base58Btc, _)`, and `multibase::decode` without the base.
  pub base58_encode : Bytes → Str
  pub base_decode : Str → Option Bytes
  pub varint_round_trip :
      (n : ℕ) (rest : Bytes)
      → n < u64_mod
      → varint_decode (varint_encode n ++ rest) ≡ some (n, rest)
  pub base58_round_trip : (b : Bytes) → base_decode (base58_encode b) ≡ some b
  -- The prefix character `z`.
  pub base58_prefix : (b : Bytes) → (s : Str) × (base58_encode b ≡ b'z' ∷ s)

abbrev pub toy_varint_decode : Bytes → Option (ℕ × Bytes)
toy_varint_decode [] = none
toy_varint_decode (n ∷ rest) = some (n, rest)

abbrev pub toy_base_decode : Str → Option Bytes
toy_base_decode [] = none
toy_base_decode (c ∷ s) = if c == b'z' then some s else none

-- An instance: one cell for a number, and base 58 as the prefix alone.
abbrev pub toy_multi : MultiLib
toy_multi = record {
  varint_encode = λ n. n ∷ [];
  varint_decode = toy_varint_decode;
  base58_encode = λ b. b'z' ∷ b;
  base_decode = toy_base_decode;
  varint_round_trip = λ n rest h. refl;
  base58_round_trip = λ b. refl;
  base58_prefix = λ b. (b, refl);
}
