-- ===== src/Base64/Tables.antt =====
-- The bit operations of one cluster as arithmetic, and the two tables of base64.cpp as inverses.
use iisintegration.Prelude.{
  ℕ, ◌+◌, ◌*◌, ◌/◌, ◌%◌, ◌^◌, ◌<◌, ◌≡◌, refl, true, false, not, ◌&&◌, bit_and, bit_or, arith, ltb,
  ◌==◌, holds_below, at_below, holds_on_pairs, equal_below, equal_pairs_below,
}
use iisintegration.Base64.{encode_char, sextet1, sextet2, sextet3, decode_char, byte0, byte1, byte2}

and_30 : (x : ℕ) → x < 256 → bit_and (x * 2 ^ 4) 0x30 ≡ x % 4 * 16
unfolding holds_below
and_30 = equal_below 256 (λ x. bit_and (x * 2 ^ 4) 0x30) (λ x. x % 4 * 16) refl

and_0f : (x : ℕ) → x < 16 → bit_and x 0x0f ≡ x
unfolding holds_below
and_0f = equal_below 16 (λ x. bit_and x 0x0f) (λ x. x) refl

and_3c : (x : ℕ) → x < 256 → bit_and (x * 2 ^ 2) 0x3c ≡ x % 16 * 4
unfolding holds_below
and_3c = equal_below 256 (λ x. bit_and (x * 2 ^ 2) 0x3c) (λ x. x % 16 * 4) refl

and_03 : (x : ℕ) → x < 4 → bit_and x 0x03 ≡ x
unfolding holds_below
and_03 = equal_below 4 (λ x. bit_and x 0x03) (λ x. x) refl

and_3f : (x : ℕ) → x < 256 → bit_and x 0x3f ≡ x % 64
unfolding holds_below
and_3f = equal_below 256 (λ x. bit_and x 0x3f) (λ x. x % 64) refl

or_16 : (x y : ℕ) → x < 64 → y < 16 → bit_or (x * 16) y ≡ x * 16 + y
unfolding holds_on_pairs
or_16 = equal_pairs_below 64 16 (λ x y. bit_or (x * 16) y) (λ x y. x * 16 + y) refl

or_4 : (x y : ℕ) → x < 64 → y < 4 → bit_or (x * 4) y ≡ x * 4 + y
unfolding holds_on_pairs
or_4 = equal_pairs_below 64 4 (λ x y. bit_or (x * 4) y) (λ x y. x * 4 + y) refl

or_64 : (x y : ℕ) → x < 64 → y < 64 → bit_or (x * 64) y ≡ x * 64 + y
unfolding holds_on_pairs
or_64 = equal_pairs_below 64 64 (λ x y. bit_or (x * 64) y) (λ x y. x * 64 + y) refl

module _ (b0 b1 : ℕ) (h0 : b0 < 256) (h1 : b1 < 256) where
  pub sextet1_lem : sextet1 b0 b1 ≡ b0 % 4 * 16 + b1 / 16
  unfolding sextet1
  sextet1_lem =
      rw (and_30 b0 h0, and_0f (b1 / 2 ^ 4) (omega arith))
        (or_16 (b0 % 4) _ (omega arith) (omega arith))

  pub sextet2_lem : sextet2 b0 b1 ≡ b0 % 16 * 4 + b1 / 64
  unfolding sextet2
  sextet2_lem =
      rw (and_3c b0 h0, and_03 (b1 / 2 ^ 6) (omega arith))
        (or_4 (b0 % 16) _ (omega arith) (omega arith))

pub sextet3_lem : (b : ℕ) → b < 256 → sextet3 b ≡ b % 64
unfolding sextet3
sextet3_lem b h = and_3f b h

module _ (x y : ℕ) (hx : x < 64) (hy : y < 64) where
  pub byte0_lem : byte0 x y ≡ x * 4 + y / 16
  unfolding byte0
  byte0_lem = omega (arith, or_4 x (y / 2 ^ 4) hx (omega arith))

  pub byte1_lem : byte1 x y ≡ (x * 16 + y / 4) % 256
  unfolding byte1
  byte1_lem = omega (arith, or_16 x (y / 2 ^ 2) hx (omega arith))

  pub byte2_lem : byte2 x y ≡ (x * 64 + y) % 256
  unfolding byte2
  byte2_lem = omega (arith, or_64 x y hx hy)

decode-encode_table :
    holds_below 64 (λ i.
      (decode_char (encode_char i) == i) && ltb (encode_char i) 128 && not (encode_char i == b'='))
    ≡ true
unfolding holds_below decode_char encode_char
decode-encode_table = refl

-- The decoding table undoes the encoding table.
pub decode-encode_char : (i : ℕ) → i < 64 → decode_char (encode_char i) ≡ i
decode-encode_char i h = ground (arith, at_below 64 _ i decode-encode_table h)

pub encode_char-ne_pad : (i : ℕ) → i < 64 → (encode_char i == b'=') ≡ false
encode_char-ne_pad i h = ground (arith, at_below 64 _ i decode-encode_table h)
