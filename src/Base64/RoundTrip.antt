-- ===== src/Base64/RoundTrip.antt =====
-- Base64Decode after Base64Encode.
use iisintegration.Prelude.{
  ℕ, suc, ◌+◌, ◌-◌, ◌*◌, ◌/◌, ◌%◌, ◌<◌, ◌≤◌, ◌≡◌, refl, false, not, List, [], ◌∷◌, ◌++◌, arith,
  length, All, take, some, ap, get_or, ◌==◌, ltb, if◌then◌else◌,
}
use iisintegration.Prelude.Win32.{error_success}
use iisintegration.Base64.{
  dword, decode_char, byte0, byte1, byte2, decode_cluster, decode_loop, decoded_size, decode,
  encode, encoded_size, Output, text_size,
}
use iisintegration.Base64.Tables.{
  decode-encode_char, encode_char-ne_pad, byte0_lem, byte1_lem, byte2_lem,
}
use iisintegration.Base64.Text.{IsByte, base64_text, length-base64_text, encode_lem}

module _ (cb ib a b c : ℕ) (ha : IsByte a) (hb : IsByte b) (hc : IsByte c) (rest : ℕ → Output) where
  first : byte0 (a / 4) (a % 4 * 16 + b / 16) ≡ a
  first = omega (arith, byte0_lem (a / 4) (a % 4 * 16 + b / 16) (omega arith) (omega arith))

  second : byte1 (a % 4 * 16 + b / 16) (b % 16 * 4 + c / 64) ≡ b
  second =
      omega
        (arith, byte1_lem (a % 4 * 16 + b / 16) (b % 16 * 4 + c / 64) (omega arith) (omega arith))

  third : byte2 (b % 16 * 4 + c / 64) (c % 64) ≡ c
  third = omega (arith, byte2_lem (b % 16 * 4 + c / 64) (c % 64) (omega arith) (omega arith))

  -- A cluster gives its three bytes, or as many as the size has left.
  decode_cluster_lem :
      decode_cluster cb ib (a / 4) (a % 4 * 16 + b / 16) (b % 16 * 4 + c / 64) (c % 64) rest ≡ (
        if ltb (ib + 1) cb
        then (if ltb (ib + 2) cb
            then ((rest (ib + 3)).0, a ∷ b ∷ c ∷ (rest (ib + 3)).1)
            else ((rest (ib + 2)).0, a ∷ b ∷ (rest (ib + 2)).1))
        else ((rest (ib + 1)).0, a ∷ (rest (ib + 1)).1))
  unfolding decode_cluster
  decode_cluster_lem = rw (first, second, third) (ground arith)

-- The last cluster of one byte, and of two.
decode_one :
    (cb ib a : ℕ) (rest : ℕ → Output)
    → IsByte a
    → ib + 1 ≡ cb
    → decode_cluster cb ib (a / 4) (a % 4 * 16) 0 0 rest ≡ ((rest cb).0, a ∷ (rest cb).1)
unfolding decode_cluster
decode_one cb ib a rest h e =
    ground (arith, byte0_lem (a / 4) (a % 4 * 16) (omega arith) (omega arith))

decode_two :
    (cb ib a b : ℕ) (rest : ℕ → Output)
    → IsByte a
    → IsByte b
    → ib + 2 ≡ cb
    → decode_cluster cb ib (a / 4) (a % 4 * 16 + b / 16) (b % 16 * 4) 0 rest
      ≡ ((rest cb).0, a ∷ b ∷ (rest cb).1)
unfolding decode_cluster
decode_two cb ib a b rest h k e = ground (
  arith,
  byte0_lem (a / 4) (a % 4 * 16 + b / 16) (omega arith) (omega arith),
  byte1_lem (a % 4 * 16 + b / 16) (b % 16 * 4) (omega arith) (omega arith),
)

decode_pad : decode_char b'=' ≡ 0
unfolding decode_char
decode_pad = refl

decode_loop_lem :
    (cb ib : ℕ) (bs : List ℕ)
    → All IsByte bs
    → ib + length bs ≡ cb
    → decode_loop cb ib (base64_text bs) ≡ (error_success, bs)
unfolding decode_loop base64_text
decode_loop_lem cb ib [] h e = refl
decode_loop_lem cb ib (a ∷ []) h e =
    rw
      (
        decode-encode_char (a / 4) (omega arith),
        decode-encode_char (a % 4 * 16) (omega arith),
        decode_pad,
      )
      (decode_one cb ib a (λ next. decode_loop cb next []) h.0 e)
decode_loop_lem cb ib (a ∷ b ∷ []) h e =
    rw
      (
        decode-encode_char (a / 4) (omega arith),
        decode-encode_char (a % 4 * 16 + b / 16) (omega arith),
        decode-encode_char (b % 16 * 4) (omega arith),
        decode_pad,
      )
      (decode_two cb ib a b (λ next. decode_loop cb next []) h.0 h.1.0 e)
decode_loop_lem cb ib (a ∷ b ∷ c ∷ bs) h e =
    rw
      (
        decode-encode_char (a / 4) (omega arith),
        decode-encode_char (a % 4 * 16 + b / 16) (omega arith),
        decode-encode_char (b % 16 * 4 + c / 64) (omega arith),
        decode-encode_char (c % 64) (omega arith),
        decode_cluster_lem cb ib a b c h.0 h.1.0 h.1.1.0
            (λ next. decode_loop cb next (base64_text bs)),
      )
      (ground (arith, decode_loop_lem cb (ib + 3) bs h.1.1.1 (omega arith)))

get_or_skip : (a b c d i : ℕ) (w : List ℕ) → get_or (a ∷ b ∷ c ∷ d ∷ w) (i + 4) 0 ≡ get_or w i 0
get_or_skip a b c d i w = let e : i + 4 ≡ suc (suc (suc (suc i))) = omega arith in rw e

-- The size that Base64Decode computes from the padding is the number of bytes.
last_two :
    (bs : List ℕ)
    → All IsByte bs
    → 0 < length bs
    → let text = base64_text bs in
      let n = length text in
      (get_or text (n - 1) 0 == b'=') ≡ not (length bs % 3 == 0)
      × (get_or text (n - 2) 0 == b'=') ≡ (length bs % 3 == 1)
unfolding base64_text
last_two [] h k = absurd (omega arith)
last_two (a ∷ []) h k = (refl, refl)
last_two (a ∷ b ∷ []) h k = (refl, encode_char-ne_pad (b % 16 * 4) (omega arith))
last_two (a ∷ b ∷ c ∷ []) h k = (
  encode_char-ne_pad (c % 64) (omega arith),
  encode_char-ne_pad (b % 16 * 4 + c / 64) (omega arith),
)
last_two (a ∷ b ∷ c ∷ d ∷ bs) h k =
    let w = base64_text (d ∷ bs) in
    let full : length w ≡ (length bs + 3) / 3 * 4 = omega (arith, length-base64_text (d ∷ bs)) in
    let one : suc (suc (suc (suc (length w)))) - 1 ≡ length w - 1 + 4 = omega arith in
    let two : suc (suc (suc (suc (length w)))) - 2 ≡ length w - 2 + 4 = omega arith in
    let m : suc (suc (suc (suc (length bs)))) % 3 ≡ suc (length bs) % 3 = omega arith in
    rw (one, two, m, get_or_skip _ _ _ _ (length w - 1) w, get_or_skip _ _ _ _ (length w - 2) w)
      (last_two (d ∷ bs) h.1.1.1 (omega arith))

decoded_size_lem :
    (bs : List ℕ)
    → All IsByte bs
    → 0 < length bs
    → (length bs + 2) / 3 * 4 < dword
    → decoded_size (base64_text bs) ≡ length bs
unfolding decoded_size
decoded_size_lem bs h k fits =
    let same : text_size (base64_text bs) ≡ length (base64_text bs) =
      omega (arith, length-base64_text bs) in
    rw same (ground (arith, last_two bs h k, length-base64_text bs))

take-length : (xs : List ℕ) → take (length xs) xs ≡ xs
take-length [] = refl
take-length (x ∷ xs) = ap (λ l. x ∷ l) (take-length xs)

decode_lem :
    (bs : List ℕ) (cch : ℕ)
    → All IsByte bs
    → 0 < length bs
    → (length bs + 2) / 3 * 4 < dword
    → length bs ≤ cch
    → decode (base64_text bs) false cch
      ≡ some (record { status = error_success; size = length bs; bytes = bs })
unfolding decode
decode_lem bs cch h k fits room =
    let same : text_size (base64_text bs) ≡ length (base64_text bs) =
      omega (arith, length-base64_text bs) in
    rw
      (
        same,
        take-length (base64_text bs),
        decoded_size_lem bs h k fits,
        decode_loop_lem (length bs) 0 bs h (omega arith),
      )
      (ground (arith, length-base64_text bs))

-- Whatever nonempty bytes Base64Encode encodes into a buffer that is large enough, with a size
-- that fits in a DWORD, Base64Decode gives back: `encode` succeeds, reports that size and writes a text and
-- a null, and `decode` of that text into a buffer of at least the bytes' number succeeds, reports that
-- number and writes those bytes.
pub decode-encode :
    (bs : List ℕ) (cch cb : ℕ)
    → All IsByte bs
    → 0 < length bs
    → 1 + (length bs + 2) / 3 * 4 < dword
    → encoded_size (length bs) ≤ cch
    → length bs ≤ cb
    → (text : List ℕ) × (encode bs false cch
        ≡ some (record {
          status = error_success;
          size = encoded_size (length bs);
          text = text ++ 0 ∷ [];
        }))
      × (decode text false cb
          ≡ some (record { status = error_success; size = length bs; bytes = bs }))
decode-encode bs cch cb h k fits room larger =
    let e = encode_lem bs cch h fits (unfold encoded_size in omega arith) in
    (base64_text bs, e, decode_lem bs cb h k (omega arith) larger)
