-- ===== src/Base64/Text.antt =====
-- The text of RFC 4648, by recursion on byte triplets, and that `encode` writes it.
use iisintegration.Prelude.{
  ℕ, suc, ◌+◌, ◌-◌, ◌*◌, ◌/◌, ◌%◌, ◌<◌, ◌≤◌, ◌≡◌, refl, ◌⊎◌, inl, inr, false, some, List, [], ◌∷◌,
  ◌++◌, arith, length, All, set,
}
use iisintegration.Prelude.Win32.{error_success}
use iisintegration.Base64.{
  dword, encode_char, sextet3, emit, emit_cluster, encode_loop, pad, finish, encoded_size, encode,
}
use iisintegration.Base64.Tables.{sextet1_lem, sextet2_lem, sextet3_lem}

abbrev pub IsByte : ℕ → Type 0
IsByte b = b < 256

-- Four characters for three bytes; the last one or two bytes are padded by '='.
unfoldable pub base64_text : List ℕ → List ℕ
base64_text [] = []
base64_text (a ∷ []) = encode_char (a / 4) ∷ encode_char (a % 4 * 16) ∷ b'=' ∷ b'=' ∷ []
base64_text (a ∷ b ∷ []) =
    encode_char (a / 4) ∷ encode_char (a % 4 * 16 + b / 16) ∷ encode_char (b % 16 * 4) ∷ b'=' ∷ []
base64_text (a ∷ b ∷ c ∷ bs) =
    encode_char (a / 4)
    ∷ encode_char (a % 4 * 16 + b / 16)
    ∷ encode_char (b % 16 * 4 + c / 64)
    ∷ encode_char (c % 64)
    ∷ base64_text bs

-- The characters before the padding overwrites the last ones.
unpadded : List ℕ → List ℕ
unpadded [] = []
unpadded (a ∷ []) =
    encode_char (a / 4) ∷ encode_char (a % 4 * 16) ∷ encode_char 0 ∷ encode_char 0 ∷ []
unpadded (a ∷ b ∷ []) =
    encode_char (a / 4)
    ∷ encode_char (a % 4 * 16 + b / 16)
    ∷ encode_char (b % 16 * 4)
    ∷ encode_char 0
    ∷ []
unpadded (a ∷ b ∷ c ∷ bs) =
    encode_char (a / 4)
    ∷ encode_char (a % 4 * 16 + b / 16)
    ∷ encode_char (b % 16 * 4 + c / 64)
    ∷ encode_char (c % 64)
    ∷ unpadded bs

length-unpadded : (bs : List ℕ) → length (unpadded bs) ≡ (length bs + 2) / 3 * 4
unfolding unpadded
length-unpadded [] = refl
length-unpadded (a ∷ []) = refl
length-unpadded (a ∷ b ∷ []) = refl
length-unpadded (a ∷ b ∷ c ∷ bs) = omega (arith, length-unpadded bs)

pub length-base64_text : (bs : List ℕ) → length (base64_text bs) ≡ (length bs + 2) / 3 * 4
unfolding base64_text
length-base64_text [] = refl
length-base64_text (a ∷ []) = refl
length-base64_text (a ∷ b ∷ []) = refl
length-base64_text (a ∷ b ∷ c ∷ bs) = omega (arith, length-base64_text bs)

emit_lem :
    (cch ich c : ℕ) (w : List ℕ)
    → ich + 1 < cch
    → emit cch ich c (error_success, w) ≡ (error_success, c ∷ w)
unfolding emit
emit_lem cch ich c w h = ground arith

emit_cluster_lem :
    (cch ich a b c : ℕ) (w : List ℕ)
    → IsByte a
    → IsByte b
    → IsByte c
    → ich + 4 < cch
    → emit_cluster cch ich a b c (error_success, w) ≡ (
      error_success,
      encode_char (a / 4)
          ∷ encode_char (a % 4 * 16 + b / 16)
          ∷ encode_char (b % 16 * 4 + c / 64)
          ∷ encode_char (c % 64)
          ∷ w,
    )
unfolding emit_cluster
emit_cluster_lem cch ich a b c w ha hb hc h = rw (
  emit_lem cch (ich + 3) (encode_char (sextet3 c)) w (omega arith),
  emit_lem cch (ich + 2) _ _ (omega arith),
  emit_lem cch (ich + 1) _ _ (omega arith),
  emit_lem cch ich _ _ (omega arith),
  sextet1_lem a b ha hb,
  sextet2_lem b c hb hc,
  sextet3_lem c hc,
)

-- The loop writes the unpadded text when the buffer has room for it and a null.
encode_loop_lem :
    (cch ich : ℕ) (bs : List ℕ)
    → All IsByte bs
    → ich + (length bs + 2) / 3 * 4 < cch
    → encode_loop cch ich bs ≡ (error_success, unpadded bs)
unfolding encode_loop unpadded
encode_loop_lem cch ich [] h k = refl
encode_loop_lem cch ich (a ∷ []) h k =
    rw (emit_cluster_lem cch ich a 0 0 [] h.0 (omega arith) (omega arith) (omega arith))
      (ground arith)
encode_loop_lem cch ich (a ∷ b ∷ []) h k =
    rw (emit_cluster_lem cch ich a b 0 [] h.0 h.1.0 (omega arith) (omega arith)) (ground arith)
encode_loop_lem cch ich (a ∷ b ∷ c ∷ bs) h k =
    rw (encode_loop_lem cch (ich + 4) bs h.1.1.1 (omega arith))
      (emit_cluster_lem cch ich a b c (unpadded bs) h.0 h.1.0 h.1.1.0 (omega arith))

set_skip :
    (a b c d i v : ℕ) (w : List ℕ) → set (a ∷ b ∷ c ∷ d ∷ w) (i + 4) v ≡ a ∷ b ∷ c ∷ d ∷ set w i v
set_skip a b c d i v w = let e : i + 4 ≡ suc (suc (suc (suc i))) = omega arith in rw e

pad_skip :
    (r a b c d : ℕ) (w : List ℕ)
    → r ≡ 0 ⊎ 2 ≤ length w
    → pad r (a ∷ b ∷ c ∷ d ∷ w) ≡ a ∷ b ∷ c ∷ d ∷ pad r w
unfolding pad
pad_skip r a b c d w (inl e) = ground arith
pad_skip r a b c d w (inr h) =
    let two : suc (suc (suc (suc (length w)))) - 2 ≡ length w - 2 + 4 = omega arith in
    let one : suc (suc (suc (suc (length w)))) - 1 ≡ length w - 1 + 4 = omega arith in
    rw
      (
        two,
        one,
        set_skip a b c d (length w - 2) b'=' w,
        set_skip a b c d (length w - 1) b'=' (set w (length w - 2) b'='),
        set_skip a b c d (length w - 1) b'=' w,
      )
      (ground arith)

-- The `switch` turns the unpadded text into the padded one.
pad_lem : (bs : List ℕ) → pad (length bs % 3) (unpadded bs) ≡ base64_text bs
unfolding unpadded base64_text
pad_lem [] = unfold pad in refl
pad_lem (a ∷ []) = unfold pad in refl
pad_lem (a ∷ b ∷ []) = unfold pad in refl
pad_lem (a ∷ b ∷ c ∷ bs) =
    let e : suc (suc (suc (length bs))) % 3 ≡ length bs % 3 = omega arith in
    rw (
      e,
      pad_skip (length bs % 3) _ _ _ _ (unpadded bs) (omega (arith, length-unpadded bs)),
      pad_lem bs,
    )

-- `encode` writes the text and a null, and reports the size with the null, when the size fits in
-- a DWORD and the buffer holds it.
pub encode_lem :
    (bs : List ℕ) (cch : ℕ)
    → All IsByte bs
    → 1 + (length bs + 2) / 3 * 4 < dword
    → 1 + (length bs + 2) / 3 * 4 ≤ cch
    → encode bs false cch
      ≡ some (record {
        status = error_success;
        size = encoded_size (length bs);
        text = base64_text bs ++ 0 ∷ [];
      })
unfolding encode finish
encode_lem bs cch h fits room =
    rw (encode_loop_lem cch 0 bs h (omega arith), finish, pad_lem bs) (ground (arith, encoded))
  where
    encoded : encoded_size (length bs) ≡ 1 + (length bs + 2) / 3 * 4
    encoded = unfold encoded_size in omega arith
