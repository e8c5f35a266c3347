-- ===== src/Base64/Tests.antt =====
-- Runs of base64.cpp's functions, and the theorems at concrete inputs.
use iisintegration.Prelude.{
  ◌≡◌, ◌↔◌, refl, false, ℕ, ◌<◌, ◌%◌, List, [], ◌∷◌, ◌++◌, arith, All, codes, take, none, some,
  true,
}
use iisintegration.Prelude.Win32.{error_success, error_invalid_parameter}
use iisintegration.Base64.{
  encode, encode_loop, emit_cluster, emit, encode_char, sextet1, sextet2, sextet3, finish, pad,
  encoded_size, decode, decode_loop, decode_cluster, decode_char, decoded_size, text_size, byte0,
  byte1, byte2,
}
use iisintegration.Base64.RoundTrip.{decode-encode}
use iisintegration.Base64.Bounds.{decode_bounds, decode_accepts, InTable, StaysInside, HasSuccess}

encode_any :
    encode (codes "any") false 5
    ≡ some (record { status = error_success; size = 5; text = codes "YW55" ++ 0 ∷ [] })
unfolding encode encode_loop emit_cluster emit encode_char sextet1 sextet2 sextet3 finish pad
    encoded_size
encode_any = refl

encode_two :
    encode (codes "an") false 9
    ≡ some (record { status = error_success; size = 5; text = codes "YW4=" ++ 0 ∷ [] })
unfolding encode encode_loop emit_cluster emit encode_char sextet1 sextet2 sextet3 finish pad
    encoded_size
encode_two = refl

-- A '=' in the middle of a text stands for 0.
decode_inner_pad :
    decode (codes "A=AA") false 3
    ≡ some (record { status = error_success; size = 3; bytes = 0 ∷ 0 ∷ 0 ∷ [] })
unfolding decode decode_loop decode_cluster decode_char decoded_size byte0 byte1 byte2
decode_inner_pad = refl

-- A NULL buffer with a size that is not 0 is written to.
decode_null : decode (codes "YW55") true 3 ≡ none
unfolding decode decode_loop decode_cluster decode_char decoded_size byte0 byte1 byte2
decode_null = refl

-- What `encode` writes for no bytes is no input of `decode`.
decode_empty :
    decode [] false 3 ≡ some (record { status = error_invalid_parameter; size = 0; bytes = [] })
unfolding decode
decode_empty = refl

decode-encode_example :
    (text : List ℕ) × (encode (codes "an") false 5
      ≡ some (record { status = error_success; size = encoded_size 2; text = text ++ 0 ∷ [] }))
    × (decode text false 8 ≡ some (record { status = error_success; size = 2; bytes = codes "an" }))
decode-encode_example =
    decode-encode (codes "an") 5 8 (omega arith) (omega arith) (omega arith)
      (unfold encoded_size in omega arith) (omega arith)

decode_bounds_example : StaysInside false 2 (decode (codes "YW4=") false 2)
decode_bounds_example = decode_bounds (codes "YW4=") false 2

decode_accepts_example : HasSuccess (decode (codes "YW4=") false 2) ↔ (
    (0 < text_size (codes "YW4="))
    × (text_size (codes "YW4=") % 4 ≡ 0)
    × All InTable (take (text_size (codes "YW4=")) (codes "YW4=")))
decode_accepts_example = decode_accepts (codes "YW4=") 2 (unfold decoded_size in omega arith)
