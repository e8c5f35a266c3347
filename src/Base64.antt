-- ===== src/Base64.antt =====
-- Base64Encode and Base64Decode of AspNetCoreModuleV2/IISLib/base64.cpp, over characters as numbers.
pub mod Tables
pub mod Text
pub mod RoundTrip
pub mod Bounds
mod Tests
use iisintegration.Prelude.{
  ℕ, suc, ◌+◌, ◌-◌, ◌*◌, ◌/◌, ◌%◌, ◌^◌, ◌≡◌, refl, Bool, true, false, not, ◌&&◌, ◌||◌, List, [],
  ◌∷◌, ◌++◌, bit_and, bit_or, ltb, leb, ◌==◌, if◌then◌else◌, length, get_or, set, codes, take,
  Option, none, some,
}
use iisintegration.Prelude.Win32.{
  Win32Error, error_success, error_invalid_parameter, error_insufficient_buffer,
  error_buffer_overflow,
}

abbrev pub dword : ℕ
dword = 2 ^ 32

abbrev pub encode_table : List ℕ
encode_table = codes "ABCDEFGHIJKLMNOPQRSTUVWXYZabcdefghijklmnopqrstuvwxyz0123456789+/"

-- `rgchEncodeTable[i]`; the index is below 64 wherever the code reads the table.
unfoldable pub encode_char : ℕ → ℕ
encode_char i = get_or encode_table i 0

-- The four table indices of a cluster.
abbrev pub sextet0 : ℕ → ℕ
sextet0 b0 = b0 / 2 ^ 2

unfoldable pub sextet1 : ℕ → ℕ → ℕ
sextet1 b0 b1 = bit_or (bit_and (b0 * 2 ^ 4) 0x30) (bit_and (b1 / 2 ^ 4) 0x0f)

unfoldable pub sextet2 : ℕ → ℕ → ℕ
sextet2 b1 b2 = bit_or (bit_and (b1 * 2 ^ 2) 0x3c) (bit_and (b2 / 2 ^ 6) 0x03)

unfoldable pub sextet3 : ℕ → ℕ
sextet3 b2 = bit_and b2 0x3f

-- The status of a run, and what it wrote to the buffer from where it stands, in order.
abbrev pub Output : Type 0
Output = Win32Error × List ℕ

-- `pszEncodedString[ich++] = c`, and the check that follows it.
unfoldable pub emit : ℕ → ℕ → ℕ → Output → Output
emit cch ich c rest =
    if leb cch (ich + 1) then (error_buffer_overflow, c ∷ []) else (rest.0, c ∷ rest.1)

unfoldable pub emit_cluster : ℕ → ℕ → ℕ → ℕ → ℕ → Output → Output
emit_cluster cch ich b0 b1 b2 rest = emit cch ich (encode_char (sextet0 b0)) (
    emit cch (ich + 1) (encode_char (sextet1 b0 b1)) (
      emit cch (ich + 2) (encode_char (sextet2 b1 b2))
        (emit cch (ich + 3) (encode_char (sextet3 b2)) rest)))

-- The loop over byte triplets; a byte past the end is 0.
unfoldable pub encode_loop : ℕ → ℕ → List ℕ → Output
encode_loop cch ich [] = (error_success, [])
encode_loop cch ich (b0 ∷ []) = emit_cluster cch ich b0 0 0 (error_success, [])
encode_loop cch ich (b0 ∷ b1 ∷ []) = emit_cluster cch ich b0 b1 0 (error_success, [])
encode_loop cch ich (b0 ∷ b1 ∷ b2 ∷ bs) =
    emit_cluster cch ich b0 b1 b2 (encode_loop cch (ich + 4) bs)

-- The `switch` that overwrites the last characters with '='; `ich` is the length written so far.
unfoldable pub pad : ℕ → List ℕ → List ℕ
pad remainder w =
    let ich = length w in
    if remainder == 1
    then set (set w (ich - 2) b'=') (ich - 1) b'='
    else if remainder == 2
    then set w (ich - 1) b'='
    else w

-- After the loop: pad, and terminate by a null; an overflow returns at once.
unfoldable pub finish : ℕ → Output → Output
finish cb (error_success, w) = (error_success, pad (cb % 3) w ++ 0 ∷ [])
finish cb (e, w) = (e, w)

pub record Encoded : Type 0 where
  pub status : Win32Error
  -- `*pcchEncoded`
  pub size : ℕ
  -- the characters written to `pszEncodedString`, from its start
  pub text : List ℕ

-- `cchEncoded`, a DWORD.
unfoldable pub encoded_size : ℕ → ℕ
encoded_size cb = (1 + (cb + 2) % dword / 3 * 4) % dword

-- `is_null` is `pszEncodedString == NULL`, and `cch` is `cchEncodedStringSize`; `none` is a write through
-- NULL.
unfoldable pub encode : List ℕ → Bool → ℕ → Option Encoded
encode bytes is_null cch =
    let size = encoded_size (length bytes) in
    let run = finish (length bytes) (encode_loop cch 0 bytes) in
    if cch == 0 && is_null
    then some (record { status = error_success; size = size; text = [] })
    else if ltb cch size
    then some (record { status = error_insufficient_buffer; size = size; text = [] })
    else if is_null
    then none
    else some (record { status = run.0; size = size; text = run.1 })

abbrev pub na : ℕ
na = 255

abbrev pub decode_table : List ℕ
decode_table =
    na ∷ na ∷ na ∷ na ∷ na ∷ na ∷ na ∷ na ∷ na ∷ na ∷ na ∷ na ∷ na ∷ na ∷ na ∷ na ∷ na ∷ na ∷ na
    ∷ na ∷ na ∷ na ∷ na ∷ na ∷ na ∷ na ∷ na ∷ na ∷ na ∷ na ∷ na ∷ na ∷ na ∷ na ∷ na ∷ na ∷ na ∷ na
    ∷ na ∷ na ∷ na ∷ na ∷ na ∷ 62 ∷ na ∷ na ∷ na ∷ 63 ∷ 52 ∷ 53 ∷ 54 ∷ 55 ∷ 56 ∷ 57 ∷ 58 ∷ 59 ∷ 60
    ∷ 61 ∷ na ∷ na ∷ na ∷ 0 ∷ na ∷ na ∷ na ∷ 0 ∷ 1 ∷ 2 ∷ 3 ∷ 4 ∷ 5 ∷ 6 ∷ 7 ∷ 8 ∷ 9 ∷ 10 ∷ 11 ∷ 12
    ∷ 13 ∷ 14 ∷ 15 ∷ 16 ∷ 17 ∷ 18 ∷ 19 ∷ 20 ∷ 21 ∷ 22 ∷ 23 ∷ 24 ∷ 25 ∷ na ∷ na ∷ na ∷ na ∷ na ∷ na
    ∷ 26 ∷ 27 ∷ 28 ∷ 29 ∷ 30 ∷ 31 ∷ 32 ∷ 33 ∷ 34 ∷ 35 ∷ 36 ∷ 37 ∷ 38 ∷ 39 ∷ 40 ∷ 41 ∷ 42 ∷ 43 ∷ 44
    ∷ 45 ∷ 46 ∷ 47 ∷ 48 ∷ 49 ∷ 50 ∷ 51 ∷ na ∷ na ∷ na ∷ na ∷ na ∷ []

-- `DECODE(x)`
unfoldable pub decode_char : ℕ → ℕ
decode_char x = if ltb x 128 then get_or decode_table x na else na

-- The three bytes of a cluster, each cut to a BYTE by the store.
unfoldable pub byte0 : ℕ → ℕ → ℕ
byte0 b0 b1 = bit_or (b0 * 2 ^ 2) (b1 / 2 ^ 4) % 256

unfoldable pub byte1 : ℕ → ℕ → ℕ
byte1 b1 b2 = bit_or (b1 * 2 ^ 4) (b2 / 2 ^ 2) % 256

unfoldable pub byte2 : ℕ → ℕ → ℕ
byte2 b2 b3 = bit_or (b2 * 2 ^ 6) b3 % 256

abbrev pub put : ℕ → Output → Output
put b rest = (rest.0, b ∷ rest.1)

-- The body of the decoding loop for one cluster; `rest` is the run from the next cluster, given
-- where it starts to write.
unfoldable pub decode_cluster : ℕ → ℕ → ℕ → ℕ → ℕ → ℕ → (ℕ → Output) → Output
decode_cluster cb ib b0 b1 b2 b3 rest =
    if na == b0 || na == b1 || na == b2 || na == b3
    then (error_invalid_parameter, [])
    else put (byte0 b0 b1) (
        if ltb (ib + 1) cb
        then put (byte1 b1 b2)
            (if ltb (ib + 2) cb then put (byte2 b2 b3) (rest (ib + 3)) else rest (ib + 2))
        else rest (ib + 1))

-- The loop. The size is a multiple of four; a shorter rest would read the terminating null, which
-- is not in the table.
unfoldable pub decode_loop : ℕ → ℕ → List ℕ → Output
decode_loop cb ib [] = (error_success, [])
decode_loop cb ib (x0 ∷ x1 ∷ x2 ∷ x3 ∷ xs) =
    decode_cluster cb ib (decode_char x0) (decode_char x1) (decode_char x2) (decode_char x3)
      (λ next. decode_loop cb next xs)
decode_loop cb ib (x ∷ xs) = (error_invalid_parameter, [])

-- `cchEncodedSize`: the length, cut to a DWORD.
abbrev pub text_size : List ℕ → ℕ
text_size text = length text % dword

-- `cbDecoded` for a text whose size is not 0
unfoldable pub decoded_size : List ℕ → ℕ
decoded_size text =
    let n = text_size text in
    let full = (n + 3) % dword / 4 * 3 in
    if get_or text (n - 1) 0 == b'='
    then (if get_or text (n - 2) 0 == b'=' then full - 2 else full - 1)
    else full

pub record Decoded : Type 0 where
  pub status : Win32Error
  -- `*pcbDecoded`
  pub size : ℕ
  -- the bytes written to `pDecodeBuffer`, from its start
  pub bytes : List ℕ

-- What a run leaves in a buffer; `none` is a write through NULL.
abbrev pub store : Bool → ℕ → Output → Option Decoded
store true size (e, b ∷ bs) = none
store is_null size (e, bs) = some (record { status = e; size = size; bytes = bs })

-- The text is what stands before its null; `is_null` is `pDecodeBuffer == NULL`, and `cch` is
-- `cbDecodeBufferSize`.
unfoldable pub decode : List ℕ → Bool → ℕ → Option Decoded
decode text is_null cch =
    let n = text_size text in
    let size = decoded_size text in
    let run = decode_loop size 0 (take n text) in
    if n == 0 || not (n % 4 == 0)
    then some (record { status = error_invalid_parameter; size = 0; bytes = [] })
    else if cch == 0 && is_null
    then some (record { status = error_success; size = size; bytes = [] })
    else if ltb cch size
    then some (record { status = error_insufficient_buffer; size = size; bytes = [] })
    else store is_null size run
