-- ===== src/Base64/Bounds.antt =====
-- What the two functions write stays inside the caller's buffer, for every input.
use iisintegration.Prelude.{
  ℕ, suc, ◌+◌, ◌-◌, ◌*◌, ◌/◌, ◌%◌, ◌<◌, ◌≤◌, ◌≡◌, refl, Bool, false, List, [], ◌∷◌, arith, length,
  All, set, length-set, length-append, if-both, true, Option, none, some, take, ltb, min, ◌↔◌, ◌≢◌,
  zero, ◌||◌, ◌&&◌, not, ◌==◌,
}
use iisintegration.Prelude.Win32.{Win32Error, error_success}
use iisintegration.Base64.{
  emit, emit_cluster, encode_loop, pad, finish, encoded_size, encode, byte0, byte1, byte2,
  decode_char, decode_cluster, decode_loop, decoded_size, decode, Output, na, Decoded, Encoded,
  store, text_size,
}
use iisintegration.Base64.Text.{IsByte}

-- A run that writes from `ich` leaves room for a null when it succeeds, and never passes the end.
abbrev Fits : ℕ → ℕ → Output → Type 0
Fits cch ich r = (ich + length r.1 ≤ cch) × (r.0 ≡ error_success → ich + length r.1 < cch)

emit-Fits :
    (cch ich next c : ℕ) (rest : Output)
    → next ≡ ich + 1
    → ich < cch
    → (next < cch → Fits cch next rest)
    → Fits cch ich (emit cch ich c rest)
unfolding emit
emit-Fits cch ich next c rest e h k = ground arith

emit_cluster-Fits :
    (cch ich a b c : ℕ) (rest : Output)
    → ich < cch
    → (ich + 4 < cch → Fits cch (ich + 4) rest)
    → Fits cch ich (emit_cluster cch ich a b c rest)
unfolding emit_cluster
emit_cluster-Fits cch ich a b c rest h k = emit-Fits cch ich (ich + 1) _ _ refl h (λ h1.
    emit-Fits cch (ich + 1) (ich + 2) _ _ (omega arith) h1 (λ h2.
      emit-Fits cch (ich + 2) (ich + 3) _ _ (omega arith) h2
        (λ h3. emit-Fits cch (ich + 3) (ich + 4) _ _ (omega arith) h3 k)))

encode_loop-Fits : (cch ich : ℕ) (bs : List ℕ) → ich < cch → Fits cch ich (encode_loop cch ich bs)
unfolding encode_loop
encode_loop-Fits cch ich [] h = ground arith
encode_loop-Fits cch ich (a ∷ []) h = emit_cluster-Fits cch ich a 0 0 _ h (λ k. omega arith)
encode_loop-Fits cch ich (a ∷ b ∷ []) h = emit_cluster-Fits cch ich a b 0 _ h (λ k. omega arith)
encode_loop-Fits cch ich (a ∷ b ∷ c ∷ bs) h =
    emit_cluster-Fits cch ich a b c _ h (λ k. encode_loop-Fits cch (ich + 4) bs k)

length-pad : (r : ℕ) (w : List ℕ) → length (pad r w) ≡ length w
unfolding pad
length-pad r w = ground (
  arith,
  length-set w (length w - 2) b'=',
  length-set (set w (length w - 2) b'=') (length w - 1) b'=',
  length-set w (length w - 1) b'=',
)

finish-le : (cch n : ℕ) (r : Output) → Fits cch 0 r → length (finish n r).1 ≤ cch
unfolding finish
finish-le cch n (error_success, w) h =
    omega (arith, length-append (pad (n % 3) w) (0 ∷ []), length-pad (n % 3) w, h.1 refl)
finish-le cch n (e, w) h = omega arith

encoded_size_pos : (n : ℕ) → 0 < encoded_size n
unfolding encoded_size
encoded_size_pos n = omega arith

abbrev pub HasRoom : ℕ → Option Encoded → Type 0
HasRoom cch none = Unit
HasRoom cch (some r) = length r.text ≤ cch

-- For every input, also one whose size does not fit in a DWORD, Base64Encode writes no more
-- characters than `cchEncodedStringSize`, the null included, whatever it returns.
pub length-encode-le :
    (bs : List ℕ) (is_null : Bool) (cch : ℕ) → HasRoom cch (encode bs is_null cch)
unfolding encode
length-encode-le bs is_null zero = ground (arith, encoded_size_pos (length bs))
length-encode-le bs is_null (suc n) = ground (
  arith,
  finish-le (suc n) (length bs) (encode_loop (suc n) 0 bs)
      (encode_loop-Fits (suc n) 0 bs (omega arith)),
)

-- A run that writes from `ib` stays within `cb` bytes, fills them if it succeeds, and writes bytes.
abbrev Fills : ℕ → ℕ → Output → Type 0
Fills cb ib r =
    (ib + length r.1 ≤ cb) × (r.0 ≡ error_success → ib + length r.1 ≡ cb) × All IsByte r.1

decode_cluster-Fills :
    (cb ib b0 b1 b2 b3 : ℕ) (rest : ℕ → Output)
    → ib < cb
    → ((next : ℕ) → next ≡ min (ib + 3) cb → Fills cb next (rest next))
    → Fills cb ib (decode_cluster cb ib b0 b1 b2 b3 rest)
unfolding decode_cluster byte0 byte1 byte2
decode_cluster-Fills cb ib b0 b1 b2 b3 rest h k = ground (arith, k (ib + 1), k (ib + 2), k (ib + 3))

-- A cluster of the text for each three bytes, the last one cut short by at most two.
decode_loop-Fills :
    (cb ib : ℕ) (xs : List ℕ)
    → length xs % 4 ≡ 0
    → ib + length xs / 4 * 3 ≤ cb + 2
    → ib ≤ cb
    → cb ≤ ib + length xs / 4 * 3
    → Fills cb ib (decode_loop cb ib xs)
unfolding decode_loop
decode_loop-Fills cb ib [] m h l k = (omega arith, λ _. omega arith, tt)
decode_loop-Fills cb ib (x0 ∷ []) m h l k = absurd (omega arith)
decode_loop-Fills cb ib (x0 ∷ x1 ∷ []) m h l k = absurd (omega arith)
decode_loop-Fills cb ib (x0 ∷ x1 ∷ x2 ∷ []) m h l k = absurd (omega arith)
decode_loop-Fills cb ib (x0 ∷ x1 ∷ x2 ∷ x3 ∷ xs) m h l k =
    decode_cluster-Fills cb ib _ _ _ _ (λ next. decode_loop cb next xs) (omega arith)
      (λ next e.
        decode_loop-Fills cb next xs (omega arith) (omega arith) (omega arith) (omega arith))

decoded_size_bounds :
    (text : List ℕ)
    → 0 < text_size text
    → text_size text % 4 ≡ 0
    → (text_size text / 4 * 3 ≤ decoded_size text + 2)
      × (decoded_size text ≤ text_size text / 4 * 3)
unfolding decoded_size
decoded_size_bounds text h m = ground arith

-- What is known of a result: `none` is a write through NULL.
abbrev pub StaysInside : Bool → ℕ → Option Decoded → Type 0
StaysInside is_null cb none = (is_null ≡ true) × (0 < cb)
StaysInside is_null cb (some r) =
    (length r.bytes ≤ cb)
    × All IsByte r.bytes
    × (r.status ≡ error_success → is_null ≡ false → length r.bytes ≡ r.size)

length-take_le : (n : ℕ) (xs : List ℕ) → n ≤ length xs → length (take n xs) ≡ n
length-take_le zero [] h = refl
length-take_le zero (x ∷ xs) h = refl
length-take_le (suc n) [] h = absurd (omega arith)
length-take_le (suc n) (x ∷ xs) h = let e = length-take_le n xs (omega arith) in omega arith

take-size : (text : List ℕ) → length (take (text_size text) text) ≡ text_size text
take-size text = length-take_le (text_size text) text (omega arith)

store-StaysInside :
    (is_null : Bool) (size cb : ℕ) (o : Output)
    → (is_null ≡ true → 0 < cb)
    → size ≤ cb
    → Fills size 0 o
    → StaysInside is_null cb (store is_null size o)
store-StaysInside true size cb (e, []) p h f = ground arith
store-StaysInside true size cb (e, b ∷ bs) p h f = (refl, p refl)
store-StaysInside false size cb (e, []) p h f = ground arith
store-StaysInside false size cb (e, b ∷ bs) p h f = ground arith

-- For every text Base64Decode writes at most `cbDecodeBufferSize` bytes, each below 256; where it
-- succeeds into a buffer that is not NULL, it writes exactly the `*pcbDecoded` bytes it reports. It writes
-- through NULL only for a buffer that is NULL with a size that is not 0.
pub decode_bounds :
    (text : List ℕ) (is_null : Bool) (cb : ℕ) → StaysInside is_null cb (decode text is_null cb)
unfolding decode
decode_bounds text is_null cb =
    let n = text_size text in
    let size = decoded_size text in
    if-both (StaysInside is_null cb) (n == 0 || not (n % 4 == 0)) _ _ (λ bad. ground arith)
      (λ good.
        let b = decoded_size_bounds text (ground arith) (ground arith) in
        let t = take-size text in
        let f =
          decode_loop-Fills size 0 (take n text) (ground arith) (omega arith) (omega arith)
            (omega arith) in
        if-both (StaysInside is_null cb) (cb == 0 && is_null) _ _ (λ probe. ground arith)
          (λ real.
            if-both (StaysInside is_null cb) (ltb cb size) _ _ (λ small. ground arith)
              (λ room.
                store-StaysInside is_null size cb (decode_loop size 0 (take n text)) (ground arith)
                  (ground arith) f)))

-- `x` stands in the table of base64.cpp, as one of the 64 characters or as '='.
abbrev pub InTable : ℕ → Type 0
InTable x = decode_char x ≢ na

-- An output's status is success exactly when `P` holds.
abbrev Accepts : Output → Type 0 → Type 0
Accepts o P = (o.0 ≡ error_success) ↔ P

not_success : Win32Error.error_invalid_parameter ≢ error_success
not_success e = ground arith

decode_cluster_status :
    (cb ib b0 b1 b2 b3 : ℕ) (rest : ℕ → Output) (P : Type 0)
    → ((next : ℕ) → ((rest next).0 ≡ error_success) ↔ P)
    → ((decode_cluster cb ib b0 b1 b2 b3 rest).0 ≡ error_success)
      ↔ ((b0 ≢ na) × (b1 ≢ na) × (b2 ≢ na) × (b3 ≢ na) × P)
unfolding decode_cluster
decode_cluster_status cb ib b0 b1 b2 b3 rest P h =
    if-both (λ (o : Output). Accepts o ((b0 ≢ na) × (b1 ≢ na) × (b2 ≢ na) × (b3 ≢ na) × P))
      (na == b0 || na == b1 || na == b2 || na == b3) _ _
      (λ bad. (λ e. absurd (not_success e), λ r. absurd (ground arith)))
      (λ good.
        let (f, g) =
          if-both (λ (o : Output). Accepts o P) (ltb (ib + 1) cb) _ _
            (λ _.
              if-both (λ (o : Output). Accepts o P) (ltb (ib + 2) cb) _ _ (λ _. h (ib + 3))
                (λ _. h (ib + 2)))
            (λ _. h (ib + 1)) in
        (
          λ e. (λ x. ground arith, λ x. ground arith, λ x. ground arith, λ x. ground arith, f e),
          λ r. g r.4,
        ))

decode_loop_status :
    (cb ib : ℕ) (xs : List ℕ)
    → length xs % 4 ≡ 0
    → ((decode_loop cb ib xs).0 ≡ error_success) ↔ All InTable xs
unfolding decode_loop
decode_loop_status cb ib [] m = (λ _. tt, λ _. refl)
decode_loop_status cb ib (x0 ∷ []) m = absurd (omega arith)
decode_loop_status cb ib (x0 ∷ x1 ∷ []) m = absurd (omega arith)
decode_loop_status cb ib (x0 ∷ x1 ∷ x2 ∷ []) m = absurd (omega arith)
decode_loop_status cb ib (x0 ∷ x1 ∷ x2 ∷ x3 ∷ xs) m =
    let e =
      decode_cluster_status cb ib (decode_char x0) (decode_char x1) (decode_char x2)
        (decode_char x3) (λ next. decode_loop cb next xs) (All InTable xs)
        (λ next. decode_loop_status cb next xs (omega arith)) in
    (
      λ s. let (a, b, c, d, r) = e.0 s in (a, (b, (c, (d, r)))),
      λ r. e.1 (r.0, r.1.0, r.1.1.0, r.1.1.1.0, r.1.1.1.1),
    )

abbrev pub HasSuccess : Option Decoded → Type 0
HasSuccess none = ⊥
HasSuccess (some r) = r.status ≡ error_success

store-HasSuccess : (size : ℕ) (o : Output) → HasSuccess (store false size o) ↔ (o.0 ≡ error_success)
store-HasSuccess size (e, []) = (λ h. h, λ h. h)
store-HasSuccess size (e, b ∷ bs) = (λ h. h, λ h. h)

-- Into a buffer that is not NULL and not smaller than the decoded size, Base64Decode succeeds
-- exactly on the texts whose length, cut to a DWORD, is a multiple of four and not 0, and whose characters all
-- stand in the table, up to that length.
pub decode_accepts :
    (text : List ℕ) (cb : ℕ)
    → decoded_size text ≤ cb
    → HasSuccess (decode text false cb)
      ↔ ((0 < text_size text) × (text_size text % 4 ≡ 0) × All InTable (take (text_size text) text))
unfolding decode
decode_accepts text cb h =
    let n = text_size text in
    let size = decoded_size text in
    let P =
      λ (o : Option Decoded). HasSuccess o ↔ ((0 < n) × (n % 4 ≡ 0) × All InTable (take n text)) in
    if-both P (n == 0 || not (n % 4 == 0)) _ _
      (λ bad. (λ e. absurd (ground arith), λ e. absurd (ground arith)))
      (λ good.
        let t = take-size text in
        let s = decode_loop_status size 0 (take n text) (ground arith) in
        let w = store-HasSuccess size (decode_loop size 0 (take n text)) in
        if-both P (cb == 0 && false) _ _ (λ probe. absurd (ground arith))
          (λ real.
            if-both P (ltb cb size) _ _ (λ small. absurd (ground arith))
              (λ room. (λ e. (ground arith, ground arith, s.0 (w.0 e)), λ e. w.1 (s.1 e.2)))))
