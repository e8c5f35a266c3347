-- ===== src/ForwardingHandler/Framing.antt =====
-- A reader of chunks gets back the data that FORWARDING_HANDLER::OnSendingRequest of
-- AspNetCoreModuleV2/RequestHandler/outofprocess/forwardinghandler.cpp has written.
use iisintegration.Prelude.{
  ℕ, suc, zero, ◌+◌, ◌-◌, ◌*◌, ◌/◌, ◌%◌, ◌^◌, ◌<◌, ◌≡◌, refl, ap, ◌∙◌, arith, List, [], ◌∷◌, ◌++◌,
  Bool, true, false, Option, some, none, ltb, leb, ◌==◌, ◌&&◌, if◌then◌else◌, Bool-cases, inl, inr,
  set, take, drop, length,
}
use iisintegration.ForwardingHandler.Chunk.{hex_to_ascii, rechunk, chunk_bytes, set_crlf, Chunk}

-- A reader: hexadecimal digits, CR, LF, as many bytes as they say, CR, LF.
abbrev unhex : ℕ → Option ℕ
unhex c =
    if leb 48 c && ltb c 58
    then some (c - 48)
    else if leb 97 c && ltb c 103
    then some (c - 97 + 10)
    else none

abbrev skip_lf : ℕ → List ℕ → Option (ℕ × List ℕ)
skip_lf n [] = none
skip_lf n (c ∷ cs) = if c == 10 then some (n, cs) else none

abbrev read_digits : ℕ → List ℕ → Option (ℕ × List ℕ)
read_digits n [] = none
read_digits n (c ∷ cs) =
    if c == 13
    then skip_lf n cs
    else elim (unhex c) [ none ↦ none | some d ↦ read_digits (n * 16 + d) cs ]

-- A chunk of a body with its data, or the last one, which has the size 0 and ends the body; and what follows.
pub data Part : Type 0 where
  more_of_body end_of_body : List ℕ → List ℕ → Part

abbrev pub part_of : List ℕ → List ℕ → Part
part_of [] next = end_of_body [] next
part_of (b ∷ bytes) next = more_of_body (b ∷ bytes) next

abbrev skip_crlf : List ℕ → List ℕ → Option Part
skip_crlf bytes (c ∷ d ∷ cs) = if (c == 13) && (d == 10) then some (part_of bytes cs) else none
skip_crlf bytes _ = none

unfoldable pub read_chunk : List ℕ → Option Part
read_chunk cs = elim (read_digits 0 cs) [
  | none ↦ none
  | some (n, rest) ↦ skip_crlf (take n rest) (drop n rest)
]

set-append : (xs ys : List ℕ) (x v : ℕ) → set (xs ++ x ∷ ys) (length xs) v ≡ xs ++ v ∷ ys
set-append [] ys x v = refl
set-append (a ∷ xs) ys x v = ap (λ l. a ∷ l) (set-append xs ys x v)

set_second-append :
    (xs ys : List ℕ) (x y v : ℕ) → set (xs ++ x ∷ y ∷ ys) (suc (length xs)) v ≡ xs ++ x ∷ v ∷ ys
set_second-append [] ys x y v = refl
set_second-append (a ∷ xs) ys x y v = ap (λ l. a ∷ l) (set_second-append xs ys x y v)

take_two-append :
    (xs ys : List ℕ) (x y : ℕ) → take (suc (suc (length xs))) (xs ++ x ∷ y ∷ ys) ≡ xs ++ x ∷ y ∷ []
take_two-append [] ys x y = refl
take_two-append (a ∷ xs) ys x y = ap (λ l. a ∷ l) (take_two-append xs ys x y)

four : (n : ℕ) → 0 + (4 + n) ≡ suc (suc (suc (suc n)))
four n = omega arith

take-append : (xs ys : List ℕ) → take (length xs) (xs ++ ys) ≡ xs
take-append [] ys = refl
take-append (a ∷ xs) ys = ap (λ l. a ∷ l) (take-append xs ys)

drop-append : (xs ys : List ℕ) → drop (length xs) (xs ++ ys) ≡ ys
drop-append [] ys = refl
drop-append (a ∷ xs) ys = drop-append xs ys

append_assoc : (xs ys zs : List ℕ) → (xs ++ ys) ++ zs ≡ xs ++ (ys ++ zs)
append_assoc [] ys zs = refl
append_assoc (a ∷ xs) ys zs = ap (λ l. a ∷ l) (append_assoc xs ys zs)

-- The buffer with its first four bytes, the two before the data, the data and two more.
abbrev pub framed : ℕ → ℕ → ℕ → ℕ → ℕ → ℕ → List ℕ → ℕ → ℕ → List ℕ → List ℕ
framed a b c d e f bytes x y rest = a ∷ b ∷ c ∷ d ∷ e ∷ f ∷ (bytes ++ x ∷ y ∷ rest)

six : (n : ℕ) → 6 + n ≡ suc (suc (suc (suc (suc (suc n)))))
six n = omega arith

seven : (n : ℕ) → 7 + n ≡ suc (suc (suc (suc (suc (suc (suc n))))))
seven n = omega arith

set_crlf_lem :
    (a b c d e f : ℕ) (bytes : List ℕ) (x y : ℕ) (rest : List ℕ)
    → set_crlf (length bytes) (framed a b c d e f bytes x y rest)
      ≡ framed a b c d 13 10 bytes 13 10 rest
set_crlf_lem a b c d e f bytes x y rest =
    rw
      (
        six (length bytes),
        seven (length bytes),
        set-append bytes (y ∷ rest) x 13,
        set_second-append bytes rest 13 y 10,
      )
      refl

-- The digits of the size.
abbrev digits : ℕ → List ℕ
digits n =
    if ltb n 0x10
    then hex_to_ascii n ∷ []
    else if ltb n 0x100
    then hex_to_ascii (n / 16) ∷ hex_to_ascii (n % 16) ∷ []
    else if ltb n 0x1000
    then hex_to_ascii (n / 256) ∷ hex_to_ascii (n / 16 % 16) ∷ hex_to_ascii (n % 16) ∷ []
    else hex_to_ascii (n / 4096)
      ∷ hex_to_ascii (n / 256 % 16)
      ∷ hex_to_ascii (n / 16 % 16)
      ∷ hex_to_ascii (n % 16)
      ∷ []

frame :
    (ds bytes rest : List ℕ) (k : ℕ)
    → k ≡ length ds + (4 + length bytes)
    → take k (ds ++ 13 ∷ 10 ∷ (bytes ++ 13 ∷ 10 ∷ rest)) ≡ ds ++ 13 ∷ 10 ∷ (bytes ++ 13 ∷ 10 ∷ [])
frame [] bytes rest k h = rw (h ∙ four (length bytes), take_two-append bytes rest 13 10) refl
frame (x ∷ ds) bytes rest zero h = absurd (omega arith)
frame (x ∷ ds) bytes rest (suc k) h = ap (λ l. x ∷ l) (frame ds bytes rest k (omega arith))

both :
    (t : Bool) (c d : Chunk) (xs ys zs : List ℕ)
    → take c.size (drop c.offset c.buffer) ≡ xs ++ zs
    → take d.size (drop d.offset d.buffer) ≡ ys ++ zs
    → take (if t then c else d).size (drop (if t then c else d).offset (if t then c else d).buffer)
      ≡ (if t then xs else ys) ++ zs
both true c d xs ys zs h k = h
both false c d xs ys zs h k = k

chunk_bytes-rechunk :
    (a b c d e f : ℕ) (bytes : List ℕ) (x y : ℕ) (rest : List ℕ)
    → chunk_bytes (rechunk (length bytes) (framed a b c d e f bytes x y rest))
      ≡ digits (length bytes) ++ 13 ∷ 10 ∷ (bytes ++ 13 ∷ 10 ∷ [])
unfolding rechunk chunk_bytes
chunk_bytes-rechunk a b c d e f bytes x y rest =
    let n = length bytes in
    rw (set_crlf_lem a b c d e f bytes x y rest) (
      both (ltb n 0x10) _ _ (hex_to_ascii n ∷ []) _ _
        (frame (hex_to_ascii n ∷ []) bytes rest (5 + n) (omega arith))
        (both (ltb n 0x100) _ _ (hex_to_ascii (n / 16) ∷ hex_to_ascii (n % 16) ∷ []) _ _
          (frame (hex_to_ascii (n / 16) ∷ hex_to_ascii (n % 16) ∷ []) bytes rest (6 + n)
            (omega arith))
          (both (ltb n 0x1000) _ _
            (hex_to_ascii (n / 256) ∷ hex_to_ascii (n / 16 % 16) ∷ hex_to_ascii (n % 16) ∷ []) _ _
            (frame
              (hex_to_ascii (n / 256) ∷ hex_to_ascii (n / 16 % 16) ∷ hex_to_ascii (n % 16) ∷ [])
              bytes rest (7 + n) (omega arith))
            (frame
              (hex_to_ascii (n / 4096)
                ∷ hex_to_ascii (n / 256 % 16)
                ∷ hex_to_ascii (n / 16 % 16)
                ∷ hex_to_ascii (n % 16)
                ∷ [])
              bytes rest (8 + n) (omega arith)))))

unhex-hex_to_ascii : (d : ℕ) → d < 16 → unhex (hex_to_ascii d) ≡ some d
unhex-hex_to_ascii d h = ground arith

hex_to_ascii-ne : (d : ℕ) → (hex_to_ascii d == 13) ≡ false
hex_to_ascii-ne d = ground arith

read_digit :
    (n d m : ℕ) (cs : List ℕ)
    → d < 16
    → n * 16 + d ≡ m
    → read_digits n (hex_to_ascii d ∷ cs) ≡ read_digits m cs
read_digit n d m cs h e =
    rw (hex_to_ascii-ne d, unhex-hex_to_ascii d h) (ap (λ k. read_digits k cs) e)

-- The last two digits, after those of `n / 256`.
read_last :
    (n m : ℕ) (cs : List ℕ)
    → m ≡ n / 256
    → read_digits m (hex_to_ascii (n / 16 % 16) ∷ hex_to_ascii (n % 16) ∷ cs) ≡ read_digits n cs
read_last n m cs h =
    read_digit m (n / 16 % 16) (n / 16) (hex_to_ascii (n % 16) ∷ cs) (omega arith) (omega arith)
    ∙ read_digit (n / 16) (n % 16) n cs (omega arith) (omega arith)

read_digits-digits :
    (n : ℕ) (cs : List ℕ) → n < 0x10000 → read_digits 0 (digits n ++ cs) ≡ read_digits n cs
read_digits-digits n cs h = elim (Bool-cases (ltb n 0x10)) [
  | inl small ↦ rw small (read_digit 0 n n cs (ground arith) (omega arith))
  | inr large ↦ rw large (elim (Bool-cases (ltb n 0x100)) [
    | inl small ↦ rw small (
        read_digit 0 (n / 16) (n / 16) (hex_to_ascii (n % 16) ∷ cs) (ground arith) (omega arith)
        ∙ read_digit (n / 16) (n % 16) n cs (omega arith) (omega arith))
    | inr middle ↦ rw middle (elim (Bool-cases (ltb n 0x1000)) [
      | inl small ↦ rw small (
          read_digit 0 (n / 256) (n / 256) (hex_to_ascii (n / 16 % 16) ∷ hex_to_ascii (n % 16) ∷ cs)
            (ground arith) (omega arith)
          ∙ read_last n (n / 256) cs refl)
      | inr large2 ↦ rw large2 (
          read_digit 0 (n / 4096) (n / 4096)
            (hex_to_ascii (n / 256 % 16) ∷ hex_to_ascii (n / 16 % 16) ∷ hex_to_ascii (n % 16) ∷ cs)
            (omega arith) (omega arith)
          ∙ read_digit (n / 4096) (n / 256 % 16) (n / 256)
              (hex_to_ascii (n / 16 % 16) ∷ hex_to_ascii (n % 16) ∷ cs) (omega arith) (omega arith)
          ∙ read_last n (n / 256) cs refl)
    ])
  ])
]

-- For data of fewer than 2^16 bytes, six bytes into a buffer that has at least two bytes after
-- the data, what is written is a chunk: a reader of chunks gets back the data, and then whatever
-- follows the chunk; no data make the chunk that ends a body.
pub read_chunk-rechunk :
    (a b c d e f : ℕ) (bytes : List ℕ) (x y : ℕ) (rest next : List ℕ)
    → length bytes < 2 ^ 16
    → read_chunk (chunk_bytes (rechunk (length bytes) (framed a b c d e f bytes x y rest)) ++ next)
      ≡ some (part_of bytes next)
unfolding read_chunk
read_chunk-rechunk a b c d e f bytes x y rest next h =
    let n = length bytes in
    let size : read_digits 0 (chunk_bytes (rechunk n (framed a b c d e f bytes x y rest)) ++ next)
        ≡ some (n, bytes ++ 13 ∷ 10 ∷ next) =
      ap (λ l. read_digits 0 (l ++ next)) (chunk_bytes-rechunk a b c d e f bytes x y rest)
      ∙ ap (read_digits 0) (append_assoc (digits n) (13 ∷ 10 ∷ (bytes ++ 13 ∷ 10 ∷ [])) next)
      ∙ read_digits-digits n (13 ∷ 10 ∷ ((bytes ++ 13 ∷ 10 ∷ []) ++ next)) h
      ∙ ap (λ l. some (n, l)) (append_assoc bytes (13 ∷ 10 ∷ []) next) in
    rw (read_chunk, size, take-append bytes (13 ∷ 10 ∷ next), drop-append bytes (13 ∷ 10 ∷ next))
      refl
