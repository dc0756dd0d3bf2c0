-- ===== src/Fuzz/Reader.antt =====
-- `InputReader` and `split_index` of fuzz/fuzz_input.hpp.
use perfectvaluecubesymmetri.Base.{
  ℕ, zero, suc, ◌+◌, ◌-◌, ◌*◌, ◌%◌, ◌^◌, ◌≤◌, ◌<◌, ◌≡◌, refl, sym, ap, ap₂, Bool-cases, inl, inr,
  ==_iff, ◌∙◌, [], ◌∷◌, ◌++◌, arith, ◌==◌, if◌then◌else◌, Bytes, length, get_or, take, drop,
  replicate,
}

pub record InputReader : Type 0 where
  pub input : Bytes
  pub offset : ℕ

abbrev pub reader : Bytes → InputReader
reader input = record { input = input; offset = 0 }

pub take_byte : InputReader → ℕ × InputReader
take_byte r =
    if r.offset == length r.input
    then (0, r)
    else (get_or r.input r.offset 0, record r { offset = r.offset + 1 })

pub take_u16_be : InputReader → ℕ × InputReader
unfolding take_byte
take_u16_be r =
    let (high, r) = take_byte r in let (low, r) = take_byte r in (high * 256 % 2 ^ 16 + low, r)

-- The loop over the `n` bytes of the array.
pub take_array : ℕ → InputReader → Bytes × InputReader
unfolding take_byte
take_array zero r = ([], r)
take_array (suc n) r =
    let (byte, r) = take_byte r in let (output, r) = take_array n r in (byte ∷ output, r)

pub remaining : InputReader → Bytes
remaining r = drop r.offset r.input

-- A `std::size_t` has 64 bits.
pub split_index : ℕ → ℕ → ℕ
split_index hint size = if size == 2 ^ 64 - 1 then hint else hint % (size + 1)

-- The bytes that are left, filled up with zeros, and no byte is read twice.
pub record IsTaken (n : ℕ) (r : InputReader) (output : Bytes) (r' : InputReader) : Type 0 where
  pub taken : output ≡ take n (remaining r) ++ replicate (n - length (remaining r)) 0
  pub rest : remaining r' ≡ drop n (remaining r)
  pub within : r'.offset ≤ length r'.input

drop_next :
    (i : ℕ) (xs : Bytes)
    → i < length xs
    → (get_or xs i 0 ≡ get_or (drop i xs) 0 0) × (drop (suc i) xs ≡ drop 1 (drop i xs))
drop_next i [] h = absurd (omega arith)
drop_next zero (x ∷ xs) h = (refl, refl)
drop_next (suc i) (x ∷ xs) h = drop_next i xs (omega arith)

drop_end : (xs : Bytes) → drop (length xs) xs ≡ []
drop_end [] = refl
drop_end (x ∷ xs) = drop_end xs

take_byte-remaining :
    (r : InputReader)
    → r.offset ≤ length r.input
    → ((take_byte r).0 ≡ get_or (remaining r) 0 0)
      × (remaining (take_byte r).1 ≡ drop 1 (remaining r))
      × ((take_byte r).1.offset ≤ length (take_byte r).1.input)
unfolding take_byte remaining
take_byte-remaining r h = elim (Bool-cases (r.offset == length r.input)) [
  | inl spent ↦
      let at : drop r.offset r.input ≡ [] =
        ap (λ (i : ℕ). drop i r.input) (omega (arith, (==_iff r.offset (length r.input)).0 spent))
        ∙ drop_end r.input in
      rw (spent, at) (refl, refl, h)
  | inr more ↦
      let inside : r.offset < length r.input = ground arith in
      let next = drop_next r.offset r.input inside in
      rw more (
        next.0,
        ap (λ (i : ℕ). drop i r.input) (let e : r.offset + 1 ≡ suc r.offset = omega arith in e)
            ∙ next.1,
        omega arith,
      )
]

take_end : (n : ℕ) → take {A = ℕ} n [] ≡ []
take_end zero = refl
take_end (suc n) = refl

drop_beyond : (n : ℕ) → drop {A = ℕ} n [] ≡ []
drop_beyond zero = refl
drop_beyond (suc n) = refl

take_one_more :
    (n : ℕ) (ys : Bytes)
    → get_or ys 0 0 ∷ (take n (drop 1 ys) ++ replicate (n - length (drop 1 ys)) 0)
      ≡ take (suc n) ys ++ replicate (suc n - length ys) 0
take_one_more n [] =
    ap (λ t. 0 ∷ (t ++ replicate (n - 0) 0)) (take_end n)
    ∙ (let e : suc (n - 0) ≡ suc n - 0 = omega arith in ap (λ k. replicate k 0) e)
take_one_more n (y ∷ ys) =
    ap (λ k. y ∷ (take n ys ++ replicate k 0))
      (let e : n - length ys ≡ suc n - suc (length ys) = omega arith in e)

drop_one_more : (n : ℕ) (ys : Bytes) → drop n (drop 1 ys) ≡ drop (suc n) ys
drop_one_more n [] = drop_beyond n
drop_one_more n (y ∷ ys) = refl

-- Reading an array takes the bytes that are left, filled up with zeros, and leaves the others. The reader
-- stands within its input.
pub take_array-IsTaken :
    (n : ℕ) (r : InputReader)
    → r.offset ≤ length r.input
    → IsTaken n r (take_array n r).0 (take_array n r).1
unfolding take_array
take_array-IsTaken zero r h = record {
  taken = ap (λ k. replicate k 0) (let e : 0 ≡ 0 - length (remaining r) = omega arith in e);
  rest = refl;
  within = h;
}
take_array-IsTaken (suc n) r h =
    let (byte, left, inside) = take_byte-remaining r h in
    let below = take_array-IsTaken n (take_byte r).1 inside in
    record {
      taken =
          ap₂ ◌∷◌ byte (below.taken ∙ ap (λ ys. take n ys ++ replicate (n - length ys) 0) left)
          ∙ take_one_more n (remaining r);
      rest = below.rest ∙ ap (drop n) left ∙ drop_one_more n (remaining r);
      within = below.within;
    }

drop-drop : (m n : ℕ) (xs : Bytes) → drop n (drop m xs) ≡ drop (m + n) xs
drop-drop zero n xs = ap (λ k. drop k xs) (let e : n ≡ 0 + n = omega arith in e)
drop-drop (suc m) n [] = drop_beyond n ∙ sym (drop_beyond (suc m + n))
drop-drop (suc m) n (x ∷ xs) =
    drop-drop m n xs
    ∙ ap (λ k. drop k (x ∷ xs)) (let e : suc (m + n) ≡ suc m + n = omega arith in e)

-- `n` bytes of an input, filled up with zeros where it ends before.
abbrev pub padded : ℕ → Bytes → Bytes
padded n rest = take n rest ++ replicate (n - length rest) 0

-- What the two harnesses read behind their first bytes: the hint, the keys, the nonce and the payload.
pub record AreFields (left : Bytes) (r : InputReader) : Type 0 where
  pub hint : (take_u16_be r).0 ≡ get_or left 0 0 * 256 % 2 ^ 16 + get_or (drop 1 left) 0 0
  pub encryption_key : (take_array 32 (take_u16_be r).1).0 ≡ padded 32 (drop 2 left)
  pub authentication_key :
      (take_array 32 (take_array 32 (take_u16_be r).1).1).0 ≡ padded 32 (drop 34 left)
  pub nonce :
      (take_array 24 (take_array 32 (take_array 32 (take_u16_be r).1).1).1).0
      ≡ padded 24 (drop 66 left)
  pub payload :
      remaining (take_array 24 (take_array 32 (take_array 32 (take_u16_be r).1).1).1).1
      ≡ drop 90 left

pub fields_read : (r : InputReader) → r.offset ≤ length r.input → AreFields (remaining r) r
unfolding take_u16_be
fields_read r h =
    let (high, one, inside) = take_byte-remaining r h in
    let (low, two, within) = take_byte-remaining (take_byte r).1 inside in
    let start = (take_byte (take_byte r).1).1 in
    let from : remaining start ≡ drop 2 (remaining r) =
      two ∙ ap (drop 1) one ∙ drop-drop 1 1 (remaining r) in
    let key = take_array-IsTaken 32 start within in
    let mac = take_array-IsTaken 32 (take_array 32 start).1 key.within in
    let nonce = take_array-IsTaken 24 (take_array 32 (take_array 32 start).1).1 mac.within in
    let after_key : remaining (take_array 32 start).1 ≡ drop 34 (remaining r) =
      key.rest ∙ ap (drop 32) from ∙ drop-drop 2 32 (remaining r) in
    let after_mac : remaining (take_array 32 (take_array 32 start).1).1 ≡ drop 66 (remaining r) =
      mac.rest ∙ ap (drop 32) after_key ∙ drop-drop 34 32 (remaining r) in
    record {
      hint = ap₂ (λ x y. x * 256 % 2 ^ 16 + y) high (low ∙ ap (λ (ys : Bytes). get_or ys 0 0) one);
      encryption_key = key.taken ∙ ap (padded 32) from;
      authentication_key = mac.taken ∙ ap (padded 32) after_key;
      nonce = nonce.taken ∙ ap (padded 24) after_mac;
      payload = nonce.rest ∙ ap (drop 24) after_mac ∙ drop-drop 66 24 (remaining r);
    }

pub first_read :
    (bytes : Bytes)
    → ((take_byte (reader bytes)).0 ≡ get_or bytes 0 0)
      × (remaining (take_byte (reader bytes)).1 ≡ drop 1 bytes)
      × ((take_byte (reader bytes)).1.offset ≤ length (take_byte (reader bytes)).1.input)
unfolding remaining
first_read bytes = take_byte-remaining (reader bytes) (omega arith)

pub second_read :
    (bytes : Bytes)
    → let r = (take_byte (reader bytes)).1 in
      ((take_byte r).0 ≡ get_or (drop 1 bytes) 0 0)
      × (remaining (take_byte r).1 ≡ drop 2 bytes)
      × ((take_byte r).1.offset ≤ length (take_byte r).1.input)
second_read bytes =
    let (value, left, inside) = first_read bytes in
    let (next, after, within) = take_byte-remaining (take_byte (reader bytes)).1 inside in
    (
      next ∙ ap (λ (ys : Bytes). get_or ys 0 0) left,
      after ∙ ap (drop 1) left ∙ drop-drop 1 1 bytes,
      within,
    )

-- The split point is never beyond the payload, whose size a `std::size_t` holds.
pub split_index-le :
    (hint size : ℕ)
    → size < 2 ^ 64 - 1
    → (split_index hint size ≡ hint % (size + 1)) × (split_index hint size ≤ size)
unfolding split_index
split_index-le hint size h = (ground arith, ground arith)
