-- ===== src/Fault/Stream/Blocks.antt =====
-- What `apply_stream` of analysis/fault_injection_campaign.cpp does to each block, with and without a fault.
use perfectvaluecubesymmetri.Base.{
  ℕ, zero, suc, ◌+◌, ◌*◌, ◌≤◌, ◌≡◌, refl, ap, ap₂, sym, ◌∙◌, Bool-cases, inl, inr, Option, bit_xor,
  [], ◌∷◌, ◌++◌, arith, ◌==◌, if◌then◌else◌, min, Bytes, length, take, drop, ok, length-append,
  length-take, length-drop, take-append-drop, append-nil, take-all, drop-all, leb,
}
use perfectvaluecubesymmetri.Symmetric.{A1TagSize, a1_bits128, a1_bits192, a1_bits256, TagSize}
use perfectvaluecubesymmetri.Symmetric.Profile.{
  a1_tag_bytes, xor_bytes, length-xor_bytes, xor_bytes_cancel,
}
use perfectvaluecubesymmetri.Fault.Stream.{
  Cipher, to_a1_tag_size, stream_output, is_faulted, faulted_counter, block_count, apply_blocks,
  apply_stream,
}

-- Where only the last block is short, the output is as long as the input.
length-apply_blocks :
    (stream : ℕ → Bytes) (count block : ℕ) (input : Bytes)
    → length input ≤ count * 32
    → length (apply_blocks stream count block input) ≡ length input
unfolding apply_blocks
length-apply_blocks stream zero block input h = omega arith
length-apply_blocks stream (suc count) block input h = omega (
  arith,
  length-append (xor_bytes (take 32 input) (stream block))
      (apply_blocks stream count (suc block) (drop 32 input)),
  length-xor_bytes (take 32 input) (stream block),
  length-take 32 input,
  length-drop 32 input,
  length-apply_blocks stream count (suc block) (drop 32 input)
      (omega (arith, length-drop 32 input)),
)

empty_apply_blocks :
    (stream : ℕ → Bytes) (count block : ℕ) (input : Bytes)
    → length input ≤ 0
    → apply_blocks stream count block input ≡ []
unfolding apply_blocks xor_bytes
empty_apply_blocks stream zero block input h = refl
empty_apply_blocks stream (suc count) block [] h = empty_apply_blocks stream count (suc block) [] h
empty_apply_blocks stream (suc count) block (x ∷ input) h = absurd (omega arith)

take_prefix : (n : ℕ) (xs ys : Bytes) → length xs ≡ n → take n (xs ++ ys) ≡ xs
take_prefix zero [] ys h = refl
take_prefix (suc n) [] ys h = absurd (omega arith)
take_prefix zero (x ∷ xs) ys h = absurd (omega arith)
take_prefix (suc n) (x ∷ xs) ys h = ap (λ t. x ∷ t) (take_prefix n xs ys (omega arith))

drop_prefix : (n : ℕ) (xs ys : Bytes) → length xs ≡ n → drop n (xs ++ ys) ≡ ys
drop_prefix zero [] ys h = refl
drop_prefix (suc n) [] ys h = absurd (omega arith)
drop_prefix zero (x ∷ xs) ys h = absurd (omega arith)
drop_prefix (suc n) (x ∷ xs) ys h = drop_prefix n xs ys (omega arith)

-- The output is its first block and the rest.
first_block :
    (stream : ℕ → Bytes) (count block : ℕ) (input : Bytes)
    → length input ≤ suc count * 32
    → let out = apply_blocks stream (suc count) block input in
      (take 32 out ≡ xor_bytes (take 32 input) (stream block))
      × (drop 32 out ≡ apply_blocks stream count (suc block) (drop 32 input))
unfolding apply_blocks
first_block stream count block input h =
    let a = xor_bytes (take 32 input) (stream block) in
    let b = apply_blocks stream count (suc block) (drop 32 input) in
    let size : length a ≡ min 32 (length input) =
      length-xor_bytes (take 32 input) (stream block) ∙ length-take 32 input in
    elim (Bool-cases (leb 32 (length input))) [
      | inl full ↦
          let e : length a ≡ 32 = ground (arith, size) in
          (take_prefix 32 a b e, drop_prefix 32 a b e)
      | inr short ↦
          let e : b ≡ [] =
            empty_apply_blocks stream count (suc block) (drop 32 input)
              (ground (arith, length-drop 32 input)) in
          let l : length a ≤ 32 = ground (arith, size) in
          (
            ap (λ t. take 32 (a ++ t)) e ∙ ap (take 32) (append-nil a) ∙ take-all 32 a l,
            ap (λ t. drop 32 (a ++ t)) e ∙ ap (drop 32) (append-nil a) ∙ drop-all 32 a l ∙ sym e,
          )
    ]

abbrev pub block_of : ℕ → Bytes → Bytes
block_of zero text = take 32 text
block_of (suc j) text = block_of j (drop 32 text)

block_of_nil : (j : ℕ) → block_of j [] ≡ []
block_of_nil zero = refl
block_of_nil (suc j) = block_of_nil j

block_of-apply_blocks :
    (stream : ℕ → Bytes) (count block : ℕ) (input : Bytes) (j : ℕ)
    → length input ≤ count * 32
    → block_of j (apply_blocks stream count block input)
      ≡ xor_bytes (block_of j input) (stream (block + j))
unfolding apply_blocks xor_bytes
block_of-apply_blocks stream zero block [] j h = rw (block_of_nil j) refl
block_of-apply_blocks stream zero block (x ∷ input) j h = absurd (omega arith)
block_of-apply_blocks stream (suc count) block input zero h =
    (first_block stream count block input h).0
    ∙ ap (λ (k : ℕ). xor_bytes (take 32 input) (stream k)) (omega arith)
block_of-apply_blocks stream (suc count) block input (suc j) h =
    ap (block_of j) (first_block stream count block input h).1
    ∙ block_of-apply_blocks stream count (suc block) (drop 32 input) j
        (omega (arith, length-drop 32 input))
    ∙ ap (λ (k : ℕ). xor_bytes (block_of j (drop 32 input)) (stream k)) (omega arith)

apply_blocks_twice :
    (stream : ℕ → Bytes) (count block : ℕ) (input : Bytes)
    → length input ≤ count * 32
    → apply_blocks stream count block (apply_blocks stream count block input) ≡ input
unfolding apply_blocks
apply_blocks_twice stream zero block [] h = refl
apply_blocks_twice stream zero block (x ∷ input) h = absurd (omega arith)
apply_blocks_twice stream (suc count) block input h =
    let (a, b) = first_block stream count block input h in
    ap₂ ◌++◌
      (ap (λ t. xor_bytes t (stream block)) a ∙ xor_bytes_cancel (take 32 input) (stream block))
      (ap (apply_blocks stream count (suc block)) b
        ∙ apply_blocks_twice stream count (suc block) (drop 32 input)
            (omega (arith, length-drop 32 input)))
    ∙ take-append-drop 32 input

enough_blocks : (size : ℕ) → size ≤ block_count size * 32
unfolding block_count
enough_blocks size = ground arith

abbrev block_stream : Cipher → Bytes → Bytes → A1TagSize → Option ℕ → ℕ → ℕ → Bytes
block_stream cipher key nonce size faulted counter_xor block =
    stream_output cipher key nonce (faulted_counter faulted counter_xor block) size

apply_stream_eq :
    (cipher : Cipher) (key nonce input : Bytes) (tag_size : TagSize) (size : A1TagSize)
    (faulted : Option ℕ) (counter_xor : ℕ)
    → to_a1_tag_size tag_size ≡ ok size
    → apply_stream cipher key nonce input tag_size faulted counter_xor
      ≡ ok (
          apply_blocks
            (block_stream cipher key nonce size faulted counter_xor)
            (block_count (length input))
            0
            input)
unfolding apply_stream
apply_stream_eq cipher key nonce input tag_size size faulted counter_xor h =
    elim (Bool-cases (block_count (length input) == 0)) [
      | inl none_left ↦
          let n : block_count (length input) ≡ 0 = ground arith in
          rw (none_left, n) (unfold apply_blocks in refl)
      | inr some_left ↦ rw (some_left, h) refl
    ]

-- The three sizes are converted.
pub named_size : (size : A1TagSize) → to_a1_tag_size (a1_tag_bytes size) ≡ ok size
unfolding to_a1_tag_size
named_size a1_bits128 = refl
named_size a1_bits192 = refl
named_size a1_bits256 = refl

-- The output is as long as the input.
pub apply_stream-length :
    (cipher : Cipher) (key nonce input : Bytes) (tag_size : TagSize) (size : A1TagSize)
    (faulted : Option ℕ) (counter_xor : ℕ)
    → to_a1_tag_size tag_size ≡ ok size
    → (output : Bytes) × (apply_stream cipher key nonce input tag_size faulted counter_xor
        ≡ ok output)
      × (length output ≡ length input)
apply_stream-length cipher key nonce input tag_size size faulted counter_xor h = (
  _,
  apply_stream_eq cipher key nonce input tag_size size faulted counter_xor h,
  length-apply_blocks (block_stream cipher key nonce size faulted counter_xor)
      (block_count (length input)) 0 input (enough_blocks (length input)),
)

-- Applying the stream twice, with the same fault, gives the input back. The tag size is supported.
pub apply_stream_twice :
    (cipher : Cipher) (key nonce input : Bytes) (tag_size : TagSize) (size : A1TagSize)
    (faulted : Option ℕ) (counter_xor : ℕ)
    → to_a1_tag_size tag_size ≡ ok size
    → (output : Bytes) × (apply_stream cipher key nonce input tag_size faulted counter_xor
        ≡ ok output)
      × (apply_stream cipher key nonce output tag_size faulted counter_xor ≡ ok input)
apply_stream_twice cipher key nonce input tag_size size faulted counter_xor h =
    let stream : ℕ → Bytes = block_stream cipher key nonce size faulted counter_xor in
    let n = block_count (length input) in
    let enough = enough_blocks (length input) in
    let out = apply_blocks stream n 0 input in
    let l : length out ≡ length input = length-apply_blocks stream n 0 input enough in
    (
      out,
      apply_stream_eq cipher key nonce input tag_size size faulted counter_xor h,
      apply_stream_eq cipher key nonce out tag_size size faulted counter_xor h
          ∙ ap (λ (k : ℕ). ok (apply_blocks stream (block_count k) 0 out)) l
          ∙ ap ok (apply_blocks_twice stream n 0 input enough),
    )

-- Each block of the output is that block of the input under the keystream of its counter, which differs from
-- the block's number in the faulted block at most. The tag size is supported.
pub apply_stream_block :
    (cipher : Cipher) (key nonce input : Bytes) (tag_size : TagSize) (size : A1TagSize)
    (faulted : Option ℕ) (counter_xor : ℕ) (output : Bytes) (j : ℕ)
    → to_a1_tag_size tag_size ≡ ok size
    → apply_stream cipher key nonce input tag_size faulted counter_xor ≡ ok output
    → block_of j output
      ≡ xor_bytes (block_of j input) (
          cipher.keyed_output key (
            cipher.frame_stream_block nonce
              (if is_faulted faulted j then bit_xor j counter_xor else j)
              size))
unfolding stream_output faulted_counter
apply_stream_block cipher key nonce input tag_size size faulted counter_xor output j h e =
    let stream : ℕ → Bytes = block_stream cipher key nonce size faulted counter_xor in
    let whole : apply_blocks stream (block_count (length input)) 0 input ≡ output =
      ground
        (arith, e, apply_stream_eq cipher key nonce input tag_size size faulted counter_xor h) in
    ap (block_of j) (sym whole)
    ∙ block_of-apply_blocks stream (block_count (length input)) 0 input j
        (enough_blocks (length input))
    ∙ ap (λ (k : ℕ). xor_bytes (block_of j input) (stream k)) (let z : 0 + j ≡ j = omega arith in z)
