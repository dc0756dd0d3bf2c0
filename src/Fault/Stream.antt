-- ===== src/Fault/Stream.antt =====
-- `stream_output` and `apply_stream` of analysis/fault_injection_campaign.cpp. The two vendored functions
-- that a keystream block is made of are the parameter `Cipher`.
pub mod Blocks
use perfectvaluecubesymmetri.Base.{
  ℕ, zero, suc, ◌+◌, ◌-◌, ◌*◌, ◌/◌, ◌≤◌, ◌≡◌, refl, ap, ap₂, sym, ◌∙◌, Bool, false, Bool-cases, inl,
  inr, Option, none, some, bit_xor, [], ◌∷◌, ◌++◌, arith, ◌==◌, if◌then◌else◌, min, Bytes, length,
  take, drop, Result, ok, err, ◌>>=◌, runtime_error, length-append, length-take, length-drop,
  take-append-drop, append-nil, take-all, drop-all, leb,
}
use perfectvaluecubesymmetri.Symmetric.{
  A1TagSize, a1_bits128, a1_bits192, a1_bits256, TagSize, bits128, bits192, bits256,
}
use perfectvaluecubesymmetri.Symmetric.Profile.{
  a1_tag_bytes, xor_bytes, length-xor_bytes, xor_bytes_cancel,
}

-- `pvcaead0::frame_stream_block` and `pvc1::research_keyed_return_output_a2`.
pub record Cipher : Type 0 where
  pub frame_stream_block : Bytes → ℕ → A1TagSize → Bytes
  pub keyed_output : Bytes → Bytes → Bytes

unfoldable pub to_a1_tag_size : TagSize → Result A1TagSize
to_a1_tag_size size =
    if size == bits128
    then ok a1_bits128
    else if size == bits192
    then ok a1_bits192
    else if size == bits256
    then ok a1_bits256
    else err (runtime_error "invalid RotSymEnc tag size")

pub stream_output : Cipher → Bytes → Bytes → ℕ → A1TagSize → Bytes
stream_output cipher key nonce counter size =
    cipher.keyed_output key (cipher.frame_stream_block nonce counter size)

abbrev pub is_faulted : Option ℕ → ℕ → Bool
is_faulted none block = false
is_faulted (some faulted) block = block == faulted

-- The counter of a block, faulted in at most one of them.
pub faulted_counter : Option ℕ → ℕ → ℕ → ℕ
faulted_counter faulted counter_xor block =
    if is_faulted faulted block then bit_xor block counter_xor else block

-- `blocks` in `apply_stream`.
pub block_count : ℕ → ℕ
block_count size = if size == 0 then 0 else 1 + (size - 1) / 32

-- The loop over the last `count` blocks, with the input and the output from `block` on.
pub apply_blocks : (ℕ → Bytes) → ℕ → ℕ → Bytes → Bytes
apply_blocks stream zero block input = []
apply_blocks stream (suc count) block input =
    xor_bytes (take 32 input) (stream block)
    ++ apply_blocks stream count (suc block) (drop 32 input)

-- `to_a1_tag_size` has one result for all blocks, and is not called where there is none.
pub apply_stream : Cipher → Bytes → Bytes → Bytes → TagSize → Option ℕ → ℕ → Result Bytes
unfolding stream_output faulted_counter block_count apply_blocks to_a1_tag_size
apply_stream cipher key nonce input tag_size faulted counter_xor =
    let blocks = block_count (length input) in
    if blocks == 0
    then ok []
    else to_a1_tag_size tag_size >>= λ size. ok (
        apply_blocks
          (λ block. stream_output cipher key nonce (faulted_counter faulted counter_xor block) size)
          blocks 0 input)
