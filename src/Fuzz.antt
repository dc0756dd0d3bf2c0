-- ===== src/Fuzz.antt =====
-- The fuzzing harnesses: fuzz/fuzz_input.hpp, fuzz/seal_equivalence.cpp, fuzz/open_equivalence.cpp. The
-- implementation that they compare with, `pvcaead0_independent`, is a second parameter `Aead`.
pub mod Reader
pub mod Differential
mod Tests
use perfectvaluecubesymmetri.Base.{
  ℕ, zero, suc, ◌+◌, ◌-◌, ◌*◌, ◌%◌, ◌^◌, min, Bool, true, false, not, Option, none, some, [], ◌++◌,
  ◌==◌, leb, if◌then◌else◌, same_bytes, Bytes, length, get_or, take, drop, replicate, String,
  Result, ok, err, Exception,
}
use perfectvaluecubesymmetri.Symmetric.{
  KeyPair512, SealedMessage, TagSize, bits128, bits192, bits256, A1TagSize, a1_bits128, a1_bits192,
  a1_bits256, Aead, seal, open_sealed,
}
use perfectvaluecubesymmetri.Fuzz.Reader.{
  InputReader, reader, take_byte, take_u16_be, take_array, remaining, split_index,
}

-- How a run of a harness ends: with `return 0`, by `std::abort` after a message, by an exception, or
-- with a call outside its precondition, after which nothing is known.
pub data Verdict : Type 0 where
  passed : Verdict
  aborted : String → Verdict
  threw : Exception → Verdict
  undefined : Verdict

-- `require(condition, message);` before the rest of the harness.
abbrev pub expect : Bool → String → Verdict → Verdict
expect true message rest = rest
expect false message rest = aborted message

abbrev pub calling : {A : Type 0} → Result A → (A → Verdict) → Verdict
calling (ok a) rest = rest a
calling (err e) rest = threw e

-- `std::span::first`, `subspan` and `last`, whose argument is at most the size.
abbrev pub first : ℕ → Bytes → (Bytes → Verdict) → Verdict
first n span rest = if leb n (length span) then rest (take n span) else undefined

abbrev pub subspan : ℕ → Bytes → (Bytes → Verdict) → Verdict
subspan n span rest = if leb n (length span) then rest (drop n span) else undefined

abbrev pub last : ℕ → Bytes → (Bytes → Verdict) → Verdict
last n span rest = if leb n (length span) then rest (drop (length span - n) span) else undefined

-- A difference of two `std::size_t`, which wraps around.
abbrev pub size_minus : ℕ → ℕ → ℕ
size_minus m n = (m + 2 ^ 64 - n) % 2 ^ 64

-- `select_tag_profiles` of the one harness and `select_tag_profile` of the other.
pub select_tag_profiles : ℕ → TagSize × A1TagSize
select_tag_profiles selector =
    if selector % 3 == 0
    then (bits128, a1_bits128)
    else if selector % 3 == 1
    then (bits192, a1_bits192)
    else (bits256, a1_bits256)

pub select_tag_profile : ℕ → A1TagSize
select_tag_profile selector =
    if selector % 3 == 0 then a1_bits128 else if selector % 3 == 1 then a1_bits192 else a1_bits256

pub raw_tag_size : ℕ → ℕ
raw_tag_size selector =
    if selector == b'a'
    then 16
    else if selector == b'b'
    then 24
    else if selector == b'c'
    then 32
    else selector

abbrev pub has_value : Option Bytes → Bool
has_value none = false
has_value (some bytes) = true

abbrev pub value_or_empty : Option Bytes → Bytes
value_or_empty none = []
value_or_empty (some bytes) = bytes

abbrev pub same_answer : Bool → Bool → Bool
same_answer true b = b
same_answer false b = not b

pub compare_open_results : Option Bytes → Option Bytes → Verdict → Verdict
compare_open_results canonical independent rest =
    expect (same_answer (has_value canonical) (has_value independent))
      "open differential failure: acceptance mismatch"
      (if not (has_value canonical)
        then rest
        else expect (same_bytes (value_or_empty canonical) (value_or_empty independent))
            "open differential failure: plaintext mismatch" rest)

-- The body of the seal harness once the input is read.
pub compare_seals : Aead → Aead → KeyPair512 → Bytes → Bytes → Bytes → TagSize × A1TagSize → Verdict
compare_seals a1 other keys nonce ad plaintext profiles =
    calling (seal a1 keys nonce ad plaintext profiles.0) λ canonical.
      calling (other.seal keys nonce ad plaintext profiles.1) λ independent.
        expect (same_bytes canonical.ciphertext independent.ciphertext)
          "seal differential failure: ciphertext mismatch"
          (expect (same_bytes canonical.tag independent.tag)
            "seal differential failure: tag mismatch" passed)

-- The seal harness from `split_index` on, for the fields that it has read.
pub seal_fields : Aead → Aead → ℕ → ℕ → KeyPair512 → Bytes → Bytes → Verdict
unfolding select_tag_profiles compare_seals
seal_fields a1 other selector split_hint keys nonce payload =
    let ad_size = split_index split_hint (length payload) in
    first ad_size payload λ associated_data. subspan ad_size payload λ plaintext.
      compare_seals a1 other keys nonce associated_data plaintext (select_tag_profiles selector)

pub seal_harness : Aead → Aead → Bytes → Verdict
unfolding seal_fields
seal_harness a1 other bytes =
    let (selector, input) = take_byte (reader bytes) in
    let (split_hint, input) = take_u16_be input in
    let (encryption_key, input) = take_array 32 input in
    let (authentication_key, input) = take_array 32 input in
    let (nonce, input) = take_array 24 input in
    seal_fields a1 other selector split_hint
      (record { encryption_key = encryption_key; authentication_key = authentication_key }) nonce
      (remaining input)

-- The branch of the open harness that seals a message first.
pub compare_valid : Aead → Aead → KeyPair512 → Bytes → Bytes → Bytes → A1TagSize → Verdict
unfolding compare_open_results
compare_valid a1 other keys nonce ad plaintext profile =
    calling (other.seal keys nonce ad plaintext profile) λ sealed.
      calling (open_sealed a1 keys nonce ad sealed.ciphertext sealed.tag) λ canonical.
        calling (other.open_sealed keys nonce ad sealed.ciphertext sealed.tag) λ independent.
          compare_open_results canonical independent (
            expect (has_value canonical)
              "open differential failure: generated valid tuple was rejected"
              (expect (same_bytes (value_or_empty canonical) plaintext)
                "open differential failure: generated tuple recovered wrong plaintext" passed))

-- Its other branch.
pub compare_raw : Aead → Aead → KeyPair512 → Bytes → Bytes → Bytes → Bytes → Verdict
unfolding compare_open_results
compare_raw a1 other keys nonce ad ciphertext tag =
    calling (open_sealed a1 keys nonce ad ciphertext tag) λ canonical.
      calling (other.open_sealed keys nonce ad ciphertext tag) λ independent.
        compare_open_results canonical independent (
          if has_value canonical
          then expect (length (value_or_empty canonical) == length ciphertext)
              "open differential failure: accepted plaintext length mismatch" passed
          else passed)

-- `supplied_tag`: zeros, with the last bytes of the payload copied to their end.
pub supplied_tag : ℕ → ℕ → Bytes → (Bytes → Verdict) → Verdict
supplied_tag requested copied payload rest = last copied payload λ tag_material.
    if leb copied requested
    then rest (replicate (requested - copied) 0 ++ tag_material)
    else undefined

-- The two branches of the open harness, for the fields that it has read.
pub open_valid : Aead → Aead → ℕ → ℕ → KeyPair512 → Bytes → Bytes → Verdict
unfolding select_tag_profile compare_valid
open_valid a1 other tag_selector split_hint keys nonce payload =
    let ad_size = split_index split_hint (length payload) in
    first ad_size payload λ associated_data. subspan ad_size payload λ plaintext.
      compare_valid a1 other keys nonce associated_data plaintext (select_tag_profile tag_selector)

pub open_raw : Aead → Aead → ℕ → ℕ → KeyPair512 → Bytes → Bytes → Verdict
unfolding raw_tag_size compare_raw supplied_tag
open_raw a1 other tag_selector split_hint keys nonce payload =
    let requested = raw_tag_size tag_selector in
    let copied = min requested (length payload) in
    first (size_minus (length payload) copied) payload λ body.
      let ad_size = split_index split_hint (length body) in
      first ad_size body λ associated_data. subspan ad_size body λ ciphertext.
        supplied_tag requested copied payload
          λ tag. compare_raw a1 other keys nonce associated_data ciphertext tag

pub open_harness : Aead → Aead → Bytes → Verdict
unfolding open_valid open_raw
open_harness a1 other bytes =
    let (mode, input) = take_byte (reader bytes) in
    let (tag_selector, input) = take_byte input in
    let (split_hint, input) = take_u16_be input in
    let (encryption_key, input) = take_array 32 input in
    let (authentication_key, input) = take_array 32 input in
    let (nonce, input) = take_array 24 input in
    let keys : KeyPair512 = record {
      encryption_key = encryption_key;
      authentication_key = authentication_key;
    } in
    if mode % 2 == 1
    then open_valid a1 other tag_selector split_hint keys nonce (remaining input)
    else open_raw a1 other tag_selector split_hint keys nonce (remaining input)
