-- ===== src/Nonce/Campaign.antt =====
-- analysis/nonce_misuse_campaign.cpp: its deterministic inputs. The campaign's tests are in the children.
pub mod World
pub mod Collisions
pub mod Misuse
pub mod Passes
pub mod Runs
mod Tests
use perfectvaluecubesymmetri.Base.{
  ℕ, zero, suc, ◌+◌, ◌-◌, ◌*◌, ◌/◌, ◌%◌, ◌^◌, bit_xor, [], ◌∷◌, Bytes, length, set, replicate,
}

-- `kSeed`.
abbrev pub seed : ℕ
seed = 5642814908950988628

-- Words of 64 bits; a shift to the right by `k` divides by `2 ^ k`. The value, and the new state.
pub next_random : ℕ → ℕ × ℕ
next_random old =
    let state = (old + 11400714819323198485) % 2 ^ 64 in
    let first = bit_xor state (state / 2 ^ 30) * 13787848793156543929 % 2 ^ 64 in
    let second = bit_xor first (first / 2 ^ 27) * 10723151780598845931 % 2 ^ 64 in
    (bit_xor second (second / 2 ^ 31), state)

-- The inner loop of `random_nonce`: the last `count` bytes of a word.
pub write_word : ℕ → ℕ → ℕ → Bytes → Bytes
write_word zero word value nonce = nonce
write_word (suc count) word value nonce =
    write_word count word value
      (set nonce (word * 8 + (7 - count)) (value / 2 ^ ((7 - (7 - count)) * 8) % 256))

-- The outer loop, over the last `count` words.
pub write_words : ℕ → ℕ → Bytes → Bytes × ℕ
unfolding next_random write_word
write_words zero state nonce = (nonce, state)
write_words (suc count) state nonce =
    let (value, next) = next_random state in
    write_words count next (write_word 8 (2 - count) value nonce)

pub random_nonce : ℕ → Bytes × ℕ
unfolding write_words
random_nonce state = write_words 3 state (replicate 24 0)

-- The loop of `nonce_from_counter`, over the last `count` of its eight passes.
pub write_counter : ℕ → ℕ → Bytes → Bytes
write_counter zero value nonce = nonce
write_counter (suc count) value nonce =
    let index = 7 - count in
    write_counter count value (set nonce (length nonce - 1 - index) (value / 2 ^ (index * 8) % 256))

pub nonce_from_counter : ℕ → Bytes
unfolding write_counter
nonce_from_counter value = write_counter 8 value (replicate 24 0)

-- `offset + index` in every place, as a byte: the bytes from `index` on.
pub ascending : ℕ → ℕ → ℕ → Bytes
ascending zero offset index = []
ascending (suc count) offset index =
    (offset + index % 256) % 256 ∷ ascending count offset (suc index)

pub key_with_offset : ℕ → Bytes
unfolding ascending
key_with_offset offset = ascending 32 offset 0

pub scope_with_offset : ℕ → Bytes
unfolding ascending
scope_with_offset offset = ascending 16 offset 0
