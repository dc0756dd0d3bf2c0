-- ===== src/Nonce/Counter/Tests.antt =====
-- The theorems on the counter's state at concrete states.
use perfectvaluecubesymmetri.Base.{
  ◌≡◌, refl, false, true, [], ◌∷◌, ◌++◌, arith, Bytes, replicate, ok, map,
}
use perfectvaluecubesymmetri.Nonce.Counter.{
  CounterState, IsWellFormed, encode_state, equal_at, read_redundant, decode_state, carry,
  increment, state_magic, complement,
}
use perfectvaluecubesymmetri.Nonce.Counter.Accept.{encode_state-decode_state}
use perfectvaluecubesymmetri.Nonce.Counter.Read.{decode_state-encode_state}
use perfectvaluecubesymmetri.Nonce.Counter.Value.{IsIncremented, increment-IsIncremented}

abbrev scope : Bytes
scope = replicate 16 7

-- The nonce before a carry over two bytes.
abbrev nonce : Bytes
nonce = replicate 22 0 ++ (3 ∷ 255 ∷ [])

abbrev state : CounterState
state = record { scope = scope; next = nonce; exhausted = false }

state-IsWellFormed : IsWellFormed state
state-IsWellFormed = record {
  scope_length = refl;
  scope_bytes = omega arith;
  next_length = refl;
  next_bytes = omega arith;
}

abbrev file : Bytes
file =
    state_magic ++ scope ++ map complement scope ++ (0 ∷ 255 ∷ []) ++ nonce ++ map complement nonce

file_decodes : decode_state file ≡ ok state
unfolding decode_state equal_at read_redundant
file_decodes = refl

increment_carries : increment nonce ≡ (replicate 22 0 ++ (4 ∷ 0 ∷ []), true)
unfolding increment carry
increment_carries = refl

increment_wraps : increment (replicate 24 255) ≡ (replicate 24 0, false)
unfolding increment carry
increment_wraps = refl

encode_state-decode_state_example : IsWellFormed state × (encode_state state ≡ file)
encode_state-decode_state_example =
    encode_state-decode_state file state refl (omega arith) file_decodes

decode_state-encode_state_example : decode_state (encode_state state) ≡ ok state
decode_state-encode_state_example = decode_state-encode_state state state-IsWellFormed

increment-IsIncremented_example : IsIncremented nonce (increment nonce).0 (increment nonce).1
increment-IsIncremented_example = increment-IsIncremented nonce refl (omega arith)
