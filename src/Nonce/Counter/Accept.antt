-- ===== src/Nonce/Counter/Accept.antt =====
-- What `decode_state` accepts: exactly the images of well-formed states.
use perfectvaluecubesymmetri.Base.{
  ℕ, zero, suc, ◌+◌, ◌≤◌, ◌<◌, ◌≡◌, refl, ap, ap₂, ◌∙◌, sym, true, String, [], ◌∷◌, ◌++◌, map,
  append-nil, arith, ◌==◌, ==_iff, Bytes, AllBytes, length, get_or, take, drop, ok, err,
  runtime_error, ◌>>=◌, ok_before, Bool-cases, inl, inr, take-append-drop, length-take, length-drop,
  drop-all, subst,
}
use native.Mathlib.Nat.{zero-add, suc-add}
use perfectvaluecubesymmetri.Nonce.Counter.{
  CounterState, IsWellFormed, state_magic, complement, flag, equal_at, read_redundant, encode_state,
  decode_state,
}
use perfectvaluecubesymmetri.Nonce.Counter.Write.{image, encode_state-eq-image}

drop-cons : (i : ℕ) (xs : Bytes) → i < length xs → drop i xs ≡ get_or xs i 0 ∷ drop (suc i) xs
drop-cons i [] h = absurd (omega arith)
drop-cons zero (x ∷ xs) h = refl
drop-cons (suc i) (x ∷ xs) h = drop-cons i xs (omega arith)

drop-nil : (n : ℕ) → drop {A = ℕ} n [] ≡ []
drop-nil zero = refl
drop-nil (suc n) = refl

drop-drop : (m n : ℕ) (xs : Bytes) → drop n (drop m xs) ≡ drop (m + n) xs
drop-drop zero n xs = rw zero-add
drop-drop (suc m) n [] = rw (suc-add, drop-nil)
drop-drop (suc m) n (x ∷ xs) = rw suc-add (drop-drop m n xs)

AllBytes-take : (n : ℕ) (xs : Bytes) → AllBytes xs → AllBytes (take n xs)
AllBytes-take zero xs h = tt
AllBytes-take (suc n) [] h = tt
AllBytes-take (suc n) (x ∷ xs) h = (h.0, AllBytes-take n xs h.1)

AllBytes-drop : (n : ℕ) (xs : Bytes) → AllBytes xs → AllBytes (drop n xs)
AllBytes-drop zero xs h = h
AllBytes-drop (suc n) [] h = tt
AllBytes-drop (suc n) (x ∷ xs) h = AllBytes-drop n xs h.1

-- A successful read returns one slice of the file, and the other is its complement.
record IsRead (n i j : ℕ) (encoded values : Bytes) : Type 0 where
  plain : take n (drop i encoded) ≡ values
  flipped : take n (drop j encoded) ≡ map complement values

-- A round that succeeds has seen a value beside its complement.
read_redundant-suc :
    (message : String) (n i j : ℕ) (encoded : Bytes) {values : Bytes}
    → read_redundant message (suc n) i j encoded ≡ ok values
    → (rest : Bytes) × (values ≡ get_or encoded i 0 ∷ rest)
      × (get_or encoded j 0 ≡ complement (get_or encoded i 0))
      × (read_redundant message n (suc i) (suc j) encoded ≡ ok rest)
unfolding read_redundant
read_redundant-suc message n i j encoded {values} e =
    elim (Bool-cases (get_or encoded j 0 == complement (get_or encoded i 0))) [
      | inl agrees ↦
          let inner : (read_redundant message n (suc i) (suc j) encoded >>= λ rest.
          ok (get_or encoded i 0 ∷ rest))
              ≡ ok values =
            (rw agrees at e) in
          let (rest, whole, read) =
            ok_before (λ rest. ok (get_or encoded i 0 ∷ rest))
              (read_redundant message n (suc i) (suc j) encoded) inner in
          (rest, cc whole, (==_iff _ _).0 agrees, read)
      | inr differs ↦
          let impossible : err (runtime_error message) ≡ ok values = (rw differs at e) in
          cc impossible
    ]

read_redundant-IsRead :
    (message : String) (n i j : ℕ) (encoded : Bytes) {values : Bytes}
    → i + n ≤ length encoded
    → j + n ≤ length encoded
    → read_redundant message n i j encoded ≡ ok values
    → IsRead n i j encoded values
read_redundant-IsRead message zero i j encoded {values} p q e =
    let empty : [] ≡ values = (unfold read_redundant in cc e) in
    record { plain = empty; flipped = ap (map complement) empty }
read_redundant-IsRead message (suc n) i j encoded {values} p q e =
    let (rest, whole, agrees, read) = read_redundant-suc message n i j encoded e in
    let below =
      read_redundant-IsRead message n (suc i) (suc j) encoded (omega arith) (omega arith) read in
    record {
      plain =
          ap (take (suc n)) (drop-cons i encoded (omega arith))
          ∙ ap (λ t. get_or encoded i 0 ∷ t) below.plain
          ∙ sym whole;
      flipped =
          ap (take (suc n)) (drop-cons j encoded (omega arith))
          ∙ ap₂ ◌∷◌ agrees below.flipped
          ∙ ap (map complement) (sym whole);
    }

equal_at-slice :
    (i : ℕ) (expected encoded : Bytes)
    → i + length expected ≤ length encoded
    → equal_at i expected encoded ≡ true
    → take (length expected) (drop i encoded) ≡ expected
unfolding equal_at
equal_at-slice i [] encoded p e = refl
equal_at-slice i (x ∷ xs) encoded p e =
    ap (take (suc (length xs))) (drop-cons i encoded (omega arith))
    ∙ ap₂ ◌∷◌ (ground arith) (equal_at-slice (suc i) xs encoded (omega arith) (ground arith))

-- What a successful `decode_state` has seen of the file.
record IsDecoded (encoded : Bytes) (s : CounterState) : Type 0 where
  magic : equal_at 0 state_magic encoded ≡ true
  scope : read_redundant "nonce counter scope redundancy mismatch" 16 8 24 encoded ≡ ok s.scope
  flag_value : get_or encoded 40 0 ≡ flag s.exhausted
  flag_check : get_or encoded 41 0 ≡ complement (flag s.exhausted)
  next : read_redundant "nonce counter value redundancy mismatch" 24 42 66 encoded ≡ ok s.next

decode_state-IsDecoded :
    (encoded : Bytes) (s : CounterState) → decode_state encoded ≡ ok s → IsDecoded encoded s
unfolding decode_state
decode_state-IsDecoded encoded s e = ground arith

decode_state-IsWellFormed :
    (encoded : Bytes) (s : CounterState)
    → length encoded ≡ 90
    → AllBytes encoded
    → decode_state encoded ≡ ok s
    → IsWellFormed s
decode_state-IsWellFormed encoded s size bytes e =
    let seen = decode_state-IsDecoded encoded s e in
    let scope = read_redundant-IsRead _ 16 8 24 encoded (omega arith) (omega arith) seen.scope in
    let next = read_redundant-IsRead _ 24 42 66 encoded (omega arith) (omega arith) seen.next in
    record {
      scope_length =
          sym (ap length scope.plain)
          ∙ omega (arith, length-take 16 (drop 8 encoded), length-drop 8 encoded);
      scope_bytes = subst AllBytes scope.plain (AllBytes-take 16 _ (AllBytes-drop 8 encoded bytes));
      next_length =
          sym (ap length next.plain)
          ∙ omega (arith, length-take 24 (drop 42 encoded), length-drop 42 encoded);
      next_bytes = subst AllBytes next.plain (AllBytes-take 24 _ (AllBytes-drop 42 encoded bytes));
    }

-- The file is its first `n` bytes from `i` on, and what follows them.
slice :
    (i n : ℕ) (encoded : Bytes) → drop i encoded ≡ take n (drop i encoded) ++ drop (i + n) encoded
slice i n encoded =
    sym (take-append-drop n (drop i encoded))
    ∙ ap (λ t. take n (drop i encoded) ++ t) (drop-drop i n encoded)

image_of_decoded :
    (encoded : Bytes) (s : CounterState)
    → length encoded ≡ 90
    → IsDecoded encoded s
    → encoded ≡ image s
image_of_decoded encoded s size seen =
    slice 0 8 encoded
    ∙ ap₂ ◌++◌ (equal_at-slice 0 state_magic encoded (omega arith) seen.magic) (
        slice 8 16 encoded
        ∙ ap₂ ◌++◌ scope.plain (
            slice 24 16 encoded
            ∙ ap₂ ◌++◌ scope.flipped (
                drop-cons 40 encoded (omega arith)
                ∙ ap₂ ◌∷◌ seen.flag_value (
                    drop-cons 41 encoded (omega arith)
                    ∙ ap₂ ◌∷◌ seen.flag_check (
                        slice 42 24 encoded
                        ∙ ap₂ ◌++◌ next.plain (
                            slice 66 24 encoded
                            ∙ ap₂ ◌++◌ next.flipped (drop-all 90 encoded (omega arith))
                            ∙ append-nil (map complement s.next)))))))
  where
    scope : IsRead 16 8 24 encoded s.scope
    scope = read_redundant-IsRead _ 16 8 24 encoded (omega arith) (omega arith) seen.scope

    next : IsRead 24 42 66 encoded s.next
    next = read_redundant-IsRead _ 24 42 66 encoded (omega arith) (omega arith) seen.next

-- A file of 90 bytes that `decode_state` accepts is the image of the state that it returns, which is
-- well-formed.
pub encode_state-decode_state :
    (encoded : Bytes) (s : CounterState)
    → length encoded ≡ 90
    → AllBytes encoded
    → decode_state encoded ≡ ok s
    → IsWellFormed s × (encode_state s ≡ encoded)
encode_state-decode_state encoded s size bytes e =
    let w = decode_state-IsWellFormed encoded s size bytes e in
    (
      w,
      encode_state-eq-image s w
          ∙ sym (image_of_decoded encoded s size (decode_state-IsDecoded encoded s e)),
    )
