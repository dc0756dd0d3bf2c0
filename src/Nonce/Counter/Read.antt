-- ===== src/Nonce/Counter/Read.antt =====
-- `decode_state` against `encode_state`: it reads back what was written, and accepts nothing else.
use perfectvaluecubesymmetri.Base.{
  ℕ, zero, suc, ◌≡◌, refl, ap, ◌∙◌, sym, Bool, true, false, not, ◌||◌, ltb, throw_if, String, [],
  ◌∷◌, ◌++◌, map, append_assoc, append-nil, arith, ◌==◌, ==_iff, Bytes, length, get_or, ok,
  runtime_error, ◌>>=◌, length-append, length-map,
}
use perfectvaluecubesymmetri.Nonce.Counter.{
  CounterState, IsWellFormed, state_magic, complement, flag, equal_at, read_redundant, encode_state,
  decode_state,
}
use perfectvaluecubesymmetri.Nonce.Counter.Write.{image, get_or-append, encode_state-eq-image}

==_refl : (x : ℕ) → (x == x) ≡ true
==_refl x = (==_iff x x).1 refl

-- One round of the loop succeeds on a value that stands beside its complement.
read_round :
    (message : String) (n i j x : ℕ) (vs encoded : Bytes)
    → get_or encoded i 0 ≡ x
    → get_or encoded j 0 ≡ complement x
    → read_redundant message n (suc i) (suc j) encoded ≡ ok vs
    → read_redundant message (suc n) i j encoded ≡ ok (x ∷ vs)
unfolding read_redundant
read_round message n i j x vs encoded e f g = rw (e, f, ==_refl (complement x), g)

shift_round :
    (x y : ℕ) (a xs m c : Bytes)
    → a ++ ((x ∷ xs) ++ (m ++ (y ∷ c))) ≡ (a ++ (x ∷ [])) ++ (xs ++ ((m ++ (y ∷ [])) ++ c))
shift_round x y a xs m c = simp append_assoc

longer :
    (x y : ℕ) (a xs m : Bytes) (j : ℕ)
    → length (a ++ ((x ∷ xs) ++ m)) ≡ j
    → length ((a ++ (x ∷ [])) ++ (xs ++ (m ++ (y ∷ [])))) ≡ suc j
longer x y a xs m j g = omega (
  arith,
  length-append (a ++ (x ∷ [])) (xs ++ (m ++ (y ∷ []))),
  length-append a (x ∷ []),
  length-append xs (m ++ (y ∷ [])),
  length-append m (y ∷ []),
  length-append a ((x ∷ xs) ++ m),
  length-append xs m,
)

-- The loop reads the values back from before and after `m`.
read_redundant-append :
    (message : String) (vs a m c : Bytes) (n i j : ℕ)
    → length vs ≡ n
    → length a ≡ i
    → length (a ++ (vs ++ m)) ≡ j
    → read_redundant message n i j (a ++ (vs ++ (m ++ (map complement vs ++ c)))) ≡ ok vs
read_redundant-append message [] a m c zero i j e f g = unfold read_redundant in refl
read_redundant-append message [] a m c (suc n) i j e f g = absurd (omega arith)
read_redundant-append message (x ∷ xs) a m c zero i j e f g = absurd (omega arith)
read_redundant-append message (x ∷ xs) a m c (suc n) i j e f g =
    read_round message n i j x xs whole (get_or-append a i x 0 _ f) second (
      ap (read_redundant message n (suc i) (suc j)) (shift_round x (complement x) a xs m _)
      ∙ read_redundant-append message xs (a ++ (x ∷ [])) (m ++ (complement x ∷ [])) c n (suc i)
          (suc j) (omega arith) (omega (arith, length-append a (x ∷ [])))
          (longer x (complement x) a xs m j g))
  where
    y : ℕ
    y = complement x

    whole : Bytes
    whole = a ++ ((x ∷ xs) ++ (m ++ (map complement (x ∷ xs) ++ c)))

    second : get_or whole j 0 ≡ y
    second =
        ap (λ t. get_or t j 0)
          (let e1 : whole ≡ (a ++ ((x ∷ xs) ++ m)) ++ (y ∷ (map complement xs ++ c)) =
              simp append_assoc in
            e1)
        ∙ get_or-append (a ++ ((x ∷ xs) ++ m)) j y 0 (map complement xs ++ c) g

flag_round :
    (b : Bool) (scope next : Bytes)
    → (throw_if
          (ltb 1 (flag b) || not (complement (flag b) == complement (flag b)))
          (runtime_error "nonce counter exhausted flag mismatch")
        >>= λ _. ok next >>= λ n. ok (record { scope = scope; next = n; exhausted = flag b == 1 }))
      ≡ ok (let s : CounterState = record { scope = scope; next = next; exhausted = b } in s)
flag_round true scope next = refl
flag_round false scope next = refl

-- Reading the image gives the state back.
decode-image : (s : CounterState) → IsWellFormed s → decode_state (image s) ≡ ok s
unfolding decode_state equal_at
decode-image s w =
    rw (read_scope, flag_byte, check_byte, read_next) (flag_round s.exhausted s.scope s.next)
  where
    e : ℕ
    e = flag s.exhausted

    tail : Bytes
    tail = e ∷ complement e ∷ (s.next ++ map complement s.next)

    read_scope :
        read_redundant "nonce counter scope redundancy mismatch" 16 8 24 (image s) ≡ ok s.scope
    read_scope =
        read_redundant-append _ s.scope state_magic [] tail 16 8 24 w.scope_length refl
          (omega (arith, length-append s.scope [], w.scope_length))

    front : Bytes
    front = state_magic ++ (s.scope ++ map complement s.scope)

    length-front : length front ≡ 40
    length-front = omega (
      arith,
      length-append s.scope (map complement s.scope),
      length-map complement s.scope,
      w.scope_length,
    )

    regroup : (t : Bytes) → state_magic ++ (s.scope ++ (map complement s.scope ++ t)) ≡ front ++ t
    regroup t = simp append_assoc

    flag_byte : get_or (image s) 40 0 ≡ e
    flag_byte = ap (λ t. get_or t 40 0) (regroup tail) ∙ get_or-append front 40 e 0 _ length-front

    check_byte : get_or (image s) 41 0 ≡ complement e
    check_byte =
        ap (λ t. get_or t 41 0) (regroup tail ∙ sym (append_assoc front (e ∷ []) _))
        ∙ get_or-append (front ++ (e ∷ [])) 41 (complement e) 0 _
            (omega (arith, length-append front (e ∷ []), length-front))

    read_next :
        read_redundant "nonce counter value redundancy mismatch" 24 42 66 (image s) ≡ ok s.next
    read_next =
        ap (read_redundant "nonce counter value redundancy mismatch" 24 42 66) (
          regroup tail
          ∙ (let e3 : front ++ tail
                  ≡ (front ++ (e ∷ complement e ∷ []))
                    ++ (s.next ++ ([] ++ (map complement s.next ++ []))) =
                simp (append_assoc, append-nil) in
              e3))
        ∙ read_redundant-append _ s.next (front ++ (e ∷ complement e ∷ [])) [] [] 24 42 66
            w.next_length (omega (arith, length-append front (e ∷ complement e ∷ []), length-front))
            (omega (
              arith,
              length-append (front ++ (e ∷ complement e ∷ [])) (s.next ++ []),
              length-append front (e ∷ complement e ∷ []),
              length-front,
              length-append s.next [],
              w.next_length,
            ))

-- Every well-formed state is read back from its image.
pub decode_state-encode_state :
    (s : CounterState) → IsWellFormed s → decode_state (encode_state s) ≡ ok s
decode_state-encode_state s w = rw (encode_state-eq-image s w) (decode-image s w)
