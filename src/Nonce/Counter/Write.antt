-- ===== src/Nonce/Counter/Write.antt =====
-- `encode_state` as one concatenation of the fields that it writes.
use perfectvaluecubesymmetri.Base.{
  ℕ, zero, suc, ◌≡◌, refl, ap, ◌∙◌, sym, List, [], ◌∷◌, ◌++◌, map, append_assoc, append-nil, arith,
  Bytes, length, get_or, set, replicate, length-append, length-map,
}
use perfectvaluecubesymmetri.Nonce.Counter.{
  CounterState, IsWellFormed, state_magic, scope_offset, scope_complement_offset, nonce_offset,
  nonce_complement_offset, exhausted_offset, exhausted_complement_offset, complement, flag,
  write_redundant, copy_at, encode_state,
}

module _ {ℓ} {A : Type ℓ} where
  set-append :
      (xs : List A) (i : ℕ) (x v : A) (ys : List A)
      → length xs ≡ i
      → set (xs ++ x ∷ ys) i v ≡ xs ++ v ∷ ys
  set-append [] zero x v ys e = refl
  set-append [] (suc i) x v ys e = absurd (omega arith)
  set-append (y ∷ xs) zero x v ys e = absurd (omega arith)
  set-append (y ∷ xs) (suc i) x v ys e = ap (λ r. y ∷ r) (set-append xs i x v ys (omega arith))

  pub get_or-append :
      (xs : List A) (i : ℕ) (x d : A) (ys : List A) → length xs ≡ i → get_or (xs ++ x ∷ ys) i d ≡ x
  get_or-append [] zero x d ys e = refl
  get_or-append [] (suc i) x d ys e = absurd (omega arith)
  get_or-append (y ∷ xs) zero x d ys e = absurd (omega arith)
  get_or-append (y ∷ xs) (suc i) x d ys e = get_or-append xs i x d ys (omega arith)

-- Both cells of one round: `x` over `u` and its complement over `b`, and the result bracketed for the
-- next round.
set_pair :
    (x y u b : ℕ) (a us m bs c : Bytes) (i j : ℕ)
    → length a ≡ i
    → length (a ++ (u ∷ (us ++ m))) ≡ j
    → set (set (a ++ (u ∷ (us ++ (m ++ (b ∷ (bs ++ c)))))) i x) j y
      ≡ (a ++ (x ∷ [])) ++ (us ++ ((m ++ (y ∷ [])) ++ (bs ++ c)))
set_pair x y u b a us m bs c i j g h =
    ap (λ t. set t j y) (set-append a i u x (us ++ (m ++ (b ∷ (bs ++ c)))) g)
    ∙ ap (λ t. set t j y) before
    ∙ set-append (a ++ (x ∷ (us ++ m))) j b y (bs ++ c) long
    ∙ after
  where
    before : a ++ (x ∷ (us ++ (m ++ (b ∷ (bs ++ c))))) ≡ (a ++ (x ∷ (us ++ m))) ++ (b ∷ (bs ++ c))
    before = simp append_assoc

    after :
        (a ++ (x ∷ (us ++ m))) ++ (y ∷ (bs ++ c))
        ≡ (a ++ (x ∷ [])) ++ (us ++ ((m ++ (y ∷ [])) ++ (bs ++ c)))
    after = simp append_assoc

    long : length (a ++ (x ∷ (us ++ m))) ≡ j
    long = omega (arith, length-append a (x ∷ (us ++ m)), length-append a (u ∷ (us ++ m)))

-- The loop writes the values over `under` and their complements over `below`.
write_redundant-append :
    (values a under m below c : Bytes) (i j : ℕ)
    → length under ≡ length values
    → length below ≡ length values
    → length a ≡ i
    → length (a ++ (under ++ m)) ≡ j
    → write_redundant i j values (a ++ (under ++ (m ++ (below ++ c))))
      ≡ a ++ (values ++ (m ++ (map complement values ++ c)))
unfolding write_redundant
write_redundant-append [] a [] m [] c i j e f g h = refl
write_redundant-append [] a (u ∷ us) m below c i j e f g h = absurd (omega arith)
write_redundant-append [] a [] m (b ∷ bs) c i j e f g h = absurd (omega arith)
write_redundant-append (x ∷ xs) a [] m below c i j e f g h = absurd (omega arith)
write_redundant-append (x ∷ xs) a (u ∷ us) m [] c i j e f g h = absurd (omega arith)
write_redundant-append (x ∷ xs) a (u ∷ us) m (b ∷ bs) c i j e f g h =
    ap (write_redundant (suc i) (suc j) xs) (set_pair x y u b a us m bs c i j g h)
    ∙ write_redundant-append xs (a ++ (x ∷ [])) us (m ++ (y ∷ [])) bs c (suc i) (suc j)
        (omega arith) (omega arith) (omega (arith, length-append a (x ∷ []))) longer
    ∙ simp append_assoc
  where
    y : ℕ
    y = complement x

    longer : length ((a ++ (x ∷ [])) ++ (us ++ (m ++ (y ∷ [])))) ≡ suc j
    longer = omega (
      arith,
      length-append (a ++ (x ∷ [])) (us ++ (m ++ (y ∷ []))),
      length-append a (x ∷ []),
      length-append us (m ++ (y ∷ [])),
      length-append m (y ∷ []),
      length-append a (u ∷ (us ++ m)),
      length-append us m,
    )

-- The image, field by field.
abbrev pub image : CounterState → Bytes
image s =
    state_magic
    ++ (s.scope
        ++ (map complement s.scope
            ++ (flag s.exhausted
                ∷ complement (flag s.exhausted)
                ∷ (s.next ++ map complement s.next))))

-- The two bytes of the flag, between the fields before them and the rest.
set_flag :
    (f y z : ℕ) (front rest : Bytes)
    → length front ≡ exhausted_offset
    → let flagged = set (front ++ (y ∷ z ∷ rest)) exhausted_offset f in
      set flagged exhausted_complement_offset (complement (get_or flagged exhausted_offset 0))
      ≡ front ++ (f ∷ complement f ∷ rest)
set_flag f y z front rest e =
    rw (set-append front 40 y f (z ∷ rest) e, get_or-append front 40 f 0 (z ∷ rest) e)
      (ap (λ t. set t 41 (complement f)) (sym (append_assoc front (f ∷ []) (z ∷ rest)))
        ∙ set-append (front ++ (f ∷ [])) 41 z (complement f) rest
            (omega (arith, length-append front (f ∷ [])))
        ∙ append_assoc front (f ∷ []) (complement f ∷ rest))

module _ (s : CounterState) (w : IsWellFormed s) where
  front : Bytes
  front = state_magic ++ (s.scope ++ map complement s.scope)

  length-front : length front ≡ 40
  unfolding front
  length-front = omega (
    arith,
    length-append s.scope (map complement s.scope),
    length-map complement s.scope,
    w.scope_length,
  )

  scope_written :
      write_redundant scope_offset scope_complement_offset s.scope
        (copy_at 0 state_magic (replicate 90 0))
      ≡ front ++ replicate 50 0
  unfolding front copy_at
  scope_written =
      write_redundant-append s.scope state_magic (replicate 16 0) [] (replicate 16 0)
        (replicate 50 0) 8 24 (sym w.scope_length) (sym w.scope_length) refl refl
      ∙ simp append_assoc

  next_written :
      (f g : ℕ)
      → write_redundant nonce_offset nonce_complement_offset s.next
          (front ++ (f ∷ g ∷ replicate 48 0))
        ≡ front ++ (f ∷ g ∷ (s.next ++ map complement s.next))
  next_written f g =
      ap (write_redundant nonce_offset nonce_complement_offset s.next)
        (sym (append_assoc front (f ∷ g ∷ []) (replicate 48 0)))
      ∙ write_redundant-append s.next (front ++ (f ∷ g ∷ [])) (replicate 24 0) [] (replicate 24 0)
          [] 42 66 (sym w.next_length) (sym w.next_length)
          (omega (arith, length-append front (f ∷ g ∷ []), length-front))
          (omega (
            arith,
            length-append (front ++ (f ∷ g ∷ [])) (replicate 24 0),
            length-append front (f ∷ g ∷ []),
            length-front,
          ))
      ∙ simp (append_assoc, append-nil)

  pub encode_state-eq-image : encode_state s ≡ image s
  unfolding encode_state front
  encode_state-eq-image =
      rw
        (
          scope_written,
          set_flag (flag s.exhausted) 0 0 front (replicate 48 0) length-front,
          next_written (flag s.exhausted) (complement (flag s.exhausted)),
        )
        (simp append_assoc)

  pub length-encode_state : length (encode_state s) ≡ 90
  length-encode_state = rw encode_state-eq-image (
      omega (
        arith,
        length-append s.scope (
            map complement s.scope
            ++ (flag s.exhausted
                ∷ complement (flag s.exhausted)
                ∷ (s.next ++ map complement s.next))),
        length-append (map complement s.scope)
            (flag s.exhausted ∷ complement (flag s.exhausted) ∷ (s.next ++ map complement s.next)),
        length-append s.next (map complement s.next),
        length-map complement s.scope,
        length-map complement s.next,
        w.scope_length,
        w.next_length,
      ))
