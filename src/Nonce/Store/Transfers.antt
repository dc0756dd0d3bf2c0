-- ===== src/Nonce/Store/Transfers.antt =====
-- `write_all` and `read_all`: loops over short, interrupted and failed transfers.
use perfectvaluecubesymmetri.Base.{
  ℕ, zero, suc, ◌-◌, ◌≤◌, ◌≡◌, refl, inl, inr, false, [], ◌∷◌, ◌++◌, List, min, leb, ◌==◌,
  if◌then◌else◌, arith, append_assoc, append-nil, Bytes, length, take, drop, Result, ok, err,
  runtime_error, system_error, take-append-drop, length-drop, ◌<◌, sym, ap, ◌∙◌, Bool-cases,
}
use native.Mathlib.Nat.{sub-zero}
use perfectvaluecubesymmetri.Nonce.Store.Effects.{Transfer, moved, interrupted, failed}

-- The file after the loop, and how the loop ended. `bytes` are those still to be written.
pub write_all : List Transfer → Bytes → Bytes → Result (Unit {0}) × Bytes
write_all transfers [] file = (ok tt, file)
write_all [] (b ∷ bytes) file = (ok tt, file ++ (b ∷ bytes))
write_all (interrupted ∷ transfers) (b ∷ bytes) file = write_all transfers (b ∷ bytes) file
write_all (failed ∷ transfers) (b ∷ bytes) file =
    (err (system_error "write nonce counter state"), file)
write_all (moved n ∷ transfers) (b ∷ bytes) file =
    let written = min n (length (b ∷ bytes)) in
    let rest = write_all transfers (drop written (b ∷ bytes)) (file ++ take written (b ∷ bytes)) in
    if written == 0
    then (err (runtime_error "zero-length nonce counter state write"), file)
    else rest

-- `size` bytes still wanted, `file` the bytes not yet read, `out` the bytes received.
pub read_all : List Transfer → ℕ → Bytes → Bytes → Result Bytes
read_all transfers zero file out = ok out
read_all [] (suc size) file out =
    if leb (suc size) (length file)
    then ok (out ++ take (suc size) file)
    else err (runtime_error "truncated nonce counter state")
read_all (interrupted ∷ transfers) (suc size) file out = read_all transfers (suc size) file out
read_all (failed ∷ transfers) (suc size) file out = err (system_error "read nonce counter state")
read_all (moved n ∷ transfers) (suc size) file out =
    let received = min n (min (suc size) (length file)) in
    let rest =
      read_all transfers (suc size - received) (drop received file) (out ++ take received file) in
    if received == 0 then err (runtime_error "truncated nonce counter state") else rest

take-nil : (n : ℕ) → [] ≡ take {A = ℕ} n []
take-nil zero = refl
take-nil (suc n) = refl

-- The bytes of two transfers that follow one another.
take-split : (r n : ℕ) (xs : Bytes) → r ≤ n → take n xs ≡ take r xs ++ take (n - r) (drop r xs)
take-split zero n xs h = rw sub-zero
take-split (suc r) zero xs h = absurd (omega arith)
take-split (suc r) (suc n) [] h = take-nil (suc n - suc r)
take-split (suc r) (suc n) (x ∷ xs) h =
    ap (λ t. x ∷ t)
      (take-split r n xs (omega arith)
        ∙ ap (λ (k : ℕ). take r xs ++ take k (drop r xs))
            (let e : n - r ≡ suc n - suc r = omega arith in e))

-- A loop that ends normally has written everything, in order, however the kernel split the writes.
pub write_all-ok :
    (transfers : List Transfer) (bytes file : Bytes)
    → (write_all transfers bytes file).0 ≡ ok tt
    → (write_all transfers bytes file).1 ≡ file ++ bytes
unfolding write_all
write_all-ok [] [] file e = sym (append-nil file)
write_all-ok (t ∷ transfers) [] file e = sym (append-nil file)
write_all-ok [] (b ∷ bytes) file e = refl
write_all-ok (interrupted ∷ transfers) (b ∷ bytes) file e =
    write_all-ok transfers (b ∷ bytes) file e
write_all-ok (failed ∷ transfers) (b ∷ bytes) file e = cc e
write_all-ok (moved n ∷ transfers) (b ∷ bytes) file e =
    let k = min n (length (b ∷ bytes)) in
    elim (Bool-cases (k == 0)) [
      | inl stuck ↦
          let impossible : err (runtime_error "zero-length nonce counter state write")
              ≡ ok (tt {0}) =
            (rw stuck at e) in
          cc impossible
      | inr goes ↦ rw goes (
          write_all-ok transfers (drop k (b ∷ bytes)) (file ++ take k (b ∷ bytes)) (rw goes at e)
          ∙ append_assoc file (take k (b ∷ bytes)) (drop k (b ∷ bytes))
          ∙ ap (λ t. file ++ t) (take-append-drop k (b ∷ bytes)))
    ]

-- A loop that ends normally has received the first `size` bytes of the file.
pub read_all-ok :
    (transfers : List Transfer) (size : ℕ) (file out : Bytes) {received : Bytes}
    → read_all transfers size file out ≡ ok received
    → received ≡ out ++ take size file
unfolding read_all
read_all-ok [] zero file out e = cc (e, append-nil out)
read_all-ok (t ∷ transfers) zero file out e = cc (e, append-nil out)
read_all-ok [] (suc size) file out e = ground arith
read_all-ok (interrupted ∷ transfers) (suc size) file out e =
    read_all-ok transfers (suc size) file out e
read_all-ok (failed ∷ transfers) (suc size) file out e = cc e
read_all-ok (moved n ∷ transfers) (suc size) file out {received} e =
    let k = min n (min (suc size) (length file)) in
    elim (Bool-cases (k == 0)) [
      | inl stuck ↦
          let impossible : err (runtime_error "truncated nonce counter state") ≡ ok received =
            (rw stuck at e) in
          cc impossible
      | inr goes ↦
          read_all-ok transfers (suc size - k) (drop k file) (out ++ take k file) (rw goes at e)
          ∙ append_assoc out (take k file) (take (suc size - k) (drop k file))
          ∙ ap (λ t. out ++ t) (sym (take-split k (suc size) file (omega arith)))
    ]

-- Transfers that are short or interrupted, but none of which fails.
abbrev pub Progresses : List Transfer → Type 0
Progresses [] = Unit
Progresses (moved n ∷ transfers) = (0 < n) × Progresses transfers
Progresses (interrupted ∷ transfers) = Progresses transfers
Progresses (failed ∷ transfers) = ⊥

-- Short and interrupted writes do not stop the loop.
pub write_all-Progresses :
    (transfers : List Transfer) (bytes file : Bytes)
    → Progresses transfers
    → write_all transfers bytes file ≡ (ok tt, file ++ bytes)
unfolding write_all
write_all-Progresses [] [] file p = ap (λ t. (ok tt, t)) (sym (append-nil file))
write_all-Progresses (t ∷ transfers) [] file p = ap (λ t. (ok tt, t)) (sym (append-nil file))
write_all-Progresses [] (b ∷ bytes) file p = refl
write_all-Progresses (interrupted ∷ transfers) (b ∷ bytes) file p =
    write_all-Progresses transfers (b ∷ bytes) file p
write_all-Progresses (failed ∷ transfers) (b ∷ bytes) file p = absurd p
write_all-Progresses (moved n ∷ transfers) (b ∷ bytes) file p =
    let k = min n (length (b ∷ bytes)) in
    let goes : (k == 0) ≡ false = ground arith in
    rw goes (
      write_all-Progresses transfers (drop k (b ∷ bytes)) (file ++ take k (b ∷ bytes)) p.1
      ∙ ap (λ t. (ok tt, t))
          (append_assoc file (take k (b ∷ bytes)) (drop k (b ∷ bytes))
            ∙ ap (λ t. file ++ t) (take-append-drop k (b ∷ bytes))))

-- Short and interrupted reads of a file that is long enough do not stop the loop.
pub read_all-Progresses :
    (transfers : List Transfer) (size : ℕ) (file out : Bytes)
    → size ≤ length file
    → Progresses transfers
    → read_all transfers size file out ≡ ok (out ++ take size file)
unfolding read_all
read_all-Progresses [] zero file out h p = ap ok (sym (append-nil out))
read_all-Progresses (t ∷ transfers) zero file out h p = ap ok (sym (append-nil out))
read_all-Progresses [] (suc size) file out h p = ground arith
read_all-Progresses (interrupted ∷ transfers) (suc size) file out h p =
    read_all-Progresses transfers (suc size) file out h p
read_all-Progresses (failed ∷ transfers) (suc size) file out h p = absurd p
read_all-Progresses (moved n ∷ transfers) (suc size) file out h p =
    let k = min n (min (suc size) (length file)) in
    let goes : (k == 0) ≡ false = ground arith in
    rw goes (
      read_all-Progresses transfers (suc size - k) (drop k file) (out ++ take k file)
        (omega (arith, length-drop k file)) p.1
      ∙ ap ok (
          append_assoc out (take k file) (take (suc size - k) (drop k file))
          ∙ ap (λ t. out ++ t) (sym (take-split k (suc size) file (omega arith)))))
