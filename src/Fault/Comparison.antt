-- ===== src/Fault/Comparison.antt =====
-- `comparison_model` of analysis/fault_injection_campaign.cpp: the tag comparison with a shortened length or one
-- byte skipped.
use Prim.Native.Nat.{bit_or-bitwise, digits}
use perfectvaluecubesymmetri.Base.{
  ◌≢◌, get_or_ext, ℕ, zero, suc, ◌+◌, ◌/◌, ◌≤◌, ◌<◌, ◌≡◌, ◌↔◌, refl, Bool, true, false, Bool-cases,
  inl, inr, Option, none, some, bit_xor, bit_or, max, sym, ◌∙◌, arith, leb, ◌==◌, if◌then◌else◌,
  Bytes, length, get_or, Result, ok, ◌>>◌, require, runtime_error,
}
use perfectvaluecubesymmetri.Base.Xor.{bit_xor_eq, bit_xor_self}

abbrev pub is_skipped : Option ℕ → ℕ → Bool
is_skipped none index = false
is_skipped (some skipped) index = index == skipped

-- The loop over the last `count` bytes, from `index` on.
pub accumulate : Option ℕ → ℕ → ℕ → Bytes → Bytes → ℕ → ℕ
accumulate skipped zero index expected supplied difference = difference
accumulate skipped (suc count) index expected supplied difference =
    accumulate skipped count (suc index) expected supplied (
      if is_skipped skipped index
      then difference
      else bit_or difference (bit_xor (get_or expected index 0) (get_or supplied index 0)))

pub comparison_model : Bytes → Bytes → ℕ → Option ℕ → Result Bool
unfolding accumulate
comparison_model expected supplied comparison_length skipped = do
  require (leb comparison_length (length expected))
      (runtime_error "comparison exceeds expected tag")
  require (leb comparison_length (length supplied))
      (runtime_error "comparison exceeds supplied tag")
  ok (accumulate skipped comparison_length 0 expected supplied 0 == 0)

digits_zero : (n a b : ℕ) → a ≤ n → digits (λ d. d) max n a b ≡ 0 → (a ≡ 0) × (b ≡ 0)
digits_zero zero a b h e = (omega arith, e)
digits_zero (suc n) zero b h e = (refl, e)
digits_zero (suc n) (suc a) b h e =
    let (x, y) = digits_zero n (suc a / 2) (b / 2) (omega arith) (omega arith) in
    (omega (arith, x, y, e), omega (arith, x, y, e))

bit_or_zero : (a b : ℕ) → bit_or a b ≡ 0 → (a ≡ 0) × (b ≡ 0)
bit_or_zero a b e = digits_zero a a b (omega arith) (sym (bit_or-bitwise a b) ∙ e)

zero-bit_or : (b : ℕ) → bit_or 0 b ≡ b
zero-bit_or b = bit_or-bitwise 0 b

abbrev Agree : Option ℕ → ℕ → ℕ → Bytes → Bytes → Type 0
Agree skipped count index expected supplied =
    (i : ℕ)
    → index ≤ i
    → i < index + count
    → is_skipped skipped i ≡ false
    → get_or expected i 0 ≡ get_or supplied i 0

accumulate_zero :
    (skipped : Option ℕ) (count index : ℕ) (expected supplied : Bytes) (difference : ℕ)
    → accumulate skipped count index expected supplied difference ≡ 0
    → (difference ≡ 0) × Agree skipped count index expected supplied
unfolding accumulate
accumulate_zero skipped zero index expected supplied difference e =
    (e, λ i lo hi s. absurd (omega arith))
accumulate_zero skipped (suc count) index expected supplied difference e =
    let (now, later) = accumulate_zero skipped count (suc index) expected supplied _ e in
    elim (Bool-cases (is_skipped skipped index)) [
      | inl over ↦ (
        (rw over at now),
        λ i lo hi s. elim (Bool-cases (i == index)) [
          | inl here ↦ absurd (ground arith)
          | inr beyond ↦ later i (ground arith) (omega arith) s
        ],
      )
      | inr read ↦
          let both : bit_or difference (bit_xor (get_or expected index 0) (get_or supplied index 0))
              ≡ 0 =
            (rw read at now) in
          let (before, same) = bit_or_zero difference _ both in
          (
            before,
            λ i lo hi s. elim (Bool-cases (i == index)) [
              | inl here ↦
                  let at : i ≡ index = ground arith in
                  rw at (bit_xor_eq (get_or expected index 0) (get_or supplied index 0) same)
              | inr beyond ↦ later i (ground arith) (omega arith) s
            ],
          )
    ]

zero_accumulate :
    (skipped : Option ℕ) (count index : ℕ) (expected supplied : Bytes)
    → Agree skipped count index expected supplied
    → accumulate skipped count index expected supplied 0 ≡ 0
unfolding accumulate
zero_accumulate skipped zero index expected supplied agree = refl
zero_accumulate skipped (suc count) index expected supplied agree =
    let rest =
      zero_accumulate skipped count (suc index) expected supplied
        (λ i lo hi s. agree i (omega arith) (omega arith) s) in
    elim (Bool-cases (is_skipped skipped index)) [
      | inl over ↦ rw over rest
      | inr read ↦
          let same : get_or expected index 0 ≡ get_or supplied index 0 =
            agree index (omega arith) (omega arith) read in
          rw (read, same, bit_xor_self (get_or supplied index 0), zero-bit_or 0) rest
    ]

-- The comparison accepts exactly the tags that agree at every compared position that is not skipped. The
-- compared length exceeds neither tag.
pub comparison_model_iff :
    (expected supplied : Bytes) (comparison_length : ℕ) (skipped : Option ℕ)
    → comparison_length ≤ length expected
    → comparison_length ≤ length supplied
    → (comparison_model expected supplied comparison_length skipped ≡ ok true) ↔ (
        (i : ℕ)
        → i < comparison_length
        → is_skipped skipped i ≡ false
        → get_or expected i 0 ≡ get_or supplied i 0)
unfolding comparison_model
comparison_model_iff expected supplied n skipped h k = (
  λ e i lt s.
      (accumulate_zero skipped n 0 expected supplied 0 (ground arith)).1 i (omega arith)
        (omega arith) s,
  λ agree.
      ground (
        arith,
        zero_accumulate skipped n 0 expected supplied (λ i lo hi s. agree i (omega arith) s),
      ),
)

-- The whole comparison refuses a tag that is another one of the same length.
pub comparison_model_differs :
    (expected supplied : Bytes)
    → length expected ≡ length supplied
    → expected ≢ supplied
    → comparison_model expected supplied (length expected) none ≡ ok false
comparison_model_differs expected supplied l other =
    elim (Bool-cases (accumulate none (length expected) 0 expected supplied 0 == 0)) [
      | inl accepted ↦ absurd (
          other (
            get_or_ext 0 expected supplied l (λ i lt.
              (comparison_model_iff expected supplied (length expected) none (omega arith)
                  (omega arith)).0
                (unfold comparison_model in ground (arith, accepted)) i lt refl)))
      | inr refused ↦ unfold comparison_model in ground (arith, refused)
    ]
