-- ===== src/Fault/TagFaults/Skips.antt =====
-- `test_comparison_skip` of analysis/fault_injection_campaign.cpp, up to its printing.
use perfectvaluecubesymmetri.Base.{
  ℕ, zero, suc, ◌+◌, ◌≤◌, ◌<◌, ◌≡◌, ◌≢◌, refl, sym, ap, ap₂, ◌∙◌, true, false, some, List, [], ◌∷◌,
  arith, ◌==◌, bit_xor, Bytes, length, get_or, set, length-set, get_or-set_self, get_or-set_ne,
  Result, ok, ◌>>=◌, ◌>>◌, require, runtime_error,
}
use perfectvaluecubesymmetri.Base.Xor.{bit_xor_self, bit_xor_comm, bit_xor_cancel}
use perfectvaluecubesymmetri.Fault.Comparison.{comparison_model, comparison_model_iff}
use perfectvaluecubesymmetri.Fault.TagFaults.{CampaignCase, accepts, plus_if}
use perfectvaluecubesymmetri.Fault.TagFaults.Rejected.{IsSealed, AllSealed}
use perfectvaluecubesymmetri.Symmetric.{Aead}
use perfectvaluecubesymmetri.Symmetric.Messages.{open_sealed_other_tag}
use perfectvaluecubesymmetri.Symmetric.Profile.{Primitives, Documented}

-- The counters of the loops.
pub record BypassCounts : Type 0 where
  pub attempts : ℕ
  pub canonical_acceptances : ℕ
  pub model_bypasses : ℕ

abbrev pub no_bypasses : BypassCounts
no_bypasses = record { attempts = 0; canonical_acceptances = 0; model_bypasses = 0 }

-- `value[index] ^= UINT8_C(1)`.
abbrev pub flip_lowest : Bytes → ℕ → Bytes
flip_lowest value index = set value index (bit_xor (get_or value index 0) 1)

-- The body of the inner loop.
pub skip_byte : Aead → CampaignCase → BypassCounts → ℕ → Result BypassCounts
skip_byte a1 c counts skipped = do
  let supplied = flip_lowest c.sealed.tag skipped
  accepted ← accepts a1 c supplied
  bypassed ← comparison_model c.sealed.tag supplied (length supplied) (some skipped)
  ok (record {
    attempts = suc counts.attempts;
    canonical_acceptances = plus_if accepted counts.canonical_acceptances;
    model_bypasses = plus_if bypassed counts.model_bypasses;
  })

-- The inner loop over the last `count` bytes, from `skipped` on.
pub skip_bytes : Aead → CampaignCase → BypassCounts → ℕ → ℕ → Result BypassCounts
unfolding skip_byte
skip_bytes a1 c counts zero skipped = ok counts
skip_bytes a1 c counts (suc count) skipped = do
  next ← skip_byte a1 c counts skipped
  skip_bytes a1 c next count (suc skipped)

pub skip_each : Aead → List CampaignCase → BypassCounts → Result BypassCounts
unfolding skip_bytes
skip_each a1 [] counts = ok counts
skip_each a1 (c ∷ cases) counts = do
  next ← skip_bytes a1 c counts (length c.sealed.tag) 0
  skip_each a1 cases next

pub test_comparison_skip : Aead → List CampaignCase → Result BypassCounts
unfolding skip_each
test_comparison_skip a1 cases = do
  counts ← skip_each a1 cases no_bypasses
  require (counts.canonical_acceptances == 0)
      (runtime_error "canonical open accepted a skipped-byte control tag")
  require (counts.model_bypasses == counts.attempts)
      (runtime_error "comparison-skip model did not bypass its sole mismatch")
  ok counts

-- One more than `n` more attempts, each of them a bypass and none accepted.
abbrev pub bypassed_more : BypassCounts → ℕ → BypassCounts
bypassed_more counts n = record counts {
  attempts = counts.attempts + n;
  model_bypasses = counts.model_bypasses + n;
}

pub same_bypasses :
    (counts : BypassCounts) {n m n' m' : ℕ}
    → n ≡ n'
    → m ≡ m'
    → ok (record counts { attempts = n; model_bypasses = m })
      ≡ ok (record counts { attempts = n'; model_bypasses = m' })
same_bypasses counts e f = ap₂ (λ n m. ok (record counts { attempts = n; model_bypasses = m })) e f

flip_other : (x : ℕ) → bit_xor x 1 ≢ x
flip_other x e =
    let one : 1 ≡ 0 =
      sym (bit_xor_cancel 1 x) ∙ ap (λ a. bit_xor a x) (bit_xor_comm 1 x ∙ e) ∙ bit_xor_self x in
    omega (arith, one)

-- A flipped array has its length, and is another array.
pub flip_lowest_differs :
    (value : Bytes) (i : ℕ)
    → i < length value
    → (length (flip_lowest value i) ≡ length value) × (flip_lowest value i ≢ value)
flip_lowest_differs value i h = (
  length-set value i (bit_xor (get_or value i 0) 1),
  λ e. flip_other (get_or value i 0) (
      sym (get_or-set_self value i (bit_xor (get_or value i 0) 1) 0 h)
      ∙ ap (λ (v : Bytes). get_or v i 0) e),
)

-- A comparison that does not read the flipped byte accepts.
pub comparison_model_flipped :
    (tag : Bytes) (i : ℕ)
    → comparison_model tag (flip_lowest tag i) (length (flip_lowest tag i)) (some i) ≡ ok true
comparison_model_flipped tag i =
    let size = length-set tag i (bit_xor (get_or tag i 0) 1) in
    (comparison_model_iff tag (flip_lowest tag i) (length (flip_lowest tag i)) (some i)
        (omega (arith, size)) (omega arith)).1
      (λ j h apart. sym (
        get_or-set_ne tag i j (bit_xor (get_or tag i 0) 1) 0
          (λ e. absurd (ground (arith, e, apart)))))

module _ (a1 : Aead) (p : Primitives) (documented : Documented a1 p) where
  -- `open` refuses another tag of the sealed one's length.
  pub accepts_other :
      (c : CampaignCase) (tag : Bytes)
      → IsSealed a1 c
      → length tag ≡ length c.sealed.tag
      → tag ≢ c.sealed.tag
      → accepts a1 c tag ≡ ok false
  unfolding accepts
  accepts_other c tag s size other =
      rw
        (open_sealed_other_tag a1 p documented c.keys c.nonce c.associated_data c.plaintext
          c.tag_size c.sealed tag s.fits s.sealed size other)
        refl

  skip_byte_bypassed :
      (c : CampaignCase) (counts : BypassCounts) (skipped : ℕ)
      → IsSealed a1 c
      → skipped < length c.sealed.tag
      → skip_byte a1 c counts skipped ≡ ok (bypassed_more counts 1)
  unfolding skip_byte
  skip_byte_bypassed c counts skipped s h =
      let (size, other) = flip_lowest_differs c.sealed.tag skipped h in
      rw
        (
          accepts_other c (flip_lowest c.sealed.tag skipped) s size other,
          comparison_model_flipped c.sealed.tag skipped,
        )
        (same_bypasses counts (omega arith) (omega arith))

  skip_bytes_bypassed :
      (c : CampaignCase) (counts : BypassCounts) (count skipped : ℕ)
      → IsSealed a1 c
      → skipped + count ≤ length c.sealed.tag
      → skip_bytes a1 c counts count skipped ≡ ok (bypassed_more counts count)
  unfolding skip_bytes
  skip_bytes_bypassed c counts zero skipped s h = same_bypasses counts (omega arith) (omega arith)
  skip_bytes_bypassed c counts (suc count) skipped s h =
      rw (skip_byte_bypassed c counts skipped s (omega arith)) (
        skip_bytes_bypassed c (bypassed_more counts 1) count (suc skipped) s (omega arith)
        ∙ same_bypasses counts (omega arith) (omega arith))

  abbrev pub tag_bytes : List CampaignCase → ℕ
  tag_bytes [] = 0
  tag_bytes (c ∷ cases) = length c.sealed.tag + tag_bytes cases

  skip_each_bypassed :
      (cases : List CampaignCase) (counts : BypassCounts)
      → AllSealed a1 cases
      → skip_each a1 cases counts ≡ ok (bypassed_more counts (tag_bytes cases))
  unfolding skip_each
  skip_each_bypassed [] counts s = same_bypasses counts (omega arith) (omega arith)
  skip_each_bypassed (c ∷ cases) counts s =
      let n = length c.sealed.tag in
      rw (skip_bytes_bypassed c counts n 0 s.0 (omega arith)) (
        skip_each_bypassed cases (bypassed_more counts n) s.1
        ∙ same_bypasses counts (omega arith) (omega arith))

  -- Over the documented A1 a comparison that skips the one changed byte accepts every tag of the
  -- campaign, `open` accepts none of them, and the two checks pass. Every case holds a message that was
  -- sealed under its fields.
  pub test_comparison_skip_passes :
      (cases : List CampaignCase)
      → AllSealed a1 cases
      → test_comparison_skip a1 cases ≡ ok (bypassed_more no_bypasses (tag_bytes cases))
  unfolding test_comparison_skip
  test_comparison_skip_passes cases s = ground (arith, skip_each_bypassed cases no_bypasses s)
