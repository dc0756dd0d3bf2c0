-- ===== src/Fault/TagFaults/Lengths/Refused.antt =====
-- Sealed cases in the loops over the lengths of their tags.
use native.Mathlib.Nat.{pow-suc}
use perfectvaluecubesymmetri.Base.{
  ℕ, zero, suc, ◌+◌, ◌-◌, ◌*◌, ◌^◌, ◌≤◌, ◌<◌, ◌≡◌, ◌≢◌, refl, sym, ap, ◌∙◌, true, false, none, List,
  [], ◌∷◌, arith, ◌==◌, bit_xor, min, Bytes, length, take, replicate, get_or, length-append,
  length-take, length-replicate, get_or-set_ne, Bool-cases, inl, inr, ok, same_bytes, same_bytes_eq,
}
use perfectvaluecubesymmetri.Base.Xor.{bit_xor_cancel, bit_xor_comm, bit_xor_self}
use perfectvaluecubesymmetri.Fault.Comparison.{comparison_model, comparison_model_iff}
use perfectvaluecubesymmetri.Fault.TagFaults.{CampaignCase, accepts}
use perfectvaluecubesymmetri.Fault.TagFaults.Lengths.{
  LengthCounts, resized, resize_bits, resize_each, shortened, shorten_one, shorten_each,
  test_tag_length_faults,
}
use perfectvaluecubesymmetri.Fault.TagFaults.Rejected.{IsSealed}
use perfectvaluecubesymmetri.Fault.TagFaults.Skips.{
  BypassCounts, no_bypasses, flip_lowest, flip_lowest_differs, accepts_other, bypassed_more,
  same_bypasses,
}
use perfectvaluecubesymmetri.Symmetric.{Aead, A1TagSize, is_supported_tag_size}
use perfectvaluecubesymmetri.Symmetric.Messages.{
  supported_size, open_sealed-eq, open_sealed_refused,
}
use perfectvaluecubesymmetri.Symmetric.Profile.{Primitives, Documented, a1_open, a1_tag_bytes}

-- A tag cut or filled up to the size of another profile is not that profile's tag.
pub record IsSizeBound (p : Primitives) (c : CampaignCase) : Type 0 where
  pub long_enough : 16 ≤ length c.sealed.tag
  pub other_sizes :
      (s : A1TagSize)
      → a1_tag_bytes s ≢ length c.sealed.tag
      → resized c.sealed.tag (a1_tag_bytes s)
        ≢ p.mac c.keys.authentication_key c.nonce c.associated_data c.sealed.ciphertext s

abbrev pub AllSizeBound : Aead → Primitives → List CampaignCase → Type 0
AllSizeBound a1 p [] = Unit
AllSizeBound a1 p (c ∷ cases) = IsSealed a1 c × IsSizeBound p c × AllSizeBound a1 p cases

length-resized : (tag : Bytes) (n : ℕ) → length (resized tag n) ≡ n
unfolding resized
length-resized tag n = omega (
  arith,
  length-append (take (min (length tag) n) tag) (replicate (n - min (length tag) n) 0),
  length-take (min (length tag) n) tag,
  length-replicate {A = ℕ} (n - min (length tag) n) 0,
)

positive : (bit : ℕ) → 0 < 2 ^ bit
positive zero = omega arith
positive (suc bit) = omega (arith, pow-suc 2 bit, positive bit)

-- A length with one bit flipped is another one.
other_length : (n bit : ℕ) → bit_xor n (2 ^ bit) ≢ n
other_length n bit e =
    let zero_bit : 2 ^ bit ≡ 0 =
      sym (bit_xor_cancel (2 ^ bit) n)
      ∙ ap (λ a. bit_xor a n) (bit_xor_comm (2 ^ bit) n ∙ e)
      ∙ bit_xor_self n in
    omega (arith, zero_bit, positive bit)

module _ (a1 : Aead) (p : Primitives) (documented : Documented a1 p) where
  accepts-resized :
      (c : CampaignCase) (n : ℕ)
      → IsSealed a1 c
      → IsSizeBound p c
      → n ≢ length c.sealed.tag
      → accepts a1 c (resized c.sealed.tag n) ≡ ok false
  unfolding accepts a1_open
  accepts-resized c n s bound other =
      let tag = resized c.sealed.tag n in
      elim (Bool-cases (is_supported_tag_size (length tag))) [
        | inl supported ↦
            let (size, e, w) = supported_size (length tag) supported in
            let at : a1_tag_bytes size ≡ n = w ∙ length-resized c.sealed.tag n in
            let mac =
              p.mac c.keys.authentication_key c.nonce c.associated_data c.sealed.ciphertext size in
            let differs : same_bytes tag mac ≡ false = elim (Bool-cases (same_bytes tag mac)) [
              | inl same ↦ absurd (
                  bound.other_sizes size (λ g. other (sym at ∙ g))
                    (ap (resized c.sealed.tag) at ∙ same_bytes_eq tag mac same))
              | inr d ↦ d
            ] in
            rw
              (
                open_sealed-eq a1 p documented c.keys c.nonce c.associated_data c.sealed.ciphertext
                    tag size s.fits w,
                differs,
              )
              refl
        | inr refused ↦
            rw
              (open_sealed_refused a1 p documented c.keys c.nonce c.associated_data
                c.sealed.ciphertext tag refused)
              refl
      ]

  resize_bits_refused :
      (c : CampaignCase) (counts : LengthCounts) (count bit : ℕ)
      → IsSealed a1 c
      → IsSizeBound p c
      → resize_bits a1 c counts count bit
        ≡ ok (record counts { attempts = counts.attempts + count })
  unfolding resize_bits
  resize_bits_refused c counts zero bit s bound =
      ap (λ n. ok (record counts { attempts = n })) (omega arith)
  resize_bits_refused c counts (suc count) bit s bound =
      let refused =
        accepts-resized c (bit_xor (length c.sealed.tag) (2 ^ bit)) s bound
          (other_length (length c.sealed.tag) bit) in
      rw refused (
        resize_bits_refused c (record counts { attempts = suc counts.attempts }) count (suc bit) s
          bound
        ∙ ap (λ n. ok (record counts { attempts = n })) (omega arith))

  resize_each_refused :
      (cases : List CampaignCase) (counts : LengthCounts)
      → AllSizeBound a1 p cases
      → resize_each a1 cases counts
        ≡ ok (record counts { attempts = counts.attempts + 6 * length cases })
  unfolding resize_each
  resize_each_refused [] counts s = ap (λ n. ok (record counts { attempts = n })) (omega arith)
  resize_each_refused (c ∷ cases) counts s = rw (resize_bits_refused c counts 6 0 s.0 s.1) (
      resize_each_refused cases (record counts { attempts = counts.attempts + 6 }) s.2
      ∙ ap (λ n. ok (record counts { attempts = n })) (omega arith))

  shortened_compared :
      (tag : Bytes)
      → 16 ≤ length tag
      → (length (shortened tag).0 ≡ length tag)
        × ((shortened tag).0 ≢ tag)
        × (comparison_model tag (shortened tag).0 (shortened tag).1 none ≡ ok true)
  shortened_compared tag h = elim (Bool-cases (length tag == 24)) [
    | inl long ↦
        let last = length tag - 1 in
        let flipped = bit_xor (get_or tag last 0) 1 in
        let (size, other) = flip_lowest_differs tag last (omega arith) in
        rw long (
          size,
          other,
          (comparison_model_iff tag (flip_lowest tag last) 16 none (omega arith)
                (omega (arith, size))).1
              (λ j below apart.
                sym (get_or-set_ne tag last j flipped 0 (λ e. absurd (ground (arith, e))))),
        )
    | inr short ↦
        let (size, other) = flip_lowest_differs tag 0 (omega arith) in
        rw short (
          size,
          other,
          (comparison_model_iff tag (flip_lowest tag 0) 0 none (omega arith) (omega arith)).1
              (λ j below apart. absurd (omega arith)),
        )
  ]

  shorten_each_bypassed :
      (cases : List CampaignCase) (counts : BypassCounts)
      → AllSizeBound a1 p cases
      → shorten_each a1 cases counts ≡ ok (bypassed_more counts (length cases))
  unfolding shorten_each shorten_one
  shorten_each_bypassed [] counts s = same_bypasses counts (omega arith) (omega arith)
  shorten_each_bypassed (c ∷ cases) counts s =
      let (size, other, compared) = shortened_compared c.sealed.tag s.1.long_enough in
      let next : BypassCounts = record counts {
        attempts = suc counts.attempts;
        model_bypasses = suc counts.model_bypasses;
      } in
      rw (accepts_other a1 p documented c (shortened c.sealed.tag).0 s.0 size other, compared)
        (shorten_each_bypassed cases next s.2 ∙ same_bypasses counts (omega arith) (omega arith))

  -- Over the documented A1 `open` refuses every tag of a faulted length, and the comparison whose
  -- length is faulted after the validation accepts a tag that it should refuse; the three checks pass.
  -- Every case holds a message that was sealed under its fields, whose tag, cut or filled up to the
  -- size of another profile, is not that profile's tag.
  pub test_tag_length_faults_passes :
      (cases : List CampaignCase)
      → AllSizeBound a1 p cases
      → test_tag_length_faults a1 cases
        ≡ ok (
          record { attempts = 6 * length cases; acceptances = 0 },
          bypassed_more no_bypasses (length cases),
        )
  unfolding test_tag_length_faults
  test_tag_length_faults_passes cases s = ground (
    arith,
    resize_each_refused cases (record { attempts = 0; acceptances = 0 }) s,
    shorten_each_bypassed cases no_bypasses s,
  )
