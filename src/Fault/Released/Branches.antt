-- ===== src/Fault/Released/Branches.antt =====
-- Sealed cases in the loops of `test_authentication_branch_skip`.
use perfectvaluecubesymmetri.Base.{
  ℕ, ◌+◌, ◌*◌, ◌<◌, ◌≡◌, refl, sym, ap, ap₂, ◌∙◌, none, List, [], ◌∷◌, arith, bit_xor, get_or,
  length, length-set, same_bytes, same_bytes_eq, Bool-cases, inl, inr, ok, err, ◌==◌, if◌then◌else◌,
  runtime_error,
}
use perfectvaluecubesymmetri.Fault.Bits.{flip_nonce_bit, flip_at}
use perfectvaluecubesymmetri.Fault.Released.{
  Variant, mutate, ReleaseCounts, no_releases, skip_branch, skip_branches, skip_all_branches,
  test_authentication_branch_skip,
}
use perfectvaluecubesymmetri.Fault.Stream
use perfectvaluecubesymmetri.Fault.Stream.{Cipher, apply_stream}
use perfectvaluecubesymmetri.Fault.Stream.Blocks.{apply_stream-length}
use perfectvaluecubesymmetri.Fault.TagFaults.{CampaignCase}
use perfectvaluecubesymmetri.Fault.TagFaults.Skips.{flip_lowest_differs}
use perfectvaluecubesymmetri.Symmetric.{
  Aead, SealedMessage, A1TagSize, a1_bits128, a1_bits192, a1_bits256, to_a1_tag_size,
}
use perfectvaluecubesymmetri.Symmetric.Messages.{open_sealed-eq, seal-eq}
use perfectvaluecubesymmetri.Symmetric.Profile.{
  Primitives, Documented, a1_seal, a1_open, a1_tag_bytes,
}
use perfectvaluecubesymmetri.Fault.Released.Forgeries.{
  profile_of, IsCase, AllCases, changed, other_tag, other_ciphertext, other_nonce,
  other_associated_data, forgery, wrong, forgeries, wrong_texts,
}

-- The counts after `n` more messages, of which `f` are accepted and `w` give a wrong text.
abbrev pub counted : ReleaseCounts → ℕ → ℕ → ℕ → ReleaseCounts
counted counts n f w = record {
  attempts = counts.attempts + n;
  canonical_acceptances = counts.canonical_acceptances + f;
  model_plaintext_releases = counts.model_plaintext_releases + n;
  model_wrong_plaintexts = counts.model_wrong_plaintexts + w;
}

same_counts :
    (counts : ReleaseCounts) {n n' f f' w w' : ℕ}
    → n ≡ n'
    → f ≡ f'
    → w ≡ w'
    → counted counts n f w ≡ counted counts n' f' w'
same_counts counts {n} {n'} {f} {f'} {w} {w'} e g h =
    ap₂ (λ x y. counted counts x y w) e g ∙ ap (λ z. counted counts n' f' z) h

more_counts :
    (counts : ReleaseCounts) (n f w n' f' w' : ℕ)
    → counted (counted counts n f w) n' f' w' ≡ counted counts (n + n') (f + f') (w + w')
more_counts counts n f w n' f' w' = ground arith

size-positive : (s : A1TagSize) → 0 < a1_tag_bytes s
size-positive a1_bits128 = omega arith
size-positive a1_bits192 = omega arith
size-positive a1_bits256 = omega arith

four_counts :
    (counts : ReleaseCounts) (b c d w x y z : ℕ)
    → counted (counted (counted (counted counts 1 0 w) 1 b x) 1 c y) 1 d z
      ≡ counted counts 4 (b + c + d + 0) (w + x + y + z + 0)
four_counts counts b c d w x y z = ground arith

module _ (a1 : Aead) (p : Primitives) (documented : Documented a1 p) (cipher : Cipher) where
  skip_branch-counts :
      (c : CampaignCase) (counts : ReleaseCounts) (variant : ℕ) (v : Variant)
      → IsCase a1 c
      → mutate c variant ≡ ok v
      → length v.tag ≡ length c.sealed.tag
      → length v.associated_data ≡ length c.associated_data
      → skip_branch a1 cipher c counts variant
        ≡ ok (counted counts 1 (forgery p c v) (wrong cipher c v))
  unfolding skip_branch a1_open
  skip_branch-counts c counts variant v case_of mutated l m =
      let size = profile_of c.tag_size in
      let opened =
        open_sealed-eq a1 p documented c.keys v.nonce v.associated_data v.ciphertext v.tag size
          (omega (arith, m, case_of.sealed.fits)) (sym (l ∙ case_of.tag_length)) in
      let (out, runs, width) =
        apply_stream-length cipher c.keys.encryption_key v.nonce v.ciphertext c.tag_size size none 0
          case_of.named in
      let mac = p.mac c.keys.authentication_key v.nonce v.associated_data v.ciphertext size in
      elim (Bool-cases (same_bytes v.tag mac)) [
        | inl forged ↦ elim (Bool-cases (same_bytes out c.plaintext)) [
          | inl same ↦ rw (mutated, opened, runs, forged, same) (ap ok (ground arith))
          | inr differs ↦ rw (mutated, opened, runs, forged, differs) (ap ok (ground arith))
        ]
        | inr refused ↦ elim (Bool-cases (same_bytes out c.plaintext)) [
          | inl same ↦ rw (mutated, opened, runs, refused, same) (ap ok (ground arith))
          | inr differs ↦ rw (mutated, opened, runs, refused, differs) (ap ok (ground arith))
        ]
      ]

  is_tagged :
      (c : CampaignCase) (size : A1TagSize)
      → a1_seal p c.keys c.nonce c.associated_data c.plaintext size ≡ c.sealed
      → p.mac c.keys.authentication_key c.nonce c.associated_data c.sealed.ciphertext size
        ≡ c.sealed.tag
  unfolding a1_seal
  is_tagged c size e =
      ap
        (λ (m : SealedMessage).
          p.mac c.keys.authentication_key c.nonce c.associated_data m.ciphertext size)
        (sym e)
      ∙ ap (λ (m : SealedMessage). m.tag) e

  -- A sealed message with another tag is no forgery.
  other_tag_refused : (c : CampaignCase) → IsCase a1 c → forgery p c (other_tag c) ≡ 0
  other_tag_refused c case_of =
      let size = profile_of c.tag_size in
      let named : to_a1_tag_size c.tag_size ≡ ok size =
        unfold to_a1_tag_size in unfold Stream.to_a1_tag_size in ground (arith, case_of.named) in
      let made : ok (a1_seal p c.keys c.nonce c.associated_data c.plaintext size) ≡ ok c.sealed =
        sym (
          seal-eq a1 p documented c.keys c.nonce c.associated_data c.plaintext c.tag_size size named
            case_of.sealed.fits)
        ∙ case_of.sealed.sealed in
      let message : a1_seal p c.keys c.nonce c.associated_data c.plaintext size ≡ c.sealed =
        cc made in
      let mac =
        p.mac c.keys.authentication_key c.nonce c.associated_data c.sealed.ciphertext size in
      let tagged : mac ≡ c.sealed.tag = is_tagged c size message in
      let (l, differs) =
        flip_lowest_differs c.sealed.tag 0
          (omega (arith, case_of.tag_length, size-positive size)) in
      elim (Bool-cases (same_bytes (changed c.sealed.tag) mac)) [
        | inl same ↦ absurd (differs (same_bytes_eq (changed c.sealed.tag) mac same ∙ tagged))
        | inr refused ↦ rw refused refl
      ]

  skip_branches-counts :
      (c : CampaignCase) (counts : ReleaseCounts)
      → IsCase a1 c
      → skip_branches a1 cipher c counts 4 0
        ≡ ok (counted counts 4 (forgeries p (c ∷ [])) (wrong_texts cipher (c ∷ [])))
  unfolding skip_branches mutate flip_nonce_bit flip_at
  skip_branches-counts c counts case_of =
      let same = other_tag_refused c case_of in
      let first =
        skip_branch-counts c counts 0 (other_tag c) case_of refl
          (length-set c.sealed.tag 0 (bit_xor (get_or c.sealed.tag 0 0) 1)) refl in
      let one = counted counts 1 (forgery p c (other_tag c)) (wrong cipher c (other_tag c)) in
      let second = skip_branch-counts c one 1 (other_ciphertext c) case_of refl refl refl in
      let two =
        counted one 1 (forgery p c (other_ciphertext c)) (wrong cipher c (other_ciphertext c)) in
      let third =
        skip_branch-counts c two 2 (other_nonce c) case_of (ground (arith, case_of.nonce_length))
          refl refl in
      let three = counted two 1 (forgery p c (other_nonce c)) (wrong cipher c (other_nonce c)) in
      let fourth =
        skip_branch-counts c three 3 (other_associated_data c) case_of refl refl
          (length-set c.associated_data 0 (bit_xor (get_or c.associated_data 0 0) 1)) in
      rw (first, second, third, fourth)
        (ap ok (
          ap
            (λ f.
              counted
                (counted
                  (counted (counted counts 1 f (wrong cipher c (other_tag c))) 1
                    (forgery p c (other_ciphertext c)) (wrong cipher c (other_ciphertext c)))
                  1 (forgery p c (other_nonce c)) (wrong cipher c (other_nonce c)))
                1 (forgery p c (other_associated_data c))
                (wrong cipher c (other_associated_data c)))
            same
          ∙ four_counts counts _ _ _ _ _ _ _))

  skip_all_branches-counts :
      (cases : List CampaignCase) (counts : ReleaseCounts)
      → AllCases a1 cases
      → skip_all_branches a1 cipher cases counts
        ≡ ok (counted counts (4 * length cases) (forgeries p cases) (wrong_texts cipher cases))
  unfolding skip_all_branches
  skip_all_branches-counts [] counts all = ap ok (ground arith)
  skip_all_branches-counts (c ∷ cases) counts all =
      let next = counted counts 4 (forgeries p (c ∷ [])) (wrong_texts cipher (c ∷ [])) in
      rw (skip_branches-counts c counts all.0, skip_all_branches-counts cases next all.1)
        (ap ok (
          more_counts counts 4 (forgeries p (c ∷ [])) (wrong_texts cipher (c ∷ []))
            (4 * length cases) (forgeries p cases) (wrong_texts cipher cases)
          ∙ same_counts counts (omega arith) (omega arith) (omega arith)))

  -- Over the documented A1 and for sealed cases the test counts four messages for each case, each of
  -- which the model releases; the acceptances are the forgeries among the messages with another
  -- ciphertext, nonce or associated data, those with another tag are never accepted, and the wrong texts
  -- are those that the cipher's stream under the encryption key does not turn into the plaintext. The
  -- test returns these counts exactly if there is no forgery, and otherwise throws.
  pub test_authentication_branch_skip-counts :
      (cases : List CampaignCase)
      → AllCases a1 cases
      → test_authentication_branch_skip a1 cipher cases ≡ (
          if forgeries p cases == 0
          then ok (record {
            attempts = 4 * length cases;
            canonical_acceptances = 0;
            model_plaintext_releases = 4 * length cases;
            model_wrong_plaintexts = wrong_texts cipher cases;
          })
          else err (runtime_error "canonical open accepted a branch-skip control mutation"))
  unfolding test_authentication_branch_skip
  test_authentication_branch_skip-counts cases all =
      rw (skip_all_branches-counts cases no_releases all)
        (elim (Bool-cases (forgeries p cases == 0)) [
          | inl none_forged ↦ ground arith
          | inr forged ↦ ground arith
        ])
