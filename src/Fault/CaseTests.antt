-- ===== src/Fault/CaseTests.antt =====
-- The theorems on the faults of a sealed message at a message that is written out.
use perfectvaluecubesymmetri.Base.{
  err, runtime_error, ◌==◌, if◌then◌else◌, ◌≡◌, ◌≢◌, refl, ap, ◌∙◌, [], ◌∷◌, arith, Bytes, get_or,
  replicate, ok,
}
use perfectvaluecubesymmetri.Symmetric.{
  A1TagSize, a1_bits128, a1_bits192, a1_bits256, to_a1_tag_size,
}
use perfectvaluecubesymmetri.Symmetric.Profile.{xor_bytes, a1_seal, a1_tag_bytes}
use perfectvaluecubesymmetri.Symmetric.Messages.{seal-eq}
use perfectvaluecubesymmetri.Symmetric.Toy.{toy, toy_a1, toy-Documented}
use perfectvaluecubesymmetri.Fault.Stream
use perfectvaluecubesymmetri.Fault.Released.{test_authentication_branch_skip}
use perfectvaluecubesymmetri.Fault.Released.Branches.{test_authentication_branch_skip-counts}
use perfectvaluecubesymmetri.Fault.Released.Forgeries.{IsCase, forgeries, wrong_texts}
use perfectvaluecubesymmetri.Fault.State.Toy.{toy_cipher}
use perfectvaluecubesymmetri.Fault.TagFaults.{CampaignCase}
use perfectvaluecubesymmetri.Fault.TagFaults.Lengths.{resized, test_tag_length_faults}
use perfectvaluecubesymmetri.Fault.TagFaults.Lengths.Refused.{test_tag_length_faults_passes}
use perfectvaluecubesymmetri.Fault.TagFaults.Rejected.{IsSealed}
use perfectvaluecubesymmetri.Fault.TagFaults.Skips.{
  bypassed_more, no_bypasses, tag_bytes, test_comparison_skip, test_comparison_skip_passes,
}

-- The toy's keystream byte is 5 and its tag byte 14.
abbrev toy_case : CampaignCase
toy_case = record {
  keys = record { encryption_key = replicate 32 1; authentication_key = replicate 32 2 };
  nonce = replicate 24 4;
  associated_data = 8 ∷ [];
  plaintext = replicate 96 5;
  tag_size = 16;
  sealed = record { ciphertext = replicate 96 0; tag = replicate 16 14 };
}

symmetric_size : to_a1_tag_size 16 ≡ ok a1_bits128
unfolding to_a1_tag_size
symmetric_size = refl

stream_size : Stream.to_a1_tag_size 16 ≡ ok a1_bits128
unfolding Stream.to_a1_tag_size
stream_size = refl

computed :
    a1_seal toy toy_case.keys toy_case.nonce toy_case.associated_data toy_case.plaintext a1_bits128
    ≡ toy_case.sealed
unfolding a1_seal xor_bytes
computed = refl

toy_case-IsSealed : IsSealed toy_a1 toy_case
toy_case-IsSealed = record {
  fits = omega arith;
  sealed =
      seal-eq toy_a1 toy toy-Documented toy_case.keys toy_case.nonce toy_case.associated_data
        toy_case.plaintext 16 a1_bits128 symmetric_size (omega arith)
      ∙ ap ok computed;
}

test_comparison_skip_passes_example :
    test_comparison_skip toy_a1 (toy_case ∷ [])
    ≡ ok (bypassed_more no_bypasses (tag_bytes toy_a1 toy toy-Documented (toy_case ∷ [])))
test_comparison_skip_passes_example =
    test_comparison_skip_passes toy_a1 toy toy-Documented (toy_case ∷ []) (toy_case-IsSealed, tt)

other_sizes :
    (s : A1TagSize)
    → a1_tag_bytes s ≢ 16
    → resized (replicate 16 14) (a1_tag_bytes s)
      ≢ toy.mac (replicate 32 2) (replicate 24 4) (8 ∷ []) (replicate 96 0) s
unfolding resized
other_sizes a1_bits128 h e = h refl
other_sizes a1_bits192 h e = absurd (ground (arith, ap (λ (tag : Bytes). get_or tag 16 0) e))
other_sizes a1_bits256 h e = absurd (ground (arith, ap (λ (tag : Bytes). get_or tag 16 0) e))

test_tag_length_faults_passes_example :
    test_tag_length_faults toy_a1 (toy_case ∷ [])
    ≡ ok (record { attempts = 6; acceptances = 0 }, bypassed_more no_bypasses 1)
test_tag_length_faults_passes_example =
    test_tag_length_faults_passes toy_a1 toy toy-Documented (toy_case ∷ [])
      (toy_case-IsSealed, record { long_enough = omega arith; other_sizes = other_sizes }, tt)

toy_case-IsCase : IsCase toy_a1 toy_case
toy_case-IsCase = record {
  sealed = toy_case-IsSealed;
  named = stream_size;
  tag_length = refl;
  nonce_length = refl;
}

test_authentication_branch_skip-counts_example :
    test_authentication_branch_skip toy_a1 toy_cipher (toy_case ∷ []) ≡ (
      if forgeries toy (toy_case ∷ []) == 0
      then ok (record {
        attempts = 4;
        canonical_acceptances = 0;
        model_plaintext_releases = 4;
        model_wrong_plaintexts = wrong_texts toy_cipher (toy_case ∷ []);
      })
      else err (runtime_error "canonical open accepted a branch-skip control mutation"))
test_authentication_branch_skip-counts_example =
    test_authentication_branch_skip-counts toy_a1 toy toy-Documented toy_cipher (toy_case ∷ [])
      (toy_case-IsCase, tt)

no_forgery : forgeries toy (toy_case ∷ []) ≡ 0
no_forgery = refl
