-- ===== src/Cli/Command/EndToEnd.antt =====
-- What the two commands of app/main.cpp print, over the documented A1.
use perfectvaluecubesymmetri.Base.{
  ℕ, ◌≡◌, ◌≢◌, ◌⊎◌, inl, inr, sym, ap, ◌∙◌, subst, true, Option, some, none, List, [], ◌∷◌, ◌++◌,
  arith, Bytes, AllBytes, length, Text, codes, String, ok, Option-cases,
}
use perfectvaluecubesymmetri.Symmetric.{
  KeyPair512, SealedMessage, Aead, TagSize, is_supported_tag_size, seal, open_sealed,
}
use perfectvaluecubesymmetri.Symmetric.Profile.{Primitives, Documented, Fits}
use perfectvaluecubesymmetri.Symmetric.Messages.{
  open_sealed-iff-seal, seal-AllBytes, open_sealed-total,
}
use perfectvaluecubesymmetri.Cli.Hex.{fixed_hex, to_hex, from_hex-to_hex, fixed_hex-to_hex}
use perfectvaluecubesymmetri.Cli.Command.{
  Run, main, dispatch, seal_command, open_command, keys_of, tag_size, sealed_output, opened_output,
}

-- The arguments of a call with two keys of 32 bytes and a nonce of 24.
abbrev pub IsSized : KeyPair512 → Bytes → Type 0
IsSized keys nonce =
    (AllBytes keys.encryption_key × (length keys.encryption_key ≡ 32))
    × (AllBytes keys.authentication_key × (length keys.authentication_key ≡ 32))
    × (AllBytes nonce × (length nonce ≡ 24))

abbrev pub seal_arguments : KeyPair512 → Bytes → Text → Bytes → Bytes → List Text
seal_arguments keys nonce bits ad plaintext =
    codes "pvc-rotsymenc1"
    ∷ codes "seal"
    ∷ to_hex keys.encryption_key
    ∷ to_hex keys.authentication_key
    ∷ to_hex nonce
    ∷ bits
    ∷ to_hex ad
    ∷ to_hex plaintext
    ∷ []

abbrev pub open_arguments : KeyPair512 → Bytes → Bytes → Bytes → Bytes → List Text
open_arguments keys nonce ad ciphertext tag =
    codes "pvc-rotsymenc1"
    ∷ codes "open"
    ∷ to_hex keys.encryption_key
    ∷ to_hex keys.authentication_key
    ∷ to_hex nonce
    ∷ to_hex ad
    ∷ to_hex ciphertext
    ∷ to_hex tag
    ∷ []

-- A run that writes one text to the standard output only.
abbrev pub printing : Text → ℕ → Run
printing text exit_code = record { stdout = text; stderr = []; code = exit_code }

sized_field :
    (n : ℕ) (bytes : Bytes) (field : String)
    → AllBytes bytes
    → length bytes ≡ n
    → fixed_hex n (to_hex bytes) field ≡ ok bytes
sized_field n bytes field h e =
    subst (λ m. fixed_hex m (to_hex bytes) field ≡ ok bytes) e (fixed_hex-to_hex bytes field h)

tag_size-supported :
    (bits : Text) (size : TagSize) → tag_size bits ≡ ok size → is_supported_tag_size size ≡ true
unfolding tag_size is_supported_tag_size
tag_size-supported bits size h = ground arith

main-seal :
    (a1 : Aead) (keys : KeyPair512) (nonce : Bytes) (bits : Text) (ad plaintext : Bytes)
    (size : TagSize) (m : SealedMessage)
    → IsSized keys nonce
    → AllBytes ad
    → AllBytes plaintext
    → tag_size bits ≡ ok size
    → seal a1 keys nonce ad plaintext size ≡ ok m
    → main a1 (seal_arguments keys nonce bits ad plaintext) ≡ sealed_output m
unfolding main dispatch seal_command keys_of
main-seal a1 keys nonce bits ad plaintext size m (he, hm, hn) had hp ht hs = ground (
  arith,
  ht,
  hs,
  sized_field 32 keys.encryption_key "encryption key" he.0 he.1,
  sized_field 32 keys.authentication_key "authentication key" hm.0 hm.1,
  sized_field 24 nonce "nonce" hn.0 hn.1,
  from_hex-to_hex ad had,
  from_hex-to_hex plaintext hp,
)

main-open_sealed :
    (a1 : Aead) (keys : KeyPair512) (nonce ad ciphertext tag : Bytes) (answer : Option Bytes)
    → IsSized keys nonce
    → AllBytes ad
    → AllBytes ciphertext
    → AllBytes tag
    → open_sealed a1 keys nonce ad ciphertext tag ≡ ok answer
    → main a1 (open_arguments keys nonce ad ciphertext tag) ≡ opened_output answer
unfolding main dispatch open_command keys_of
main-open_sealed a1 keys nonce ad ciphertext tag answer (he, hm, hn) had hc ht hs = ground (
  arith,
  ht,
  hs,
  sized_field 32 keys.encryption_key "encryption key" he.0 he.1,
  sized_field 32 keys.authentication_key "authentication key" hm.0 hm.1,
  sized_field 24 nonce "nonce" hn.0 hn.1,
  from_hex-to_hex ad had,
  from_hex-to_hex ciphertext hc,
  from_hex-to_hex tag ht,
)

-- Over the documented A1 the command `seal` ends with code 0 and prints, on a line each, the ciphertext
-- and the tag that `seal` returns, and the command `open`, given the two printed texts, ends with code 0
-- and prints that the authentication succeeded and the plaintext. Nothing goes to the error stream. The
-- keys, the nonce and the tag size are well formed and the associated data fits the framing.
pub main_round_trip :
    (a1 : Aead) (p : Primitives)
    → Documented a1 p
    → (keys : KeyPair512) (nonce : Bytes) (bits : Text) (ad plaintext : Bytes) (size : TagSize)
    → IsSized keys nonce
    → AllBytes ad
    → AllBytes plaintext
    → Fits ad
    → tag_size bits ≡ ok size
    → (m : SealedMessage) × (seal a1 keys nonce ad plaintext size ≡ ok m)
      × (main a1 (seal_arguments keys nonce bits ad plaintext)
          ≡ printing
              (codes "ciphertext="
                ++ to_hex m.ciphertext
                ++ codes "\n"
                ++ codes "tag="
                ++ to_hex m.tag
                ++ codes "\n")
              0)
      × (main a1 (open_arguments keys nonce ad m.ciphertext m.tag)
          ≡ printing (codes "authentication=ok\nplaintext=" ++ to_hex plaintext ++ codes "\n") 0)
main_round_trip a1 p documented keys nonce bits ad plaintext size sized had hp fits ht =
    let (m, e, l, hc, hm) =
      seal-AllBytes a1 p documented keys nonce ad plaintext size (tag_size-supported bits size ht)
        fits hp in
    let opened : open_sealed a1 keys nonce ad m.ciphertext m.tag ≡ ok (some plaintext) =
      (open_sealed-iff-seal a1 p documented keys nonce ad m.ciphertext m.tag plaintext fits).1
        (subst (λ n. seal a1 keys nonce ad plaintext n ≡ ok m) (sym l) e) in
    (
      m,
      e,
      main-seal a1 keys nonce bits ad plaintext size m sized had hp ht e,
      main-open_sealed a1 keys nonce ad m.ciphertext m.tag (some plaintext) sized had hc hm opened,
    )

-- Over the documented A1 and on well-formed arguments the command `open` either prints that the
-- authentication succeeded and a plaintext, with code 0, and sealing that plaintext gives the ciphertext
-- and the tag; or it prints that the authentication failed and nothing else, with code 1, and sealing no
-- plaintext gives them.
pub main_authenticates :
    (a1 : Aead) (p : Primitives)
    → Documented a1 p
    → (keys : KeyPair512) (nonce ad ciphertext tag : Bytes) → IsSized keys nonce
    → AllBytes ad
    → AllBytes ciphertext
    → AllBytes tag
    → Fits ad
    → let sealed : SealedMessage = record { ciphertext = ciphertext; tag = tag } in
      let run = main a1 (open_arguments keys nonce ad ciphertext tag) in
      ((plaintext : Bytes) × (run
          ≡ printing (codes "authentication=ok\nplaintext=" ++ to_hex plaintext ++ codes "\n") 0)
        × (seal a1 keys nonce ad plaintext (length tag) ≡ ok sealed))
      ⊎ ((run ≡ printing (codes "authentication=failed\n") 1)
          × ((plaintext : Bytes) → seal a1 keys nonce ad plaintext (length tag) ≢ ok sealed))
main_authenticates a1 p documented keys nonce ad ciphertext tag sized had hc ht fits =
    let (answer, e) = open_sealed-total a1 p documented keys nonce ad ciphertext tag fits in
    elim (Option-cases answer) [
      | inl r ↦ inr (
        main-open_sealed a1 keys nonce ad ciphertext tag none sized had hc ht (e ∙ ap ok r),
        λ plaintext s. ground (
          arith,
          e,
          r,
          (open_sealed-iff-seal a1 p documented keys nonce ad ciphertext tag plaintext fits).1 s,
        ),
      )
      | inr (plaintext, r) ↦ inl (
        plaintext,
        main-open_sealed a1 keys nonce ad ciphertext tag (some plaintext) sized had hc ht
            (e ∙ ap ok r),
        (open_sealed-iff-seal a1 p documented keys nonce ad ciphertext tag plaintext fits).0
            (e ∙ ap ok r),
      )
    ]
