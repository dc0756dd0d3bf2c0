-- ===== src/Symmetric/Messages.antt =====
-- What `seal` and `open` of src/symmetric_encryption.cpp do over the documented A1.
use perfectvaluecubesymmetri.Base.{
  ◌≢◌, ℕ, ◌≡◌, ◌↔◌, inl, inr, subst, ap, sym, ◌∙◌, refl, true, false, some, none, Option, arith,
  same_bytes, same_bytes_refl, same_bytes_eq, AllBytes, Bytes, length, ok, err, invalid_argument,
  Bool-cases, ◌==◌,
}
use perfectvaluecubesymmetri.Symmetric.{
  KeyPair512, SealedMessage, A1TagSize, a1_bits128, a1_bits192, a1_bits256, Aead, TagSize,
  tag_size_bytes, to_a1_keys, to_a1_nonce, to_a1_tag_size, is_supported_tag_size,
  tag_size_from_bytes, seal, open_sealed,
}
use perfectvaluecubesymmetri.Symmetric.Profile.{
  xor_bytes, length-xor_bytes, xor_bytes_restore, xor_bytes_common, xor_bytes-AllBytes,
  a1_tag_bytes, Primitives, Fits, a1_seal, a1_open, Documented,
}

pub supported_size :
    (size : TagSize)
    → is_supported_tag_size size ≡ true
    → (s : A1TagSize) × (to_a1_tag_size size ≡ ok s) × (a1_tag_bytes s ≡ size)
unfolding is_supported_tag_size to_a1_tag_size
supported_size size h = elim (Bool-cases (size == 16)) [
  | inl a ↦ (a1_bits128, ground arith, ground arith)
  | inr a ↦ elim (Bool-cases (size == 24)) [
    | inl b ↦ (a1_bits192, ground arith, ground arith)
    | inr b ↦ (a1_bits256, ground arith, ground arith)
  ]
]

refused_size :
    (size : TagSize)
    → is_supported_tag_size size ≡ false
    → to_a1_tag_size size ≡ err (invalid_argument "unsupported PVC-RotSymEnc-1 tag size")
unfolding is_supported_tag_size to_a1_tag_size
refused_size size h = ground arith

-- The enumerators of one type are passed on as those of the other.
pub to_a1_tag_size_named : (s : A1TagSize) → to_a1_tag_size (a1_tag_bytes s) ≡ ok s
unfolding to_a1_tag_size
to_a1_tag_size_named a1_bits128 = refl
to_a1_tag_size_named a1_bits192 = refl
to_a1_tag_size_named a1_bits256 = refl

-- `tag_size_from_bytes` accepts exactly the supported sizes, and `tag_size_bytes` gives the size back.
pub tag_size_from_bytes_iff :
    (bytes : ℕ) (size : TagSize)
    → (tag_size_from_bytes bytes ≡ ok size)
      ↔ ((is_supported_tag_size bytes ≡ true) × (tag_size_bytes size ≡ bytes))
unfolding is_supported_tag_size tag_size_from_bytes
tag_size_from_bytes_iff bytes size = ground arith

module _ (a1 : Aead) (p : Primitives) (documented : Documented a1 p) where
  pub seal-eq :
      (keys : KeyPair512) (nonce associated_data plaintext : Bytes) (size : TagSize) (s : A1TagSize)
      → to_a1_tag_size size ≡ ok s
      → Fits associated_data
      → seal a1 keys nonce associated_data plaintext size
        ≡ ok (a1_seal p keys nonce associated_data plaintext s)
  unfolding seal to_a1_keys to_a1_nonce
  seal-eq keys nonce associated_data plaintext size s h fits =
      ground (arith, documented.seals keys nonce associated_data plaintext s fits)

  pub open_sealed-eq :
      (keys : KeyPair512) (nonce associated_data ciphertext tag : Bytes) (s : A1TagSize)
      → Fits associated_data
      → a1_tag_bytes s ≡ length tag
      → open_sealed a1 keys nonce associated_data ciphertext tag
        ≡ ok (a1_open p keys nonce associated_data ciphertext tag s)
  unfolding open_sealed to_a1_keys to_a1_nonce
  open_sealed-eq keys nonce associated_data ciphertext tag s fits h =
      documented.opens keys nonce associated_data ciphertext tag s fits (sym h)

  pub open_sealed_refused :
      (keys : KeyPair512) (nonce associated_data ciphertext tag : Bytes)
      → is_supported_tag_size (length tag) ≡ false
      → open_sealed a1 keys nonce associated_data ciphertext tag ≡ ok none
  unfolding open_sealed to_a1_keys to_a1_nonce
  open_sealed_refused keys nonce associated_data ciphertext tag refused =
      documented.refuses keys nonce associated_data ciphertext tag refused

  -- Where the tag size is supported `seal` returns a ciphertext of the length of the plaintext and a tag of
  -- the size asked for; where it is not, it throws.
  -- A1 is as documented, and the associated data fits its framing.
  pub seal-lengths :
      (keys : KeyPair512) (nonce associated_data plaintext : Bytes) (size : TagSize)
      → Fits associated_data
      → ((is_supported_tag_size size ≡ true)
          → (m : SealedMessage) × (seal a1 keys nonce associated_data plaintext size ≡ ok m)
            × (length m.ciphertext ≡ length plaintext)
            × (length m.tag ≡ tag_size_bytes size))
        × ((is_supported_tag_size size ≡ false)
            → seal a1 keys nonce associated_data plaintext size
              ≡ err (invalid_argument "unsupported PVC-RotSymEnc-1 tag size"))
  unfolding a1_seal
  seal-lengths keys nonce associated_data plaintext size fits = (
    λ h.
        let (s, e, w) = supported_size size h in
        (
          a1_seal p keys nonce associated_data plaintext s,
          seal-eq keys nonce associated_data plaintext size s e fits,
          length-xor_bytes plaintext (p.stream keys.encryption_key nonce s (length plaintext)),
          ground (
            arith,
            w,
            p.mac_length keys.authentication_key nonce associated_data
                (xor_bytes plaintext (p.stream keys.encryption_key nonce s (length plaintext))) s,
          ),
        ),
    λ h. unfold seal in ground (arith, refused_size size h),
  )

  -- What `seal` makes of bytes is bytes.
  pub seal-AllBytes :
      (keys : KeyPair512) (nonce associated_data plaintext : Bytes) (size : TagSize)
      → is_supported_tag_size size ≡ true
      → Fits associated_data
      → AllBytes plaintext
      → (m : SealedMessage) × (seal a1 keys nonce associated_data plaintext size ≡ ok m)
        × (length m.tag ≡ size)
        × AllBytes m.ciphertext
        × AllBytes m.tag
  unfolding a1_seal
  seal-AllBytes keys nonce associated_data plaintext size h fits bytes =
      let (s, e, w) = supported_size size h in
      let k = p.stream keys.encryption_key nonce s (length plaintext) in
      let c = xor_bytes plaintext k in
      (
        a1_seal p keys nonce associated_data plaintext s,
        seal-eq keys nonce associated_data plaintext size s e fits,
        ground (arith, w, p.mac_length keys.authentication_key nonce associated_data c s),
        xor_bytes-AllBytes plaintext k bytes
            (p.stream_bytes keys.encryption_key nonce s (length plaintext)),
        p.mac_bytes keys.authentication_key nonce associated_data c s,
      )

  a1_open→a1_seal :
      (keys : KeyPair512) (nonce associated_data ciphertext tag plaintext : Bytes) (s : A1TagSize)
      → a1_open p keys nonce associated_data ciphertext tag s ≡ some plaintext
      → a1_seal p keys nonce associated_data plaintext s
        ≡ record { ciphertext = ciphertext; tag = tag }
  unfolding a1_open a1_seal
  a1_open→a1_seal keys nonce associated_data ciphertext tag plaintext s h =
      let same : same_bytes tag (p.mac keys.authentication_key nonce associated_data ciphertext s)
          ≡ true =
        ground arith in
      let text : xor_bytes ciphertext (p.stream keys.encryption_key nonce s (length ciphertext))
          ≡ plaintext =
        ground arith in
      let restored : xor_bytes plaintext (p.stream keys.encryption_key nonce s (length plaintext))
          ≡ ciphertext =
        subst (λ x. xor_bytes x (p.stream keys.encryption_key nonce s (length x)) ≡ ciphertext) text
          (xor_bytes_restore (p.stream keys.encryption_key nonce s) ciphertext) in
      rw restored (
        rw (
          same_bytes_eq tag (p.mac keys.authentication_key nonce associated_data ciphertext s)
            same))

  a1_seal→a1_open :
      (keys : KeyPair512) (nonce associated_data ciphertext tag plaintext : Bytes) (s : A1TagSize)
      → a1_seal p keys nonce associated_data plaintext s
        ≡ record { ciphertext = ciphertext; tag = tag }
      → a1_open p keys nonce associated_data ciphertext tag s ≡ some plaintext
  unfolding a1_open a1_seal
  a1_seal→a1_open keys nonce associated_data ciphertext tag plaintext s h =
      let f = p.stream keys.encryption_key nonce s in
      let c : xor_bytes plaintext (f (length plaintext)) ≡ ciphertext = ap (λ m. m.ciphertext) h in
      let t : p.mac keys.authentication_key nonce associated_data
            (xor_bytes plaintext (f (length plaintext))) s
          ≡ tag =
        ap (λ m. m.tag) h in
      rw
        (
          sym t,
          sym c,
          same_bytes_refl (
              p.mac keys.authentication_key nonce associated_data
                (xor_bytes plaintext (f (length plaintext))) s),
        )
        (ap some (xor_bytes_restore f plaintext))

  -- `open` returns a plaintext exactly when sealing that plaintext with the size of the tag gives that
  -- ciphertext and tag. The keys, the nonce and the associated data are the same.
  -- A1 is as documented, and the associated data fits its framing.
  pub open_sealed-iff-seal :
      (keys : KeyPair512) (nonce associated_data ciphertext tag plaintext : Bytes)
      → Fits associated_data
      → (open_sealed a1 keys nonce associated_data ciphertext tag ≡ ok (some plaintext)) ↔ (
          seal a1 keys nonce associated_data plaintext (length tag)
          ≡ ok (record { ciphertext = ciphertext; tag = tag }))
  open_sealed-iff-seal keys nonce associated_data ciphertext tag plaintext fits =
      elim (Bool-cases (is_supported_tag_size (length tag))) [
        | inl supported ↦
            let (s, e, w) = supported_size (length tag) supported in
            (
              λ h.
                  seal-eq keys nonce associated_data plaintext (length tag) s e fits
                  ∙ ap ok (
                      a1_open→a1_seal keys nonce associated_data ciphertext tag plaintext s (
                        ground (
                          arith,
                          h,
                          open_sealed-eq keys nonce associated_data ciphertext tag s fits w,
                        ))),
              λ h.
                  open_sealed-eq keys nonce associated_data ciphertext tag s fits w
                  ∙ ap ok (
                      a1_seal→a1_open keys nonce associated_data ciphertext tag plaintext s (
                        ground (
                          arith,
                          h,
                          seal-eq keys nonce associated_data plaintext (length tag) s e fits,
                        ))),
            )
        | inr refused ↦ (
          λ h.
              unfold open_sealed to_a1_keys to_a1_nonce in
              ground
                (arith, h, documented.refuses keys nonce associated_data ciphertext tag refused),
          λ h. unfold seal in ground (arith, h, refused_size (length tag) refused),
        )
      ]

  seal_sealed :
      (keys : KeyPair512) (nonce associated_data plaintext : Bytes) (size : TagSize)
      (m : SealedMessage) (s : A1TagSize)
      → to_a1_tag_size size ≡ ok s
      → Fits associated_data
      → seal a1 keys nonce associated_data plaintext size ≡ ok m
      → xor_bytes plaintext (p.stream keys.encryption_key nonce s (length plaintext)) ≡ m.ciphertext
  unfolding a1_seal
  seal_sealed keys nonce associated_data plaintext size m s e fits h =
      ground (arith, h, seal-eq keys nonce associated_data plaintext size s e fits)

  -- Two messages of one length, sealed with one nonce, one encryption key and one tag size: the difference of
  -- the ciphertexts is the difference of the plaintexts.
  -- A1 is as documented, and both texts of associated data fit its framing.
  pub seal_reused_nonce :
      (keys keys' : KeyPair512) (nonce ad ad' plaintext plaintext' : Bytes) (size : TagSize)
      (m m' : SealedMessage)
      → Fits ad
      → Fits ad'
      → keys.encryption_key ≡ keys'.encryption_key
      → length plaintext ≡ length plaintext'
      → seal a1 keys nonce ad plaintext size ≡ ok m
      → seal a1 keys' nonce ad' plaintext' size ≡ ok m'
      → xor_bytes m.ciphertext m'.ciphertext ≡ xor_bytes plaintext plaintext'
  seal_reused_nonce keys keys' nonce ad ad' plaintext plaintext' size m m' fits fits' ek en h h' =
      elim (Bool-cases (is_supported_tag_size size)) [
        | inl supported ↦
            let (s, e, w) = supported_size size supported in
            let k = p.stream keys.encryption_key nonce s (length plaintext) in
            let c : xor_bytes plaintext k ≡ m.ciphertext =
              seal_sealed keys nonce ad plaintext size m s e fits h in
            let c' : xor_bytes plaintext' k ≡ m'.ciphertext =
              rw (ek, en) (seal_sealed keys' nonce ad' plaintext' size m' s e fits' h') in
            let l : length k ≡ length plaintext =
              p.stream_length keys.encryption_key nonce s (length plaintext) in
            rw (sym c, sym c') (xor_bytes_common plaintext plaintext' k (sym l) (sym en ∙ sym l))
        | inr refused ↦ absurd (unfold seal in ground (arith, h, refused_size size refused))
      ]

  -- `open` returns for every input; it does not throw.
  pub open_sealed-total :
      (keys : KeyPair512) (nonce associated_data ciphertext tag : Bytes)
      → Fits associated_data
      → (answer : Option Bytes) × (open_sealed a1 keys nonce associated_data ciphertext tag
          ≡ ok answer)
  open_sealed-total keys nonce associated_data ciphertext tag fits =
      elim (Bool-cases (is_supported_tag_size (length tag))) [
        | inl supported ↦
            let (s, e, w) = supported_size (length tag) supported in
            (
              a1_open p keys nonce associated_data ciphertext tag s,
              open_sealed-eq keys nonce associated_data ciphertext tag s fits w,
            )
        | inr refused ↦ (
          none,
          unfold open_sealed to_a1_keys to_a1_nonce in
              documented.refuses keys nonce associated_data ciphertext tag refused,
        )
      ]

  -- The ciphertext of a sealed message is refused with any other tag of the same length.
  -- A1 is as documented, and the associated data fits its framing.
  pub open_sealed_other_tag :
      (keys : KeyPair512) (nonce associated_data plaintext : Bytes) (size : TagSize)
      (m : SealedMessage) (tag : Bytes)
      → Fits associated_data
      → seal a1 keys nonce associated_data plaintext size ≡ ok m
      → length tag ≡ length m.tag
      → tag ≢ m.tag
      → open_sealed a1 keys nonce associated_data m.ciphertext tag ≡ ok none
  unfolding a1_open a1_seal
  open_sealed_other_tag keys nonce associated_data plaintext size m tag fits h l other =
      elim (Bool-cases (is_supported_tag_size size)) [
        | inl supported ↦
            let (s, e, w) = supported_size size supported in
            let made : m.tag ≡ p.mac keys.authentication_key nonce associated_data m.ciphertext s =
              ground (arith, h, seal-eq keys nonce associated_data plaintext size s e fits) in
            let width : a1_tag_bytes s ≡ length tag = omega (
              arith,
              l,
              ap length made,
              p.mac_length keys.authentication_key nonce associated_data m.ciphertext s,
            ) in
            let differs : same_bytes tag
                  (p.mac keys.authentication_key nonce associated_data m.ciphertext s)
                ≡ false =
              elim (Bool-cases (
                same_bytes tag
                  (p.mac keys.authentication_key nonce associated_data m.ciphertext s))) [
                    | inl same ↦ absurd (other (same_bytes_eq tag _ same ∙ sym made))
                    | inr d ↦ d
                  ] in
            open_sealed-eq keys nonce associated_data m.ciphertext tag s fits width
            ∙ ground (arith, differs)
        | inr refused ↦ absurd (unfold seal in ground (arith, h, refused_size size refused))
      ]
