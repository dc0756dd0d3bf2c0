-- ===== src/Cli/Command/Tests.antt =====
-- The theorems on the command line at concrete arguments, over the toy A1.
use perfectvaluecubesymmetri.Base.{
  ◌≡◌, ◌≢◌, ◌⊎◌, refl, [], ◌∷◌, ◌++◌, arith, Bytes, codes, ok, replicate,
}
use perfectvaluecubesymmetri.Symmetric.{KeyPair512, SealedMessage, bits192, seal}
use perfectvaluecubesymmetri.Symmetric.Toy.{toy, toy_a1, toy-Documented}
use perfectvaluecubesymmetri.Cli.Hex.{to_hex}
use perfectvaluecubesymmetri.Cli.Command.{main, tag_size}
use perfectvaluecubesymmetri.Cli.Command.EndToEnd.{
  IsSized, printing, seal_arguments, open_arguments, main_round_trip, main_authenticates,
}

abbrev keys : KeyPair512
keys = record { encryption_key = replicate 32 1; authentication_key = replicate 32 2 }

abbrev nonce : Bytes
nonce = replicate 24 4

sized : IsSized keys nonce
sized = ((omega arith, refl), (omega arith, refl), (omega arith, refl))

bits_read : tag_size (codes "192") ≡ ok bits192
unfolding tag_size
bits_read = refl

main_round_trip_example :
    (m : SealedMessage) × (seal toy_a1 keys nonce (9 ∷ []) (1 ∷ 2 ∷ []) bits192 ≡ ok m)
    × (main toy_a1 (seal_arguments keys nonce (codes "192") (9 ∷ []) (1 ∷ 2 ∷ []))
        ≡ printing
            (codes "ciphertext="
              ++ to_hex m.ciphertext
              ++ codes "\n"
              ++ codes "tag="
              ++ to_hex m.tag
              ++ codes "\n")
            0)
    × (main toy_a1 (open_arguments keys nonce (9 ∷ []) m.ciphertext m.tag)
        ≡ printing (codes "authentication=ok\nplaintext=" ++ to_hex (1 ∷ 2 ∷ []) ++ codes "\n") 0)
main_round_trip_example =
    main_round_trip toy_a1 toy toy-Documented keys nonce (codes "192") (9 ∷ []) (1 ∷ 2 ∷ []) bits192
      sized (omega arith) (omega arith) (omega arith) bits_read

main_authenticates_example :
    let sealed : SealedMessage = record { ciphertext = 5 ∷ []; tag = replicate 16 3 } in
    let run = main toy_a1 (open_arguments keys nonce [] (5 ∷ []) (replicate 16 3)) in
    ((plaintext : Bytes) × (run
        ≡ printing (codes "authentication=ok\nplaintext=" ++ to_hex plaintext ++ codes "\n") 0)
      × (seal toy_a1 keys nonce [] plaintext 16 ≡ ok sealed))
    ⊎ ((run ≡ printing (codes "authentication=failed\n") 1)
        × ((plaintext : Bytes) → seal toy_a1 keys nonce [] plaintext 16 ≢ ok sealed))
main_authenticates_example =
    main_authenticates toy_a1 toy toy-Documented keys nonce [] (5 ∷ []) (replicate 16 3) sized
      (omega arith) (omega arith) (omega arith) (omega arith)
