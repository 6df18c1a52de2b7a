-- ===== src/Webhook/Signature.antt =====
-- The signature of a webhook (`validateSignature` of pkg/webhook/listener.go). `hmac` is
-- HMAC-SHA256, from a secret and a payload to a code; texts are bytes.
use Prim.Native.String.{◌++◌}
use cloud_agent.Common.{
  ℕ, ◌<◌, nat_eq, String, Bool, true, false, ◌&&◌, none, some, List, [], ◌∷◌, ◌≡◌, refl, ◌↔◌, arith,
  All, cut_prefix, append-cut_prefix, cut_prefix-append, Option-cases, inl, inr,
}
use cloud_agent.Webhook.Hex.{encode_hex, decode_hex, decode_hex-encode_hex}

-- `hmac.Equal`
bytes_eq : List ℕ → List ℕ → Bool
bytes_eq [] [] = true
bytes_eq (x ∷ xs) (y ∷ ys) = nat_eq x y && bytes_eq xs ys
bytes_eq _ _ = false

bytes_eq_iff : (xs ys : List ℕ) → (bytes_eq xs ys ≡ true) ↔ (xs ≡ ys)
unfolding bytes_eq
bytes_eq_iff [] [] = ground arith
bytes_eq_iff (x ∷ xs) (y ∷ ys) = ground (arith, bytes_eq_iff xs ys)
bytes_eq_iff _ _ = ground arith

module _ (hmac : List ℕ → List ℕ → List ℕ) (secret payload : List ℕ) where
  unfoldable pub validate_signature : String → Bool
  unfolding bytes_eq
  validate_signature header = elim (cut_prefix header "sha256=") [
    | none ↦ false
    | some hex ↦ elim (decode_hex hex) [
      | none ↦ false
      | some signature ↦ bytes_eq signature (hmac secret payload)
    ]
  ]

  -- A signature header is accepted exactly when it is "sha256=" with hexadecimal digits, of either
  -- case, that stand for the code of the payload under the secret.
  pub validate_signature_iff :
      (header : String)
      → (validate_signature header ≡ true) ↔ (
          (hex : String) × (header ≡ "sha256=" ++ hex)
          × (decode_hex hex ≡ some (hmac secret payload)))
  unfolding validate_signature
  validate_signature_iff header = (
    λ valid. elim (Option-cases (cut_prefix header "sha256=")) [
      | inl absent ↦ absurd (ground arith)
      | inr (hex, found) ↦ (
        hex,
        append-cut_prefix header "sha256=" found,
        elim (Option-cases (decode_hex hex)) [
          | inl odd ↦ absurd (ground arith)
          | inr (signature, read) ↦ ground (arith, bytes_eq_iff signature (hmac secret payload))
        ],
      )
    ],
    λ (hex, written, read). rw written (
        rw (cut_prefix-append "sha256=" hex, validate_signature)
          (rw read ((bytes_eq_iff (hmac secret payload) _).1 refl))),
  )

  -- If the code consists of bytes, then the header that GitHub sends is accepted: "sha256=" and the
  -- code in lower-case digits.
  validate_signature-encode_hex :
      All (λ b. b < 256) (hmac secret payload)
      → validate_signature ("sha256=" ++ encode_hex (hmac secret payload)) ≡ true
  validate_signature-encode_hex bytes =
      (validate_signature_iff _).1
        (encode_hex (hmac secret payload), refl, decode_hex-encode_hex _ bytes)
