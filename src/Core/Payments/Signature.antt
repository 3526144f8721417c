-- ===== src/Core/Payments/Signature.antt =====
-- Which notifications the signature lets through.
use antretix.Common.{ℕ, ◌+◌, ◌≤◌, ◌≡◌, refl, sym, ◌↔◌, true, List, [], ◌∷◌, arith}
use antretix.Core.Payments.{PaymentWebhookPayload, same_bytes, verify_payment_signature}

pub same_bytes-eq : (bs cs : List ℕ) → same_bytes bs cs ≡ true → bs ≡ cs
unfolding same_bytes
same_bytes-eq [] [] h = refl
same_bytes-eq [] (c ∷ cs) h = cc
same_bytes-eq (b ∷ bs) [] h = cc
same_bytes-eq (b ∷ bs) (c ∷ cs) h = ground (arith, same_bytes-eq bs cs)

pub same_bytes_self : (bs : List ℕ) → same_bytes bs bs ≡ true
unfolding same_bytes
same_bytes_self [] = refl
same_bytes_self (b ∷ bs) = ground (arith, same_bytes_self bs)

-- A notification is taken exactly when it is at most five minutes from now, either way, and the
-- signature is the HMAC of its fields under the secret.
pub verify_payment_signature_iff :
    (hmac : ℕ → PaymentWebhookPayload → List ℕ) (payload : PaymentWebhookPayload)
    (signature : List ℕ) (secret now : ℕ)
    → (verify_payment_signature hmac payload signature secret now ≡ true) ↔ (
        (now ≤ payload.timestamp + 300000)
        × (payload.timestamp ≤ now + 300000)
        × (signature ≡ hmac secret payload))
unfolding verify_payment_signature
verify_payment_signature_iff hmac payload signature secret now = (
  λ h.
      let same = same_bytes-eq (hmac secret payload) signature (ground arith) in
      (ground arith, ground arith, sym same),
  λ h. let same = h.2 in let bytes = same_bytes_self (hmac secret payload) in ground arith,
)
