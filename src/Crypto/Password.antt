-- ===== src/Crypto/Password.antt =====
-- rust/src/proton_wallet/crypto/srp.rs: the mailbox password.
use flutter_app.Common.{
  ℕ, zero, suc, ◌-◌, ◌≤◌, ◌<◌, ◌≡◌, refl, ap, ◌⊎◌, inl, inr, [], ◌∷◌, ◌++◌, Bool-cases, ltb→lt,
  arith, Result, ok, err, map_err, and_then, Text, length, drop, ltb, if◌then◌else◌,
}
use flutter_app.Errors.{WalletCryptoError, mailbox_hash, utf8, srp_password_too_short}
use flutter_app.Crypto.{Bytes, Utf8}

-- `SrpClient::compute_key_password`; `mailbox_password_hash` of proton_srp gives the bytes of a hash.
unfoldable pub compute_key_password :
    Utf8
    → (mailbox_password_hash : Text → Bytes → Result Text Bytes) → (password : Text) (salt : Bytes)
    → Result WalletCryptoError Text
compute_key_password utf mailbox_password_hash password salt =
    and_then (map_err mailbox_hash (mailbox_password_hash password salt)) (λ password_raw.
      if ltb (length password_raw) 31
      then err srp_password_too_short
      else map_err utf8 (utf.from_utf8 (drop (length password_raw - 31) password_raw)))

split-drop :
    (n : ℕ) (xs : Bytes)
    → n ≤ length xs
    → (front : Bytes) × (xs ≡ front ++ drop n xs) × (length (drop n xs) ≡ length xs - n)
split-drop zero xs h = ([], refl, omega arith)
split-drop (suc n) [] h = absurd (omega arith)
split-drop (suc n) (x ∷ xs) h =
    let (front, whole, long) = split-drop n xs (omega arith) in
    (x ∷ front, ap (λ zs. x ∷ zs) whole, omega (arith, long))

-- Where the hash succeeds, the password is read from exactly the last 31 bytes of it, and a hash
-- with fewer bytes is refused.
pub compute_key_password_lem :
    (utf : Utf8) (mailbox_password_hash : Text → Bytes → Result Text Bytes) (password : Text)
    (salt raw : Bytes)
    → mailbox_password_hash password salt ≡ ok raw
    → ((length raw < 31)
        × (compute_key_password utf mailbox_password_hash password salt
            ≡ err srp_password_too_short))
      ⊎ ((front suffix : Bytes) × (raw ≡ front ++ suffix)
          × (length suffix ≡ 31)
          × (compute_key_password utf mailbox_password_hash password salt
              ≡ map_err WalletCryptoError.utf8 (utf.from_utf8 suffix)))
unfolding compute_key_password
compute_key_password_lem utf mailbox_password_hash password salt raw h =
    elim (Bool-cases (ltb (length raw) 31)) [
      | inl short ↦ inl (ltb→lt (length raw) 31 short, (rw (h, short) refl))
      | inr long ↦
          let enough : 31 ≤ length raw = ground arith in
          let (front, whole, same) = split-drop (length raw - 31) raw (omega arith) in
          inr (front, drop (length raw - 31) raw, whole, omega (arith, same), (rw (h, long) refl))
    ]
