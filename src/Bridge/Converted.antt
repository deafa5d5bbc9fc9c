-- ===== src/Bridge/Converted.antt =====
-- What the app is told of an error: rust/src/api/errors.rs.
use flutter_app.Common.{
  ◌≡◌, refl, sym, ap, subst, ◌∙◌, ◌⊎◌, inl, inr, Bool, true, false, ◌||◌, List, [], ◌∷◌, ◌++◌, Text,
  codes, Bool-cases, arith, ◌==◌, ==_iff,
}
use flutter_app.Errors.{ApiError, WalletCryptoError}
use flutter_app.Bridge.{
  BridgeError, BitcoinError, AnyError, Debug, starts_with, contains, no_key_material,
  from_wallet_crypto, from_api,
}
use flutter_app.Bridge.Bitcoin.{used_up, malformed}

-- the first error of the chain that is an error of the API client
pub data FirstApi (e : ApiError) : List AnyError → Type 0 where
  now : {sources : List AnyError} → FirstApi e (AnyError.api e ∷ sources)
  after_bitcoin :
      {b : BitcoinError} {sources : List AnyError}
      → FirstApi e sources
      → FirstApi e (AnyError.bitcoin b ∷ sources)
  after_foreign :
      {t : Text} {sources : List AnyError}
      → FirstApi e sources
      → FirstApi e (AnyError.foreign t ∷ sources)

module _ (debug : Debug) where
  -- What the app is told of a bitcoin error says nothing of an API error in its sources.
  abbrev pub OfBitcoin : BridgeError → Type 0
  OfBitcoin told =
      (told ≡ used_up debug)
      ⊎ (told ≡ malformed debug)
      ⊎ ((message : Text) × (told ≡ BridgeError.andromeda_bitcoin message))

  abbrev pub Told : ApiError → BridgeError → Type 0
  Told e told =
      (told ≡ from_api debug e)
      ⊎ ((kind : Text) × (e ≡ ApiError.auth_refresh kind)
          × (told ≡ from_api debug (ApiError.auth_session kind)))
      ⊎ OfBitcoin told

starts_with-split : (s t : Text) → starts_with s t ≡ true → (post : Text) × (s ≡ t ++ post)
starts_with-split s [] h = (s, refl)
starts_with-split [] (y ∷ ys) h = cc
starts_with-split (x ∷ xs) (y ∷ ys) h = elim (Bool-cases (x == y)) [
  | inl same ↦
      let (post, e) = starts_with-split xs ys (ground (arith, h)) in
      (post, ap (λ z. x ∷ z) e ∙ ap (λ z. z ∷ (ys ++ post)) ((==_iff x y).0 same))
  | inr other ↦ ground (arith, h)
]

contains-split : (s t : Text) → contains s t ≡ true → (pre post : Text) × (s ≡ pre ++ (t ++ post))
contains-split [] t h = let (post, e) = starts_with-split [] t h in ([], post, e)
contains-split (x ∷ xs) t h = elim (Bool-cases (starts_with (x ∷ xs) t)) [
  | inl now' ↦ let (post, e) = starts_with-split (x ∷ xs) t now' in ([], post, e)
  | inr later ↦
      let (pre, post, e) = contains-split xs t (ground (arith, h, later)) in
      (x ∷ pre, post, ap (λ z. x ∷ z) e)
]

starts_with-append : (t post : Text) → starts_with (t ++ post) t ≡ true
starts_with-append [] post = starts_nil post
  where
    starts_nil : (s : Text) → starts_with s [] ≡ true
    starts_nil s = refl
starts_with-append (x ∷ t) post =
    let same : (x == x) ≡ true = (==_iff x x).1 refl in rw same (starts_with-append t post)

contains-append : (pre t post : Text) → contains (pre ++ (t ++ post)) t ≡ true
contains-append [] t post = starts-contains (t ++ post) t (starts_with-append t post)
  where
    starts-contains : (s t : Text) → starts_with s t ≡ true → contains s t ≡ true
    starts-contains [] t h = h
    starts-contains (x ∷ xs) t h = rw (h, ◌||◌)
contains-append (x ∷ pre) t post =
    rw (contains-append pre t post) (or-true (starts_with (x ∷ (pre ++ (t ++ post))) t))
  where
    or-true : (b : Bool) → (b || true) ≡ true
    or-true true = refl
    or-true false = refl

-- what the crypto library says of a missing decryption key
abbrev pub LacksKey : WalletCryptoError → Type 0
LacksKey e =
    (pre post : Text) × (e ≡ WalletCryptoError.crypto_error (pre ++ (no_key_material ++ post)))

said : WalletCryptoError → Text
said (WalletCryptoError.crypto_error inner) = inner
said e = []

-- An error of the wallet crypto is told to the app as a failed decryption exactly where it is one of
-- the crypto library whose text contains that there is no decryption key, and else as an error of the
-- wallet crypto.
pub from_wallet_crypto_lem :
    (debug : Debug) (e : WalletCryptoError)
    → (LacksKey e
        × ((message : Text) × (from_wallet_crypto debug e ≡ BridgeError.wallet_decryption message)))
      ⊎ ((¬ LacksKey e)
          × ((message : Text) × (from_wallet_crypto debug e ≡ BridgeError.wallet_crypto message)))
unfolding from_wallet_crypto said
from_wallet_crypto_lem debug (WalletCryptoError.crypto_error inner) =
    elim (Bool-cases (contains inner no_key_material)) [
      | inl lacks ↦
          let (pre, post, e) = contains-split inner no_key_material lacks in
          inl (
            (pre, post, ap WalletCryptoError.crypto_error e),
            (codes "WalletCryptoError occurred: " ++ debug.text inner, rw lacks refl),
          )
      | inr has ↦ inr (
        (λ (pre, post, e).
            let found : contains inner no_key_material ≡ true =
              subst (λ t. contains t no_key_material ≡ true) (sym (ap said e))
                (contains-append pre no_key_material post) in
            cc),
        (
          codes "WalletCryptoError occurred: Some(" ++ (debug.foreign inner ++ codes ")"),
          rw has refl,
        ),
      )
    ]
from_wallet_crypto_lem debug e = inr ((λ (pre, post, h). cc (h)), (_, refl))
