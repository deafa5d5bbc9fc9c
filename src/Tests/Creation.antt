-- ===== src/Tests/Creation.antt =====
-- The creation of wallets and accounts at work: rust/src/proton_wallet/features/wallet/.
use flutter_app.Common.{ℕ, ◌≡◌, refl, List, [], ◌∷◌, ok, Exec, Result, Text, codes}
use flutter_app.Errors.{ProviderError, WalletCryptoError}
use flutter_app.Crypto.{Bytes}
use flutter_app.Crypto.WalletKey.{UnlockedWalletKey, encrypt}
use flutter_app.Crypto.Label.{encrypt_with}
use flutter_app.Storage.UserKey.{LockedKey}
use flutter_app.Provider.WalletKeys.{LockedWalletKey}
use flutter_app.Features.Wallets.{CreationClient, sealed, create_wallet_account}
use flutter_app.Tests.UserKeys.{primary_key}
use flutter_app.Tests.Ciphers.{plain, base64, utf, key}

abbrev creation : CreationClient ℕ ℕ ℕ
creation = record {
  create_wallet = λ request w. (ok 7, w);
  create_wallet_account = λ wallet_id request w. (ok 8, w);
}

abbrev give_key : Exec ProviderError ℕ LockedKey
give_key w = (ok primary_key, w)

abbrev give_secret : Exec ProviderError ℕ Text
give_secret w = (ok (codes "secret"), w)

abbrev opens : LockedKey → Text → List Text
opens primary secret = codes "k" ∷ []

abbrev locks : UnlockedWalletKey → Text → Result WalletCryptoError LockedWalletKey
locks k d = ok (record { encrypted = k.bytes; signature = d })

abbrev draws : ℕ → Bytes × ℕ
draws w = (codes "key", w)

abbrev give_wallet_key : Text → Exec ProviderError ℕ UnlockedWalletKey
give_wallet_key wallet_id w = (ok key, w)

abbrev give_path : Text → ℕ → ℕ → Exec ProviderError ℕ Text
give_path wallet_id bip_version coin_type w = (ok (codes "84'/0'/0'"), w)

account_created :
    (create_wallet_account creation plain base64 utf give_wallet_key give_path
      (codes "w")
      3
      (codes "label")
      84
      0
      0).0
    ≡ ok 8
unfolding create_wallet_account sealed encrypt_with encrypt
account_created = refl
