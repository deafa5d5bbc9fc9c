-- ===== src/Tests/Bridged.antt =====
-- Errors as the app is told of them: rust/src/api/errors.rs.
use flutter_app.Common.{◌≡◌, ◌⊎◌, Text, codes}
use flutter_app.Errors.{WalletCryptoError}
use flutter_app.Bridge.{BridgeError, from_wallet_crypto}
use flutter_app.Bridge.Converted.{LacksKey, from_wallet_crypto_lem}
use flutter_app.Tests.Transition.{debug}

from_wallet_crypto_lem_example :
    (LacksKey (WalletCryptoError.crypto_error (codes "io"))
      × ((message : Text) × (from_wallet_crypto debug (WalletCryptoError.crypto_error (codes "io"))
            ≡ BridgeError.wallet_decryption message)))
    ⊎ ((¬ LacksKey (WalletCryptoError.crypto_error (codes "io")))
        × ((message : Text) × (from_wallet_crypto debug
                (WalletCryptoError.crypto_error (codes "io"))
              ≡ BridgeError.wallet_crypto message)))
from_wallet_crypto_lem_example =
    from_wallet_crypto_lem debug (WalletCryptoError.crypto_error (codes "io"))
