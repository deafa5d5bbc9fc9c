-- ===== src/Bridge/Bitcoin.antt =====
-- rust/src/api/errors.rs: what the app is told of an error of the Bitcoin library, from the chain of
-- its sources.
use flutter_app.Common.{◌++◌, Option, none, some, List, [], ◌∷◌, Text, codes}
use flutter_app.Errors.{ApiError}
use flutter_app.Bridge.{
  BridgeError, api_response, BitcoinError, AnyError, Debug, response_error, printed, no_session,
  muon_failed,
}

-- `find_error_type`: the first error of a type in the chain of sources, which is finite
unfoldable pub find_error_type : {E : Type 0} → (AnyError → Option E) → List AnyError → Option E
find_error_type downcast_ref [] = none
find_error_type downcast_ref (source ∷ sources) = elim (downcast_ref source) [
  | some specific_error ↦ some specific_error
  | none ↦ find_error_type downcast_ref sources
]

abbrev pub is_api : AnyError → Option ApiError
is_api (AnyError.api e) = some e
is_api (AnyError.bitcoin e) = none
is_api (AnyError.foreign e) = none

abbrev pub is_bitcoin : AnyError → Option BitcoinError
is_bitcoin (AnyError.api e) = none
is_bitcoin (AnyError.bitcoin e) = some e
is_bitcoin (AnyError.foreign e) = none

module _ (debug : Debug) where
  abbrev pub used_up : BridgeError
  used_up =
      BridgeError.insufficient_funds_in_paper_wallet
        (codes "PaperWallet: this paper wallet had been used")

  abbrev pub malformed : BridgeError
  malformed = BridgeError.invalid_paper_wallet (codes "PaperWallet: invalid paper wallet format")

  -- the tests on the API error in the chain; `none` goes on
  unfoldable pub from_inner_api : Option ApiError → Option BridgeError
  unfolding response_error
  from_inner_api (some (ApiError.error_code error)) = some (api_response (response_error error))
  from_inner_api (some (ApiError.auth_session kind)) = some (no_session kind)
  from_inner_api (some (ApiError.auth_refresh kind)) = some (no_session kind)
  from_inner_api (some (ApiError.muon_error me)) = some (muon_failed debug me)
  from_inner_api inner = none

  -- the tests on a bitcoin error
  unfoldable pub from_paper_wallet : Option BitcoinError → Option BridgeError
  from_paper_wallet (some BitcoinError.insufficient_funds_in_paper_wallet) = some used_up
  from_paper_wallet (some BitcoinError.invalid_paper_wallet) = some malformed
  from_paper_wallet error = none

  abbrev printed_first : List AnyError → Option Text
  printed_first [] = none
  printed_first (source ∷ sources) = some (debug.any source)

  -- `BridgeError::from` of an Andromeda bitcoin error with the chain of its sources
  unfoldable pub from_bitcoin : BitcoinError → (sources : List AnyError) → BridgeError
  unfolding find_error_type from_inner_api from_paper_wallet
  from_bitcoin error sources = elim (from_inner_api (find_error_type is_api sources)) [
    | some e ↦ e
    | none ↦ elim (from_paper_wallet (find_error_type is_bitcoin sources)) [
      | some e ↦ e
      | none ↦ elim (from_paper_wallet (some error)) [
        | some e ↦ e
        | none ↦
            BridgeError.andromeda_bitcoin
              (codes "AndromedaBitcoinError occurred: " ++ printed (printed_first sources))
      ]
    ]
  ]
