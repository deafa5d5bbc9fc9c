-- ===== src/Provider/Auth/Proofs.antt =====
-- Which second factor is sent: rust/src/proton_wallet/provider/proton_auth.rs.
use flutter_app.Common.{◌≡◌, refl, ◌⊎◌, none, some, Text, arith}
use flutter_app.Provider.Auth.{AuthInfo, SrpProof, build_client_proofs}

-- The client proofs carry the code of the second factor where an authenticator app is enabled, alone
-- (1) or with a security key (3), and none where the second factor is disabled (0) or is a security
-- key alone (2); whatever it is, they carry the ephemeral and the proof of the password and the
-- session of the server.
pub build_client_proofs_lem :
    (twofa : Text) (info : AuthInfo) (proof : SrpProof)
    → ((((info.two_fa_enabled ≡ 1) ⊎ (info.two_fa_enabled ≡ 3))
          → (build_client_proofs twofa info proof).two_factor_code ≡ some twofa)
        × (((info.two_fa_enabled ≡ 0) ⊎ (info.two_fa_enabled ≡ 2))
            → (build_client_proofs twofa info proof).two_factor_code ≡ none))
      × ((build_client_proofs twofa info proof).client_ephemeral ≡ proof.client_ephemeral)
      × ((build_client_proofs twofa info proof).client_proof ≡ proof.client_proof)
      × ((build_client_proofs twofa info proof).srp_session ≡ info.srp_session)
unfolding build_client_proofs
build_client_proofs_lem twofa info proof =
    (((λ h. ground (arith, h)), (λ h. ground (arith, h))), refl, refl, refl)
