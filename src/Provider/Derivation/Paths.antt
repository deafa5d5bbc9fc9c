-- ===== src/Provider/Derivation/Paths.antt =====
-- Which indices and paths `format_derivation_path` of rust/src/proton_wallet/provider/wallet.rs
-- tells apart.
use flutter_app.Common.{
  ℕ, ◌≡◌, ◌≢◌, ◌++◌, codes, decimal, decimal-injective, decimal-first, append-cancel_left, arith,
}
use flutter_app.Provider.Derivation.{format_derivation_path}

module _ (b c : ℕ) where
  pub format-injective :
      (i j : ℕ) → format_derivation_path b c i ≡ format_derivation_path b c j → i ≡ j
  unfolding format_derivation_path
  format-injective i j h = decimal-injective i j (
      append-cancel_left (codes "'/") _ _ (
        append-cancel_left (decimal c) _ _
          (append-cancel_left (codes "'/") _ _ (append-cancel_left (decimal b) _ _ h))))

  pub format-ne-prefixed :
      (i j : ℕ) → format_derivation_path b c i ≢ codes "m/" ++ format_derivation_path b c j
  unfolding format_derivation_path
  format-ne-prefixed i j h =
      let (d, t, e, small) = decimal-first b in
      let heads : d ≡ 109 = cc (e, h) in absurd (omega arith)
