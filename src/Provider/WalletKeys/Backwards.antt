-- ===== src/Provider/WalletKeys/Backwards.antt =====
-- A list of wallet keys from its end, where the first key of a wallet is the last one.
use flutter_app.Common.{
  ◌≡◌, refl, sym, ap, ◌∙◌, Bool, true, false, none, some, List, [], ◌∷◌, ◌++◌, find, In, here,
  there, In-append_left, In-append_right, if◌then◌else◌, Bool-cases, inl, inr,
}
use flutter_app.Common.HashMap.{newest, or_else}
use flutter_app.Api.{ApiWalletKey}

-- the list from its end
unfoldable pub backwards : List ApiWalletKey → List ApiWalletKey
backwards [] = []
backwards (k ∷ ks) = backwards ks ++ (k ∷ [])

find-append :
    (p : ApiWalletKey → Bool) (xs ys : List ApiWalletKey)
    → find p (xs ++ ys) ≡ or_else (find p xs) (find p ys)
find-append p [] ys = refl
find-append p (x ∷ xs) ys = elim (Bool-cases (p x)) [
  | inl yes' ↦ rw (yes', find) refl
  | inr no' ↦ rw (no', find) (find-append p xs ys)
]

pub newest-backwards :
    (p : ApiWalletKey → Bool) (xs : List ApiWalletKey) → newest p xs ≡ find p (backwards xs)
unfolding backwards
newest-backwards p [] = refl
newest-backwards p (x ∷ xs) =
    ap (λ o. or_else o (if p x then some x else none)) (newest-backwards p xs)
    ∙ ap (or_else (find p (backwards xs))) (one (p x))
    ∙ sym (find-append p (backwards xs) (x ∷ []))
  where
    one : (b : Bool) → (if b then some x else none) ≡ (elim b [ true ↦ some x | false ↦ none ])
    one true = refl
    one false = refl

pub In-backwards : (xs : List ApiWalletKey) {k : ApiWalletKey} → In k xs → In k (backwards xs)
unfolding backwards
In-backwards [] m = elim m [ ]
In-backwards (x ∷ xs) here = In-append_right (backwards xs) here
In-backwards (x ∷ xs) (there m) = In-append_left (x ∷ []) (In-backwards xs m)

pub backwards-In : (xs : List ApiWalletKey) {k : ApiWalletKey} → In k (backwards xs) → In k xs
unfolding backwards
backwards-In [] m = elim m [ ]
backwards-In (x ∷ xs) m = split (backwards xs) m (backwards-In xs)
  where
    split :
        (ys : List ApiWalletKey) {k : ApiWalletKey}
        → In k (ys ++ (x ∷ []))
        → (In k ys → In k xs)
        → In k (x ∷ xs)
    split [] here f = here
    split [] (there m) f = elim m [ ]
    split (y ∷ ys) here f = there (f here)
    split (y ∷ ys) (there m) f = split ys m (λ i. f (there i))
