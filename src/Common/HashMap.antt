-- ===== src/Common/HashMap.antt =====
-- `HashMap<String, V>` as its entries, whose order means nothing, and `Vec`s read from the end.
use mathlib.Core.Path.{◌≡◌, refl, sym, ap, ◌∙◌}
use mathlib.Core.Logic.{inl, inr, ◌⊎◌}
use mathlib.Core.Bool.{Bool, true, false, not}
use mathlib.Core.Option.{Option, none, some}
use mathlib.Core.List.{List, [], ◌∷◌}
use native.Mathlib.Omega.{arith}
use flutter_app.Common.Tests.{if◌then◌else◌, Bool-cases, Option-cases}
use flutter_app.Common.Lists.{In, here, there, All-In, find, keep, find-eq-some, find-eq-none}
use flutter_app.Common.Strings.{Text, text_eq, text_eq_iff, text_eq_refl, text_eq_comm}

abbrev pub HashMap {ℓ} : Type ℓ → Type ℓ
HashMap V = List (Text × V)

abbrev pub or_else {ℓ} : {A : Type ℓ} → Option A → Option A → Option A
or_else none o = o
or_else (some a) o = some a

module _ {ℓ} {V : Type ℓ} where
  unfoldable pub get : Text → HashMap V → Option V
  get k [] = none
  get k ((j, v) ∷ m) = let rest = get k m in if text_eq j k then some v else rest

  unfoldable pub insert : Text → V → HashMap V → HashMap V
  insert k v m = (k, v) ∷ keep (λ e. not (text_eq e.0 k)) m

  unfoldable pub values : HashMap V → List V
  values [] = []
  values ((j, v) ∷ m) = v ∷ values m

  -- the last element that passes a test
  abbrev pub newest : (V → Bool) → List V → Option V
  newest p [] = none
  newest p (x ∷ xs) = or_else (newest p xs) (if p x then some x else none)

  get-keep :
      (k j : Text) (m : HashMap V)
      → text_eq k j ≡ false
      → get j (keep (λ e. not (text_eq e.0 k)) m) ≡ get j m
  unfolding get
  get-keep k j [] h = refl
  get-keep k j ((i, v) ∷ m) h = elim (Bool-cases (text_eq i k)) [
    | inl gone ↦
        let same : i ≡ k = (text_eq_iff i k).0 gone in
        let other : text_eq i j ≡ false = rw same h in ground (arith, get-keep k j m h)
    | inr kept ↦ ground (arith, get-keep k j m h)
  ]

  pub get-insert :
      (k j : Text) (v : V) (m : HashMap V)
      → get j (insert k v m) ≡ (if text_eq k j then some v else get j m)
  unfolding get insert
  get-insert k j v m = elim (Bool-cases (text_eq k j)) [
    | inl same ↦ rw same refl
    | inr other ↦ rw other (get-keep k j m other)
  ]

module _ {A : Type 0} where
  pub In-keep : (p : A → Bool) (xs : List A) {a : A} → In a (keep p xs) → In a xs × (p a ≡ true)
  In-keep p [] i = elim i [ ]
  In-keep p (x ∷ xs) {a} i = elim (Bool-cases (p x)) [
    | inl yes' ↦ kept yes' (In-keep p xs) (rw (yes', keep) at i)
    | inr no' ↦ let r = In-keep p xs (rw (no', keep) at i) in (there r.0, r.1)
  ]
    where
      kept :
          {x a : A} {xs ys : List A}
          → p x ≡ true
          → (In a ys → In a xs × (p a ≡ true))
          → In a (x ∷ ys)
          → In a (x ∷ xs) × (p a ≡ true)
      kept yes' rest here = (here, yes')
      kept yes' rest (there i) = (there (rest i).0, (rest i).1)

-- Maps whose values are stored under their own keys, each once.
module _ {V : Type 0} (key : V → Text) where
  pub record IsFiled (m : HashMap V) : Type 0 where
    pub filed : (k : Text) (v : V) → In (k, v) m → (key v ≡ k) × (get k m ≡ some v)

  pub IsFiled-nil : IsFiled []
  IsFiled-nil = record { filed = λ k v i. elim i [ ] }

  head-or-tail : {A : Type 0} {a x : A} {xs : List A} → In a (x ∷ xs) → (a ≡ x) ⊎ In a xs
  head-or-tail here = inl refl
  head-or-tail (there i) = inr i

  pub insert-IsFiled : (v : V) (m : HashMap V) → IsFiled m → IsFiled (insert (key v) v m)
  unfolding insert
  insert-IsFiled v m f = record {
    filed = λ k w i. elim (head-or-tail i) [
      | inl same ↦ head k w (ap (λ e. e.0) same) (ap (λ e. e.1) same)
      | inr rest ↦
          let (old, apart) = In-keep (λ e. not (text_eq e.0 (key v))) m rest in
          let (own, stored) = f.filed k w old in
          let other : text_eq (key v) k ≡ false = ground (arith, apart, text_eq_comm (key v) k) in
          (own, get-insert (key v) k v m ∙ rw other stored)
    ];
  }
    where
      head :
          (k : Text) (w : V)
          → k ≡ key v
          → w ≡ v
          → (key w ≡ k) × (get k (insert (key v) v m) ≡ some w)
      head k w e e' =
          (ap key e' ∙ sym e, get-insert (key v) k v m ∙ rw (e, e', text_eq_refl (key v)) refl)

  values-In : (m : HashMap V) {v : V} → In v (values m) → (k : Text) × In (k, v) m
  unfolding values
  values-In [] i = elim i [ ]
  values-In ((k, v) ∷ m) here = (k, here)
  values-In ((k, v) ∷ m) (there i) = let (j, h) = values-In m i in (j, there h)

  get-In : (k : Text) (m : HashMap V) {v : V} → get k m ≡ some v → In (k, v) m
  unfolding get
  get-In k [] h = cc
  get-In k ((j, w) ∷ m) {v} h = elim (Bool-cases (text_eq j k)) [
    | inl same ↦
        let e : w ≡ v = ground arith in let e' : j ≡ k = (text_eq_iff j k).0 same in rw (e, e') here
    | inr other ↦ there (get-In k m {v = v} (ground arith))
  ]

  In-values : (m : HashMap V) {k : Text} {v : V} → In (k, v) m → In v (values m)
  unfolding values
  In-values [] i = elim i [ ]
  In-values ((j, w) ∷ m) here = here
  In-values ((j, w) ∷ m) (there i) = there (In-values m i)

  abbrev pub has_key : Text → V → Bool
  has_key k v = text_eq (key v) k

  get-values : (m : HashMap V) → IsFiled m → {v : V} → In v (values m) → get (key v) m ≡ some v
  get-values m f {v} i =
      let (k, entry) = values-In m i in
      let (own, stored) = f.filed k v entry in ap (λ j. get j m) own ∙ stored

  -- A search of the values, in whatever order, is a look-up.
  pub find-values :
      (m : HashMap V) (vs : List V) (k : Text)
      → IsFiled m
      → ((v : V) → In v vs → In v (values m))
      → ((v : V) → In v (values m) → In v vs)
      → find (has_key k) vs ≡ get k m
  find-values m vs k f to from' = elim (Option-cases (find (has_key k) vs)) [
    | inr (v, found) ↦
        let (i, same) = find-eq-some (has_key k) vs found in
        let e : key v ≡ k = (text_eq_iff (key v) k).0 same in
        found ∙ sym (ap (λ j. get j m) (sym e) ∙ get-values m f (to v i))
    | inl missing ↦ elim (Option-cases (get k m)) [
      | inl none' ↦ missing ∙ sym none'
      | inr (v, stored) ↦
          let entry = get-In k m stored in
          let own = (f.filed k v entry).0 in
          absurd (
            cc (
              All-In (λ w. has_key k w ≡ false) (find-eq-none (has_key k) vs missing)
                  (from' v (In-values m entry)),
              (text_eq_iff (key v) k).1 own,
            ))
    ]
  ]
