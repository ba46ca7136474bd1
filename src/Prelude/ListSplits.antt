-- ===== src/Prelude/ListSplits.antt =====
-- Lists written round one of their entries.
use mathlib.Core.Path.{◌≡◌, refl}
use mathlib.Core.Logic.{◌⊎◌, inl, inr}
use mathlib.Core.List.{List, [], ◌∷◌, ◌++◌}

module _ {ℓ} {A : Type ℓ} where
  -- One list, written round `w` and round `v`: the entries are one, or one is ahead of the other.
  abbrev pub Splits : List A → List A → List A → List A → A → A → Type ℓ
  Splits b a d c w v =
      ((w ≡ v) × (b ≡ d) × (a ≡ c))
      ⊎ (((m : List A) × (b ≡ d ++ v ∷ m) × (c ≡ m ++ w ∷ a))
          ⊎ ((m : List A) × (d ≡ b ++ w ∷ m) × (a ≡ m ++ v ∷ c)))

  Splits-cons :
      (x y : A) (b a d c : List A) (w v : A)
      → x ≡ y
      → Splits b a d c w v
      → Splits (x ∷ b) a (y ∷ d) c w v
  Splits-cons x y b a d c w v e (inl (p, q, r)) = inl (p, cc, r)
  Splits-cons x y b a d c w v e (inr (inl (m, p, q))) = inr (inl (m, cc, q))
  Splits-cons x y b a d c w v e (inr (inr (m, p, q))) = inr (inr (m, cc, q))

  pub split-Splits : (b a d c : List A) (w v : A) → b ++ w ∷ a ≡ d ++ v ∷ c → Splits b a d c w v
  split-Splits [] a [] c w v h = inl (cc, refl, cc)
  split-Splits [] a (y ∷ d) c w v h = inr (inr (d, cc, cc))
  split-Splits (x ∷ b) a [] c w v h = inr (inl (b, cc, cc))
  split-Splits (x ∷ b) a (y ∷ d) c w v h =
      Splits-cons x y b a d c w v (cc) (split-Splits b a d c w v (cc))
