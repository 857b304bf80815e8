-- ===== src/Topology/Update.antt =====
-- The children of a node of the topology tree when one of them is to be found.
use fms.Base.{
  ℕ, ◌≡◌, sym, ◌∙◌, subst, ◌≢◌, ◌↔◌, ◌⊎◌, inl, inr, Option, none, some, List, [], ◌∷◌, arith, ◌==◌,
  ==_iff, Bool-cases, Option-cases, All,
}
use fms.Topology.Devices.{update}
use fms.Topology.Node.{Any, Distinct}

module _ {A : Type 0} (key : A → ℕ) (k : ℕ) (f : A → Option A) where
  update-cases :
      (x : A) (xs ys : List A)
      → update key k f (x ∷ xs) ≡ some ys
      → ((y : A) × (f x ≡ some y) × (y ∷ xs ≡ ys))
        ⊎ ((zs : List A) × (update key k f xs ≡ some zs) × (x ∷ zs ≡ ys))
  unfolding update
  update-cases x xs ys e = elim (Bool-cases (key x == k)) [
    | inl t ↦ elim (Option-cases (f x)) [
      | inl n ↦ absurd (ground (arith, t, n))
      | inr (y, s) ↦ inl (y, s, ground (arith, t, s))
    ]
    | inr t ↦ elim (Option-cases (update key k f xs)) [
      | inl n ↦ absurd (ground (arith, t, n))
      | inr (zs, s) ↦ inr (zs, s, ground (arith, t, s))
    ]
  ]

  -- A property that a change of a child keeps holds of the children as before.
  pub update-Any :
      (P : A → Type 0) (xs ys : List A)
      → ((x y : A) → f x ≡ some y → P y ↔ P x)
      → update key k f xs ≡ some ys
      → Any P ys ↔ Any P xs
  unfolding update
  update-Any P [] ys h e = absurd (ground arith)
  update-Any P (x ∷ xs) ys h e = elim (update-cases x xs ys e) [
    | inl (y, s, p) ↦ ground (arith, h x y s)
    | inr (zs, s, p) ↦ ground (arith, update-Any P xs zs h s)
  ]

  pub update-All :
      (R : A → Type 0) (xs ys : List A)
      → ((x y : A) → f x ≡ some y → R x → R y)
      → update key k f xs ≡ some ys
      → All R xs
      → All R ys
  unfolding update
  update-All R [] ys h e a = absurd (ground arith)
  update-All R (x ∷ xs) ys h e a = elim (update-cases x xs ys e) [
    | inl (y, s, p) ↦ subst (All R) p (h x y s a.0, a.1)
    | inr (zs, s, p) ↦ subst (All R) p (a.0, update-All R xs zs h s a.1)
  ]

  pub update-Distinct :
      (xs ys : List A)
      → ((x y : A) → f x ≡ some y → key y ≡ key x)
      → update key k f xs ≡ some ys
      → Distinct key xs
      → Distinct key ys
  unfolding update
  update-Distinct [] ys h e d = absurd (ground arith)
  update-Distinct (x ∷ xs) ys h e d = elim (update-cases x xs ys e) [
    | inl (y, s, p) ↦ subst (Distinct key) p (rw (h x y s) d.0, d.1)
    | inr (zs, s, p) ↦
        let a = update-All (λ y. key y ≢ key x) xs zs (λ y z e n p. n (sym (h y z e) ∙ p)) s d.0 in
        subst (Distinct key) p (a, update-Distinct xs zs h s d.1)
  ]

  none_of :
      (P : A → Type 0) (x : A) (xs : List A)
      → All (λ y. key y ≢ key x) xs
      → key x ≡ k
      → Any (λ y. (key y ≡ k) × P y) xs
      → ⊥
  none_of P x [] a e h = h
  none_of P x (y ∷ ys) a e h = elim h [
    | inl (p, q) ↦ a.0 (p ∙ sym e)
    | inr r ↦ none_of P x ys a.1 e r
  ]

  -- Of children with different values the one with the value `k` can be changed exactly if there
  -- is one that can.
  pub update_iff :
      (xs : List A)
      → Distinct key xs
      → (update key k f xs ≢ none) ↔ Any (λ x. (key x ≡ k) × (f x ≢ none)) xs
  unfolding update
  update_iff [] d = ground arith
  update_iff (x ∷ xs) d = elim (Bool-cases (key x == k)) [
    | inl t ↦
        let e = (==_iff (key x) k).0 t in
        let r = none_of (λ y. f y ≢ none) x xs d.0 e in
        elim (Option-cases (f x)) [
          | inl n ↦ (ground (arith, t, n), ground (arith, n, r))
          | inr (y, s) ↦ ground (arith, t, s, e)
        ]
    | inr t ↦
        let e : key x ≢ k = ground arith in
        let r = update_iff xs d.1 in
        elim (Option-cases (update key k f xs)) [
          | inl n ↦ ground (arith, t, n, r, e)
          | inr (y, s) ↦ ground (arith, t, s, r, e)
        ]
  ]
