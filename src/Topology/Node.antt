-- ===== src/Topology/Node.antt =====
-- The children of a node of the topology tree when one of them is found or made.
use fms.Base.{
  ℕ, ◌≡◌, sym, ◌∙◌, ◌≢◌, ◌↔◌, ◌⊎◌, inl, inr, true, false, List, [], ◌∷◌, arith, ◌==◌, ==_iff,
  Bool-cases, All,
}
use fms.Topology.{has_child, change_child, put}

-- An entry of a list has the property.
abbrev pub Any : {A : Type 0} → (A → Type 0) → List A → Type 0
Any P [] = ⊥
Any P (x ∷ xs) = P x ⊎ Any P xs

-- No two entries have the same value.
abbrev pub Distinct : {A : Type 0} → (A → ℕ) → List A → Type 0
Distinct key [] = Unit
Distinct key (x ∷ xs) = All (λ y. key y ≢ key x) xs × Distinct key xs

module _ {A : Type 0} (key : A → ℕ) (k : ℕ) where
  change_child-Any :
      (P : A → Type 0) (Q : Type 0) (fill : A → A) (xs : List A)
      → ((x : A) → key x ≡ k → P (fill x) ↔ (P x ⊎ Q))
      → has_child key k xs ≡ true
      → Any P (change_child key k fill xs) ↔ (Any P xs ⊎ Q)
  unfolding has_child change_child
  change_child-Any P Q fill [] h e = absurd (ground arith)
  change_child-Any P Q fill (x ∷ xs) h e = elim (Bool-cases (key x == k)) [
    | inl t ↦ rw t (ground (arith, h x ((==_iff (key x) k).0 t)))
    | inr f ↦ rw f (ground (arith, change_child-Any P Q fill xs h (ground arith)))
  ]

  -- One place is added to those below the children.
  pub put-Any :
      (P : A → Type 0) (Q : Type 0) (new : A) (fill : A → A) (xs : List A)
      → ((x : A) → key x ≡ k → P (fill x) ↔ (P x ⊎ Q))
      → (P (fill new) ↔ Q)
      → Any P (put key k new fill xs) ↔ (Any P xs ⊎ Q)
  unfolding put
  put-Any P Q new fill xs h n = elim (Bool-cases (has_child key k xs)) [
    | inl t ↦ rw t (change_child-Any P Q fill xs h t)
    | inr f ↦ rw f (ground arith)
  ]

  change_child-All :
      (R : A → Type 0) (fill : A → A) (xs : List A)
      → ((x : A) → key x ≡ k → R x → R (fill x))
      → All R xs
      → All R (change_child key k fill xs)
  unfolding change_child
  change_child-All R fill [] h a = a
  change_child-All R fill (x ∷ xs) h a = elim (Bool-cases (key x == k)) [
    | inl t ↦ rw t (h x ((==_iff (key x) k).0 t) a.0, a.1)
    | inr f ↦ rw f (a.0, change_child-All R fill xs h a.1)
  ]

  has_child-All : (xs : List A) → has_child key k xs ≡ false → All (λ y. key y ≢ k) xs
  unfolding has_child
  has_child-All [] e = tt
  has_child-All (x ∷ xs) e = (ground arith, has_child-All xs (ground arith))

  change_child-Distinct :
      (fill : A → A) (xs : List A)
      → ((x : A) → key (fill x) ≡ key x)
      → Distinct key xs
      → Distinct key (change_child key k fill xs)
  unfolding change_child
  change_child-Distinct fill [] h d = d
  change_child-Distinct fill (x ∷ xs) h d = elim (Bool-cases (key x == k)) [
    | inl t ↦ rw t (rw (h x) d.0, d.1)
    | inr f ↦ rw f (
      change_child-All (λ y. key y ≢ key x) fill xs (λ y e n p. n (sym (h y) ∙ p)) d.0,
      change_child-Distinct fill xs h d.1,
    )
  ]

  -- The children stay well formed, with different values.
  pub put-IsForest :
      (R : A → Type 0) (new : A) (fill : A → A) (xs : List A)
      → ((x : A) → key (fill x) ≡ key x)
      → key new ≡ k
      → ((x : A) → R x → R (fill x))
      → R (fill new)
      → Distinct key xs × All R xs
      → Distinct key (put key k new fill xs) × All R (put key k new fill xs)
  unfolding put
  put-IsForest R new fill xs same n keeps made (d, a) = elim (Bool-cases (has_child key k xs)) [
    | inl t ↦
        rw t
          (change_child-Distinct fill xs same d, change_child-All R fill xs (λ x e r. keeps x r) a)
    | inr f ↦ rw f ((rw (same new) (rw n (has_child-All xs f)), d), (made, a))
  ]
