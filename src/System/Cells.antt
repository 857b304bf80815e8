-- ===== src/System/Cells.antt =====
-- Lists of cases with different addresses: what holds of them when one case changes or goes.
use fms.Base.{
  ℕ, ◌≡◌, refl, sym, ap, ◌∙◌, ◌≢◌, ◌⊎◌, inl, inr, false, some, List, [], ◌∷◌, ◌++◌, arith, ◌==◌,
  Bool-cases, All,
}
use fms.Case.{Case, atomic_dec}
use fms.Agent.{release_case}

-- No two cases stand at one address.
abbrev pub Apart : List Case → Type 0
Apart [] = Unit
Apart (c ∷ cs) = All (λ x. x.addr ≢ c.addr) cs × Apart cs

-- A case stands at the address.
abbrev pub Lives : ℕ → List Case → Type 0
Lives a [] = ⊥
Lives a (c ∷ cs) = (c.addr ≡ a) ⊎ Lives a cs

module _ {A : Type 0} (P : A → Type 0) where
  pub All-at : (before after : List A) (c : A) → All P (before ++ c ∷ after) → P c
  All-at [] after c h = h.0
  All-at (x ∷ before) after c h = All-at before after c h.1

  pub All-swap :
      (before after : List A) (c d : A)
      → P d
      → All P (before ++ c ∷ after)
      → All P (before ++ d ∷ after)
  All-swap [] after c d p h = (p, h.1)
  All-swap (x ∷ before) after c d p h = (h.0, All-swap before after c d p h.1)

  pub All-drop :
      (before after : List A) (c : A) → All P (before ++ c ∷ after) → All P (before ++ after)
  All-drop [] after c h = h.1
  All-drop (x ∷ before) after c h = (h.0, All-drop before after c h.1)

-- With different addresses, what all cases have and what follows for each but one.
pub others :
    {P Q : Case → Type 0} (cs : List Case) (a : ℕ)
    → ((x : Case) → x.addr ≢ a → P x → Q x)
    → All (λ x. x.addr ≢ a) cs
    → All P cs
    → All Q cs
others [] a f n h = tt
others (c ∷ cs) a f n h = (f c n.0 h.0, others cs a f n.1 h.1)

pub Lives-fresh : (a : ℕ) (cs : List Case) → All (λ c. c.addr ≢ a) cs → ¬ Lives a cs
Lives-fresh a [] h l = l
Lives-fresh a (c ∷ cs) h (inl e) = h.0 e
Lives-fresh a (c ∷ cs) h (inr l) = Lives-fresh a cs h.1 l

pub Lives-at : (before after : List Case) (c : Case) → Lives c.addr (before ++ c ∷ after)
Lives-at [] after c = inl refl
Lives-at (x ∷ before) after c = inr (Lives-at before after c)

-- One case is replaced by another at the same address.
pub Apart-swap :
    (before after : List Case) (c d : Case)
    → d.addr ≡ c.addr
    → Apart (before ++ c ∷ after)
    → Apart (before ++ d ∷ after)
Apart-swap [] after c d e v = (rw e v.0, v.1)
Apart-swap (x ∷ before) after c d e v = (
  All-swap _ before after c d (rw e (All-at _ before after c v.0)) v.0,
  Apart-swap before after c d e v.1,
)

pub All-change :
    {P Q : Case → Type 0} (before after : List Case) (c d : Case)
    → Apart (before ++ c ∷ after)
    → ((x : Case) → x.addr ≢ c.addr → P x → Q x)
    → (P c → Q d)
    → All P (before ++ c ∷ after)
    → All Q (before ++ d ∷ after)
All-change [] after c d v f g h = (g h.0, others after c.addr f v.0 h.1)
All-change (x ∷ before) after c d v f g h =
    (f x (λ e. All-at _ before after c v.0 (sym e)) h.0, All-change before after c d v.1 f g h.1)

pub Lives-swap :
    (a : ℕ) (before after : List Case) (c d : Case)
    → d.addr ≡ c.addr
    → Lives a (before ++ c ∷ after)
    → Lives a (before ++ d ∷ after)
Lives-swap a [] after c d e (inl h) = inl (e ∙ h)
Lives-swap a [] after c d e (inr h) = inr h
Lives-swap a (x ∷ before) after c d e (inl h) = inl h
Lives-swap a (x ∷ before) after c d e (inr h) = inr (Lives-swap a before after c d e h)

-- One case is taken away.
pub Apart-drop :
    (before after : List Case) (c : Case) → Apart (before ++ c ∷ after) → Apart (before ++ after)
Apart-drop [] after c v = v.1
Apart-drop (x ∷ before) after c v = (All-drop _ before after c v.0, Apart-drop before after c v.1)

pub Lives-drop :
    (a : ℕ) (before after : List Case) (c : Case)
    → c.addr ≢ a
    → Lives a (before ++ c ∷ after)
    → Lives a (before ++ after)
Lives-drop a [] after c n (inl h) = absurd (n h)
Lives-drop a [] after c n (inr h) = h
Lives-drop a (x ∷ before) after c n (inl h) = inl h
Lives-drop a (x ∷ before) after c n (inr h) = inr (Lives-drop a before after c n h)

-- The case with its use counter counted down.
abbrev pub released : Case → Case
released c = record c { m_event_using = atomic_dec c.m_event_using }

-- Where a case stands at the address, it is found and counted down.
pub release_case-Lives :
    (a : ℕ) (cs : List Case)
    → Lives a cs
    → (before after : List Case) × (c : Case) × (cs ≡ before ++ c ∷ after)
      × (c.addr ≡ a)
      × (release_case a cs ≡ some (before ++ released c ∷ after))
unfolding release_case
release_case-Lives a [] h = absurd h
release_case-Lives a (c ∷ cs) h = elim (Bool-cases (c.addr == a)) [
  | inl e ↦ ([], cs, c, refl, ground arith, rw e refl)
  | inr n ↦ further (λ l. release_case-Lives a cs l) h n
]
  where
    Found : List Case → Type 0
    Found xs =
        (before after : List Case) × (x : Case) × (xs ≡ before ++ x ∷ after)
        × (x.addr ≡ a)
        × (release_case a xs ≡ some (before ++ released x ∷ after))

    further : (Lives a cs → Found cs) → Lives a (c ∷ cs) → c.addr == a ≡ false → Found (c ∷ cs)
    further ih (inl e) n = absurd (ground (arith, e, n))
    further ih (inr l) n =
        let (before, after, x, p, q, r) = ih l in
        (c ∷ before, after, x, ap (◌∷◌ c) p, q, rw (release_case, n, r) refl)
