-- ===== src/Topology/Scan/Threads.antt =====
-- What the numbering of the threads in lib/libtopo/fmd_topo.c leaves of the processors.
use fms.Base.{
  ℕ, zero, suc, ◌+◌, ◌-◌, ◌≤◌, ◌≡◌, refl, sym, ◌∙◌, subst, ◌↔◌, ◌⊎◌, inl, inr, not, ◌||◌, Option,
  some, List, [], ◌∷◌, arith, ltb, ◌==◌, Bool-cases, Option-cases, length, set,
}
use fms.Topology.{TopoCpu}
use fms.Topology.Scan.Cpu.{
  cpu_sibling, find_sibling, mark_sibling, mark_at, mark_threads, set_threads, advance,
}
use fms.Topology.Node.{Any}

-- The lists have the same processors at the same places, up to `cpu_thread` and `flag`.
abbrev pub SameCpus : List TopoCpu → List TopoCpu → Type 0
SameCpus [] [] = Unit
SameCpus [] (d ∷ ds) = ⊥
SameCpus (c ∷ cs) [] = ⊥
SameCpus (c ∷ cs) (d ∷ ds) =
    (c.processor ≡ d.processor)
    × (c.cpu_chassis ≡ d.cpu_chassis)
    × (c.cpu_board ≡ d.cpu_board)
    × (c.cpu_socket ≡ d.cpu_socket)
    × (c.cpu_core ≡ d.cpu_core)
    × SameCpus cs ds

SameCpus-refl : (cs : List TopoCpu) → SameCpus cs cs
SameCpus-refl [] = tt
SameCpus-refl (c ∷ cs) = (refl, refl, refl, refl, refl, SameCpus-refl cs)

SameCpus-trans : (a b c : List TopoCpu) → SameCpus a b → SameCpus b c → SameCpus a c
SameCpus-trans [] [] c h k = k
SameCpus-trans [] (y ∷ b) c h k = absurd h
SameCpus-trans (x ∷ a) [] c h k = absurd h
SameCpus-trans (x ∷ a) (y ∷ b) [] h k = absurd k
SameCpus-trans (x ∷ a) (y ∷ b) (z ∷ c) h k =
    (h.0 ∙ k.0, h.1 ∙ k.1, h.2 ∙ k.2, h.3 ∙ k.3, h.4 ∙ k.4, SameCpus-trans a b c h.5 k.5)

-- The processor at a place, up to `cpu_thread` and `flag`.
abbrev StandsAt : ℕ → TopoCpu → List TopoCpu → Type 0
StandsAt i d [] = Unit
StandsAt zero d (c ∷ cs) =
    (d.processor ≡ c.processor)
    × (d.cpu_chassis ≡ c.cpu_chassis)
    × (d.cpu_board ≡ c.cpu_board)
    × (d.cpu_socket ≡ c.cpu_socket)
    × (d.cpu_core ≡ c.cpu_core)
StandsAt (suc i) d (c ∷ cs) = StandsAt i d cs

set-SameCpus :
    (i : ℕ) (d : TopoCpu) (cs : List TopoCpu) → StandsAt i d cs → SameCpus (set cs i d) cs
set-SameCpus i d [] h = tt
set-SameCpus zero d (c ∷ cs) h = (h.0, h.1, h.2, h.3, h.4, SameCpus-refl cs)
set-SameCpus (suc i) d (c ∷ cs) h = (refl, refl, refl, refl, refl, set-SameCpus i d cs h)

StandsAt-SameCpus :
    (i : ℕ) (d : TopoCpu) (a b : List TopoCpu) → SameCpus a b → StandsAt i d b → StandsAt i d a
StandsAt-SameCpus i d [] b h k = tt
StandsAt-SameCpus zero d (x ∷ a) [] h k = absurd h
StandsAt-SameCpus (suc i) d (x ∷ a) [] h k = absurd h
StandsAt-SameCpus zero d (x ∷ a) (y ∷ b) h k =
    (k.0 ∙ sym h.0, k.1 ∙ sym h.1, k.2 ∙ sym h.2, k.3 ∙ sym h.3, k.4 ∙ sym h.4)
StandsAt-SameCpus (suc i) d (x ∷ a) (y ∷ b) h k = StandsAt-SameCpus i d a b h.5 k

-- The place of a processor does not show in `cpu_thread` and `flag`.
StandsAt-fields :
    (i : ℕ) (c d : TopoCpu) (cs : List TopoCpu)
    → SameCpus (d ∷ []) (c ∷ [])
    → StandsAt i c cs
    → StandsAt i d cs
StandsAt-fields i c d [] s h = tt
StandsAt-fields zero c d (x ∷ cs) s h = (s.0 ∙ h.0, s.1 ∙ h.1, s.2 ∙ h.2, s.3 ∙ h.3, s.4 ∙ h.4)
StandsAt-fields (suc i) c d (x ∷ cs) s h = StandsAt-fields i c d cs s h

advance-StandsAt :
    (i : ℕ) (c : TopoCpu) (rest cs : List TopoCpu) → advance i cs ≡ c ∷ rest → StandsAt i c cs
unfolding advance
advance-StandsAt i c rest [] e = tt
advance-StandsAt zero c rest (d ∷ cs) e = ground arith
advance-StandsAt (suc i) c rest (d ∷ cs) e = advance-StandsAt i c rest cs e

-- The sibling that is found stands at the place that is returned.
find-StandsAt :
    (i : ℕ) (c : TopoCpu) (k j : ℕ) (d : TopoCpu) (ds : List TopoCpu)
    → find_sibling i c k ds ≡ some (j, d)
    → (k ≤ j) × StandsAt (j - k) d ds
unfolding find_sibling
find-StandsAt i c k j d [] e = absurd (ground arith)
find-StandsAt i c k j d (x ∷ ds) e =
    elim (Bool-cases (k == i || c.flag == 1 || not (cpu_sibling c x))) [
      | inl t ↦
          let r = find-StandsAt i c (k + 1) j d ds (ground (arith, t)) in
          let q : j - k ≡ suc (j - (k + 1)) = omega (arith, r.0) in (omega (arith, r.0), rw q r.1)
      | inr f ↦
          let p : ◌≡◌ {A = Option (ℕ × TopoCpu)} (some (k, x)) (some (j, d)) = ground (arith, f) in
          let q : j - k ≡ 0 = ground (arith, p) in (ground (arith, p), rw q (ground (arith, p)))
    ]

mark_sibling-SameCpus :
    (i : ℕ) (c : TopoCpu) (cs : List TopoCpu) → StandsAt i c cs → SameCpus (mark_sibling i c cs) cs
unfolding mark_sibling
mark_sibling-SameCpus i c cs h = elim (Option-cases (find_sibling i c 0 cs)) [
  | inl n ↦ rw (n, mark_sibling) (SameCpus-refl cs)
  | inr ((j, d), e) ↦
      let z : j - 0 ≡ j = omega arith in
      let k = subst (λ n. StandsAt n d cs) z (find-StandsAt i c 0 j d cs e).1 in
      let both : (c' d' : TopoCpu)
          → StandsAt i c' cs
          → StandsAt j d' cs
          → SameCpus (set (set cs i c') j d') cs =
        λ c' d' p q.
          let one = set-SameCpus i c' cs p in
          SameCpus-trans (set (set cs i c') j d') (set cs i c') cs
            (set-SameCpus j d' (set cs i c') (StandsAt-SameCpus j d' (set cs i c') cs one q)) one in
      elim (Bool-cases (ltb c.processor d.processor)) [
        | inl t ↦
            rw (e, t, mark_sibling)
              (both (record c { flag = 1 }) (record d { cpu_thread = 1; flag = 1 })
                (StandsAt-fields i c (record c { flag = 1 }) cs (refl, refl, refl, refl, refl, tt)
                  h)
                (StandsAt-fields j d (record d { cpu_thread = 1; flag = 1 }) cs
                  (refl, refl, refl, refl, refl, tt) k))
        | inr f ↦
            rw (e, f, mark_sibling)
              (both (record c { cpu_thread = 1; flag = 1 }) (record d { flag = 1 })
                (StandsAt-fields i c (record c { cpu_thread = 1; flag = 1 }) cs
                  (refl, refl, refl, refl, refl, tt) h)
                (StandsAt-fields j d (record d { flag = 1 }) cs (refl, refl, refl, refl, refl, tt)
                  k))
      ]
]

List-cases :
    (l : List TopoCpu) → (l ≡ []) ⊎ ((c : TopoCpu) × (rest : List TopoCpu) × (l ≡ c ∷ rest))
List-cases [] = inl refl
List-cases (c ∷ rest) = inr (c, rest, refl)

mark_at-SameCpus : (i : ℕ) (cs : List TopoCpu) → SameCpus (mark_at i cs) cs
unfolding mark_at
mark_at-SameCpus i cs = elim (List-cases (advance i cs)) [
  | inl e ↦ rw (e, mark_at) (SameCpus-refl cs)
  | inr (c, rest, e) ↦
      rw (e, mark_at) (mark_sibling-SameCpus i c cs (advance-StandsAt i c rest cs e))
]

mark_threads-SameCpus : (n i : ℕ) (cs : List TopoCpu) → SameCpus (mark_threads n i cs) cs
unfolding mark_threads
mark_threads-SameCpus zero i cs = SameCpus-refl cs
mark_threads-SameCpus (suc n) i cs =
    SameCpus-trans (mark_threads n (i + 1) (mark_at i cs)) (mark_at i cs) cs
      (mark_threads-SameCpus n (i + 1) (mark_at i cs)) (mark_at-SameCpus i cs)

-- Numbering the threads changes nothing else of the processors.
pub set_threads-SameCpus : (cs : List TopoCpu) → SameCpus (set_threads cs) cs
unfolding set_threads
set_threads-SameCpus cs = mark_threads-SameCpus (length cs) 0 cs

-- What is said of the other fields of some processor stays true.
pub SameCpus-Any :
    (P : TopoCpu → Type 0)
    → ((c d : TopoCpu) → SameCpus (c ∷ []) (d ∷ []) → P c ↔ P d)
    → (a b : List TopoCpu) → SameCpus a b
    → Any P a ↔ Any P b
SameCpus-Any P h [] [] s = (λ x. x, λ x. x)
SameCpus-Any P h [] (d ∷ b) s = absurd s
SameCpus-Any P h (c ∷ a) [] s = absurd s
SameCpus-Any P h (c ∷ a) (d ∷ b) s =
    ground (arith, h c d (s.0, s.1, s.2, s.3, s.4, tt), SameCpus-Any P h a b s.5)
