-- ===== src/Queue/Match.antt =====
-- fms/fmd_queue.c: which agent gets an event.
use fms.Base.{
  ℕ, zero, suc, ◌-◌, ◌≡◌, refl, ap, ◌≢◌, Bool, true, false, Option, none, some, List, [], ◌∷◌, ◌++◌,
  append_assoc, arith, length, length-append, All, ◌⊎◌, inl, inr,
}
use fms.Text.{
  Text, codes, str_eq, str_eq_refl, str_eq_ne, strrchr-append, has_prefix, strncmp_eq-append,
  strrchr, strchr_lem, strrchr_lem, Lacks, strncmp_eq,
}
use fms.Queue.{fmd_sub_matches, subscribes, put_to_agents}

-- The last dot of a subscription `top.stem.*`.
star_tail :
    (top stem : Text) → strrchr (top ++ b'.' ∷ (stem ++ codes ".*")) b'.' ≡ some (codes ".*")
star_tail top stem =
    rw (← append_assoc top (b'.' ∷ stem) (codes ".*"))
      (strrchr_lem (top ++ b'.' ∷ stem) (codes "*") b'.' (omega arith))

stem_size : (stem : Text) → suc (length (stem ++ codes ".*")) - 2 ≡ suc (length stem)
stem_size stem = omega (arith, length-append stem (codes ".*"))

-- A subscription `top.stem.*` matches a class `head.body` exactly when `body` begins with `stem`: the
-- parts before the first dot do not count, and no dot has to follow `stem` in the class. A
-- subscription `top.*` matches every class with a dot.
pub fmd_sub_matches_star :
    (top stem head body : Text)
    → Lacks b'.' top
    → Lacks b'.' head
    → (fmd_sub_matches (head ++ b'.' ∷ body) (top ++ b'.' ∷ (stem ++ codes ".*"))
        ≡ some (has_prefix stem body))
      × (fmd_sub_matches (head ++ b'.' ∷ body) (top ++ codes ".*") ≡ some true)
unfolding fmd_sub_matches has_prefix strncmp_eq
fmd_sub_matches_star top stem head body t h = (
  rw
      (
        strchr_lem top (stem ++ codes ".*") b'.' t,
        strchr_lem head body b'.' h,
        star_tail top stem,
        str_eq_refl (codes ".*"),
        stem_size stem,
      )
      (ap some (strncmp_eq-append (b'.' ∷ stem) (codes ".*") (b'.' ∷ body))),
  rw
      (
        strchr_lem top (codes "*") b'.' t,
        strchr_lem head body b'.' h,
        strrchr_lem top (codes "*") b'.' (omega arith),
        str_eq_refl (codes ".*"),
      )
      refl,
)

-- A subscription `top.stem` that does not end in `.*` matches a class exactly when the two agree
-- from their first dots on.
pub fmd_sub_matches_plain :
    (top stem head body last : Text)
    → Lacks b'.' top
    → Lacks b'.' head
    → strrchr (b'.' ∷ stem) b'.' ≡ some last
    → last ≢ codes ".*"
    → fmd_sub_matches (head ++ b'.' ∷ body) (top ++ b'.' ∷ stem) ≡ some (str_eq body stem)
unfolding fmd_sub_matches str_eq
fmd_sub_matches_plain top stem head body last t h l n =
    rw
      (
        strchr_lem top stem b'.' t,
        strchr_lem head body b'.' h,
        strrchr-append top (b'.' ∷ stem) last b'.' l,
        str_eq_ne last (codes ".*") n,
      )
      refl

-- None of the subscriptions matches the class.
abbrev pub Silent : Text → List Text → Type 0
Silent cls subs = All (λ s. fmd_sub_matches cls s ≡ some false) subs

-- One of the subscriptions matches the class, and the ones before it do not.
abbrev pub Matched : Text → List Text → Type 0
Matched cls [] = ⊥
Matched cls (s ∷ ss) =
    (fmd_sub_matches cls s ≡ some true) ⊎ ((fmd_sub_matches cls s ≡ some false) × Matched cls ss)

subscribes_cases :
    (cls : Text) (subs : List Text)
    → ((subscribes cls subs ≡ some true) → Matched cls subs)
      × ((subscribes cls subs ≡ some false) → Silent cls subs)
unfolding subscribes
subscribes_cases cls [] = (λ h. absurd (ground (arith, h)), λ h. tt)
subscribes_cases cls (s ∷ ss) = step (fmd_sub_matches cls s) refl (subscribes_cases cls ss)
  where
    step :
        (o : Option Bool)
        → fmd_sub_matches cls s ≡ o
        → ((subscribes cls ss ≡ some true) → Matched cls ss)
          × ((subscribes cls ss ≡ some false) → Silent cls ss)
        → ((subscribes cls (s ∷ ss) ≡ some true) → Matched cls (s ∷ ss))
          × ((subscribes cls (s ∷ ss) ≡ some false) → Silent cls (s ∷ ss))
    step none q ih = (λ h. absurd (ground (arith, q, h)), λ h. absurd (ground (arith, q, h)))
    step (some true) q ih = (λ h. inl q, λ h. absurd (ground (arith, q, h)))
    step (some false) q ih =
        (λ h. inr (q, ih.0 (ground (arith, q, h))), λ h. (q, ih.1 (ground (arith, q, h))))

-- The first agent in the list one of whose subscriptions matches the class; none if no subscription
-- of any agent matches.
abbrev pub Picked : Text → List (List Text) → Option ℕ → Type 0
Picked cls [] r = r ≡ none
Picked cls (a ∷ rest) none = Silent cls a × Picked cls rest none
Picked cls (a ∷ rest) (some zero) = Matched cls a
Picked cls (a ∷ rest) (some (suc i)) = Silent cls a × Picked cls rest (some i)

Picked-step :
    (cls : Text) (a : List Text) (rest : List (List Text)) (o : Option Bool) (w : Option (Option ℕ))
    (r : Option ℕ)
    → subscribes cls a ≡ o
    → put_to_agents cls rest ≡ w
    → ((s : Option ℕ) → w ≡ some s → Picked cls rest s)
    → put_to_agents cls (a ∷ rest) ≡ some r
    → Picked cls (a ∷ rest) r
unfolding put_to_agents
Picked-step cls a rest none w r q p ih h = absurd (ground (arith, q, h))
Picked-step cls a rest (some true) w none q p ih h = absurd (ground (arith, q, h))
Picked-step cls a rest (some true) w (some zero) q p ih h = (subscribes_cases cls a).0 q
Picked-step cls a rest (some true) w (some (suc i)) q p ih h = absurd (ground (arith, q, h))
Picked-step cls a rest (some false) none r q p ih h = absurd (ground (arith, q, p, h))
Picked-step cls a rest (some false) (some none) none q p ih h =
    ((subscribes_cases cls a).1 q, ih none refl)
Picked-step cls a rest (some false) (some none) (some i) q p ih h = absurd (ground (arith, q, p, h))
Picked-step cls a rest (some false) (some (some j)) none q p ih h = absurd (ground (arith, q, p, h))
Picked-step cls a rest (some false) (some (some j)) (some zero) q p ih h =
    absurd (ground (arith, q, p, h))
Picked-step cls a rest (some false) (some (some j)) (some (suc i)) q p ih h =
    let same : i ≡ j = ground (arith, q, p, h) in
    ((subscribes_cases cls a).1 q, rw same (ih (some j) refl))

-- `put_to_agents` picks the first agent in the list one of whose subscriptions matches the class,
-- and none if no subscription of any agent does: when each class and subscription that it compares
-- has a dot.
pub put_to_agents-Picked :
    (cls : Text) (agents : List (List Text)) {r : Option ℕ}
    → put_to_agents cls agents ≡ some r
    → Picked cls agents r
unfolding put_to_agents
put_to_agents-Picked cls [] {r} h = ground arith
put_to_agents-Picked cls (a ∷ rest) {r} h =
    Picked-step cls a rest (subscribes cls a) (put_to_agents cls rest) r refl refl
      (λ s e. put_to_agents-Picked cls rest e) h
