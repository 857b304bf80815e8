-- ===== src/Source/Dmi/Visited.antt =====
-- What the loops of dmi.c over the entries see: the same entries, in the order of the table.
use fms.Base.{
  ℕ, zero, suc, ◌+◌, ◌≤◌, ◌<◌, ◌≡◌, refl, sym, subst, ◌≢◌, ◌⊎◌, inl, inr, Option, none, some, List,
  [], ◌∷◌, arith, Option-cases, All, Among, keep,
}
use fms.Source.Dmi.{
  Table, Handles, put_handle, check_entry, entry_length, entry_handle, fill_from, fill_handles,
  collects, collect_from, dmi_collect,
}
use fms.Source.Dmi.Entries.{check_entry-next}

module _ (t : Table) where
  open t use {byte, dmi_length, numentries}

  -- The entries that a loop of `n` rounds from `e` on accepts.
  pub visited_from : ℕ → Option ℕ → List ℕ
  visited_from zero e = []
  visited_from (suc n) none = []
  visited_from (suc n) (some e) = elim (check_entry t (some e)) [
    | none ↦ []
    | some next ↦ e ∷ visited_from n next
  ]

  pub visited : List ℕ
  visited = visited_from numentries (some 0)

  collect_from-keep :
      (n type minsize : ℕ) (e : Option ℕ)
      → collect_from t n type minsize e ≡ keep (collects t type minsize) (visited_from n e)
  unfolding collect_from visited_from
  collect_from-keep zero type minsize e = refl
  collect_from-keep (suc n) type minsize none = refl
  collect_from-keep (suc n) type minsize (some e) = elim (Option-cases (check_entry t (some e))) [
    | inl h ↦ ground (arith, h)
    | inr (next, h) ↦ ground (arith, h, collect_from-keep n type minsize next)
  ]

  -- `dmi_collect` returns the visited entries that pass its tests, in the order of the table.
  pub dmi_collect-keep :
      (type minsize : ℕ) → dmi_collect t type minsize ≡ keep (collects t type minsize) visited
  unfolding dmi_collect visited
  dmi_collect-keep type minsize = collect_from-keep numentries type minsize (some 0)

  -- The entries stand in the table one behind the other, with their fields.
  abbrev pub Ascends : ℕ → List ℕ → Type 0
  Ascends lo [] = Unit
  Ascends lo (e ∷ es) =
      (lo ≤ e) × (e + entry_length t e < dmi_length) × Ascends (e + entry_length t e + 1) es

  Ascends-mono : (lo hi : ℕ) (es : List ℕ) → lo ≤ hi → Ascends hi es → Ascends lo es
  Ascends-mono lo hi [] h a = tt
  Ascends-mono lo hi (e ∷ es) h a = (omega arith, a.1, a.2)

  visited_from-Ascends : (n e : ℕ) → Ascends e (visited_from n (some e))
  unfolding visited_from
  visited_from-Ascends zero e = tt
  visited_from-Ascends (suc n) e = elim (Option-cases (check_entry t (some e))) [
    | inl h ↦
        let v : visited_from (suc n) (some e) ≡ [] = ground (arith, h) in
        subst (Ascends e) (sym v) tt
    | inr (next, h) ↦
        let c = check_entry-next t e next h in
        let v : visited_from (suc n) (some e) ≡ e ∷ visited_from n (some (c.0 + 1)) =
          ground (arith, h, c.1) in
        subst (Ascends e) (sym v) (
          omega arith,
          omega (arith, c.3, c.4),
          Ascends-mono _ (c.0 + 1) _ (omega (arith, c.3)) (visited_from-Ascends n (c.0 + 1)),
        )
  ]

  -- The loops see entries that stand in the table, each behind the one before.
  pub visited-Ascends : Ascends 0 visited
  unfolding visited
  visited-Ascends = visited_from-Ascends numentries 0

  -- No two entries have one handle.
  abbrev pub Unique : List ℕ → Type 0
  Unique [] = Unit
  Unique (e ∷ es) = All (λ x. entry_handle t x ≢ entry_handle t e) es × Unique es

  -- What `fill_from` leaves in a slot: what the slot had, or an entry with the handle.
  fill_from_sound :
      (n : ℕ) (e : Option ℕ) (h h1 : Handles) (k e1 : ℕ)
      → fill_from t n e h ≡ some h1
      → h1 k ≡ some e1
      → (h k ≡ some e1) ⊎ (Among e1 (visited_from n e) × (entry_handle t e1 ≡ k))
  unfolding fill_from visited_from
  fill_from_sound zero e h h1 k e1 f g = ground (arith, f)
  fill_from_sound (suc n) none h h1 k e1 f g = ground (arith, f)
  fill_from_sound (suc n) (some e) h h1 k e1 f g = elim (Option-cases (check_entry t (some e))) [
    | inl c ↦ ground (arith, f, c)
    | inr (next, c) ↦
        ground (arith, f, c, fill_from_sound n next (put_handle (entry_handle t e) e h) h1 k e1)
  ]

  -- A slot that no entry names keeps its value.
  fill_from-other :
      (n : ℕ) (e : Option ℕ) (h h1 : Handles) (k : ℕ)
      → fill_from t n e h ≡ some h1
      → All (λ x. entry_handle t x ≢ k) (visited_from n e)
      → h1 k ≡ h k
  unfolding fill_from visited_from
  fill_from-other zero e h h1 k f a = ground (arith, f)
  fill_from-other (suc n) none h h1 k f a = ground (arith, f)
  fill_from-other (suc n) (some e) h h1 k f a = elim (Option-cases (check_entry t (some e))) [
    | inl c ↦ ground (arith, f, c)
    | inr (next, c) ↦
        ground (arith, f, c, fill_from-other n next (put_handle (entry_handle t e) e h) h1 k)
  ]

  -- Where the handles differ, the slot of a visited entry holds it.
  fill_from_complete :
      (n : ℕ) (e : Option ℕ) (h h1 : Handles) (e1 : ℕ)
      → fill_from t n e h ≡ some h1
      → Unique (visited_from n e)
      → Among e1 (visited_from n e)
      → h1 (entry_handle t e1) ≡ some e1
  unfolding fill_from visited_from
  fill_from_complete zero e h h1 e1 f u m = absurd m
  fill_from_complete (suc n) none h h1 e1 f u m = absurd m
  fill_from_complete (suc n) (some e) h h1 e1 f u m = elim (Option-cases (check_entry t (some e))) [
    | inl c ↦ ground (arith, f, c)
    | inr (next, c) ↦
        let h2 : Handles = put_handle (entry_handle t e) e h in
        ground (
          arith,
          f,
          c,
          fill_from_complete n next h2 h1 e1,
          fill_from-other n next h2 h1 (entry_handle t e),
        )
  ]

  -- After `fill_handles` a slot holds an entry that was visited and has this handle; and if the
  -- handles of the visited entries differ, each of them stands in its slot.
  pub fill_handles-finds :
      (h : Handles)
      → fill_handles t ≡ some h
      → ((k e : ℕ) → h k ≡ some e → Among e visited × (entry_handle t e ≡ k))
        × (Unique visited → (e : ℕ) → Among e visited → h (entry_handle t e) ≡ some e)
  unfolding fill_handles visited
  fill_handles-finds h f = (
    λ k e g. ground (arith, fill_from_sound numentries (some 0) (λ k. none) h k e f g),
    λ u e m. fill_from_complete numentries (some 0) (λ k. none) h e f u m,
  )
