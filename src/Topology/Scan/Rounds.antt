-- ===== src/Topology/Scan/Rounds.antt =====
-- The loops of dmi_table in lib/libtopo/dmi.c end.
use fms.Base.{
  ℕ, zero, suc, ◌+◌, ◌-◌, ◌≤◌, ◌<◌, ◌≡◌, ◌≢◌, refl, ◌⊎◌, inl, inr, ◌||◌, ◌==◌, subst, arith, ltb,
  Bool-cases,
}
use fms.Topology.Scan.Table.{
  DmiData, Walk, out_of_fuel, overrun, ends, bytes_read, read_entry, skip_strings, table_from,
}

module _ (buf : ℕ → ℕ) (len : ℕ) where
  -- The loop over the strings of an entry ends, by a read behind the buffer or behind the strings.
  abbrev Skips : ℕ → Walk ℕ → Type 0
  Skips d out_of_fuel = ⊥
  Skips d overrun = Unit
  Skips d (ends next) = (d < next) × (next ≤ len)

  Skips-later : (d : ℕ) (w : Walk ℕ) → Skips (d + 1) w → Skips d w
  Skips-later d out_of_fuel h = h
  Skips-later d overrun h = h
  Skips-later d (ends next) h = (omega (arith, h.0), h.1)

  skip_strings-Skips : (n d : ℕ) → d ≤ len → len < d + n → Skips d (skip_strings buf len n d)
  unfolding skip_strings
  skip_strings-Skips zero d b h = absurd (omega (arith, b, h))
  skip_strings-Skips (suc n) d b h = elim (Bool-cases (ltb d len)) [
    | inr f ↦ rw (f, skip_strings) tt
    | inl t ↦
        let inside : d + 1 ≤ len = ground (arith, t) in
        let later = Skips-later d _ (skip_strings-Skips n (d + 1) inside (omega (arith, h))) in
        elim (Bool-cases (buf d == 0)) [
          | inr z ↦ rw (t, skip_strings, z) later
          | inl z ↦ elim (Bool-cases (ltb (d + 1) len)) [
            | inr f ↦ rw (t, skip_strings, z, f) tt
            | inl g ↦ elim (Bool-cases (buf (d + 1) == 0)) [
              | inr y ↦ rw (t, skip_strings, z, g, y) later
              | inl y ↦ rw (t, skip_strings, z, g, y) (ground (arith, g))
            ]
          ]
        ]
  ]

  Walk-cases : (w : Walk ℕ) → (w ≡ out_of_fuel) ⊎ ((w ≡ overrun) ⊎ ((next : ℕ) × (w ≡ ends next)))
  Walk-cases out_of_fuel = inl refl
  Walk-cases overrun = inr (inl refl)
  Walk-cases (ends next) = inr (inr (next, refl))

  -- The loop over the entries of a table ends, behind the last entry or by a read behind the buffer,
  -- before it has made as many rounds as bytes are left and one more, whatever the table holds.
  pub table_from_ends :
      (n d : ℕ) (p : DmiData) → d ≤ len → len < d + n → table_from buf len n d p ≢ out_of_fuel
  unfolding table_from
  table_from_ends zero d p b h = absurd (omega (arith, b, h))
  table_from_ends (suc n) d p b h =
      let s = d + buf (d + 1) in
      elim (Bool-cases (ltb len (d + 4) || ltb len s)) [
        | inl t ↦ rw (t, table_from) (λ e. absurd (cc))
        | inr f ↦ elim (Bool-cases (ltb len (d + bytes_read buf len d))) [
          | inl t ↦ rw (f, table_from, t) (λ e. absurd (cc))
          | inr g ↦
              let inside : s ≤ len = ground (arith, f) in
              let k = skip_strings-Skips (len - s + 1) s inside (omega (arith, inside)) in
              elim (Walk-cases (skip_strings buf len (len - s + 1) s)) [
                | inl x ↦ absurd (subst (Skips s) x k)
                | inr (inl x) ↦ rw (f, table_from, g, x) (λ e. absurd (cc))
                | inr (inr (next, x)) ↦
                    let w = subst (Skips s) x k in
                    rw (f, table_from, g, x)
                      (table_from_ends n next (read_entry buf len d p) w.1 (omega (arith, w, h)))
              ]
        ]
      ]
