-- ===== src/Source/Dmi/Lookup.antt =====
-- The search of dmi.c for the memory device of an address.
use fms.Base.{
  ℕ, ◌+◌, ◌*◌, ◌^◌, ◌≤◌, ◌<◌, ◌≡◌, refl, ◌↔◌, ◌⊎◌, inl, inr, Bool, true, Option, none, some, List,
  [], ◌∷◌, map, arith, if◌then◌else◌, Option-cases, length, All, Among,
}
use fms.Source.Dmi.{handle_slots}
use fms.Source.Dmi.Ranges.{
  Range, addr64, dmi_get_memdev_addr64, Dmi, in_range, dev_handle, find_from, dmi_find_addr,
  dmi_decodeaddr, dmi_sanity_check,
}
use fms.Source.Dmi.Sane.{Separate, IsSeparated, ranges, dmi_sanity_check_iff}

-- Addresses that fit into 32 bits are numbers of KB, and the last byte of the last KB is the end.
pub addr64-kilobytes :
    (sa ea s64 e64 : ℕ) (long : Bool)
    → sa < 0xffff_ffff
    → ea < 2 ^ 32
    → addr64 sa ea s64 e64 long ≡ record { s_addr = sa * 1024; e_addr = ea * 1024 + 1023 }
unfolding addr64
addr64-kilobytes sa ea s64 e64 long h k = ground arith

-- The range contains the address, other than as its last one.
abbrev pub Covers : ℕ → Range → Type 0
Covers addr r = (r.s_addr ≤ addr) × (addr < r.e_addr)

-- The ranges end behind their starts, and each before the next one starts.
abbrev pub Single : List Range → Type 0
Single [] = Unit
Single (r ∷ rs) = (r.s_addr ≤ r.e_addr) × All (λ x. x.s_addr ≤ x.e_addr) rs × Separate r rs

Single-tail : (r : Range) (rs : List Range) → Single (r ∷ rs) → Single rs
Single-tail r [] h = tt
Single-tail r (r1 ∷ rs) h = (h.1.0, h.1.1, h.2.1)

IsSeparated-Single :
    (rs : List Range) (dimms : ℕ)
    → IsSeparated dimms rs
    → All (λ r. r.s_addr ≤ r.e_addr) rs
    → Single rs
IsSeparated-Single [] dimms h o = tt
IsSeparated-Single (r ∷ rs) dimms h o = (o.0, o.1, h.0)

-- A range of the list ends at the address.
abbrev pub EndsAt : ℕ → List Range → Type 0
EndsAt addr [] = ⊥
EndsAt addr (r ∷ rs) = (r.e_addr ≡ addr) ⊎ EndsAt addr rs

module _ (d : Dmi) (addr : ℕ) where
  -- The entry of a range that covers the address, whose handle is that of the device.
  abbrev pub LeadsTo : ℕ → List ℕ → Type 0
  LeadsTo dev [] = ⊥
  LeadsTo dev (da ∷ das) =
      (Covers addr (dmi_get_memdev_addr64 d.table da)
        × (d.handle_to_entry (dev_handle d.table da) ≡ some dev))
      ⊎ LeadsTo dev das

  find_from_iff :
      (das devs : List ℕ) (dev : ℕ)
      → find_from d addr das ≡ some devs
      → Among dev devs ↔ LeadsTo dev das
  unfolding find_from in_range
  find_from_iff [] devs dev h = ground (arith, h)
  find_from_iff (da ∷ das) devs dev h = elim (Option-cases (find_from d addr das)) [
    | inl n ↦ ground (arith, h, n)
    | inr (rest, e) ↦ ground (arith, h, e, find_from_iff das rest dev)
  ]

  -- The devices that `dmi_find_addr` returns are those whose range covers the address.
  pub dmi_find_addr_iff :
      (devs : List ℕ) (dev : ℕ)
      → dmi_find_addr d addr ≡ some devs
      → Among dev devs ↔ LeadsTo dev d.dmi_ranges
  unfolding dmi_find_addr
  dmi_find_addr_iff devs dev h = find_from_iff d.dmi_ranges devs dev h

  -- Where no range covers the address, there is no device.
  find_from-uncovered :
      (das : List ℕ)
      → All (λ r. ¬ Covers addr r) (map (dmi_get_memdev_addr64 d.table) das)
      → find_from d addr das ≡ some []
  unfolding find_from in_range
  find_from-uncovered [] h = refl
  find_from-uncovered (da ∷ das) h = ground (arith, find_from-uncovered das)

  -- Ranges that start behind the address do not cover it.
  uncovered-behind :
      (r : Range) (rs : List Range)
      → r.s_addr ≤ r.e_addr
      → All (λ x. x.s_addr ≤ x.e_addr) rs
      → Separate r rs
      → addr ≤ r.e_addr
      → All (λ x. ¬ Covers addr x) rs
  uncovered-behind r [] h a s le = tt
  uncovered-behind r (r1 ∷ rs) h a s le =
      (λ c. omega arith, uncovered-behind r1 rs a.0 a.1 s.1 (omega arith))

  found : ℕ → List ℕ → List ℕ
  found da rest =
      if in_range addr (dmi_get_memdev_addr64 d.table da)
      then elim (d.handle_to_entry (dev_handle d.table da)) [ none ↦ rest | some dev ↦ dev ∷ rest ]
      else rest

  find_from-found :
      (da : ℕ) (das rest : List ℕ)
      → dev_handle d.table da < handle_slots
      → find_from d addr das ≡ some rest
      → find_from d addr (da ∷ das) ≡ some (found da rest)
  unfolding find_from found
  find_from-found da das rest h e = ground (arith, h, e)

  found-one :
      (da : ℕ) (rest : List ℕ)
      → length rest ≤ 1
      → (Covers addr (dmi_get_memdev_addr64 d.table da) → rest ≡ [])
      → length (found da rest) ≤ 1
  unfolding found in_range
  found-one da rest h e = elim (Option-cases (d.handle_to_entry (dev_handle d.table da))) [
    | inl n ↦ ground (arith, n, h)
    | inr (dev, n) ↦ ground (arith, n, h, e)
  ]

  -- Where the ranges are apart, at most one device is found.
  find_from-Single :
      (das : List ℕ)
      → Single (map (dmi_get_memdev_addr64 d.table) das)
      → All (λ e. dev_handle d.table e < handle_slots) das
      → (devs : List ℕ) × (find_from d addr das ≡ some devs) × (length devs ≤ 1)
  find_from-Single [] o h = ([], unfold find_from in refl, omega arith)
  find_from-Single (da ∷ das) o h =
      let r = dmi_get_memdev_addr64 d.table da in
      let rs = map (dmi_get_memdev_addr64 d.table) das in
      let ih = find_from-Single das (Single-tail r rs o) h.1 in
      (
        found da ih.0,
        find_from-found da das ih.0 h.0 ih.1,
        found-one da ih.0 ih.2 λ c.
            let u = find_from-uncovered das (uncovered-behind r rs o.0 o.1 o.2 (omega arith)) in
            ground (arith, u, ih.1),
      )

  decode_first :
      (devs : List ℕ)
      → dmi_find_addr d addr ≡ some devs
      → length devs ≤ 1
      → (m : Option ℕ) × (dmi_decodeaddr d addr ≡ some m)
        × ((dev : ℕ) → (m ≡ some dev) ↔ Among dev devs)
  unfolding dmi_decodeaddr
  decode_first [] e h = (none, ground (arith, e), λ dev. ground arith)
  decode_first (x ∷ []) e h = (some x, ground (arith, e), λ dev. ground arith)
  decode_first (x ∷ y ∷ devs) e h = absurd (omega arith)

  -- The device of the range that covers the address.
  decodeaddr_covers :
      dmi_sanity_check d ≡ true
      → All (λ r. r.s_addr ≤ r.e_addr) (ranges d)
      → All (λ e. dev_handle d.table e < handle_slots) d.dmi_ranges
      → (m : Option ℕ) × (dmi_decodeaddr d addr ≡ some m)
        × ((dev : ℕ) → (m ≡ some dev) ↔ LeadsTo dev d.dmi_ranges)
  decodeaddr_covers s o h =
      let sep = IsSeparated-Single (ranges d) _ ((dmi_sanity_check_iff d).0 s).0 o in
      let f = find_from-Single d.dmi_ranges sep h in
      let e : dmi_find_addr d addr ≡ some f.0 = unfold dmi_find_addr in f.1 in
      let m = decode_first f.0 e f.2 in
      (m.0, m.1, λ dev. ground (arith, m.2 dev, dmi_find_addr_iff f.0 dev e))

  EndsAt-behind : (r : Range) (rs : List Range) → Single (r ∷ rs) → EndsAt addr rs → r.e_addr < addr
  EndsAt-behind r [] o e = absurd e
  EndsAt-behind r (r1 ∷ rs) o (inl e) = omega (arith, o.1.0, o.2.0)
  EndsAt-behind r (r1 ∷ rs) o (inr e) =
      omega (arith, EndsAt-behind r1 rs (Single-tail r (r1 ∷ rs) o) e, o.1.0, o.2.0)

  EndsAt-uncovered : (rs : List Range) → Single rs → EndsAt addr rs → All (λ x. ¬ Covers addr x) rs
  EndsAt-uncovered [] o e = tt
  EndsAt-uncovered (r ∷ rs) o (inl e) =
      (λ c. omega arith, uncovered-behind r rs o.0 o.1 o.2 (omega arith))
  EndsAt-uncovered (r ∷ rs) o (inr e) =
      let b = EndsAt-behind r rs o e in
      (λ c. omega arith, EndsAt-uncovered rs (Single-tail r rs o) e)

  -- The last address of a range has no memory device.
  decodeaddr_last :
      dmi_sanity_check d ≡ true
      → All (λ r. r.s_addr ≤ r.e_addr) (ranges d)
      → EndsAt addr (ranges d)
      → dmi_decodeaddr d addr ≡ some none
  unfolding dmi_decodeaddr dmi_find_addr
  decodeaddr_last s o e =
      let sep = IsSeparated-Single (ranges d) _ ((dmi_sanity_check_iff d).0 s).0 o in
      ground (arith, find_from-uncovered d.dmi_ranges (EndsAt-uncovered (ranges d) sep e))

  -- The device is that of a range which has the address, from its first to its last one.
  abbrev pub IsDeviceOf : ℕ → List ℕ → Type 0
  IsDeviceOf dev [] = ⊥
  IsDeviceOf dev (da ∷ das) =
      (((dmi_get_memdev_addr64 d.table da).s_addr ≤ addr)
        × (addr ≤ (dmi_get_memdev_addr64 d.table da).e_addr)
        × (d.handle_to_entry (dev_handle d.table da) ≡ some dev))
      ⊎ IsDeviceOf dev das

  EndsAt-cases : (rs : List Range) → EndsAt addr rs ⊎ (¬ EndsAt addr rs)
  EndsAt-cases [] = inr (λ e. e)
  EndsAt-cases (r ∷ rs) = ground (arith, EndsAt-cases rs)

  LeadsTo-IsDeviceOf :
      (dev : ℕ) (das : List ℕ)
      → ¬ EndsAt addr (map (dmi_get_memdev_addr64 d.table) das)
      → LeadsTo dev das ↔ IsDeviceOf dev das
  LeadsTo-IsDeviceOf dev [] n = (λ h. h, λ h. h)
  LeadsTo-IsDeviceOf dev (da ∷ das) n = ground (arith, n, LeadsTo-IsDeviceOf dev das)

  -- `dmi_decodeaddr` on a table that passed the check, in which each range ends behind its start and
  -- names a device by a handle below 0xffff: an address that is the last one of a range gets no
  -- device, and any other address exactly the device of the range that has it, if one has.
  pub dmi_decodeaddr_iff :
      dmi_sanity_check d ≡ true
      → All (λ r. r.s_addr ≤ r.e_addr) (ranges d)
      → All (λ e. dev_handle d.table e < handle_slots) d.dmi_ranges
      → (EndsAt addr (ranges d) × (dmi_decodeaddr d addr ≡ some none))
        ⊎ ((¬ EndsAt addr (ranges d))
            × ((m : Option ℕ) × (dmi_decodeaddr d addr ≡ some m)
                × ((dev : ℕ) → (m ≡ some dev) ↔ IsDeviceOf dev d.dmi_ranges)))
  dmi_decodeaddr_iff s o h = elim (EndsAt-cases (ranges d)) [
    | inl e ↦ inl (e, decodeaddr_last s o e)
    | inr n ↦
        let c = decodeaddr_covers s o h in
        inr (n, (c.0, c.1, λ dev. ground (arith, c.2 dev, LeadsTo-IsDeviceOf dev d.dmi_ranges n)))
  ]
