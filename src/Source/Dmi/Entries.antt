-- ===== src/Source/Dmi/Entries.antt =====
-- The walk of dmi.c over the entries stays in the table and goes forward.
use fms.Base.{
  ℕ, zero, suc, ◌+◌, ◌-◌, ◌≤◌, ◌<◌, ◌≡◌, refl, sym, inl, inr, Option, some, arith, Option-cases,
  length,
}
use fms.Text.{Text}
use fms.Source.Dmi.{
  Table, skip_string, string_end, last_string, check_entry, entry_length, string_from, text_at,
  dmi_getstring,
}

module _ (t : Table) where
  open t use {byte, dmi_length, numentries}

  -- Where the inner loop ends: not behind the bytes it may read, and at a zero byte before their end.
  pub skip_string-le : (n s : ℕ) → (s ≤ skip_string t n s) × (skip_string t n s ≤ s + n)
  unfolding skip_string
  skip_string-le zero s = (omega arith, omega arith)
  skip_string-le (suc n) s = ground (arith, skip_string-le n (s + 1))

  pub skip_string-stops : (n s : ℕ) → skip_string t n s < s + n → byte (skip_string t n s) ≡ 0
  unfolding skip_string
  skip_string-stops zero s h = absurd (omega arith)
  skip_string-stops (suc n) s h = ground (arith, skip_string-stops n (s + 1))

  pub string_end-le : (s : ℕ) → s ≤ string_end t s
  unfolding string_end
  string_end-le s = (skip_string-le (dmi_length - 1 - s) s).0

  pub string_end-stops : (s : ℕ) → string_end t s + 1 < dmi_length → byte (string_end t s) ≡ 0
  unfolding string_end
  string_end-stops s h =
      let p = skip_string-le (dmi_length - 1 - s) s in
      skip_string-stops (dmi_length - 1 - s) s (omega arith)

  -- The do loop ends behind its start and before the table does, at two zero bytes.
  pub last_string-bounds :
      (fuel s q : ℕ)
      → last_string t fuel s ≡ some q
      → (s < q) × (q < dmi_length) × (byte q ≡ 0) × (string_end t s < q)
  unfolding last_string
  last_string-bounds zero s q h = absurd (cc)
  last_string-bounds (suc fuel) s q h =
      ground (arith, string_end-le s, last_string-bounds fuel (string_end t s + 1) q)

  -- Fuel for as many rounds as bytes are left to the end of the table is enough: any more of it
  -- changes nothing.
  pub last_string-fuel :
      (f g s : ℕ) → dmi_length ≤ s + f → dmi_length ≤ s + g → last_string t f s ≡ last_string t g s
  unfolding last_string
  last_string-fuel zero zero s h k = refl
  last_string-fuel zero (suc g) s h k = ground (arith, string_end-le s)
  last_string-fuel (suc f) zero s h k = ground (arith, string_end-le s)
  last_string-fuel (suc f) (suc g) s h k =
      ground (arith, string_end-le s, last_string-fuel f g (string_end t s + 1))

  -- If `check_entry` accepts an entry, the next one is not NULL, stands behind the strings of the
  -- entry and at most at the end of the table.
  pub check_entry-next :
      (e : ℕ) (next : Option ℕ)
      → check_entry t (some e) ≡ some next
      → (q : ℕ) × (next ≡ some (q + 1))
        × (last_string t (dmi_length - (e + entry_length t e)) (e + entry_length t e) ≡ some q)
        × (e + entry_length t e < q)
        × (q < dmi_length)
  unfolding check_entry
  check_entry-next e next h =
      elim (Option-cases
        (last_string t (dmi_length - (e + entry_length t e)) (e + entry_length t e))) [
          | inl n ↦ ground (arith, n)
          | inr (q, p) ↦
              let b = last_string-bounds _ _ q p in (q, ground (arith, p, b.1), p, b.0, b.1)
        ]

  -- The strings of an accepted entry end before the place `q` where its last zero byte stands.
  pub string_from-before :
      (number s q fuel s1 : ℕ)
      → last_string t fuel s ≡ some q
      → string_from t number s ≡ some s1
      → (s ≤ s1) × (string_end t s1 < q) × (q < dmi_length)
  unfolding string_from last_string
  string_from-before zero s q fuel s1 h e = ground (arith, last_string-bounds fuel s q h)
  string_from-before (suc number) s q zero s1 h e = absurd (cc)
  string_from-before (suc number) s q (suc fuel) s1 h e =
      ground (arith, string_end-le s, string_from-before number (string_end t s + 1) q fuel s1)

  pub length-text_at :
      (n m s : ℕ)
      → skip_string t n s < s + n
      → n ≤ m
      → s + length (text_at t m s) ≡ skip_string t n s
  unfolding skip_string text_at
  length-text_at zero m s h k = absurd (omega arith)
  length-text_at (suc n) zero s h k = absurd (omega arith)
  length-text_at (suc n) (suc m) s h k = ground (arith, length-text_at n m (s + 1))

  text_at-length : (m s : ℕ) → text_at t (length (text_at t m s)) s ≡ text_at t m s
  unfolding text_at
  text_at-length zero s = refl
  text_at-length (suc m) s = ground (arith, text_at-length m (s + 1))

  -- The text of a string that ends before the table does.
  text_at-end :
      (s : ℕ)
      → string_end t s + 1 < dmi_length
      → s + length (text_at t (dmi_length - s) s) ≡ string_end t s
  unfolding string_end
  text_at-end s h =
      let p = skip_string-le (dmi_length - 1 - s) s in
      length-text_at (dmi_length - 1 - s) (dmi_length - s) s (omega arith) (omega arith)

  -- For an entry that `check_entry` accepts, `dmi_getstring` returns a string that stands with its
  -- zero byte between the entry's fields and the next entry.
  pub dmi_getstring-inside :
      (e number : ℕ) (next : Option ℕ) (text : Text)
      → check_entry t (some e) ≡ some next
      → dmi_getstring t e (suc number) ≡ some text
      → (s q : ℕ) × (next ≡ some q)
        × (e + entry_length t e ≤ s)
        × (s + length text + 1 < q)
        × (text ≡ text_at t (length text) s)
        × (byte (s + length text) ≡ 0)
  unfolding dmi_getstring
  dmi_getstring-inside e number next text h g =
      let c = check_entry-next e next h in
      elim (Option-cases (string_from t number (e + entry_length t e))) [
        | inl n ↦ ground (arith, n)
        | inr (s, p) ↦
            let b = string_from-before number _ c.0 _ s c.2 p in
            let v : text ≡ text_at t (dmi_length - s) s = ground (arith, p) in
            let l = text_at-end s (omega arith) in
            rw v (
              s,
              c.0 + 1,
              c.1,
              b.0,
              omega arith,
              sym (text_at-length (dmi_length - s) s),
              rw l (string_end-stops s (omega arith)),
            )
      ]
