-- ===== src/Ring/Fifo.antt =====
-- A well-formed ring holds a first-in first-out queue of at most 128 pointers.
use native.Mathlib.Numerals.{add-one}
use fms.Base.{
  ℕ, zero, suc, ◌+◌, ◌-◌, ◌%◌, ◌≤◌, ◌<◌, ◌≡◌, ◌≢◌, refl, ap, true, Option, none, some, List, [],
  ◌∷◌, ◌++◌, arith, ◌==◌, ==_iff, Bool-cases, ◌⊎◌, inl, inr, length, get_or, set, length-set,
  length-replicate, get_or-set_self, get_or-set_ne,
}
use fms.Ring.{Ring, ring_size, ring_init, ring_add, ring_del}

module _ {ℓ} {A : Type ℓ} where
  -- `rear` stands `count` places behind `front`, both inside the array.
  pub record IsRing (r : Ring A) : Type ℓ where
    pub slots : length r.ring_item ≡ ring_size
    pub front_in : r.front < ring_size
    pub count_in : r.count ≤ ring_size
    pub rear_at : r.rear ≡ (r.front + r.count) % ring_size

  -- The `n` slots from index `f` on, going round.
  abbrev pub window : List (Option A) → ℕ → ℕ → List (Option A)
  window buf f zero = []
  window buf f (suc n) = get_or buf f none ∷ window buf ((f + 1) % ring_size) n

  -- What the ring holds, oldest first.
  abbrev pub contents : Ring A → List (Option A)
  contents r = window r.ring_item r.front r.count

  pub length-window : (buf : List (Option A)) (f n : ℕ) → length (window buf f n) ≡ n
  length-window buf f zero = refl
  length-window buf f (suc n) = ap suc (length-window buf ((f + 1) % ring_size) n)

  window_pos :
      (buf : List (Option A)) (f n : ℕ)
      → n ≢ 0
      → window buf f n ≡ get_or buf f none ∷ window buf ((f + 1) % ring_size) (n - 1)
  window_pos buf f zero h = absurd (h refl)
  window_pos buf f (suc n) h = ap (λ k. window buf f (suc k)) (omega arith)

  -- Writing the slot behind a window adds it at the window's end.
  window-set :
      (buf : List (Option A)) (x : Option A) (n f i : ℕ)
      → length buf ≡ ring_size
      → f < ring_size
      → n < ring_size
      → i ≡ (f + n) % ring_size
      → window (set buf i x) f (suc n) ≡ window buf f n ++ (x ∷ [])
  window-set buf x zero f i hs hf hn e =
      let at : i ≡ f = omega arith in rw (at, get_or-set_self buf f x none (omega arith))
  window-set buf x (suc n) f i hs hf hn e =
      let ne : i ≢ f = omega arith in
      ground (
        arith,
        get_or-set_ne buf x none ne,
        window-set buf x n ((f + 1) % ring_size) i hs (omega arith) (omega arith) (omega arith),
      )

  pub ring_init-IsRing : IsRing (ring_init {A = A})
  unfolding ring_init
  ring_init-IsRing = record {
    slots = length-replicate {A = Option A} ring_size none;
    front_in = omega arith;
    count_in = omega arith;
    rear_at = refl;
  }

  pub contents-ring_init : contents (ring_init {A = A}) ≡ []
  unfolding ring_init
  contents-ring_init = refl

  -- `ring_add` refuses a pointer exactly when the ring holds 128 of them; otherwise the pointer
  -- becomes the youngest and the ring stays well formed.
  pub ring_add_fifo :
      (r : Ring A) (p : A)
      → IsRing r
      → ((ring_add r p ≡ none) × (r.count ≡ ring_size))
        ⊎ ((s : Ring A) × (ring_add r p ≡ some s)
            × (contents s ≡ contents r ++ (some p ∷ []))
            × (s.count ≡ suc r.count)
            × (s.ring_vaild ≡ r.ring_vaild)
            × (s.ring_contain ≡ r.ring_contain)
            × IsRing s)
  unfolding ring_add
  ring_add_fifo r p v = elim (Bool-cases (r.count == ring_size)) [
    | inl full ↦ inl (rw full, omega (arith, (==_iff r.count ring_size).0 full))
    | inr room ↦ inr (
      record r {
        ring_item = set r.ring_item r.rear (some p);
        rear = (r.rear + 1) % ring_size;
        count = r.count + 1;
      },
      rw room,
      rw add-one (
          window-set r.ring_item (some p) r.count r.front r.rear v.slots v.front_in (ground arith)
            v.rear_at),
      omega arith,
      refl,
      refl,
      ground (arith, length-set r.ring_item r.rear (some p)),
    )
  ]

  -- `ring_del` returns NULL exactly when the ring holds nothing; otherwise it returns the oldest
  -- pointer, the rest stay in their order and the ring stays well formed.
  pub ring_del_fifo :
      (r : Ring A)
      → IsRing r
      → ((contents r ≡ []) × (ring_del r ≡ (none, r)))
        ⊎ ((x : Option A) × (rest : List (Option A)) × (contents r ≡ x ∷ rest)
            × ((ring_del r).0 ≡ x)
            × (contents (ring_del r).1 ≡ rest)
            × (suc (ring_del r).1.count ≡ r.count)
            × ((ring_del r).1.ring_vaild ≡ r.ring_vaild)
            × ((ring_del r).1.ring_contain ≡ r.ring_contain)
            × IsRing (ring_del r).1)
  unfolding ring_del
  ring_del_fifo r v = elim (Bool-cases (r.count == 0)) [
    | inl none_left ↦ inl (rw (zero_of none_left), rw none_left)
    | inr some_left ↦ inr (
      get_or r.ring_item r.front none,
      window r.ring_item ((r.front + 1) % ring_size) (r.count - 1),
      window_pos r.ring_item r.front r.count (ground arith),
      rw some_left,
      rw some_left,
      ground arith,
      rw some_left,
      rw some_left,
      ground arith,
    )
  ]
    where
      zero_of : r.count == 0 ≡ true → r.count ≡ 0
      zero_of h = (==_iff r.count 0).0 h
