-- ===== src/Case/Inv.antt =====
-- What holds of the cases between two events: one case for a device, one event for an event id.
use fms.Base.{
  ℕ, suc, ◌+◌, ◌≤◌, ◌≡◌, refl, ap, ◌≢◌, inl, inr, true, false, Option, none, some, List, [], ◌∷◌,
  map, arith, ◌==◌, Bool-cases, All,
}
use fms.Event.{Event}
use fms.Case.{Case, Clock, fmd_case_fire, count_again, stamped, count_and_fire, fmd_event_add}

abbrev pub ids : List Event → List ℕ
ids = map (λ x. x.evt_id)

-- The number is not in the list.
abbrev pub Unused : ℕ → List ℕ → Type 0
Unused n = All (λ k. k ≢ n)

abbrev pub OneEach : List ℕ → Type 0
OneEach [] = Unit
OneEach (k ∷ ks) = Unused k ks × OneEach ks

-- An event that stands under a case: it names the case and the case's device, and has been
-- counted.
abbrev pub Owned : Case → Event → Type 0
Owned c e =
    (e.p_case ≡ some c.addr) × (e.dev_name ≡ c.dev_name) × (e.dev_id ≡ c.dev_id) × (1 ≤ e.ev_count)

-- The occurrences of the events that stand under a case.
abbrev pub occurrences : List Event → ℕ
occurrences [] = 0
occurrences (x ∷ xs) = x.ev_count + occurrences xs

pub record IsCase (c : Case) : Type 0 where
  pub one_each : OneEach (ids c.cs_event)
  pub owned : All (Owned c) c.cs_event
  pub total : occurrences c.cs_event ≤ c.cs_total_count
  pub fired : c.cs_fire_counts ≤ c.cs_total_count

-- Two cases are of different devices.
abbrev pub Other : Case → Case → Type 0
Other c d = (c.dev_name ≡ d.dev_name) → c.dev_id ≢ d.dev_id

abbrev pub IsCases : List Case → Type 0
IsCases [] = Unit
IsCases (c ∷ cs) = IsCase c × All (Other c) cs × IsCases cs

-- What the loop over the events of a case does: it finds no event with the id, or counts one.
abbrev Again : Event → List Event → Option (Event × List Event) → Type 0
Again e xs none = Unused e.evt_id (ids xs)
Again e xs (some (p, ys)) =
    (p.evt_id ≡ e.evt_id)
    × (ids ys ≡ ids xs)
    × (occurrences ys ≡ suc (occurrences xs))
    × ((c : Case) → All (Owned c) xs → All (Owned c) ys)

pub count_again-hit :
    (e x : Event) (xs : List Event)
    → x.evt_id == e.evt_id ≡ true
    → let p = record x { ev_count = x.ev_count + 1; ev_last_occur = e.ev_create } in
      count_again e (x ∷ xs) ≡ some (p, p ∷ xs)
unfolding count_again
count_again-hit e x xs h = ground arith

pub count_again-none :
    (e x : Event) (xs : List Event)
    → x.evt_id == e.evt_id ≡ false
    → count_again e xs ≡ none
    → count_again e (x ∷ xs) ≡ none
unfolding count_again
count_again-none e x xs h k = ground arith

pub count_again-later :
    (e x p : Event) (xs ys : List Event)
    → x.evt_id == e.evt_id ≡ false
    → count_again e xs ≡ some (p, ys)
    → count_again e (x ∷ xs) ≡ some (p, x ∷ ys)
unfolding count_again
count_again-later e x p xs ys h k = ground arith

Again-cons :
    (e x : Event) (xs : List Event) (r : Option (Event × List Event))
    → count_again e xs ≡ r
    → x.evt_id == e.evt_id ≡ false
    → Again e xs r
    → Again e (x ∷ xs) (count_again e (x ∷ xs))
Again-cons e x xs none h ne a = rw (count_again-none e x xs ne h) (ground arith, a)
Again-cons e x xs (some (p, ys)) h ne a =
    rw (count_again-later e x p xs ys ne h)
      (a.0, ap (◌∷◌ x.evt_id) a.1, omega (arith, a.2), λ c o. (o.0, a.3 c o.1))

Again-hit :
    (e x : Event) (xs : List Event)
    → x.evt_id == e.evt_id ≡ true
    → Again e (x ∷ xs) (count_again e (x ∷ xs))
Again-hit e x xs hit =
    rw (count_again-hit e x xs hit)
      (ground arith, refl, omega arith, λ c o. ((o.0.0, o.0.1, o.0.2, omega arith), o.1))

count_again-Again : (e : Event) (xs : List Event) → Again e xs (count_again e xs)
unfolding count_again
count_again-Again e [] = tt
count_again-Again e (x ∷ xs) = elim (Bool-cases (x.evt_id == e.evt_id)) [
  | inl hit ↦ Again-hit e x xs hit
  | inr ne ↦ Again-cons e x xs (count_again e xs) refl ne (count_again-Again e xs)
]

-- Counting and firing touches neither the events nor the device.
abbrev pub SameCase : Case → Case → Type 0
SameCase c d = (d.addr ≡ c.addr) × (d.dev_name ≡ c.dev_name) × (d.dev_id ≡ c.dev_id)

All-Owned : (c d : Case) (xs : List Event) → SameCase c d → All (Owned c) xs → All (Owned d) xs
All-Owned c d [] e h = tt
All-Owned c d (x ∷ xs) e h = (ground arith, All-Owned c d xs e h.1)

count_and_fire-SameCase :
    (clock : Clock) (c : Case) (p e : Event) → SameCase c (count_and_fire clock c p e).0
unfolding count_and_fire fmd_case_fire
count_and_fire-SameCase clock c p e = ground arith

count_and_fire_counts :
    (clock : Clock) (c : Case) (p e : Event)
    → let d = (count_and_fire clock c p e).0 in
      (d.cs_event ≡ c.cs_event)
      × (d.cs_total_count ≡ suc c.cs_total_count)
      × (d.cs_fire_counts ≤ suc c.cs_fire_counts)
unfolding count_and_fire fmd_case_fire
count_and_fire_counts clock c p e = ground arith

count_and_fire-IsCase :
    (clock : Clock) (c : Case) (p e : Event)
    → OneEach (ids c.cs_event)
    → All (Owned c) c.cs_event
    → occurrences c.cs_event ≤ suc c.cs_total_count
    → c.cs_fire_counts ≤ c.cs_total_count
    → IsCase (count_and_fire clock c p e).0
count_and_fire-IsCase clock c p e one own occ fir =
    let (events, total, fires) = count_and_fire_counts clock c p e in
    record {
      one_each = rw events one;
      owned =
          All-Owned c (count_and_fire clock c p e).0 (count_and_fire clock c p e).0.cs_event
            (count_and_fire-SameCase clock c p e) (rw events own);
      total = rw (events, total) occ;
      fired = omega arith;
    }

-- The event with the address of its case.
abbrev pub owned_by : Case → Event → Event
owned_by c e = record e { p_case = some c.addr }

pub fmd_event_add-known :
    (clock : Clock) (c : Case) (e p : Event) (ys : List Event)
    → count_again (owned_by c e) c.cs_event ≡ some (p, ys)
    → let r = count_and_fire clock (record c { cs_event = ys }) p (owned_by c e) in
      fmd_event_add clock c e ≡ (r.0, owned_by c e, r.1)
unfolding fmd_event_add
fmd_event_add-known clock c e p ys h = rw (h, fmd_event_add)

-- The case as a new event finds it when it is counted.
abbrev pub with_new : Clock → Case → Event → Case
with_new clock c e = record c {
  cs_event = stamped clock (owned_by c e) ∷ c.cs_event;
  last_eclass = e.ev_class;
}

pub fmd_event_add-new :
    (clock : Clock) (c : Case) (e : Event)
    → count_again (owned_by c e) c.cs_event ≡ none
    → let fresh = stamped clock (owned_by c e) in
      let r = count_and_fire clock (with_new clock c e) fresh fresh in
      fmd_event_add clock c e ≡ (r.0, fresh, r.1)
unfolding fmd_event_add
fmd_event_add-new clock c e h = rw (h, fmd_event_add)

add_new-IsCase :
    (clock : Clock) (c : Case) (e : Event)
    → IsCase c
    → e.ev_count ≡ 0
    → e.dev_name ≡ c.dev_name
    → e.dev_id ≡ c.dev_id
    → Unused e.evt_id (ids c.cs_event)
    → let fresh = stamped clock (owned_by c e) in
      let d = (count_and_fire clock (with_new clock c e) fresh fresh).0 in IsCase d × SameCase c d
add_new-IsCase clock c e v zero_count name id unused =
    let fresh = stamped clock (owned_by c e) in
    (
      count_and_fire-IsCase clock (with_new clock c e) fresh fresh (unused, v.one_each)
          ((refl, name, id, omega arith), v.owned) (omega arith) v.fired,
      count_and_fire-SameCase clock (with_new clock c e) fresh fresh,
    )

add_known-IsCase :
    (clock : Clock) (c : Case) (e p : Event) (ys : List Event)
    → IsCase c
    → Again (owned_by c e) c.cs_event (some (p, ys))
    → let d = (count_and_fire clock (record c { cs_event = ys }) p (owned_by c e)).0 in
      IsCase d × SameCase c d
add_known-IsCase clock c e p ys v a = (
  count_and_fire-IsCase clock (record c { cs_event = ys }) p (owned_by c e) (rw (a.1) (v.one_each))
      (a.3 c v.owned) (omega (arith, a.2)) v.fired,
  count_and_fire-SameCase clock (record c { cs_event = ys }) p (owned_by c e),
)

-- A new event, not counted before, keeps the case well formed.
pub fmd_event_add-IsCase :
    (clock : Clock) (c : Case) (e : Event)
    → IsCase c
    → e.ev_count ≡ 0
    → e.dev_name ≡ c.dev_name
    → e.dev_id ≡ c.dev_id
    → IsCase (fmd_event_add clock c e).0 × SameCase c (fmd_event_add clock c e).0
fmd_event_add-IsCase clock c e v zero_count name id =
    step (count_again (owned_by c e) c.cs_event) refl (count_again-Again (owned_by c e) c.cs_event)
  where
    step :
        (r : Option (Event × List Event))
        → count_again (owned_by c e) c.cs_event ≡ r
        → Again (owned_by c e) c.cs_event r
        → IsCase (fmd_event_add clock c e).0 × SameCase c (fmd_event_add clock c e).0
    step none h a =
        rw (fmd_event_add-new clock c e h) (add_new-IsCase clock c e v zero_count name id a)
    step (some (p, ys)) h a =
        rw (fmd_event_add-known clock c e p ys h) (add_known-IsCase clock c e p ys v a)
