-- ===== src/Case/Fire.antt =====
-- lib/libcase/fmd_case.c: when a case fires. A SERD engine with N and T fires on each report of an
-- event from the N-th on, while less than T has passed since the first one.
use fms.Base.{
  ℕ, ◌+◌, ◌-◌, ◌≤◌, ◌<◌, ◌≡◌, refl, subst, inl, inr, false, Option, none, some, List, [], ◌∷◌,
  arith, ◌==◌, if◌then◌else◌, Bool-cases, length,
}
use fms.Event.{Event, event_report, event_serd}
use fms.Case.{
  Case, Clock, fmd_case_fire, fmd_case_canfire, count_again, stamped, count_and_fire, fmd_event_add,
}
use fms.Case.Inv.{
  owned_by, with_new, count_again-hit, count_again-later, count_again-none, fmd_event_add-known,
  fmd_event_add-new,
}

-- The first event under a case with an id.
unfoldable pub find_event : ℕ → List Event → Option Event
find_event n [] = none
find_event n (x ∷ xs) = if x.evt_id == n then some x else find_event n xs

-- The event with one more occurrence.
abbrev pub again : Event → Event → Event
again e x = record x { ev_count = x.ev_count + 1; ev_last_occur = e.ev_create }

-- How the loop over the events of a case relates to a search.
abbrev Counts : Event → List Event → Option Event → Type 0
Counts e xs none = count_again e xs ≡ none
Counts e xs (some x) =
    (ys : List Event) × (count_again e xs ≡ some (again e x, ys))
    × (find_event e.evt_id ys ≡ some (again e x))

Counts-cons :
    (e x : Event) (xs : List Event) (r : Option Event)
    → x.evt_id == e.evt_id ≡ false
    → Counts e xs r
    → Counts e (x ∷ xs) r
unfolding find_event
Counts-cons e x xs none h a = count_again-none e x xs h a
Counts-cons e x xs (some y) h (ys, p, q) =
    (x ∷ ys, count_again-later e x (again e y) xs ys h p, rw h q)

find_event-Counts : (e : Event) (xs : List Event) → Counts e xs (find_event e.evt_id xs)
unfolding find_event
find_event-Counts e [] = unfold count_again in refl
find_event-Counts e (x ∷ xs) = elim (Bool-cases (x.evt_id == e.evt_id)) [
  | inl h ↦ rw h (again e x ∷ xs, count_again-hit e x xs h, rw h refl)
  | inr h ↦ rw h (Counts-cons e x xs (find_event e.evt_id xs) h (find_event-Counts e xs))
]

-- The fault events that one count sends: one or none.
abbrev pub sends : ℕ → Event → ℕ
sends now p = if fmd_case_canfire now p then 1 else 0

count_and_fire-sends :
    (clock : Clock) (c : Case) (p e : Event)
    → (length (count_and_fire clock c p e).1 ≡ sends clock.at_check p)
      × ((count_and_fire clock c p e).0.cs_event ≡ c.cs_event)
unfolding count_and_fire fmd_case_fire
count_and_fire-sends clock c p e = elim (Bool-cases (fmd_case_canfire clock.at_check p)) [
  | inl h ↦ rw (h) (refl, refl)
  | inr h ↦ rw (h) (refl, refl)
]

fmd_event_add-again :
    (clock : Clock) (c : Case) (e x : Event)
    → find_event e.evt_id c.cs_event ≡ some x
    → let (d, _, out) = fmd_event_add clock c e in
      (length out ≡ sends clock.at_check (again e x))
      × (find_event e.evt_id d.cs_event ≡ some (again e x))
fmd_event_add-again clock c e x h =
    let (ys, p, q) =
      subst (Counts (owned_by c e) c.cs_event) h (find_event-Counts (owned_by c e) c.cs_event) in
    let (n, same) =
      count_and_fire-sends clock (record c { cs_event = ys }) (again e x) (owned_by c e) in
    rw (fmd_event_add-known clock c e (again e x) ys p) (n, rw same q)

fmd_event_add-first :
    (clock : Clock) (c : Case) (e : Event)
    → find_event e.evt_id c.cs_event ≡ none
    → let (d, x, out) = fmd_event_add clock c e in
      (length out ≡ sends clock.at_check (stamped clock (owned_by c e)))
      × (find_event e.evt_id d.cs_event ≡ some (stamped clock (owned_by c e)))
unfolding find_event
fmd_event_add-first clock c e h =
    let fresh = stamped clock (owned_by c e) in
    let p =
      subst (Counts (owned_by c e) c.cs_event) h (find_event-Counts (owned_by c e) c.cs_event) in
    let (n, same) = count_and_fire-sends clock (with_new clock c e) fresh fresh in
    rw (fmd_event_add-new clock c e p) (n, rw same (ground arith))

-- One report after another is put under a case; the faults sent are counted.
unfoldable pub feed : Case → List (Clock × Event) → Case × ℕ
feed c [] = (c, 0)
feed c ((clock, e) ∷ rest) =
    let (d, _, out) = fmd_event_add clock c e in let (d', n) = feed d rest in (d', length out + n)

-- Every report has the id, and is checked before the time.
abbrev pub Within : ℕ → ℕ → List (Clock × Event) → Type 0
Within id limit [] = Unit
Within id limit ((clock, e) ∷ rest) =
    (e.evt_id ≡ id) × (clock.at_check < limit) × Within id limit rest

sends_serd :
    (now : ℕ) (p : Event)
    → p.event_type ≡ event_serd
    → now < p.serd_t + p.ev_create
    → sends now p ≡ (p.ev_count + 1 - p.serd_n) - (p.ev_count - p.serd_n)
unfolding fmd_case_canfire
sends_serd now p t l = ground arith

feed_again :
    (c : Case) (x : Event) (rs : List (Clock × Event)) (id : ℕ)
    → find_event id c.cs_event ≡ some x
    → x.event_type ≡ event_serd
    → Within id (x.serd_t + x.ev_create) rs
    → ((feed c rs).1 ≡ (length rs + x.ev_count + 1 - x.serd_n) - (x.ev_count + 1 - x.serd_n))
unfolding feed
feed_again c x [] id f t w = omega arith
feed_again c x ((clock, e) ∷ rs) id f t (i, l, w) =
    let (n, g) = fmd_event_add-again clock c e x (rw i f) in
    let rest = feed_again (fmd_event_add clock c e).0 (again e x) rs id (rw (← i) g) t w in
    let once = sends_serd clock.at_check (again e x) t l in omega (arith, n, rest, once)

-- In a case that does not know the event yet, `m` reports of a SERD class, checked before the time
-- T has passed since the first, send a fault each from the N-th on: `m + 1 - N` in all.
pub feed_serd :
    (c : Case) (clock : Clock) (e : Event) (rs : List (Clock × Event))
    → find_event e.evt_id c.cs_event ≡ none
    → e.event_type ≡ event_serd
    → e.ev_count ≡ 0
    → 1 ≤ e.serd_n
    → Within e.evt_id (e.serd_t + clock.at_add) ((clock, e) ∷ rs)
    → (feed c ((clock, e) ∷ rs)).1 ≡ length rs + 2 - e.serd_n
unfolding feed
feed_serd c clock e rs f t z pos (_, l, w) =
    let fresh = stamped clock (owned_by c e) in
    let (n, g) = fmd_event_add-first clock c e f in
    let rest = feed_again (fmd_event_add clock c e).0 fresh rs e.evt_id g t w in
    let once = sends_serd clock.at_check fresh t l in omega (arith, n, rest, once)

-- Every report has the id, and is checked at the time or later.
abbrev pub Since : ℕ → ℕ → List (Clock × Event) → Type 0
Since id start [] = Unit
Since id start ((clock, e) ∷ rest) =
    (e.evt_id ≡ id) × (start ≤ clock.at_check) × Since id start rest

feed_plain_again :
    (c : Case) (x : Event) (rs : List (Clock × Event)) (id : ℕ)
    → find_event id c.cs_event ≡ some x
    → x.event_type ≡ event_report
    → x.serd_t ≡ 0
    → Since id x.ev_create rs
    → (feed c rs).1 ≡ 0
unfolding feed fmd_case_canfire
feed_plain_again c x [] id f t z w = refl
feed_plain_again c x ((clock, e) ∷ rs) id f t z (i, l, w) =
    let (n, g) = fmd_event_add-again clock c e x (rw i f) in
    let rest = feed_plain_again (fmd_event_add clock c e).0 (again e x) rs id (rw (← i) g) t z w in
    ground (arith, n, rest)

-- Reports of a class that no entry names never make their case fire, however many come, as long as
-- the clock does not run back behind the first.
pub feed_plain :
    (c : Case) (clock : Clock) (e : Event) (rs : List (Clock × Event))
    → find_event e.evt_id c.cs_event ≡ none
    → e.event_type ≡ event_report
    → e.serd_t ≡ 0
    → Since e.evt_id clock.at_add ((clock, e) ∷ rs)
    → (feed c ((clock, e) ∷ rs)).1 ≡ 0
unfolding feed fmd_case_canfire
feed_plain c clock e rs f t z (_, l, w) =
    let fresh = stamped clock (owned_by c e) in
    let (n, g) = fmd_event_add-first clock c e f in
    let rest = feed_plain_again (fmd_event_add clock c e).0 fresh rs e.evt_id g t z w in
    ground (arith, n, rest)
