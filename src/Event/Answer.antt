-- ===== src/Event/Answer.antt =====
-- lib/libfmd/fmd_event.c, fmd_create_listevent: the list event that answers an event.
use fms.Base.{ℕ, ◌≡◌, refl, ap, ◌∙◌, some, ◌∷◌, ◌++◌}
use fms.Text.{Text, codes, strchr, strchr_lem, Lacks}
use fms.Event.{Event, zero_event, fmd_create_listevent}

-- A list event `a` that answers an event: the class says `list` in place of what stood before the
-- first dot, the device and the repair limits are the event's, and it has not been counted.
abbrev pub IsAnswer : ℕ → Event → Text → ℕ → Event → Type 0
IsAnswer now e body result a =
    (a.ev_class ≡ codes "list" ++ b'.' ∷ body)
    × (a.agent_result ≡ result)
    × (a.dev_name ≡ e.dev_name)
    × (a.dev_id ≡ e.dev_id)
    × (a.evt_id ≡ e.evt_id)
    × (a.repaired_n ≡ e.repaired_n)
    × (a.repaired_t ≡ e.repaired_t)
    × (a.ev_refs ≡ e.ev_refs)
    × (a.ev_create ≡ now)
    × (a.ev_count ≡ 0)

create_with :
    (now : ℕ) (e : Event) (result : ℕ) (tail : Text)
    → strchr e.ev_class b'.' ≡ some (b'.' ∷ tail)
    → (a : Event) × (fmd_create_listevent now e result ≡ some a) × IsAnswer now e tail result a
unfolding fmd_create_listevent
create_with now e result tail h = (
  record zero_event {
    dev_name = e.dev_name;
    ev_create = now;
    ev_class = codes "list" ++ b'.' ∷ tail;
    agent_result = result;
    dev_id = e.dev_id;
    evt_id = e.evt_id;
    repaired_n = e.repaired_n;
    repaired_t = e.repaired_t;
    ev_refs = e.ev_refs;
    private = e.private;
  },
  rw (h, fmd_create_listevent),
  (refl, refl, refl, refl, refl, refl, refl, refl, refl, refl),
)

pub fmd_create_listevent_lem :
    (now : ℕ) (e : Event) (result : ℕ) (head body : Text)
    → Lacks b'.' head
    → e.ev_class ≡ head ++ b'.' ∷ body
    → (a : Event) × (fmd_create_listevent now e result ≡ some a) × IsAnswer now e body result a
fmd_create_listevent_lem now e result head body lacks cls =
    create_with now e result body (ap (λ t. strchr t b'.') cls ∙ strchr_lem head body b'.' lacks)
