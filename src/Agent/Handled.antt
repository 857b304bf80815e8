-- ===== src/Agent/Handled.antt =====
-- evt_modules/evtlib/evt_agent.c, agent_ring_put: the list of handled events.
use fms.Base.{
  ap, ◌⊎◌, ◌↔◌, ◌+◌, ◌≡◌, refl, inl, inr, true, List, [], ◌∷◌, ◌++◌, arith, Bool-cases, All,
}
use fms.Text.{Text, has_prefix, has_prefix-append}
use fms.Event.{Event}
use fms.Agent.{is_entry_of, agent_ring_put}

-- The answer is counted with the entry: they are of one device, event id and result, where of the
-- names only the first part of the entry's is compared.
abbrev pub Counts : Event → Event → Type 0
Counts e p =
    ((tail : Text) × (p.dev_name ≡ e.dev_name ++ tail))
    × (p.dev_id ≡ e.dev_id)
    × (p.evt_id ≡ e.evt_id)
    × (p.agent_result ≡ e.agent_result)

prefix_tail : (p s : Text) → has_prefix p s ≡ true → (tail : Text) × (s ≡ p ++ tail)
unfolding has_prefix
prefix_tail [] s h = (s, refl)
prefix_tail (c ∷ p) [] h = absurd (ground (arith, h))
prefix_tail (c ∷ p) (d ∷ s) h =
    let r = prefix_tail p s (ground arith) in
    let same : d ≡ c = ground arith in (r.0, rw (same, r.1) refl)

is_entry_of_iff : (e p : Event) → (is_entry_of e p ≡ true) ↔ Counts e p
unfolding is_entry_of
is_entry_of_iff e p = (
  λ h. (prefix_tail e.dev_name p.dev_name (ground arith), ground arith, ground arith, ground arith),
  λ h.
      let begins : has_prefix e.dev_name p.dev_name ≡ true =
        rw h.0.1 (has_prefix-append e.dev_name h.0.0) in
      ground (arith, begins, h.1, h.2, h.3),
)

-- The entry with one more report, at the time and with the number of repairs of the answer.
abbrev pub counted : Event → Event → Event
counted e p = record p { ev_create = e.ev_create; ev_refs = e.ev_refs; ev_count = p.ev_count + 1 }

-- How an answer gets into the list: behind all entries, none of which counts it, or into the first
-- entry that does.
abbrev pub Put : Event → List Event → List Event → Type 0
Put e ps out =
    (All (λ p. ¬ Counts e p) ps × (out ≡ ps ++ record e { ev_count = 1 } ∷ []))
    ⊎ ((before : List Event) × (p : Event) × (after : List Event) × (ps ≡ before ++ p ∷ after)
        × All (λ q. ¬ Counts e q) before
        × Counts e p
        × (out ≡ before ++ counted e p ∷ after))

-- An answer that no entry of the list counts becomes the last entry, with the count 1. Else the
-- first entry that counts it has one report more, and takes its time and number of repairs; all
-- other entries stay as they are.
pub agent_ring_put-Put : (e : Event) (ps : List Event) → Put e ps (agent_ring_put e ps)
unfolding agent_ring_put
agent_ring_put-Put e [] = inl (tt, refl)
agent_ring_put-Put e (p ∷ ps) = elim (Bool-cases (is_entry_of e p)) [
  | inl hit ↦ rw hit (inr ([], p, ps, refl, tt, (is_entry_of_iff e p).0 hit, refl))
  | inr miss ↦
      let no : ¬ Counts e p = λ c. absurd (ground (arith, miss, (is_entry_of_iff e p).1 c)) in
      rw miss (elim (agent_ring_put-Put e ps) [
        | inl (none_counts, o) ↦ inl ((no, none_counts), ap (◌∷◌ p) o)
        | inr (before, q, after, e1, others, c, o) ↦
            inr (p ∷ before, q, after, ap (◌∷◌ p) e1, (no, others), c, ap (◌∷◌ p) o)
      ])
]
