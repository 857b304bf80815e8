-- ===== src/Agent/Disk/Laws.antt =====
-- evt_modules/evtagent/disk/agent.disk.c: the answers of the disk agent.
use fms.Base.{
  ℕ, ◌≡◌, refl, ap, ◌∙◌, ◌≢◌, ◌⊎◌, inl, inr, Option, some, ◌∷◌, ◌++◌, arith, ◌==◌, Bool-cases,
}
use fms.Text.{Text, Lacks}
use fms.Event.{
  Event, event_list, agent_todo, fmd_create_listevent, list_repaired_failed, list_repaired_success,
}
use fms.Event.Answer.{IsAnswer, fmd_create_listevent_lem}
use fms.Agent.Disk.{DiskControl, handle_disk_fault_event, disk_handle_event}

module _ (control : DiskControl) where
  handled :
      (e : Event)
      → (handle_disk_fault_event control e ≡ list_repaired_success)
        ⊎ (handle_disk_fault_event control e ≡ list_repaired_failed)
  unfolding handle_disk_fault_event
  handled e = ground arith

  todo :
      (now : ℕ) (e : Event)
      → e.ev_flag ≡ agent_todo
      → disk_handle_event control now e ≡ (
        record e { event_type = event_list },
        fmd_create_listevent now
            (record e { event_type = event_list })
            (handle_disk_fault_event control e),
      )
  unfolding disk_handle_event
  todo now e h = ground arith

  tolog :
      (now : ℕ) (e : Event)
      → e.ev_flag ≢ agent_todo
      → disk_handle_event control now e ≡ (e, fmd_create_listevent now e 0)
  unfolding disk_handle_event
  tolog now e h = ground arith

  -- The disk agent answers every event whose class has a dot by a list event of its own device. To
  -- an event to be acted on the result is one of the two repair results, and to any other event it
  -- is 0, which is none of the results.
  pub disk_answers :
      (now : ℕ) (e : Event) (head body : Text)
      → Lacks b'.' head
      → e.ev_class ≡ head ++ b'.' ∷ body
      → (result : ℕ) × (a : Event) × ((disk_handle_event control now e).1 ≡ some a)
        × IsAnswer now e body result a
        × (e.ev_flag ≡ agent_todo
            → (result ≡ list_repaired_success) ⊎ (result ≡ list_repaired_failed))
        × (e.ev_flag ≢ agent_todo → result ≡ 0)
  disk_answers now e head body lacks cls = elim (Bool-cases (e.ev_flag == agent_todo)) [
    | inl h ↦
        (let flag : e.ev_flag ≡ agent_todo = ground arith in
          let result = handle_disk_fault_event control e in
          let (a, made, answer) =
            fmd_create_listevent_lem now (record e { event_type = event_list }) result head body
              lacks cls in
          (
            result,
            a,
            ap (λ (p : Event × Option Event). p.1) (todo now e flag) ∙ made,
            answer,
            λ _. handled e,
            λ n. absurd (n flag),
          ))
    | inr h ↦
        (let flag : e.ev_flag ≢ agent_todo = ground arith in
          let (a, made, answer) = fmd_create_listevent_lem now e 0 head body lacks cls in
          (
            0,
            a,
            ap (λ (p : Event × Option Event). p.1) (tolog now e flag) ∙ made,
            answer,
            λ t. absurd (flag t),
            λ _. refl,
          ))
  ]
