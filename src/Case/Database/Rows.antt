-- ===== src/Case/Database/Rows.antt =====
-- Which parameters of a statement of the event database the handlers of lib/libcase/ev_record.c bind.
use fms.Base.{
  ℕ, zero, suc, ◌+◌, ◌-◌, ◌≤◌, ◌≡◌, refl, subst, ◌≢◌, ◌↔◌, ◌⊎◌, inl, inr, Bool, true, List, [], ◌∷◌,
  ◌++◌, map, arith, ◌==◌, if◌then◌else◌, Bool-cases, length, All,
}
use fms.Text.{Text, codes}
use fms.Event.{Event, event_serd, event_fault}
use fms.Case.Insert.{Store, cpu_event, mem_event, disk_event}
use fms.Case.Database.{
  DbField, DbTable, dev_event_fields, rep_record_fields, Statement, stmt_cpu_event, stmt_mem_event,
  stmt_disk_event, stmt_rep_record, stmt_norep_record, table_of, field_names, marks, insert_sql,
  Call, bind_text, bind_int, step, reset, bind_level, bind_event, ras_store_cpu_event,
  ras_store_mem_event, ras_store_disk_event, store_handler, bind_record, ras_store_rep_event,
  ras_store_norep_event,
}

-- How often a byte stands in a text.
abbrev pub count : ℕ → Text → ℕ
count b [] = 0
count b (c ∷ s) = (if c == b then 1 else 0) + count b s

count-append : (b : ℕ) (s t : Text) → count b (s ++ t) ≡ count b s + count b t
count-append b [] t = omega arith
count-append b (c ∷ s) t = omega (arith, count-append b s t)

-- The parameters of the text of a statement.
abbrev pub parameters : Text → ℕ
parameters s = count b'?' s

parameters-marks : (n : ℕ) → parameters (marks n) ≡ n
unfolding marks
parameters-marks zero = refl
parameters-marks (suc zero) = refl
parameters-marks (suc (suc n)) = ground (arith, parameters-marks (suc n))

parameters-field_names :
    (fs : List DbField) → All (λ f. parameters f.name ≡ 0) fs → parameters (field_names fs) ≡ 0
unfolding field_names
parameters-field_names [] h = refl
parameters-field_names (f ∷ []) h = h.0
parameters-field_names (f ∷ g ∷ fs) h = ground (
  arith,
  h.0,
  count-append b'?' f.name (codes ", " ++ field_names (g ∷ fs)),
  parameters-field_names (g ∷ fs) h.1,
)

-- A statement has a parameter for each field but the first, which is NULL.
pub parameters-insert_sql :
    (t : DbTable)
    → parameters t.name ≡ 0
    → All (λ f. parameters f.name ≡ 0) t.fields
    → parameters (insert_sql t) ≡ length t.fields - 1
unfolding insert_sql
parameters-insert_sql t n h =
    let rest = codes ") VALUES ( NULL, " ++ marks (length t.fields - 1) in
    omega (
      arith,
      n,
      parameters-field_names t.fields h,
      parameters-marks (length t.fields - 1),
      count-append b'?' t.name (codes " (" ++ (field_names t.fields ++ rest)),
      count-append b'?' (field_names t.fields) rest,
    )

-- A parameter of the statement is bound by one of the calls.
abbrev pub Binds : Statement → ℕ → List (Statement × Call) → Type 0
Binds s i [] = ⊥
Binds s i ((u, bind_text j t) ∷ cs) = ((u ≡ s) × (j ≡ i)) ⊎ Binds s i cs
Binds s i ((u, bind_int j n) ∷ cs) = ((u ≡ s) × (j ≡ i)) ⊎ Binds s i cs
Binds s i ((u, step) ∷ cs) = Binds s i cs
Binds s i ((u, reset) ∷ cs) = Binds s i cs

-- The statement of a handler.
abbrev pub statement_of : Store → Statement
statement_of cpu_event = stmt_cpu_event
statement_of mem_event = stmt_mem_event
statement_of disk_event = stmt_disk_event

Binds-map :
    (s : Statement) (i : ℕ) (time2string : ℕ → Text) (detail : Event → Text)
    (prepared : Statement → Bool) (e : Event)
    → 1 ≤ i
    → i ≤ 7
    → Binds s i (map (λ c. (s, c)) (bind_event time2string detail prepared e))
      ↔ ((i ≢ 7) ⊎ ((e.event_type ≡ event_serd) ⊎ (e.event_type ≡ event_fault)))
unfolding bind_event bind_level
Binds-map s i time2string detail prepared e lo hi =
    let same : s ≡ s = refl in
    elim (Bool-cases (e.event_type == event_serd)) [
      | inl y ↦ rw y (ground (arith, same, lo, hi))
      | inr n ↦ elim (Bool-cases (e.event_type == event_fault)) [
        | inl y ↦ rw (n, y) (ground (arith, same, lo, hi))
        | inr m ↦ rw (n, m) (ground (arith, same, lo, hi))
      ]
    ]

-- No name of a field is a parameter.
names_of_device : All (λ f. parameters f.name ≡ 0) dev_event_fields
names_of_device = search

names_of_record : All (λ f. parameters f.name ≡ 0) rep_record_fields
names_of_record = search

-- The statements for the events of a device have seven parameters.
parameters_of_handler : (h : Store) → parameters (insert_sql (table_of (statement_of h))) ≡ 7
unfolding table_of
parameters_of_handler cpu_event =
    parameters-insert_sql (table_of stmt_cpu_event) refl names_of_device
parameters_of_handler mem_event =
    parameters-insert_sql (table_of stmt_mem_event) refl names_of_device
parameters_of_handler disk_event =
    parameters-insert_sql (table_of stmt_disk_event) refl names_of_device

-- A handler whose statement is prepared binds each parameter of the statement to a value, except the
-- level of an event that is neither of the SERD type nor a fault.
pub store_handler-Binds :
    (h : Store) (i : ℕ) (time2string : ℕ → Text) (detail : Event → Text)
    (prepared : Statement → Bool) (e : Event)
    → prepared (statement_of h) ≡ true
    → 1 ≤ i
    → i ≤ parameters (insert_sql (table_of (statement_of h)))
    → Binds (statement_of h) i (store_handler time2string detail prepared h e)
      ↔ ((i ≢ 7) ⊎ ((e.event_type ≡ event_serd) ⊎ (e.event_type ≡ event_fault)))
unfolding store_handler ras_store_cpu_event ras_store_mem_event ras_store_disk_event
store_handler-Binds cpu_event i time2string detail prepared e p lo hi = rw p (
    Binds-map stmt_cpu_event i time2string detail prepared e lo
      (subst (λ n. i ≤ n) (parameters_of_handler cpu_event) hi))
store_handler-Binds mem_event i time2string detail prepared e p lo hi = rw p (
    Binds-map stmt_mem_event i time2string detail prepared e lo
      (subst (λ n. i ≤ n) (parameters_of_handler mem_event) hi))
store_handler-Binds disk_event i time2string detail prepared e p lo hi = rw p (
    Binds-map stmt_disk_event i time2string detail prepared e lo
      (subst (λ n. i ≤ n) (parameters_of_handler disk_event) hi))

ten_parameters : parameters (insert_sql (table_of stmt_rep_record)) ≡ 10
unfolding table_of
ten_parameters = parameters-insert_sql (table_of stmt_rep_record) refl names_of_record

bind_record-Binds :
    (i : ℕ) (time2string : ℕ → Text) (detail : Event → Text) (prepared : Statement → Bool)
    (e : Event)
    → 1 ≤ i
    → i ≤ 10
    → Binds stmt_rep_record i (bind_record time2string detail prepared e)
unfolding bind_record
bind_record-Binds i time2string detail prepared e lo most =
    let same : stmt_rep_record ≡ stmt_rep_record = refl in ground (arith, same, lo, most)

-- The handlers of the repaired events and of the events that were not repaired both bind each
-- parameter of the statement for the table of the repaired ones, if the one is prepared for its own
-- handler and that of the disk events for the other; neither binds a parameter of the statement for
-- the table of the events that were not repaired.
pub ras_store_records-Binds :
    (i j : ℕ) (time2string : ℕ → Text) (detail : Event → Text) (prepared : Statement → Bool)
    (e : Event)
    → prepared stmt_rep_record ≡ true
    → prepared stmt_disk_event ≡ true
    → 1 ≤ i
    → i ≤ parameters (insert_sql (table_of stmt_rep_record))
    → Binds stmt_rep_record i (ras_store_rep_event time2string detail prepared e)
      × Binds stmt_rep_record i (ras_store_norep_event time2string detail prepared e)
      × (¬ Binds stmt_norep_record j (ras_store_rep_event time2string detail prepared e))
      × (¬ Binds stmt_norep_record j (ras_store_norep_event time2string detail prepared e))
unfolding ras_store_rep_event ras_store_norep_event bind_record
ras_store_records-Binds i j time2string detail prepared e p q lo hi =
    let b =
      bind_record-Binds i time2string detail prepared e lo (subst (λ n. i ≤ n) ten_parameters hi) in
    rw (p, q) (b, b, other, other)
  where
    other : ¬ Binds stmt_norep_record j (bind_record time2string detail prepared e)
    other b = ground (arith, b)
