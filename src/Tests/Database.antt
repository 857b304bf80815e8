-- ===== src/Tests/Database.antt =====
-- Runs of the handlers of the event database.
use fms.Base.{ℕ, ◌≡◌, refl, ◌≢◌, ◌↔◌, ◌⊎◌, true, [], arith}
use fms.Text.{Text, codes}
use fms.Event.{event_serd, event_fault}
use fms.Case.Insert.{cpu_event}
use fms.Case.Database.{
  stmt_cpu_event, stmt_disk_event, stmt_norep_record, stmt_rep_record, ras_store_rep_event,
  table_of, insert_sql, create_sql, field_names, field_types, marks, store_handler,
  ras_store_norep_event,
}
use fms.Case.Database.Rows.{Binds, store_handler-Binds, ras_store_records-Binds}
use fms.Tests.{cache_error}

insert_run :
    insert_sql (table_of stmt_cpu_event)
    ≡ codes
        "INSERT INTO cpu_event (id, timestamp, err_msg, err_type, dev_id, evt_id, detail, evt_level) VALUES ( NULL, ?, ?, ?, ?, ?, ?, ?)"
unfolding insert_sql table_of field_names marks
insert_run = refl

create_run :
    create_sql (table_of stmt_disk_event)
    ≡ codes
        "CREATE TABLE IF NOT EXISTS disk_event (id INTEGER PRIMARY KEY, timestamp TEXT, err_msg TEXT, err_type TEXT, dev_id INTEGER, evt_id INTEGER, detail TEXT, evt_level TEXT)"
unfolding create_sql table_of field_types
create_run = refl

abbrev clock_text : ℕ → Text
clock_text t = codes "2026-01-01 0:0:0"

store_handler-Binds_example :
    let i : ℕ = 7 in
    Binds stmt_cpu_event i (store_handler clock_text (λ e. []) (λ s. true) cpu_event cache_error)
    ↔ ((i ≢ 7) ⊎ ((cache_error.event_type ≡ event_serd) ⊎ (cache_error.event_type ≡ event_fault)))
unfolding insert_sql table_of field_names marks
store_handler-Binds_example =
    store_handler-Binds cpu_event 7 clock_text (λ e. []) (λ s. true) cache_error refl (omega arith)
      (omega arith)

ras_store_records-Binds_example :
    let calls = ras_store_rep_event clock_text (λ e. []) (λ s. true) cache_error in
    let others = ras_store_norep_event clock_text (λ e. []) (λ s. true) cache_error in
    Binds stmt_rep_record 10 calls
    × Binds stmt_rep_record 10 others
    × (¬ Binds stmt_norep_record 1 calls)
    × (¬ Binds stmt_norep_record 1 others)
unfolding insert_sql table_of field_names marks
ras_store_records-Binds_example =
    ras_store_records-Binds 10 1 clock_text (λ e. []) (λ s. true) cache_error refl refl
      (omega arith) (omega arith)
