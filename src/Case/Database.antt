-- ===== src/Case/Database.antt =====
-- lib/libcase/ev_record.c with include/ev_record.h: the event database. The calls of sqlite are the
-- list of what is bound to the parameters of a statement and when it is run; what sqlite answers to
-- the calls of ras_event_opendb is a parameter, and so are the text of a time, by localtime, and what
-- the pointer `data` of an event points to.
use fms.Base.{
  ℕ, zero, suc, ◌+◌, ◌-◌, ◌%◌, ◌^◌, Bool, ◌&&◌, Option, none, some, List, [], ◌∷◌, ◌++◌, map, ◌==◌,
  if◌then◌else◌, length,
}
pub mod Rows
use fms.Text.{Text, codes}
use fms.Event.{Event, event_serd, event_fault}
use fms.Case.Insert.{Store, cpu_event, mem_event, disk_event}

-- `struct db_fields`
pub record DbField : Type 0 where
  pub name : Text
  pub type : Text

-- `struct db_table_descriptor`
pub record DbTable : Type 0 where
  pub name : Text
  pub fields : List DbField

abbrev pub integer : Text → DbField
integer name = record { name = name; type = codes "INTEGER" }

abbrev pub text : Text → DbField
text name = record { name = name; type = codes "TEXT" }

abbrev pub id_field : DbField
id_field = record { name = codes "id"; type = codes "INTEGER PRIMARY KEY" }

abbrev pub dev_event_fields : List DbField
dev_event_fields =
    id_field
    ∷ text (codes "timestamp")
    ∷ text (codes "err_msg")
    ∷ text (codes "err_type")
    ∷ integer (codes "dev_id")
    ∷ integer (codes "evt_id")
    ∷ text (codes "detail")
    ∷ text (codes "evt_level")
    ∷ []

abbrev pub rep_record_fields : List DbField
rep_record_fields =
    id_field
    ∷ text (codes "device_name")
    ∷ text (codes "timestamp_rep")
    ∷ text (codes "timestamp_1")
    ∷ text (codes "timestamp_2")
    ∷ text (codes "err_type")
    ∷ text (codes "err_msg")
    ∷ text (codes "action")
    ∷ integer (codes "err_count")
    ∷ integer (codes "dev_id")
    ∷ integer (codes "evt_id")
    ∷ []

-- The statements of `struct sqlite3_priv`.
pub data Statement : Type 0 where
  stmt_cpu_event stmt_mem_event stmt_disk_event stmt_rep_record stmt_norep_record : Statement

-- The table that a statement inserts into.
unfoldable pub table_of : Statement → DbTable
table_of stmt_cpu_event = record { name = codes "cpu_event"; fields = dev_event_fields }
table_of stmt_mem_event = record { name = codes "mem_event"; fields = dev_event_fields }
table_of stmt_disk_event = record { name = codes "disk_event"; fields = dev_event_fields }
table_of stmt_rep_record = record { name = codes "rep_event"; fields = rep_record_fields }
table_of stmt_norep_record = record { name = codes "norep_event"; fields = rep_record_fields }

-- The loop over the fields of `ras_prepare_stmt`.
unfoldable pub field_names : List DbField → Text
field_names [] = []
field_names (f ∷ []) = f.name
field_names (f ∷ g ∷ fs) = f.name ++ (codes ", " ++ field_names (g ∷ fs))

-- The loop over the parameters, for `n` of them.
unfoldable pub marks : ℕ → Text
marks zero = []
marks (suc zero) = codes "?)"
marks (suc (suc n)) = codes "?, " ++ marks (suc n)

-- The text that `ras_prepare_stmt` writes into `sql`.
unfoldable pub insert_sql : DbTable → Text
insert_sql t =
    codes "INSERT INTO "
    ++ (t.name
        ++ (codes " ("
            ++ (field_names t.fields
                ++ (codes ") VALUES ( NULL, " ++ marks (length t.fields - 1)))))

-- The loop of `rasdb_create_table`, and the text that it writes.
unfoldable pub field_types : List DbField → Text
field_types [] = []
field_types (f ∷ []) = f.name ++ (codes " " ++ f.type)
field_types (f ∷ g ∷ fs) = f.name ++ (codes " " ++ (f.type ++ (codes ", " ++ field_types (g ∷ fs))))

unfoldable pub create_sql : DbTable → Text
create_sql t =
    codes "CREATE TABLE IF NOT EXISTS "
    ++ (t.name ++ (codes " (" ++ (field_types t.fields ++ codes ")")))

-- What sqlite answers: whether a call returns SQLITE_OK. `opens` is the answer to the first
-- sqlite3_open_v2 that is not SQLITE_BUSY.
pub record Sqlite : Type 0 where
  pub initializes : Bool
  pub opens : Bool
  pub executes : Text → Bool
  pub prepares : Text → Bool

-- `ras_event_opendb`: which statements of `priv` there are afterwards, `none` for -1.
unfoldable pub ras_event_opendb : Sqlite → Option (Statement → Bool)
ras_event_opendb db =
    if db.initializes && db.opens
    then some (λ s. db.executes (create_sql (table_of s)) && db.prepares (insert_sql (table_of s)))
    else none

-- sqlite3_bind_text and sqlite3_bind_int with the number of the parameter, sqlite3_step and
-- sqlite3_reset.
pub data Call : Type 0 where
  bind_text : ℕ → Text → Call
  bind_int : ℕ → ℕ → Call
  step : Call
  reset : Call

module _ (time2string : ℕ → Text) (detail : Event → Text) (prepared : Statement → Bool) where
  -- The level of an event is not bound for other types.
  unfoldable pub bind_level : Event → List Call
  bind_level e =
      if e.event_type == event_serd
      then bind_text 7 (codes "Minor") ∷ []
      else if e.event_type == event_fault
      then bind_text 7 (codes "Major") ∷ []
      else []

  unfoldable pub bind_event : Event → List Call
  bind_event e =
      bind_text 1 (time2string e.ev_create)
      ∷ bind_text 2 e.ev_class
      ∷ bind_int 3 e.event_type
      ∷ bind_int 4 (e.dev_id % 2 ^ 32)
      ∷ bind_int 5 (e.evt_id % 2 ^ 32)
      ∷ bind_text 6 (detail e)
      ∷ (bind_level e ++ (step ∷ reset ∷ []))

  -- The handlers: what is done with which statement.
  unfoldable pub ras_store_cpu_event : Event → List (Statement × Call)
  ras_store_cpu_event e =
      if prepared stmt_cpu_event then map (λ c. (stmt_cpu_event, c)) (bind_event e) else []

  unfoldable pub ras_store_mem_event : Event → List (Statement × Call)
  ras_store_mem_event e =
      if prepared stmt_mem_event then map (λ c. (stmt_mem_event, c)) (bind_event e) else []

  unfoldable pub ras_store_disk_event : Event → List (Statement × Call)
  ras_store_disk_event e =
      if prepared stmt_disk_event then map (λ c. (stmt_disk_event, c)) (bind_event e) else []

  -- `store_handler` of an entry of `g_store_handler`.
  unfoldable pub store_handler : Store → Event → List (Statement × Call)
  store_handler cpu_event e = ras_store_cpu_event e
  store_handler mem_event e = ras_store_mem_event e
  store_handler disk_event e = ras_store_disk_event e

  unfoldable pub bind_record : Event → List (Statement × Call)
  bind_record e =
      map (λ c. (stmt_rep_record, c))
        (bind_text 1 e.dev_name
          ∷ bind_text 2 (time2string e.repaired_t)
          ∷ bind_text 3 (time2string e.ev_create)
          ∷ bind_text 4 (time2string e.ev_last_occur)
          ∷ bind_int 5 e.event_type
          ∷ bind_text 6 e.ev_class
          ∷ bind_text 7 (codes "offline")
          ∷ bind_int 8 e.ev_count
          ∷ bind_int 9 (e.dev_id % 2 ^ 32)
          ∷ bind_int 10 (e.evt_id % 2 ^ 32)
          ∷ step
          ∷ reset
          ∷ [])

  unfoldable pub ras_store_rep_event : Event → List (Statement × Call)
  ras_store_rep_event e = if prepared stmt_rep_record then bind_record e else []

  unfoldable pub ras_store_norep_event : Event → List (Statement × Call)
  ras_store_norep_event e = if prepared stmt_disk_event then bind_record e else []
