-- ===== src/Persistence/Schema.antt =====
-- The tables: migrations/versions/0001_initial.py, and the columns that the models of
-- app/infrastructure/database/models declare.
pub mod Fitting
use secure_file_service.Domain.Entities.{Datetime}
use secure_file_service.Persistence.Models.{FileModel, AuditEventModel}
use secure_file_service.Prelude.{
  ◌^◌, ltb, ◌&&◌, length, leb, true, false, Bool, List, Option, codes, Text, ℕ, [], ◌∷◌, none, some,
}

pub data ColumnType : Type 0 where
  string : ℕ → ColumnType
  big_integer date_time json : ColumnType

pub record Column : Type 0 where
  pub name : Text
  pub type : ColumnType
  pub nullable : Bool

abbrev column : Text → ColumnType → Column
column name type = record { name = name; type = type; nullable = false }

abbrev nullable_column : Text → ColumnType → Column
nullable_column name type = record { name = name; type = type; nullable = true }

-- A table with its primary key, its other unique constraints and its indexes.
pub record Table : Type 0 where
  pub name : Text
  pub columns : List Column
  pub primary_key : Text
  pub unique : List (List Text)
  pub indexes : List (Text × List Text)

-- `upgrade` of the migration, table by table.
abbrev pub files_table : Table
files_table = record {
  name = codes "files";
  columns =
      column (codes "id") (string 36)
      ∷ column (codes "owner_id") (string 128)
      ∷ column (codes "original_filename") (string 255)
      ∷ column (codes "content_type") (string 255)
      ∷ column (codes "size_bytes") big_integer
      ∷ column (codes "sha256") (string 64)
      ∷ column (codes "storage_key") (string 512)
      ∷ column (codes "status") (string 32)
      ∷ nullable_column (codes "idempotency_key") (string 255)
      ∷ column (codes "created_at") date_time
      ∷ column (codes "updated_at") date_time
      ∷ nullable_column (codes "deleted_at") date_time
      ∷ [];
  primary_key = codes "id";
  unique = (codes "storage_key" ∷ []) ∷ (codes "owner_id" ∷ codes "idempotency_key" ∷ []) ∷ [];
  indexes = (codes "ix_files_owner_created", codes "owner_id" ∷ codes "created_at" ∷ []) ∷ [];
}

abbrev pub audit_events_table : Table
audit_events_table = record {
  name = codes "audit_events";
  columns =
      column (codes "id") (string 36)
      ∷ column (codes "file_id") (string 36)
      ∷ column (codes "event_type") (string 64)
      ∷ nullable_column (codes "actor_id") (string 128)
      ∷ nullable_column (codes "link_id") (string 36)
      ∷ nullable_column (codes "expires_at") date_time
      ∷ nullable_column (codes "request_id") (string 128)
      ∷ nullable_column (codes "client_ip") (string 64)
      ∷ column (codes "metadata") json
      ∷ column (codes "created_at") date_time
      ∷ [];
  primary_key = codes "id";
  unique = [];
  indexes = (codes "ix_audit_events_file_created", codes "file_id" ∷ codes "created_at" ∷ []) ∷ [];
}

-- What an insertion sends for a column: a text or NULL, a number, a time or NULL, or JSON.
pub data Cell : Type 0 where
  text_cell : Option Text → Cell
  number_cell : ℕ → Cell
  time_cell : Option Datetime → Cell
  json_cell : Cell

-- The cells of a model, in the order of its columns.
abbrev pub file_cells : FileModel → List Cell
file_cells m =
    text_cell (some m.id)
    ∷ text_cell (some m.owner_id)
    ∷ text_cell (some m.original_filename)
    ∷ text_cell (some m.content_type)
    ∷ number_cell m.size_bytes
    ∷ text_cell (some m.sha256)
    ∷ text_cell (some m.storage_key)
    ∷ text_cell (some m.status)
    ∷ text_cell m.idempotency_key
    ∷ time_cell (some m.created_at)
    ∷ time_cell (some m.updated_at)
    ∷ time_cell m.deleted_at
    ∷ []

abbrev pub event_cells : AuditEventModel → List Cell
event_cells m =
    text_cell (some m.id)
    ∷ text_cell (some m.file_id)
    ∷ text_cell (some m.event_type)
    ∷ text_cell m.actor_id
    ∷ text_cell m.link_id
    ∷ time_cell m.expires_at
    ∷ text_cell m.request_id
    ∷ text_cell m.client_ip
    ∷ json_cell
    ∷ time_cell (some m.created_at)
    ∷ []

-- Whether a cell has the type and the size of its column: PostgreSQL refuses a text that is longer
-- than its column, and a number beyond 63 bits.
unfoldable pub takes : ColumnType → Bool → Cell → Bool
takes (string n) nullable (text_cell none) = nullable
takes (string n) nullable (text_cell (some s)) = leb (length s) n
takes big_integer nullable (number_cell n) = ltb n (2 ^ 63)
takes date_time nullable (time_cell none) = nullable
takes date_time nullable (time_cell (some at)) = true
takes json nullable json_cell = true
takes _ _ _ = false

unfoldable pub takes_row : List Column → List Cell → Bool
unfolding takes
takes_row [] [] = true
takes_row [] (cell ∷ cells) = false
takes_row (c ∷ columns) [] = false
takes_row (c ∷ columns) (cell ∷ cells) = takes c.type c.nullable cell && takes_row columns cells
