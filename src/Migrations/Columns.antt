-- ===== src/Migrations/Columns.antt =====
-- The columns and indexes, as the calls of the migrations give them.
use whatsapp_api.Base.{Bool, true, false, String, Option, none, some, List}
use whatsapp_api.Migrations.{ColumnType, uuid, Column, Op, create_index}

abbrev column : String → ColumnType → Bool → Option String → Option (String × String) → Column
column n t nullable default references = record {
  name = n;
  type = t;
  nullable = nullable;
  primary_key = false;
  unique = false;
  server_default = default;
  references = references;
}

abbrev pub required : String → ColumnType → Column
required n t = column n t false none none

abbrev pub optional : String → ColumnType → Column
optional n t = column n t true none none

abbrev pub defaulted : String → ColumnType → Bool → String → Column
defaulted n t nullable default = column n t nullable (some default) none

-- A foreign key, with the table that it refers to and its `ondelete`.
abbrev pub foreign : String → String → String → Bool → Column
foreign n table ondelete nullable = column n uuid nullable none (some (table, ondelete))

abbrev pub id_column : Column
id_column = record (column "id" uuid false none none) { primary_key = true }

abbrev pub distinct : String → ColumnType → Column
distinct n t = record (column n t false none none) { unique = true }

abbrev pub index : String → String → List String → Op
index n table columns =
    create_index (record { name = n; table = table; columns = columns; unique = false })

abbrev pub unique_index : String → String → List String → Op
unique_index n table columns =
    create_index (record { name = n; table = table; columns = columns; unique = true })
