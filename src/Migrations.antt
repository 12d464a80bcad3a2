-- ===== src/Migrations.antt =====
-- alembic/versions: the migrations, as lists of the operations that they run. A migration runs in
-- one transaction, so that it has no result where PostgreSQL refuses an operation. The lists of a
-- schema have the newest entry first.
pub mod Columns
pub mod Tables
pub mod Events
pub mod Initial
pub mod ApiKeys
pub mod Frame
pub mod Orm
pub mod Laws
use whatsapp_api.Base.{
  ℕ, Bool, true, false, not, ◌&&◌, ◌||◌, String, Option, none, some, List, [], ◌∷◌, ◌++◌, select,
  exists, str_eq, if◌then◌else◌,
}

-- The types of `sqlalchemy` and of its PostgreSQL dialect, with the length of a `String` and the
-- name of an `ENUM`.
pub data ColumnType : Type 0 where
  uuid boolean integer big_integer datetime jsonb long_text : ColumnType
  string : ℕ → ColumnType
  enum : String → ColumnType

-- `sa.Column`: `references` is the table of a foreign key, with its `ondelete`.
pub record Column : Type 0 where
  pub name : String
  pub type : ColumnType
  pub nullable : Bool
  pub primary_key : Bool
  pub unique : Bool
  pub server_default : Option String
  pub references : Option (String × String)

-- A table with its named unique constraints.
pub record Table : Type 0 where
  pub name : String
  pub columns : List Column
  pub uniques : List (String × List String)

pub record Index : Type 0 where
  pub name : String
  pub table : String
  pub columns : List String
  pub unique : Bool

-- The operations: `enum.create(bind, checkfirst=True)`, those of `op`, and `DROP TYPE IF EXISTS`.
pub data Op : Type 0 where
  create_type : String → List String → Op
  create_table : Table → Op
  create_index : Index → Op
  drop_index : String → Op
  drop_table : String → Op
  drop_type : String → Op

pub record Schema : Type 0 where
  pub types : List (String × List String)
  pub tables : List Table
  pub indexes : List Index

abbrev pub has_type : String → List (String × List String) → Bool
has_type n types = exists (λ (t : String × List String). str_eq t.0 n) types

abbrev pub has_table : String → List Table → Bool
has_table n tables = exists (λ (t : Table). str_eq t.name n) tables

abbrev pub has_index : String → List Index → Bool
has_index n indexes = exists (λ (i : Index). str_eq i.name n) indexes

abbrev refers_to : String → Column → Bool
refers_to n c = elim c.references [ none ↦ false | some r ↦ str_eq r.0 n ]

abbrev is_enum : String → ColumnType → Bool
is_enum n (enum m) = str_eq m n
is_enum n _ = false

-- Does a table refer to the table, or use the type?
abbrev pub refers : String → List Table → Bool
refers n tables = exists (λ (t : Table). exists (refers_to n) t.columns) tables

abbrev pub uses : String → List Table → Bool
uses n tables = exists (λ (t : Table). exists (λ (c : Column). is_enum n c.type) t.columns) tables

abbrev pub is_on : String → Index → Bool
is_on n i = str_eq i.table n

abbrev pub found_in : Option (String × String) → List Table → Bool
found_in none tables = true
found_in (some r) tables = has_table r.0 tables

abbrev pub all_in : List Column → List Table → Bool
all_in [] tables = true
all_in (c ∷ cs) tables = found_in c.references tables && all_in cs tables

abbrev pub known_type : ColumnType → List (String × List String) → Bool
known_type (enum n) types = has_type n types
known_type _ types = true

-- The enums of the columns are there: `create_type=False` makes none.
abbrev pub all_typed : List Column → List (String × List String) → Bool
all_typed [] types = true
all_typed (c ∷ cs) types = known_type c.type types && all_typed cs types

abbrev has_columns : List String → List Column → Bool
has_columns [] columns = true
has_columns (n ∷ ns) columns =
    exists (λ (c : Column). str_eq c.name n) columns && has_columns ns columns

abbrev pub is_indexed : Index → Table → Bool
is_indexed i t = str_eq t.name i.table && has_columns i.columns t.columns

abbrev pub discard {ℓ} : {A : Type ℓ} → (A → Bool) → List A → List A
discard p xs = select (λ x. not (p x)) xs

abbrev pub guard {ℓ} : {A : Type ℓ} → Bool → A → Option A
guard true a = some a
guard false a = none

-- What PostgreSQL does with one operation.
unfoldable pub step : Op → Schema → Option Schema
step (create_type n labels) s =
    some (if has_type n s.types then s else record s { types = (n, labels) ∷ s.types })
step (create_table t) s =
    guard
      (not (has_table t.name s.tables)
        && (all_in t.columns (t ∷ s.tables) && all_typed t.columns s.types))
      (record s { tables = t ∷ s.tables })
step (create_index i) s =
    guard (not (has_index i.name s.indexes) && exists (is_indexed i) s.tables)
      (record s { indexes = i ∷ s.indexes })
step (drop_index n) s =
    guard (has_index n s.indexes)
      (record s { indexes = discard (λ (i : Index). str_eq i.name n) s.indexes })
step (drop_table n) s =
    guard
      (has_table n s.tables && not (refers n (discard (λ (t : Table). str_eq t.name n) s.tables)))
      (record s {
        tables = discard (λ (t : Table). str_eq t.name n) s.tables;
        indexes = discard (is_on n) s.indexes;
      })
step (drop_type n) s =
    guard (not (uses n s.tables))
      (record s { types = discard (λ (t : String × List String). str_eq t.0 n) s.types })

abbrev pub then_run : (Schema → Option Schema) → Option Schema → Option Schema
then_run k none = none
then_run k (some s) = k s

unfoldable pub run : List Op → Schema → Option Schema
run [] s = some s
run (o ∷ ops) s = then_run (run ops) (step o s)

abbrev pub empty : Schema
empty = record { types = []; tables = []; indexes = [] }
