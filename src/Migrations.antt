-- ===== src/Migrations.antt =====
-- alembic/versions: the operations of the schema's revision. What alembic and PostgreSQL do at one of
-- them is a parameter.
pub mod Tables
pub mod Undo
use buildos_auth_service.Prelude.{ℕ, ◌≡◌, String, Bool, Option, none, some, List, [], ◌∷◌}

pub data ColumnType : Type 0 where
  uuid long_text boolean integer timestamp : ColumnType
  varchar : ℕ → ColumnType

-- `server_default`, as SQL or as a literal.
pub data Default : Type 0 where
  sql literal : String → Default

pub data Column : Type 0 where
  column :
      (name : String) → ColumnType → (server_default : Option Default) → (nullable : Bool) → Column

-- The primary key is the column `id` of every table.
pub record Table : Type 0 where
  pub name : String
  pub columns : List Column

-- The operations of `upgrade` and of `downgrade`.
pub data Creation : Type 0 where
  create_table : Table → Creation
  create_index : (name table column_name : String) → (unique : Bool) → Creation

pub data Removal : Type 0 where
  drop_table : String → Removal
  drop_index : (name table : String) → Removal

-- What an operation makes of a schema, where the database does not refuse it.
pub record Operations (Schema : Type 0) : Type 0 where
  pub create : Creation → Schema → Option Schema
  pub remove : Removal → Schema → Option Schema

-- What the documentation of alembic and of PostgreSQL says of a drop: it removes the table or the
-- index of the name, so it undoes the operation before it, if that one has created it.
pub record IsUndone {Schema : Type 0} (operations : Operations Schema) : Type 0 where
  pub table :
      (t : Table) (s s' : Schema)
      → operations.create (create_table t) s ≡ some s'
      → operations.remove (drop_table t.name) s' ≡ some s
  pub index :
      (name table column_name : String) (unique : Bool) (s s' : Schema)
      → operations.create (create_index name table column_name unique) s ≡ some s'
      → operations.remove (drop_index name table) s' ≡ some s

module _ {Schema : Type 0} (operations : Operations Schema) where
  -- The operations one after the other, as far as they succeed.
  unfoldable pub create_all : List Creation → Schema → Option Schema
  create_all [] s = some s
  create_all (operation ∷ rest) s = elim (operations.create operation s) [
    | none ↦ none
    | some s' ↦ create_all rest s'
  ]

  unfoldable pub remove_all : List Removal → Schema → Option Schema
  remove_all [] s = some s
  remove_all (operation ∷ rest) s = elim (operations.remove operation s) [
    | none ↦ none
    | some s' ↦ remove_all rest s'
  ]
