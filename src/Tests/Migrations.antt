-- ===== src/Tests/Migrations.antt =====
-- The migration on a database that remembers what it has created, the last first.
use buildos_auth_service.Prelude.{
  ◌≡◌, refl, Option, none, some, List, [], ◌∷◌, ◌&&◌, str_eq, str_eq_self, arith, if◌then◌else◌,
}
use buildos_auth_service.Migrations.{
  Creation, create_table, create_index, Removal, drop_table, drop_index, Operations, IsUndone,
  create_all, remove_all,
}
use buildos_auth_service.Migrations.Tables.{upgrade, downgrade}
use buildos_auth_service.Migrations.Undo.{downgrade-upgrade}

abbrev removed : Removal → List Creation → Option (List Creation)
removed (drop_table name) (create_table t ∷ s) = if str_eq t.name name then some s else none
removed (drop_index name table) (create_index created of column_name unique ∷ s) =
    if str_eq created name && str_eq of table then some s else none
removed _ _ = none

abbrev stack : Operations (List Creation)
stack = record { create = λ operation s. some (operation ∷ s); remove = removed }

stack-IsUndone : IsUndone stack
stack-IsUndone = record {
  table = λ t s s' e.
      let written : s' ≡ create_table t ∷ s = ground (arith, e) in
      rw written (ground (arith, str_eq_self t.name));
  index = λ name table column_name unique s s' e.
      let written : s' ≡ create_index name table column_name unique ∷ s = ground (arith, e) in
      rw written (ground (arith, str_eq_self name, str_eq_self table));
}

-- All of them on top, the last first.
unfoldable on_top : List Creation → List Creation → List Creation
on_top [] s = s
on_top (operation ∷ rest) s = on_top rest (operation ∷ s)

downgrade-upgrade_example : remove_all stack downgrade (on_top upgrade []) ≡ some []
unfolding create_all on_top
downgrade-upgrade_example = downgrade-upgrade stack stack-IsUndone [] (on_top upgrade []) refl
