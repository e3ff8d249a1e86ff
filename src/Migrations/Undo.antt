-- ===== src/Migrations/Undo.antt =====
-- `downgrade` after `upgrade`.
use buildos_auth_service.Prelude.{
  ◌≡◌, refl, subst, ◌∙◌, none, some, List, [], ◌∷◌, ◌++◌, arith, Option-cases, inl, inr,
}
use buildos_auth_service.Migrations.{
  Creation, create_table, create_index, Removal, drop_table, drop_index, Operations, IsUndone,
  create_all, remove_all,
}
use buildos_auth_service.Migrations.Tables.{upgrade, downgrade}

-- The removal of what was created, and the removals of all that was, the last first.
abbrev inverse : Creation → Removal
inverse (create_table t) = drop_table t.name
inverse (create_index name table column_name unique) = drop_index name table

unfoldable undo : List Creation → List Removal
undo [] = []
undo (operation ∷ rest) = undo rest ++ inverse operation ∷ []

-- The downgrade is the upgrade backwards.
downgrade-undo : undo upgrade ≡ downgrade
unfolding undo
downgrade-undo = refl

module _ {Schema : Type 0} (operations : Operations Schema) (law : IsUndone operations) where
  create-undone :
      (operation : Creation) (s s' : Schema)
      → operations.create operation s ≡ some s'
      → operations.remove (inverse operation) s' ≡ some s
  create-undone (create_table t) s s' e = law.table t s s' e
  create-undone (create_index name table column_name unique) s s' e =
      law.index name table column_name unique s s' e

  remove_all-append :
      (xs ys : List Removal) (s : Schema)
      → remove_all operations (xs ++ ys) s
        ≡ elim (remove_all operations xs s) [ none ↦ none | some s' ↦ remove_all operations ys s' ]
  unfolding remove_all
  remove_all-append [] ys s = refl
  remove_all-append (x ∷ xs) ys s = elim (Option-cases (operations.remove x s)) [
    | inl failed ↦ ground (arith, failed)
    | inr (s', e) ↦ ground (arith, e, remove_all-append xs ys s')
  ]

  create_all-undone :
      (created : List Creation) (s s' : Schema)
      → create_all operations created s ≡ some s'
      → remove_all operations (undo created) s' ≡ some s
  unfolding create_all undo remove_all
  create_all-undone [] s s' e = ground (arith, e)
  create_all-undone (operation ∷ rest) s s' e =
      elim (Option-cases (operations.create operation s)) [
        | inl failed ↦ absurd (ground (arith, e, failed))
        | inr (s1, created) ↦
            remove_all-append (undo rest) (inverse operation ∷ []) s'
            ∙ rw (create_all-undone rest s1 s' (ground (arith, e, created)))
                (ground (arith, create-undone operation s s1 created))
      ]

  -- With a database in which a drop undoes the creation before it: where the upgrade of the revision
  -- succeeds, the downgrade after it succeeds too, at each of its operations, and leaves the schema as
  -- it was before the upgrade.
  pub downgrade-upgrade :
      (s s' : Schema)
      → create_all operations upgrade s ≡ some s'
      → remove_all operations downgrade s' ≡ some s
  downgrade-upgrade s s' e =
      subst (λ removals. remove_all operations removals s' ≡ some s) downgrade-undo
        (create_all-undone upgrade s s' e)
