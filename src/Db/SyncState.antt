-- ===== src/Db/SyncState.antt =====
-- src/db/sync_state.rs: the pull checkpoint of each backend.
use squirreld.Prelude.{
  String, List, [], ◌∷◌, Text, ◌≡◌, Option, none, some, if◌then◌else◌, str_eq, eq_iff, arith, refl,
}
use squirreld.Db.Sql.{Sql, write, query}

unfoldable pub checkpoint_of : String → List (String × Option Text) → Option Text
checkpoint_of backend [] = none
checkpoint_of backend ((b, hlc) ∷ rows) =
    if str_eq b backend then hlc else checkpoint_of backend rows

-- A missing row and a NULL are both `None`.
unfoldable pub get_checkpoint : String → Sql (Option Text)
get_checkpoint backend = query (λ d. checkpoint_of backend d.sync_state)

unfoldable pub put_checkpoint :
    String → Text → List (String × Option Text) → List (String × Option Text)
put_checkpoint backend hlc [] = (backend, some hlc) ∷ []
put_checkpoint backend hlc ((b, old) ∷ rows) =
    if str_eq b backend then (b, some hlc) ∷ rows else (b, old) ∷ put_checkpoint backend hlc rows

unfoldable pub set_checkpoint : String → Text → Sql (Unit {0})
set_checkpoint backend hlc =
    write (λ d. record d { sync_state = put_checkpoint backend hlc d.sync_state })

-- The checkpoint that was set is read back, and those of the other backends are what they were.
pub checkpoint_of-put :
    (backend other : String) (hlc : Text) (rows : List (String × Option Text))
    → checkpoint_of other (put_checkpoint backend hlc rows)
      ≡ (if str_eq backend other then some hlc else checkpoint_of other rows)
unfolding checkpoint_of put_checkpoint
checkpoint_of-put backend other hlc [] = refl
checkpoint_of-put backend other hlc ((b, old) ∷ rows) = ground (
  arith,
  eq_iff b backend,
  eq_iff b other,
  eq_iff backend other,
  checkpoint_of-put backend other hlc rows,
)
