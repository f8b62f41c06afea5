-- ===== src/Db/Index.antt =====
-- src/db/index.rs: identifiers, and the shadow and full-text tables of a collection. SQLite folds the case of ASCII letters in names, so a table or column is
-- known by its folded name.
pub mod Rows
pub mod Writes
pub mod Query
use squirreld.Prelude.{
  ℕ, zero, suc, ◌+◌, ◌/◌, ◌%◌, String, List, [], ◌∷◌, ◌++◌, Text, codes, Bool, true, false, not,
  ◌&&◌, ◌||◌, Option, none, some, if◌then◌else◌, str_eq, ltb, leb, ◌==◌, map, keep_if, cmp_text,
  Ordering,
}
use squirreld.Error.{Result, ok, err, panic, db, other_with}
use squirreld.Types.{IndexDef, IndexValue, ℤ, pos, negsuc}
use squirreld.Db.Sql.{ShadowTable, SqlValue, Sql, pure, lift, exec, ◌>>=◌, ◌>>◌}

unfoldable pub is_ascii_alphabetic : ℕ → Bool
is_ascii_alphabetic c = (leb 65 c && leb c 90) || (leb 97 c && leb c 122)

-- A letter or `_`, and these or a digit.
unfoldable pub starts_ident : ℕ → Bool
starts_ident c = is_ascii_alphabetic c || (c == 95)

unfoldable pub continues_ident : ℕ → Bool
continues_ident c = is_ascii_alphabetic c || (leb 48 c && leb c 57) || (c == 95)

unfoldable pub all_continue : Text → Bool
all_continue [] = true
all_continue (c ∷ cs) = continues_ident c && all_continue cs

unfoldable pub is_ident : Text → Bool
is_ident [] = false
is_ident (c ∷ cs) = starts_ident c && all_continue cs

-- The error shows the name quoted.
unfoldable pub sanitize_ident : String → Result String
sanitize_ident name =
    if is_ident (codes name) then ok name else err (other_with "invalid identifier: " (codes name))

abbrev prepend : String → Result (List String) → Result (List String)
prepend n (ok ns) = ok (n ∷ ns)
prepend n (err e) = err e
prepend n panic = panic

abbrev sanitize_next : Result String → Result (List String) → Result (List String)
sanitize_next (ok n) rest = prepend n rest
sanitize_next (err e) rest = err e
sanitize_next panic rest = panic

-- `map(sanitize_ident).collect::<Result<Vec<_>>>()`: the first error in order.
unfoldable pub sanitize_all : List String → Result (List String)
sanitize_all [] = ok []
sanitize_all (n ∷ ns) = sanitize_next (sanitize_ident n) (sanitize_all ns)

abbrev pub field_names : IndexDef → List String
field_names def = map (λ f. f.name) def.fields

unfoldable pub fold_case : Text → Text
fold_case [] = []
fold_case (c ∷ cs) = (if leb 65 c && leb c 90 then c + 32 else c) ∷ fold_case cs

abbrev pub folded : String → Text
folded name = fold_case (codes name)

unfoldable pub text_eq : Text → Text → Bool
text_eq a b = elim (cmp_text a b) [ Ordering.eq ↦ true | _ ↦ false ]

unfoldable pub has_text : Text → List Text → Bool
has_text t [] = false
has_text t (x ∷ xs) = text_eq t x || has_text t xs

unfoldable pub all_in : List Text → List Text → Bool
all_in [] cols = true
all_in (n ∷ ns) cols = has_text n cols && all_in ns cols

unfoldable pub distinct : List Text → Bool
distinct [] = true
distinct (n ∷ ns) = not (has_text n ns) && distinct ns

unfoldable pub find_table : Text → List ShadowTable → Option ShadowTable
find_table name [] = none
find_table name (t ∷ ts) = if text_eq t.name name then some t else find_table name ts

unfoldable pub update_table :
    (ShadowTable → ShadowTable) → Text → List ShadowTable → List ShadowTable
update_table f name [] = []
update_table f name (t ∷ ts) = (if text_eq t.name name then f t else t) ∷ update_table f name ts

-- `CREATE .. TABLE IF NOT EXISTS`: a table that exists stays as it is, whatever its columns; a column
-- named twice is refused. (Names that are SQL keywords are refused too; that is one of the faults.)
unfoldable pub create_table : Text → List Text → List ShadowTable → Result (List ShadowTable)
create_table name cols ts = elim (find_table name ts) [
  | some t ↦ ok ts
  | none ↦
      if distinct (codes "record_id" ∷ cols)
      then ok (ts ++ (record { name = name; columns = cols; rows = [] } ∷ []))
      else err db
]

abbrev or_keep {ℓ} : {A : Type ℓ} → A → Result A → A
or_keep old (ok new) = new
or_keep old (err e) = old
or_keep old panic = old

abbrev outcome {ℓ} : {A : Type ℓ} → Result A → Result (Unit {0})
outcome (ok a) = ok tt
outcome (err e) = err e
outcome panic = panic

-- A statement on the shadow tables (`sidx_..`) or on the full-text tables (`fts_..`).
abbrev pub on_sidx : (List ShadowTable → Result (List ShadowTable)) → Sql (Unit {0})
on_sidx f = exec (λ d. (outcome (f d.sidx), record d { sidx = or_keep d.sidx (f d.sidx) }))

abbrev pub on_fts : (List ShadowTable → Result (List ShadowTable)) → Sql (Unit {0})
on_fts f = exec (λ d. (outcome (f d.fts), record d { fts = or_keep d.fts (f d.fts) }))

unfoldable pub create_shadow_columns : String → List String → Sql (Unit {0})
create_shadow_columns col [] = pure tt
create_shadow_columns col (f ∷ fs) = do
  cols ← lift (sanitize_all (f ∷ fs))
  on_sidx (create_table (folded col) (map folded cols))

unfoldable pub create_shadow_table : IndexDef → Sql (Unit {0})
create_shadow_table def = do
  col ← lift (sanitize_ident def.collection)
  create_shadow_columns col (field_names def)

unfoldable pub create_fts_columns : String → List String → Sql (Unit {0})
create_fts_columns col [] = pure tt
create_fts_columns col (f ∷ fs) = do
  cols ← lift (sanitize_all (f ∷ fs))
  on_fts (create_table (folded col) (map folded cols))

unfoldable pub create_fts_table : IndexDef → Sql (Unit {0})
create_fts_table def = do
  col ← lift (sanitize_ident def.collection)
  create_fts_columns col def.fts_fields
