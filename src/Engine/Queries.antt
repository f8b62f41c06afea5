-- ===== src/Engine/Queries.antt =====
-- src/engine.rs, `handle_query`, and how rows become what is listed.
use squirreld.Prelude.{ℕ, suc, String, List, [], ◌∷◌}
use squirreld.Error.{Result, ok, err, panic}
use squirreld.Types.{RecordMeta, QueryOpts}
use squirreld.Db.Sql.{RecordRow, Db, SqlValue, lift, ◌>>=◌}
use squirreld.Db.Index.Query.{query}
use squirreld.Engine.{ActorState, index_of, to_meta}

-- A panic in a conversion ends the collection.
unfoldable pub cons_meta : Result RecordMeta → Result (List RecordMeta) → Result (List RecordMeta)
cons_meta (ok m) (ok ms) = ok (m ∷ ms)
cons_meta (ok m) r = r
cons_meta (err e) r = err e
cons_meta panic r = panic

-- `wall k` is the wall clock at the k-th row, which is read where a stored clock does not parse.
unfoldable pub to_metas : (ℕ → ℕ) → ℕ → List RecordRow → Result (List RecordMeta)
to_metas wall k [] = ok []
to_metas wall k (r ∷ rs) = cons_meta (to_meta (wall k) r) (to_metas wall (suc k) rs)

-- `run` is SQLite, as in `query`; `wall k` the wall clock at the k-th row.
unfoldable pub handle_query :
    (String → List SqlValue → Db → Result (List RecordRow))
    → ActorState
    → (ℕ → ℕ)
    → String
    → QueryOpts
    → Result (List RecordMeta) × ActorState
handle_query run s wall collection opts =
    let (r, c) =
      (query run collection (index_of collection s.indexes) opts
          >>= (λ rows. lift (to_metas wall 0 rows)))
        s.conn in
    (r, record s { conn = c })
