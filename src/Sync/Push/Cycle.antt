-- ===== src/Sync/Push/Cycle.antt =====
-- src/sync/mod.rs, `run_push_cycle`: the outbox and the remote before and after it.
use squirreld.Prelude.{
  ℕ, none, String, List, [], ◌∷◌, ◌≡◌, ◌≢◌, ◌⊎◌, inl, inr, refl, ap, ◌∙◌, arith, Bool, true, false,
  Option, some, Bool-cases, if◌then◌else◌, ◌==◌, str_eq, All, Text,
}
use squirreld.Error.{Result, ok, err, panic}
use squirreld.Types.{SyncStats, no_stats}
use squirreld.Db.Sql.{OutboxEntry, Db, Conn, exec, ◌>>◌, next_fails, next_faults}
use squirreld.Db.Keeps.{Keeps, Keeps-exec, Keeps-bind}
use squirreld.Db.Records
use squirreld.Db.Outbox.{Json, find_seq, peek_batch}
use squirreld.Db.Outbox.Queue.{IsQueue}
use squirreld.Backend.{
  OutboxPushEntry, PushResult, pushed, conflict_at, transient_error, RecordBackend, IsBackend,
}
use squirreld.Sync.{
  SyncWorld, if_opened, PushTimes, open_conn, build_push_entry, build_push_entries, push_entry,
  entry_of_row, settle, goes_on, push_loop, push_ready, run_push_cycle, push_batch,
}
use squirreld.Sync.Push.{
  Present, Known, KnownPush, delete_seqs-Present, mark_synced-Present, mark_retry-Present,
  batch-Known, build_push_entries-Known,
}

open_conn-Keeps : (P : Db → Type 0) → Keeps P open_conn
unfolding open_conn
open_conn-Keeps P = Keeps-exec _ (λ d h. h)

-- Building the entries only reads.
build_push_entry-keeps :
    (P : Db → Type 0) (e : OutboxEntry) (c : Conn) → P c.tables → P (build_push_entry e c).1.tables
unfolding build_push_entry Records.get
build_push_entry-keeps P e c h = go (str_eq e.operation "delete")
  where
    go :
        (b : Bool)
        → P
            (if◌then◌else◌ {A = Option OutboxPushEntry × Conn} b
              (some (push_entry e none none 0 0), c)
              (let (r, c') = Records.get e.collection e.record_id c in
                (entry_of_row e r, c'))).1.tables
    go true = h
    go false = (Keeps-exec {P = P} _ (λ d h. h)).at c h

build_push_entries-keeps :
    (P : Db → Type 0) (es : List OutboxEntry) (c : Conn)
    → P c.tables
    → P (build_push_entries es c).1.tables
unfolding build_push_entries
build_push_entries-keeps P [] c h = h
build_push_entries-keeps P (e ∷ es) c h =
    build_push_entries-keeps P es _ (build_push_entry-keeps P e c h)

alike : (s k : ℕ) → (s == k) ≡ true → s ≡ k
alike s k h = ground (arith, h)

loop_case :
    {S : Type 0} (P : SyncWorld S → Type 0) (opened : Result (Unit {0})) (g : Bool)
    (rest stop lost : SyncStats × SyncWorld S)
    → P rest.1
    → P stop.1
    → P lost.1
    → P (if_opened opened (if g then rest else stop) lost).1
loop_case P (ok a) true rest stop lost hr hs hl = hr
loop_case P (ok a) false rest stop lost hr hs hl = hs
loop_case P (err e) g rest stop lost hr hs hl = hl
loop_case P panic g rest stop lost hr hs hl = hl

distinct : (s k : ℕ) → (s == k) ≡ false → s ≢ k
distinct s k h = λ q. ground (arith, h, q)

abbrev OkAll : (OutboxEntry → Type 0) → Result (List OutboxEntry) → Type 0
OkAll P (ok es) = All P es
OkAll P _ = Unit

-- The batch that a cycle reads holds entries of the outbox.
peek-Known :
    (now n : ℕ) (c : Conn)
    → IsQueue c.tables
    → OkAll (Known c.tables.outbox) ((do open_conn; peek_batch now n) c).0
unfolding open_conn peek_batch exec
peek-Known now n c q = elim (Bool-cases (next_fails c.faults)) [
  | inl x ↦ rw x tt
  | inr x ↦ rw x (elim (Bool-cases (next_fails (next_faults c.faults))) [
    | inl y ↦ rw y tt
    | inr y ↦ rw y (batch-Known now n c.tables q)
  ])
]

peek-Keeps : (P : Db → Type 0) (now n : ℕ) → Keeps P (do open_conn; peek_batch now n)
unfolding peek_batch
peek-Keeps P now n = Keeps-bind open_conn _ (open_conn-Keeps P) (λ _. Keeps-exec _ (λ d h. h))

module _ {S : Type 0} (b : RecordBackend S) (Covers : S → String → String → Text → Type 0)
    (back : IsBackend b Covers) (j : Json) (t : PushTimes) where
  -- The entry `e` of number `k` is still in the outbox, or the remote has its record at least as new.
  abbrev Held : ℕ → OutboxEntry → Db → S → Type 0
  Held k e d s = Present k d ⊎ Covers s e.record_id e.collection e.hlc

  module _ (os : List OutboxEntry) (k : ℕ) (e : OutboxEntry) (found : find_seq k os ≡ some e) where
    covered :
        (p : OutboxPushEntry) (s : S)
        → KnownPush os p
        → p.seq ≡ k
        → Covers s p.record_id p.collection p.hlc
        → Covers s e.record_id e.collection e.hlc
    covered p s (e₀, f, i, c, h) same cov =
        let q : e ≡ e₀ = ground (arith, f, found, same) in
        rw (ap (λ x. x.record_id) q ∙ i, ap (λ x. x.collection) q ∙ c, ap (λ x. x.hlc) q ∙ h) cov

    settle-Held :
        (p : OutboxPushEntry) (s : S) (c : Conn) (r : PushResult)
        → (b.push_one p s).0 ≡ r
        → KnownPush os p
        → Present k c.tables
        → Held k e (settle b j t p r c).tables (b.push_one p s).1
    unfolding settle
    settle-Held p s c (pushed seqs) q known h =
        let a = back.push_ok p s seqs q in
        elim (Bool-cases (p.seq == k)) [
          | inl same ↦ inr (covered p _ known (alike p.seq k same) a.1)
          | inr other ↦ inl (
              rw a.0 (
                (mark_synced-Present k p.record_id p.collection).at _
                  ((delete_seqs-Present k p.seq (distinct p.seq k other)).at c h)))
        ]
    settle-Held p s c (conflict_at i seq) q known h =
        let a = back.push_conflict p s i seq q in
        elim (Bool-cases (p.seq == k)) [
          | inl same ↦ inr (covered p _ known (alike p.seq k same) a.1)
          | inr other ↦ inl (rw a.0 ((delete_seqs-Present k p.seq (distinct p.seq k other)).at c h))
        ]
    settle-Held p s c (transient_error error) q known h =
        inl ((mark_retry-Present j k t.retry_ms t.log_ms p.seq error).at c h)

    settled-Held :
        (p : OutboxPushEntry) (w : SyncWorld S)
        → KnownPush os p
        → Held k e w.conn.tables w.remote
        → Held k e
            (settle b j t p (b.push_one p w.remote).0 (open_conn w.conn).1).tables
            (b.push_one p w.remote).1
    settled-Held p w known (inl h) =
        settle-Held p w.remote _ (b.push_one p w.remote).0 refl known
          ((open_conn-Keeps (Present k)).at w.conn h)
    settled-Held p w known (inr h) =
        inr (back.push_keeps p w.remote e.record_id e.collection e.hlc h)

    opened-Held :
        (p : OutboxPushEntry) (w : SyncWorld S)
        → Held k e w.conn.tables w.remote
        → Held k e (open_conn w.conn).1.tables (b.push_one p w.remote).1
    opened-Held p w (inl h) = inl ((open_conn-Keeps (Present k)).at w.conn h)
    opened-Held p w (inr h) = inr (back.push_keeps p w.remote e.record_id e.collection e.hlc h)

    push_loop-Held :
        (ps : List OutboxPushEntry) (st : SyncStats) (w : SyncWorld S)
        → All (KnownPush os) ps
        → Held k e w.conn.tables w.remote
        → Held k e (push_loop b j t ps st w).1.conn.tables (push_loop b j t ps st w).1.remote
    unfolding push_loop
    push_loop-Held [] st w known h = h
    push_loop-Held (p ∷ ps) st w known h =
        loop_case (λ x. Held k e x.conn.tables x.remote) (open_conn w.conn).0
          (goes_on b j t (b.push_one p w.remote).0) _ _ _
          (push_loop-Held ps _ _ known.1 (settled-Held p w known.0 h)) (settled-Held p w known.0 h)
          (opened-Held p w h)

  push_ready-Held :
      (r : Result (List OutboxEntry)) (os : List OutboxEntry) (w : SyncWorld S) (k : ℕ)
      (e : OutboxEntry)
      → find_seq k os ≡ some e
      → OkAll (Known os) r
      → Held k e w.conn.tables w.remote
      → Held k e (push_ready b j t r w).1.conn.tables (push_ready b j t r w).1.remote
  unfolding push_ready
  push_ready-Held (ok es) os w k e found known h =
      push_loop-Held os k e found (build_push_entries es w.conn).0 no_stats _
        (build_push_entries-Known os es w.conn known) (built h)
    where
      built :
          Held k e w.conn.tables w.remote
          → Held k e (build_push_entries es w.conn).1.tables w.remote
      built (inl h) = inl (build_push_entries-keeps (Present k) es w.conn h)
      built (inr h) = inr h
  push_ready-Held (err x) os w k e found known h = h
  push_ready-Held panic os w k e found known h = h

  -- For a backend that keeps its contract and an outbox that is a queue, whichever statements fail
  -- and whatever the remote answers: an entry that is in the outbox before a push cycle is in the
  -- outbox after it, or the remote holds a record of its key at least as new.
  pub push_cycle_safe :
      (w : SyncWorld S) (k : ℕ) (e : OutboxEntry)
      → IsQueue w.conn.tables
      → find_seq k w.conn.tables.outbox ≡ some e
      → Present k (run_push_cycle b j t w).1.conn.tables
        ⊎ Covers (run_push_cycle b j t w).1.remote e.record_id e.collection e.hlc
  unfolding run_push_cycle
  push_cycle_safe w k e q found =
      push_ready-Held _ w.conn.tables.outbox _ k e found (peek-Known t.batch_ms push_batch w.conn q)
        (inl ((peek-Keeps (Present k) t.batch_ms push_batch).at w.conn (rw found refl)))
