-- ===== src/Sync/Push.antt =====
-- src/sync/mod.rs, `build_push_entry` and what the push does to the outbox: which entries stay.
pub mod Cycle
use squirreld.Prelude.{
  ℕ, zero, suc, ◌+◌, ◌<◌, ◌≤◌, String, List, [], ◌∷◌, ◌++◌, Text, ◌≡◌, ◌≢◌, ◌⊎◌, inl, inr, refl, ap,
  ◌∙◌, sym, arith, Bool, true, false, not, ◌&&◌, Option, none, some, Option-cases, Bool-cases,
  if◌then◌else◌, ◌==◌, str_eq, All, All-imp, All-keep_if, All-take, take, keep_if, map,
}
use squirreld.Error.{Result, ok, err, panic}
use squirreld.Types.{Bytes, SyncStats, no_stats}
use squirreld.Db.Sql.{
  RecordRow, OutboxEntry, Db, Conn, Sql, pure, exec, query, continue, ◌>>=◌, ◌>>◌,
}
use squirreld.Db.Keeps.{Keeps, Keeps-exec, Keeps-pure, Keeps-bind}
use squirreld.Db.Records
use squirreld.Db.Outbox.{
  Json, find_seq, update_seq, retried, contains, remove_seqs, delete_seqs, schedule_retry,
  mark_retry, backoff_ms, append_to_error_log, ready, select_batch, peek_batch, from_row,
}
use squirreld.Db.Outbox.Backoff.{find_seq-update_seq}
use squirreld.Db.Outbox.Queue.{Ascending, IsQueue}
use squirreld.Backend.{
  OutboxPushEntry, PushResult, pushed, conflict_at, transient_error, RecordBackend, IsBackend,
}
use squirreld.Sync.{
  SyncWorld, PushTimes, open_conn, push_entry, entry_of_row, build_push_entry, build_push_entries,
  cons_some, mark_synced, settle, counted, goes_on, settled, push_loop, push_ready, run_push_cycle,
  attempt, push_batch, retry_events,
}

abbrev is_some {ℓ} : {A : Type ℓ} → Option A → Bool
is_some none = false
is_some (some a) = true

abbrev pub Present : ℕ → Db → Type 0
Present k d = is_some (find_seq k d.outbox) ≡ true

-- Removing one entry removes no other.
find_seq-remove :
    (k s : ℕ) (es : List OutboxEntry)
    → find_seq k (remove_seqs (s ∷ []) es) ≡ (if s == k then none else find_seq k es)
unfolding find_seq contains
find_seq-remove k s [] = ground arith
find_seq-remove k s (e ∷ es) = ground (arith, find_seq-remove k s es)

pub delete_seqs-Present : (k s : ℕ) → s ≢ k → Keeps (Present k) (delete_seqs (s ∷ []))
unfolding delete_seqs
delete_seqs-Present k s ne = Keeps-exec _ (λ d h. ground (arith, find_seq-remove k s d.outbox))

pub mark_synced-Present :
    (k : ℕ) (i collection : String) → Keeps (Present k) (mark_synced i collection)
unfolding mark_synced
mark_synced-Present k i collection = Keeps-exec _ (λ d h. h)

module _ (j : Json) where
  schedule_retry-Present :
      (k now log_now seq : ℕ) (error : String) (entry : Option OutboxEntry)
      → Keeps (Present k) (schedule_retry j now log_now seq error entry)
  unfolding schedule_retry
  schedule_retry-Present k now log_now seq error none = Keeps-pure tt
  schedule_retry-Present k now log_now seq error (some e) = Keeps-exec _ (λ d h. ground (
    arith,
    find_seq-update_seq
        (retried e.retries error (now + backoff_ms e.retries)
          (append_to_error_log j log_now e.error_log error))
        seq k d.outbox (λ x. refl),
  ))

  pub mark_retry-Present :
      (k now log_now seq : ℕ) (error : String)
      → Keeps (Present k) (mark_retry j now log_now seq error)
  unfolding mark_retry
  mark_retry-Present k now log_now seq error =
      Keeps-bind (query (λ d. find_seq seq d.outbox)) _ (Keeps-exec _ (λ d h. h))
        (schedule_retry-Present k now log_now seq error)

-- `e` is an entry of the outbox `os`, up to its retries.
abbrev pub Known : List OutboxEntry → OutboxEntry → Type 0
Known os e =
    (e₀ : OutboxEntry) × (find_seq e.seq os ≡ some e₀)
    × (e₀.record_id ≡ e.record_id)
    × (e₀.collection ≡ e.collection)
    × (e₀.hlc ≡ e.hlc)

abbrev pub KnownPush : List OutboxEntry → OutboxPushEntry → Type 0
KnownPush os p =
    (e₀ : OutboxEntry) × (find_seq p.seq os ≡ some e₀)
    × (e₀.record_id ≡ p.record_id)
    × (e₀.collection ≡ p.collection)
    × (e₀.hlc ≡ p.hlc)

-- In a queue every entry is found by its `seq`.
All-found :
    (low high : ℕ) (es : List OutboxEntry)
    → Ascending low high es
    → All (λ e. (low < e.seq) × (find_seq e.seq es ≡ some e)) es
unfolding find_seq
All-found low high [] a = tt
All-found low high (x ∷ es) a = (
  (a.0, ground arith),
  All-imp (λ e. (x.seq < e.seq) × (find_seq e.seq es ≡ some e)) _ es
      (λ e h. (omega (arith, h.0, a.0), ground (arith, h.0, h.1))) (All-found x.seq high es a.2),
)

All-from_row : (os es : List OutboxEntry) → All (Known os) es → All (Known os) (map from_row es)
All-from_row os [] h = tt
All-from_row os (e ∷ es) h = (h.0, All-from_row os es h.1)

pub batch-Known : (now n : ℕ) (d : Db) → IsQueue d → All (Known d.outbox) (select_batch now n d)
unfolding select_batch
batch-Known now n d q = All-from_row d.outbox _ (
    All-take (Known d.outbox) n _ (
      All-keep_if (Known d.outbox) (ready now) _ (
        All-imp _ (Known d.outbox) d.outbox (λ e h. (e, h.1, refl, refl, refl))
          (All-found 0 d.outbox_seq d.outbox q))))

abbrev AllSome : List OutboxEntry → Option OutboxPushEntry → Type 0
AllSome os none = Unit
AllSome os (some p) = KnownPush os p

entry_of_row-Known :
    (os : List OutboxEntry) (e : OutboxEntry) (r : Result (Option RecordRow))
    → Known os e
    → AllSome os (entry_of_row e r)
unfolding entry_of_row
entry_of_row-Known os e (ok (some r)) h = h
entry_of_row-Known os e (ok none) h = tt
entry_of_row-Known os e (err x) h = tt
entry_of_row-Known os e panic h = tt

build_push_entry-Known :
    (os : List OutboxEntry) (e : OutboxEntry) (c : Conn)
    → Known os e
    → AllSome os (build_push_entry e c).0
unfolding build_push_entry
build_push_entry-Known os e c h = go (str_eq e.operation "delete")
  where
    go :
        (b : Bool)
        → AllSome os
            (if◌then◌else◌ {A = Option OutboxPushEntry × Conn} b
              (some (push_entry e none none 0 0), c)
              (let (r, c') = Records.get e.collection e.record_id c in (entry_of_row e r, c'))).0
    go true = h
    go false = entry_of_row-Known os e (Records.get e.collection e.record_id c).0 h

All-cons_some :
    (os : List OutboxEntry) (p : Option OutboxPushEntry) (ps : List OutboxPushEntry)
    → AllSome os p
    → All (KnownPush os) ps
    → All (KnownPush os) (cons_some p ps)
All-cons_some os none ps h hs = hs
All-cons_some os (some p) ps h hs = (h, hs)

pub build_push_entries-Known :
    (os es : List OutboxEntry) (c : Conn)
    → All (Known os) es
    → All (KnownPush os) (build_push_entries es c).0
unfolding build_push_entries
build_push_entries-Known os [] c h = tt
build_push_entries-Known os (e ∷ es) c h =
    All-cons_some os (build_push_entry e c).0 _ (build_push_entry-Known os e c h.0)
      (build_push_entries-Known os es (build_push_entry e c).1 h.1)
