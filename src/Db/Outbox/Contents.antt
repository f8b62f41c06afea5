-- ===== src/Db/Outbox/Contents.antt =====
-- src/db/outbox.rs: which entries the outbox holds after `append`, `delete_seqs` and `clear_error`.
use squirreld.Prelude.{
  ℕ, suc, ◌<◌, String, List, [], ◌∷◌, ◌++◌, Text, ◌≡◌, ◌≢◌, ◌⊎◌, inl, inr, refl, arith, Bool, true,
  false, Option, none, some, if◌then◌else◌, ◌==◌, All, Bool-cases,
}
use squirreld.Error.{ok}
use squirreld.Types.{Bytes}
use squirreld.Db.Sql.{OutboxEntry, Db, Conn, exec, next_fails, write}
use squirreld.Db.Outbox.{
  append_entry, append, contains, remove_seqs, delete_seqs, clear_error, find_seq,
}
use squirreld.Db.Outbox.Queue.{Ascending, IsQueue}

-- The number stands in the list.
abbrev pub IsAmong : ℕ → List ℕ → Type 0
IsAmong k [] = ◌≡◌ {A = Bool} true false
IsAmong k (s ∷ ss) = (s ≡ k) ⊎ IsAmong k ss

IsAmong-or_apart :
    (k : ℕ) (seqs : List ℕ)
    → (IsAmong k seqs × (contains seqs k ≡ true))
      ⊎ (All (λ s. s ≢ k) seqs × (contains seqs k ≡ false))
unfolding contains
IsAmong-or_apart k [] = inr (tt, refl)
IsAmong-or_apart k (s ∷ ss) = elim (Bool-cases (s == k)) [
  | inl same ↦ inl (inl (ground (arith, same)), rw same refl)
  | inr differ ↦
      let apart : s ≢ k = ground (arith, differ) in
      elim (IsAmong-or_apart k ss) [
        | inl (later, found) ↦ inl (inr later, rw differ found)
        | inr (all, none_found) ↦ inr ((apart, all), rw differ none_found)
      ]
]

find_seq-remove_seqs :
    (k : ℕ) (seqs : List ℕ) (es : List OutboxEntry)
    → find_seq k (remove_seqs seqs es) ≡ (if contains seqs k then none else find_seq k es)
unfolding find_seq
find_seq-remove_seqs k seqs [] = ground arith
find_seq-remove_seqs k seqs (e ∷ es) = elim (Bool-cases (e.seq == k)) [
  | inl same ↦
      let at : e.seq ≡ k = ground (arith, same) in
      rw at (ground (arith, find_seq-remove_seqs k seqs es))
  | inr differ ↦ ground (arith, differ, find_seq-remove_seqs k seqs es)
]

-- No entry has a number above the counter.
find_seq-Ascending :
    (k low high : ℕ) (es : List OutboxEntry)
    → Ascending low high es
    → high < k
    → find_seq k es ≡ none
unfolding find_seq
find_seq-Ascending k low high [] a h = refl
find_seq-Ascending k low high (e ∷ es) a h =
    ground (arith, a.1, find_seq-Ascending k e.seq high es a.2 h)

find_seq-snoc :
    (k : ℕ) (es : List OutboxEntry) (e : OutboxEntry)
    → find_seq e.seq es ≡ none
    → find_seq k (es ++ (e ∷ [])) ≡ (if k == e.seq then some e else find_seq k es)
unfolding find_seq
find_seq-snoc k [] e h = ground arith
find_seq-snoc k (x ∷ es) e h = ground (arith, h, find_seq-snoc k es e)

write_ok :
    (f : Db → Db) (c : Conn)
    → next_fails c.faults ≡ false
    → ((write f c).0 ≡ ok tt) × ((write f c).1.tables ≡ f c.tables)
unfolding exec
write_ok f c h = (rw h refl, rw h refl)

find_seq-delete_seqs :
    (seqs : List ℕ) (k : ℕ) (c : Conn)
    → next_fails c.faults ≡ false
    → ((delete_seqs seqs c).0 ≡ ok tt)
      × (find_seq k (delete_seqs seqs c).1.tables.outbox
          ≡ (if contains seqs k then none else find_seq k c.tables.outbox))
unfolding delete_seqs contains
find_seq-delete_seqs [] k c h = (refl, refl)
find_seq-delete_seqs (s ∷ ss) k c h =
    let (runs, after) = write_ok (λ d. record d { outbox = remove_seqs (s ∷ ss) d.outbox }) c h in
    (runs, rw after (find_seq-remove_seqs k (s ∷ ss) c.tables.outbox))

find_seq-clear_error :
    (seq k : ℕ) (c : Conn)
    → next_fails c.faults ≡ false
    → ((clear_error seq c).0 ≡ ok tt)
      × (find_seq k (clear_error seq c).1.tables.outbox
          ≡ (if seq == k then none else find_seq k c.tables.outbox))
unfolding clear_error contains
find_seq-clear_error seq k c h =
    let (runs, after) = write_ok (λ d. record d { outbox = remove_seqs (seq ∷ []) d.outbox }) c h in
    (runs, rw after (ground (arith, find_seq-remove_seqs k (seq ∷ []) c.tables.outbox)))

-- On an outbox whose numbers ascend up to the counter, and where the next statement does not fail, each
-- of the three returns. After an append the entry with the next number is the new one, with these
-- values, without retries and due at once; after `delete_seqs` no entry has a number that it was given,
-- and after `clear_error` none has its number. Each leaves the entries of all other numbers as they
-- were.
pub outbox_contents :
    (record_id collection operation : String) (hlc : Text) (payload : Option Bytes) (now : ℕ)
    (seqs : List ℕ) (seq k : ℕ) (c : Conn)
    → IsQueue c.tables
    → next_fails c.faults ≡ false
    → ((append record_id collection operation hlc payload now c).0 ≡ ok tt)
      × (find_seq k (append record_id collection operation hlc payload now c).1.tables.outbox ≡ (
          if k == suc c.tables.outbox_seq
          then some (record {
            seq = suc c.tables.outbox_seq;
            record_id = record_id;
            collection = collection;
            operation = operation;
            hlc = hlc;
            payload = payload;
            created_at = now;
            next_retry_at = 0;
            retries = 0;
            last_error = none;
            error_log = none;
          })
          else find_seq k c.tables.outbox))
      × ((delete_seqs seqs c).0 ≡ ok tt)
      × ((IsAmong k seqs × (find_seq k (delete_seqs seqs c).1.tables.outbox ≡ none))
          ⊎ (All (λ s. s ≢ k) seqs
              × (find_seq k (delete_seqs seqs c).1.tables.outbox ≡ find_seq k c.tables.outbox)))
      × ((clear_error seq c).0 ≡ ok tt)
      × (find_seq k (clear_error seq c).1.tables.outbox
          ≡ (if seq == k then none else find_seq k c.tables.outbox))
unfolding append append_entry
outbox_contents record_id collection operation hlc payload now seqs seq k c q h =
    let (appends, appended) =
      write_ok (append_entry record_id collection operation hlc payload now) c h in
    let new =
      find_seq-Ascending (suc c.tables.outbox_seq) 0 c.tables.outbox_seq c.tables.outbox q
        (omega arith) in
    let (deletes, deleted) = find_seq-delete_seqs seqs k c h in
    let (clears, cleared) = find_seq-clear_error seq k c h in
    (
      appends,
      rw appended (find_seq-snoc k c.tables.outbox _ new),
      deletes,
      elim (IsAmong-or_apart k seqs) [
        | inl (among, found) ↦ inl (among, rw (deleted, found) refl)
        | inr (apart, found) ↦ inr (apart, rw (deleted, found) refl)
      ],
      clears,
      cleared,
    )
