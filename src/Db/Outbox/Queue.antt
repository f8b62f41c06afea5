-- ===== src/Db/Outbox/Queue.antt =====
-- src/db/outbox.rs: the order of the rows of the outbox.
use squirreld.Prelude.{
  ℕ, suc, ◌≤◌, ◌<◌, String, List, [], ◌∷◌, ◌++◌, Text, ◌≡◌, refl, arith, Bool, true, false, Option,
  none, some, if◌then◌else◌, ◌==◌, keep_if,
}
use squirreld.Types.{Bytes}
use squirreld.Db.Sql.{OutboxEntry, Db, query}
use squirreld.Db.Keeps.{Keeps, Keeps-exec, Keeps-pure, Keeps-bind}
use squirreld.Db.Outbox.{
  append_entry, append, delete_seqs, update_seq, schedule_retry, mark_retry, clear_error, Json,
  find_seq,
}

-- Every `seq` is above `low` and above those before it, and at most `high`.
abbrev pub Ascending : ℕ → ℕ → List OutboxEntry → Type 0
Ascending low high [] = Unit
Ascending low high (e ∷ es) = (low < e.seq) × (e.seq ≤ high) × Ascending e.seq high es

abbrev pub IsQueue : Db → Type 0
IsQueue d = Ascending 0 d.outbox_seq d.outbox

Ascending-below :
    {low low' : ℕ} (high : ℕ) (es : List OutboxEntry)
    → low' ≤ low
    → Ascending low high es
    → Ascending low' high es
Ascending-below high [] h a = tt
Ascending-below high (e ∷ es) h a = (omega arith, a.1, a.2)

Ascending-snoc :
    (low high : ℕ) (es : List OutboxEntry) (e : OutboxEntry)
    → low ≤ high
    → e.seq ≡ suc high
    → Ascending low high es
    → Ascending low (suc high) (es ++ (e ∷ []))
Ascending-snoc low high [] e h s a = (omega arith, omega arith, tt)
Ascending-snoc low high (x ∷ es) e h s a =
    (a.0, omega arith, Ascending-snoc x.seq high es e a.1 s a.2)

Ascending-keep_if :
    (p : OutboxEntry → Bool) (low high : ℕ) (es : List OutboxEntry)
    → Ascending low high es
    → Ascending low high (keep_if p es)
Ascending-keep_if p low high [] a = tt
Ascending-keep_if p low high (e ∷ es) a = go (p e) (Ascending-keep_if p e.seq high es a.2)
  where
    go :
        (b : Bool)
        → Ascending e.seq high (keep_if p es)
        → Ascending low high (if b then e ∷ keep_if p es else keep_if p es)
    go true ih = (a.0, a.1, ih)
    go false ih = Ascending-below high (keep_if p es) (omega arith) ih

Ascending-update_seq :
    (f : OutboxEntry → OutboxEntry) (seq low high : ℕ) (es : List OutboxEntry)
    → ((e : OutboxEntry) → (f e).seq ≡ e.seq)
    → Ascending low high es
    → Ascending low high (update_seq f seq es)
unfolding update_seq
Ascending-update_seq f seq low high [] keep a = tt
Ascending-update_seq f seq low high (e ∷ es) keep a =
    go (e.seq == seq) (Ascending-update_seq f seq e.seq high es keep a.2)
  where
    go :
        (b : Bool)
        → Ascending e.seq high (update_seq f seq es)
        → Ascending low high ((if b then f e else e) ∷ update_seq f seq es)
    go true ih = rw (keep e) (a.0, a.1, ih)
    go false ih = (a.0, a.1, ih)

append_entry-IsQueue :
    (record_id collection operation : String) (hlc : Text) (payload : Option Bytes) (now : ℕ)
    (d : Db)
    → IsQueue d
    → IsQueue (append_entry record_id collection operation hlc payload now d)
unfolding append_entry
append_entry-IsQueue record_id collection operation hlc payload now d q =
    Ascending-snoc 0 d.outbox_seq d.outbox _ (omega arith) refl q

append-IsQueue :
    (record_id collection operation : String) (hlc : Text) (payload : Option Bytes) (now : ℕ)
    → Keeps IsQueue (append record_id collection operation hlc payload now)
unfolding append
append-IsQueue record_id collection operation hlc payload now =
    Keeps-exec _ (append_entry-IsQueue record_id collection operation hlc payload now)

delete_seqs-IsQueue : (seqs : List ℕ) → Keeps IsQueue (delete_seqs seqs)
unfolding delete_seqs
delete_seqs-IsQueue [] = Keeps-pure tt
delete_seqs-IsQueue (s ∷ ss) = Keeps-exec _ (λ d. Ascending-keep_if _ 0 d.outbox_seq d.outbox)

clear_error-IsQueue : (seq : ℕ) → Keeps IsQueue (clear_error seq)
unfolding clear_error
clear_error-IsQueue seq = Keeps-exec _ (λ d. Ascending-keep_if _ 0 d.outbox_seq d.outbox)

module _ (j : Json) where
  schedule_retry-IsQueue :
      (now log_now seq : ℕ) (error : String) (entry : Option OutboxEntry)
      → Keeps IsQueue (schedule_retry j now log_now seq error entry)
  unfolding schedule_retry
  schedule_retry-IsQueue now log_now seq error none = Keeps-pure tt
  schedule_retry-IsQueue now log_now seq error (some e) =
      Keeps-exec _ (λ d. Ascending-update_seq _ seq 0 d.outbox_seq d.outbox (λ x. refl))

  mark_retry-IsQueue :
      (now log_now seq : ℕ) (error : String) → Keeps IsQueue (mark_retry j now log_now seq error)
  unfolding mark_retry
  mark_retry-IsQueue now log_now seq error =
      Keeps-bind (query (λ d. find_seq seq d.outbox)) _ (Keeps-exec _ (λ d q. q))
        (schedule_retry-IsQueue now log_now seq error)

  -- Whichever statements fail, every operation on the outbox keeps its rows in the order of `seq`,
  -- without duplicates, and the counter at or above them all.
  pub outbox-IsQueue :
      (record_id collection operation error : String) (hlc : Text) (payload : Option Bytes)
      (now log_now seq : ℕ) (seqs : List ℕ)
      → Keeps IsQueue (append record_id collection operation hlc payload now)
        × Keeps IsQueue (delete_seqs seqs)
        × Keeps IsQueue (mark_retry j now log_now seq error)
        × Keeps IsQueue (clear_error seq)
  outbox-IsQueue record_id collection operation error hlc payload now log_now seq seqs = (
    append-IsQueue record_id collection operation hlc payload now,
    delete_seqs-IsQueue seqs,
    mark_retry-IsQueue now log_now seq error,
    clear_error-IsQueue seq,
  )
