-- ===== src/Db/Outbox.antt =====
-- src/db/outbox.rs: the statements on the `outbox` table. The clock readings are arguments.
pub mod Backoff
pub mod Queue
pub mod Contents
use squirreld.Prelude.{
  ℕ, zero, suc, ◌+◌, ◌*◌, ◌-◌, ◌^◌, ◌%◌, ◌≤◌, ◌<◌, min, String, List, [], ◌∷◌, ◌++◌, Text, ◌≡◌,
  Bool, true, false, not, Option, none, some, if◌then◌else◌, str_eq, ltb, leb, ◌==◌, take, drop,
  keep_if, length, map,
}
use squirreld.Error.{Result}
use squirreld.Types.{Bytes}
use squirreld.Db.Sql.{OutboxEntry, Db, Sql, pure, write, query, continue, ◌>>=◌}

-- A row as `INSERT` makes it, the columns that it does not name at their defaults.
abbrev pub new_entry : ℕ → String → String → String → Text → Option Bytes → ℕ → OutboxEntry
new_entry seq record_id collection operation hlc payload now = record {
  seq = seq;
  record_id = record_id;
  collection = collection;
  operation = operation;
  hlc = hlc;
  payload = payload;
  created_at = now;
  next_retry_at = 0;
  retries = 0;
  last_error = none;
  error_log = none;
}

unfoldable pub append_entry : String → String → String → Text → Option Bytes → ℕ → Db → Db
append_entry record_id collection operation hlc payload now d = record d {
  outbox =
      d.outbox
      ++ (new_entry (suc d.outbox_seq) record_id collection operation hlc payload now ∷ []);
  outbox_seq = suc d.outbox_seq;
}

unfoldable pub append : String → String → String → Text → Option Bytes → ℕ → Sql (Unit {0})
append record_id collection operation hlc payload now =
    write (append_entry record_id collection operation hlc payload now)

-- The rows stand in the order of `seq`, since AUTOINCREMENT only counts up.
unfoldable pub ready : ℕ → OutboxEntry → Bool
ready now e = leb e.next_retry_at now

-- `retries` is an i64 column, read `as u32`.
abbrev pub from_row : OutboxEntry → OutboxEntry
from_row e = record e { retries = e.retries % 2 ^ 32 }

unfoldable pub select_batch : ℕ → ℕ → Db → List OutboxEntry
select_batch now limit d = map from_row (take limit (keep_if (ready now) d.outbox))

unfoldable pub peek_batch : ℕ → ℕ → Sql (List OutboxEntry)
peek_batch now limit = query (select_batch now limit)

unfoldable pub contains : List ℕ → ℕ → Bool
contains [] n = false
contains (m ∷ ms) n = if m == n then true else contains ms n

abbrev pub remove_seqs : List ℕ → List OutboxEntry → List OutboxEntry
remove_seqs seqs = keep_if (λ e. not (contains seqs e.seq))

-- No statement at all for an empty slice.
unfoldable pub delete_seqs : List ℕ → Sql (Unit {0})
delete_seqs [] = pure tt
delete_seqs (s ∷ ss) = write (λ d. record d { outbox = remove_seqs (s ∷ ss) d.outbox })

-- `i64::MAX`
abbrev pub max_i64 : ℕ
max_i64 = 2 ^ 63 - 1

-- `1000i64.saturating_mul(2i64.saturating_pow(retries as u32)).min(300_000)`
unfoldable pub backoff_ms : ℕ → ℕ
backoff_ms retries = min (min (1000 * min (2 ^ (retries % 2 ^ 32)) max_i64) max_i64) 300000

unfoldable pub find_seq : ℕ → List OutboxEntry → Option OutboxEntry
find_seq seq [] = none
find_seq seq (e ∷ es) = if e.seq == seq then some e else find_seq seq es

unfoldable pub update_seq : (OutboxEntry → OutboxEntry) → ℕ → List OutboxEntry → List OutboxEntry
update_seq f seq [] = []
update_seq f seq (e ∷ es) = (if e.seq == seq then f e else e) ∷ update_seq f seq es

abbrev pub retried : ℕ → String → ℕ → String → OutboxEntry → OutboxEntry
retried retries error next new_log e = record e {
  retries = retries + 1;
  next_retry_at = next;
  last_error = some error;
  error_log = some new_log;
}

-- `serde_json`, as far as the error logs use it: an entry of the log is a JSON value, and a log is
-- printed and parsed as an array of values.
pub record Json : Type 1 where
  pub Value : Type 0
  pub log_entry : ℕ → String → Value
  pub to_string : List Value → Option String
  pub from_str : String → Option (List Value)

module _ (j : Json) where
  open j use {Value, log_entry, to_string, from_str}

  -- `existing.and_then(|s| from_str(s).ok()).unwrap_or_default()`
  unfoldable pub read_log : Option String → List Value
  read_log none = []
  read_log (some s) = elim (from_str s) [ none ↦ [] | some log ↦ log ]

  -- `log.drain(..log.len() - 20)`
  unfoldable pub last_twenty : List Value → List Value
  last_twenty log = if ltb 20 (length log) then drop (length log - 20) log else log

  unfoldable pub append_to_error_log : ℕ → Option String → String → String
  append_to_error_log now existing error =
      elim (to_string (last_twenty (read_log existing ++ (log_entry now error ∷ [])))) [
        | none ↦ "[]"
        | some s ↦ s
      ]

  -- The rest of `mark_retry`, after the query for the entry. It reads the clock twice, `now` for the
  -- time of the retry and `log_now` for the log.
  unfoldable pub schedule_retry : ℕ → ℕ → ℕ → String → Option OutboxEntry → Sql (Unit {0})
  schedule_retry now log_now seq error none = pure tt
  schedule_retry now log_now seq error (some e) = write (λ d. record d {
    outbox =
        update_seq
          (retried e.retries error (now + backoff_ms e.retries)
            (append_to_error_log log_now e.error_log error))
          seq d.outbox;
  })

  unfoldable pub mark_retry : ℕ → ℕ → ℕ → String → Sql (Unit {0})
  mark_retry now log_now seq error = do
    entry ← query (λ d. find_seq seq d.outbox)
    schedule_retry now log_now seq error entry

unfoldable pub has_failed : OutboxEntry → Bool
has_failed e = ltb 0 e.retries

unfoldable pub list_pending_errors : Sql (List OutboxEntry)
list_pending_errors = query (λ d. map from_row (keep_if has_failed d.outbox))

unfoldable pub clear_error : ℕ → Sql (Unit {0})
clear_error seq = write (λ d. record d { outbox = remove_seqs (seq ∷ []) d.outbox })
