-- ===== src/Db/Outbox/Backoff.antt =====
-- src/db/outbox.rs, `mark_retry`: the delay before a retry, and the error log of an entry.
use squirreld.Prelude.{
  ℕ, zero, suc, ◌+◌, ◌*◌, ◌-◌, ◌^◌, ◌%◌, ◌≤◌, ◌<◌, min, String, List, [], ◌∷◌, ◌++◌, ◌≡◌, refl, ap,
  ◌∙◌, drop, ltb, Bool-cases, inl, inr, arith, Option, none, some, if◌then◌else◌, ◌==◌, length,
  length-drop,
}
use squirreld.Error.{ok}
use squirreld.Db.Sql.{OutboxEntry, Db, healthy, exec}
use squirreld.Db.Outbox.{
  backoff_ms, Json, read_log, last_twenty, append_to_error_log, find_seq, update_seq,
  schedule_retry, mark_retry, retried,
}
use native.Mathlib.Nat.{mod-eq_of_lt, pow-suc}

two_pow_pos : (n : ℕ) → 1 ≤ 2 ^ n
two_pow_pos zero = omega arith
two_pow_pos (suc n) = simp pow-suc (omega (arith, two_pow_pos n))

-- The saturating arithmetic never shows: for every u32 the delay is one second doubled for each
-- retry so far, and at most five minutes.
pub backoff_ms-eq-min :
    (retries : ℕ) → retries < 2 ^ 32 → backoff_ms retries ≡ min (1000 * 2 ^ retries) 300000
unfolding backoff_ms
backoff_ms-eq-min retries h = rw (mod-eq_of_lt h) (omega arith)

-- For any stored count, also one that does not fit a u32.
pub backoff_ms_bounds : (retries : ℕ) → (1000 ≤ backoff_ms retries) × (backoff_ms retries ≤ 300000)
unfolding backoff_ms
backoff_ms_bounds retries = omega (arith, two_pow_pos (retries % 2 ^ 32))

abbrev pub mapped : (OutboxEntry → OutboxEntry) → Option OutboxEntry → Option OutboxEntry
mapped f none = none
mapped f (some e) = some (f e)

pub find_seq-update_seq :
    (f : OutboxEntry → OutboxEntry) (seq k : ℕ) (es : List OutboxEntry)
    → ((e : OutboxEntry) → (f e).seq ≡ e.seq)
    → find_seq k (update_seq f seq es)
      ≡ (if seq == k then mapped f (find_seq k es) else find_seq k es)
unfolding find_seq update_seq
find_seq-update_seq f seq k [] keep = ground arith
find_seq-update_seq f seq k (e ∷ es) keep =
    ground (arith, keep e, find_seq-update_seq f seq k es keep)

-- `serde_json` reads back what it printed.
pub record IsJson (j : Json) : Type 0 where
  pub from_str-to_string :
      (log : List j.Value) (s : String) → j.to_string log ≡ some s → j.from_str s ≡ some log
  pub prints : (log : List j.Value) → (s : String) × (j.to_string log ≡ some s)

module _ (j : Json) where
  length-last_twenty : (log : List j.Value) → length (last_twenty j log) ≤ 20
  unfolding last_twenty
  length-last_twenty log = ground (arith, length-drop (length log - 20) log)

  -- Subtraction stops at 0, where no entry is dropped.
  last_twenty-drop : (log : List j.Value) → last_twenty j log ≡ drop (length log - 20) log
  unfolding last_twenty
  last_twenty-drop log = elim (Bool-cases (ltb 20 (length log))) [
    | inl long ↦ rw long refl
    | inr short ↦
        let nothing : length log - 20 ≡ 0 = ground (arith, short) in rw (short, nothing) refl
  ]

  -- The log that a retry stores, read again, is the old log with the new entry behind it, cut to the
  -- last twenty.
  pub read_log-append :
      IsJson j
      → (now : ℕ) (existing : Option String) (error : String)
      → read_log j (some (append_to_error_log j now existing error))
        ≡ last_twenty j (read_log j existing ++ (j.log_entry now error ∷ []))
  unfolding append_to_error_log read_log
  read_log-append law now existing error =
      let log : List j.Value =
        last_twenty j (read_log j existing ++ (j.log_entry now error ∷ [])) in
      let (s, e) = law.prints log in ground (arith, e, law.from_str-to_string log s e)

  -- The retry of an entry that is there, on a database where no statement fails, with a JSON library
  -- that reads back what it prints, and with a count of retries that is a u32: the entry has one retry
  -- more, waits for one second doubled for each retry so far but for at most five minutes, keeps the
  -- error, and its log is the old one with the new error behind it, cut to the last twenty entries.
  -- Every other entry is as it was.
  pub mark_retry_lem :
      IsJson j
      → (now log_now seq k : ℕ) (error : String) (d : Db) (e : OutboxEntry)
      → find_seq seq d.outbox ≡ some e
      → e.retries < 2 ^ 32
      → (e' : OutboxEntry) × (find_seq k
            (mark_retry j now log_now seq error (healthy d)).1.tables.outbox
          ≡ (if seq == k then some e' else find_seq k d.outbox))
        × (e'.retries ≡ e.retries + 1)
        × (e'.next_retry_at ≡ now + min (1000 * 2 ^ e.retries) 300000)
        × (e'.last_error ≡ some error)
        × (read_log j e'.error_log
            ≡ drop
                (length (read_log j e.error_log ++ (j.log_entry log_now error ∷ [])) - 20)
                (read_log j e.error_log ++ (j.log_entry log_now error ∷ [])))
        × (length (read_log j e'.error_log) ≤ 20)
  unfolding mark_retry schedule_retry exec
  mark_retry_lem law now log_now seq k error d e found small =
      let log : String = append_to_error_log j log_now e.error_log error in
      let f : OutboxEntry → OutboxEntry =
        retried e.retries error (now + backoff_ms e.retries) log in
      let read = read_log-append law log_now e.error_log error in
      let at_k = find_seq-update_seq f seq k d.outbox (λ x. refl) in
      (
        f e,
        rw (found, schedule_retry) (ground (arith, at_k)),
        refl,
        ap (λ ms. now + ms) (backoff_ms-eq-min e.retries small),
        refl,
        read ∙ last_twenty-drop (read_log j e.error_log ++ (j.log_entry log_now error ∷ [])),
        rw read (length-last_twenty (read_log j e.error_log ++ (j.log_entry log_now error ∷ []))),
      )

  -- A retry of an entry that is gone changes nothing.
  pub mark_retry_gone :
      (now log_now seq : ℕ) (error : String) (d : Db)
      → find_seq seq d.outbox ≡ none
      → mark_retry j now log_now seq error (healthy d) ≡ (ok tt, healthy d)
  unfolding mark_retry schedule_retry exec
  mark_retry_gone now log_now seq error d gone = rw (gone, schedule_retry)
