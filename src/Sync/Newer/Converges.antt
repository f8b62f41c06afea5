-- ===== src/Sync/Newer/Converges.antt =====
-- src/sync/mod.rs, the loop of `run_pull_cycle` over the records that came.
use squirreld.Prelude.{
  ℕ, suc, String, List, [], ◌∷◌, Text, ◌≡◌, refl, ap, ◌∙◌, sym, arith, false, Option, none, some,
  Bool-cases, inl, inr, str_eq, eq_iff, text_lt, All, keep_if,
}
use mathlib.Core.Path.{subst}
use squirreld.Error.{ok}
use squirreld.Types.{SyncStats}
use squirreld.Db.Sql.{Db, healthy, exec}
use squirreld.Db.Records
use squirreld.Db.Records.{select_row}
use squirreld.Backend.{RemoteRecord}
use squirreld.Backend.InMemory.{same_key}
use squirreld.Backend.InMemory.Newest.{text_le_trans, text_lt_irrefl, text_lt_asym}
use squirreld.Sync.{remove_outbox_for_record}
use squirreld.Sync.Pull.{is_current, apply_over, apply_remote_record, pull_step, pull_loop}
use squirreld.Sync.Newer.{version_at, with_bytes, newest, applied, applied-newest, applied_other}

-- The register after a list of writes.
unfoldable pub newest_of : Option RemoteRecord → List RemoteRecord → Option RemoteRecord
newest_of o [] = o
newest_of o (r ∷ rs) = newest_of (some (newest o (with_bytes r))) rs

apply-eq :
    (now : ℕ) (r : RemoteRecord) (d : Db)
    → apply_remote_record now r (healthy d) ≡ (ok tt, healthy (applied now r d))
unfolding apply_remote_record apply_over Records.get exec Records.upsert_remote
    remove_outbox_for_record
apply-eq now r d = elim (Bool-cases (is_current (select_row r.collection r.record_id d) r)) [
  | inl h ↦ rw (applied, h) refl
  | inr h ↦ rw (applied, h) refl
]

abbrev OneHome : String → String → RemoteRecord → Type 0
OneHome collection i r = r.record_id ≡ i → r.collection ≡ collection

same_key-eq :
    (i collection : String) (r : RemoteRecord)
    → OneHome collection i r
    → same_key i collection r ≡ str_eq r.record_id i
unfolding same_key
same_key-eq i collection r home = elim (Bool-cases (str_eq r.record_id i)) [
  | inl h ↦
      rw h (rw (home ((eq_iff r.record_id i).0 h)) (ground (arith, eq_iff collection collection)))
  | inr h ↦ rw h refl
]

own :
    (now : ℕ) (collection i : String) (r : RemoteRecord) (d : Db)
    → r.record_id ≡ i
    → r.collection ≡ collection
    → version_at collection i (applied now r d)
      ≡ some (newest (version_at collection i d) (with_bytes r))
own now collection i r d e f =
    subst (λ c. version_at c i (applied now r d) ≡ some (newest (version_at c i d) (with_bytes r)))
      f
      (subst
        (λ k.
          version_at r.collection k (applied now r d)
          ≡ some (newest (version_at r.collection k d) (with_bytes r)))
        e (applied-newest now r d))

step :
    (now : ℕ) (collection i : String) (r : RemoteRecord) (rs : List RemoteRecord) (d : Db)
    → OneHome collection i r
    → newest_of (version_at collection i (applied now r d)) (keep_if (same_key i collection) rs)
      ≡ newest_of (version_at collection i d) (keep_if (same_key i collection) (r ∷ rs))
unfolding newest_of
step now collection i r rs d home = elim (Bool-cases (str_eq r.record_id i)) [
  | inl h ↦
      rw (same_key-eq i collection r home, h)
        (ap (λ v. newest_of v (keep_if (same_key i collection) rs))
          (own now collection i r d ((eq_iff r.record_id i).0 h)
            (home ((eq_iff r.record_id i).0 h))))
  | inr h ↦
      rw (same_key-eq i collection r home, h)
        (ap (λ v. newest_of v (keep_if (same_key i collection) rs))
          (applied_other now r d collection i (λ e. ground (arith, eq_iff r.record_id i, e, h))))
]

-- Without faults, for an id that comes in one collection only, the loop of the pull is a fold of the
-- register over the versions that came: the version with the newest clock stays, and of two equal
-- clocks the first.
pub pull_loop-newest :
    (now : ℕ → ℕ) (n : ℕ) (collection i : String) (rs : List RemoteRecord) (d : Db)
    (cp : Option Text) (st : SyncStats)
    → All (OneHome collection i) rs
    → version_at collection i
        (pull_loop now n rs (record { conn = healthy d; checkpoint = cp; stats = st })).conn.tables
      ≡ newest_of (version_at collection i d) (keep_if (same_key i collection) rs)
unfolding pull_loop pull_step newest_of
pull_loop-newest now n collection i [] d cp st h = refl
pull_loop-newest now n collection i (r ∷ rs) d cp st h =
    ap
      (λ x.
        version_at collection i
          (pull_loop now (suc n) rs (
            pull_step r x.0 x.1
              (record { conn = healthy d; checkpoint = cp; stats = st }))).conn.tables)
      (apply-eq (now n) r d)
    ∙ pull_loop-newest now (suc n) collection i rs (applied (now n) r d) _ _ h.1
    ∙ step (now n) collection i r rs d h.0

-- Nothing that came is newer than what stays, and nothing newer is lost.
abbrev pub NotNewer : Option RemoteRecord → RemoteRecord → Type 0
NotNewer none r = ⊥
NotNewer (some x) r = text_lt x.hlc r.hlc ≡ false

newest_of-grows :
    (rs : List RemoteRecord) (o : Option RemoteRecord) (r : RemoteRecord)
    → NotNewer o r
    → NotNewer (newest_of o rs) r
unfolding newest_of
newest_of-grows [] o r h = h
newest_of-grows (y ∷ ys) none r h = elim h [ ]
newest_of-grows (y ∷ ys) (some x) r h =
    newest_of-grows ys (some (newest (some x) (with_bytes y))) r
      (elim (Bool-cases (text_lt x.hlc y.hlc)) [
        | inl lt ↦ rw lt (text_le_trans r.hlc y.hlc x.hlc (text_lt_asym x.hlc y.hlc lt) h)
        | inr ge ↦ rw ge h
      ])

newest-NotNewer :
    (o : Option RemoteRecord) (r : RemoteRecord) → NotNewer (some (newest o (with_bytes r))) r
newest-NotNewer none r = text_lt_irrefl r.hlc
newest-NotNewer (some x) r = elim (Bool-cases (text_lt x.hlc r.hlc)) [
  | inl lt ↦ rw lt (text_lt_irrefl r.hlc)
  | inr ge ↦ rw ge ge
]

newest_of-NotNewer :
    (o : Option RemoteRecord) (rs : List RemoteRecord) → All (NotNewer (newest_of o rs)) rs
unfolding newest_of
newest_of-NotNewer o [] = tt
newest_of-NotNewer o (r ∷ rs) = (
  newest_of-grows rs (some (newest o (with_bytes r))) r (newest-NotNewer o r),
  newest_of-NotNewer (some (newest o (with_bytes r))) rs,
)

-- Without faults, for an id that comes in one collection only, what stands after the loop of the
-- pull is not older than any version that came.
pub pull_loop_latest :
    (now : ℕ → ℕ) (n : ℕ) (collection i : String) (rs : List RemoteRecord) (d : Db)
    (cp : Option Text) (st : SyncStats)
    → All (OneHome collection i) rs
    → All
        (NotNewer (
          version_at collection i
            (pull_loop now n rs
              (record { conn = healthy d; checkpoint = cp; stats = st })).conn.tables))
        (keep_if (same_key i collection) rs)
pull_loop_latest now n collection i rs d cp st h =
    subst (λ v. All (NotNewer v) (keep_if (same_key i collection) rs))
      (sym (pull_loop-newest now n collection i rs d cp st h))
      (newest_of-NotNewer (version_at collection i d) (keep_if (same_key i collection) rs))
