-- ===== src/Backend/InMemory/Newest.antt =====
-- src/backend/in_memory.rs as a backend in the sense of the sync loop.
use squirreld.Prelude.{
  ℕ, String, List, [], ◌∷◌, Text, ◌≡◌, refl, arith, Bool, true, false, not, ◌&&◌, Option, none,
  some, if◌then◌else◌, Bool-cases, inl, inr, str_eq, eq_iff, text_lt, cmp_text,
}
use squirreld.Backend.{OutboxPushEntry, RemoteRecord, pushed, conflict_at, IsBackend}
use squirreld.Backend.InMemory.{
  InMemoryStore, same_key, get, insert, remote_record, is_stale, push_one, in_memory,
}

-- What a get returns after an insert.
pub get-insert :
    (i collection : String) (new : RemoteRecord) (store : InMemoryStore)
    → get i collection (insert new store) ≡ (
        if str_eq new.record_id i && str_eq new.collection collection
        then some new
        else get i collection store)
unfolding get insert same_key
get-insert i collection new [] = refl
get-insert i collection new (r ∷ rs) = ground (
  arith,
  eq_iff r.record_id i,
  eq_iff r.collection collection,
  eq_iff new.record_id i,
  eq_iff new.collection collection,
  eq_iff r.record_id new.record_id,
  eq_iff r.collection new.collection,
  get-insert i collection new rs,
)

pub text_lt_irrefl : (a : Text) → text_lt a a ≡ false
unfolding cmp_text
text_lt_irrefl [] = refl
text_lt_irrefl (x ∷ xs) = ground (arith, text_lt_irrefl xs)

-- From `b` not before `c` and `c` not before `a`, `b` is not before `a`.
pub text_le_trans : (a b c : Text) → text_lt b c ≡ false → text_lt c a ≡ false → text_lt b a ≡ false
unfolding cmp_text
text_le_trans [] [] c h k = refl
text_le_trans [] (y ∷ b) c h k = refl
text_le_trans (x ∷ a) [] [] h k = k
text_le_trans (x ∷ a) [] (z ∷ c) h k = absurd (ground arith)
text_le_trans (x ∷ a) (y ∷ b) [] h k = absurd (ground arith)
text_le_trans (x ∷ a) (y ∷ b) (z ∷ c) h k = ground (arith, text_le_trans a b c)

-- The store holds for this key a record that is not before `hlc`.
abbrev pub covered_by : Option RemoteRecord → Text → Bool
covered_by none hlc = false
covered_by (some r) hlc = not (text_lt r.hlc hlc)

abbrev pub Covers : InMemoryStore → String → String → Text → Type 0
Covers store i collection hlc = covered_by (get i collection store) hlc ≡ true

pub text_lt_asym : (a b : Text) → text_lt a b ≡ true → text_lt b a ≡ false
unfolding cmp_text
text_lt_asym [] [] h = refl
text_lt_asym [] (y ∷ b) h = refl
text_lt_asym (x ∷ a) [] h = absurd (ground arith)
text_lt_asym (x ∷ a) (y ∷ b) h = ground (arith, text_lt_asym a b)

-- What replaces a record that is not newer covers all that it covered.
newer_covers :
    (o : Option RemoteRecord) (e : OutboxPushEntry) (hlc : Text)
    → is_stale e o ≡ false
    → covered_by o hlc ≡ true
    → text_lt e.hlc hlc ≡ false
unfolding is_stale
newer_covers none e hlc fresh h = absurd (ground arith)
newer_covers (some r) e hlc fresh h =
    text_le_trans hlc e.hlc r.hlc (text_lt_asym r.hlc e.hlc (ground arith)) (ground arith)

push_keeps :
    (e : OutboxPushEntry) (store : InMemoryStore) (i collection : String) (hlc : Text)
    → Covers store i collection hlc
    → Covers (push_one e store).1 i collection hlc
unfolding push_one
push_keeps e store i collection hlc h =
    elim (Bool-cases (is_stale e (get e.record_id e.collection store))) [
      | inl stale ↦ rw stale h
      | inr fresh ↦ rw fresh (replaced fresh)
    ]
  where
    replaced :
        is_stale e (get e.record_id e.collection store) ≡ false
        → Covers (insert (remote_record e) store) i collection hlc
    replaced fresh = ground (
      arith,
      get-insert i collection (remote_record e) store,
      eq_iff e.record_id i,
      eq_iff e.collection collection,
      newer_covers (get e.record_id e.collection store) e hlc fresh,
    )

stale_covers :
    (o : Option RemoteRecord) (e : OutboxPushEntry)
    → is_stale e o ≡ true
    → covered_by o e.hlc ≡ true
unfolding is_stale
stale_covers none e h = cc
stale_covers (some r) e h = h

push_ok :
    (e : OutboxPushEntry) (store : InMemoryStore) (seqs : List ℕ)
    → (push_one e store).0 ≡ pushed seqs
    → (seqs ≡ e.seq ∷ []) × Covers (push_one e store).1 e.record_id e.collection e.hlc
unfolding push_one
push_ok e store seqs h = elim (Bool-cases (is_stale e (get e.record_id e.collection store))) [
  | inl stale ↦ absurd (ground arith)
  | inr fresh ↦ rw fresh (
    ground arith,
    ground (
      arith,
      get-insert e.record_id e.collection (remote_record e) store,
      eq_iff e.record_id e.record_id,
      eq_iff e.collection e.collection,
      text_lt_irrefl e.hlc,
    ),
  )
]

push_conflict :
    (e : OutboxPushEntry) (store : InMemoryStore) (i : String) (seq : ℕ)
    → (push_one e store).0 ≡ conflict_at i seq
    → (seq ≡ e.seq) × Covers (push_one e store).1 e.record_id e.collection e.hlc
unfolding push_one
push_conflict e store i seq h =
    elim (Bool-cases (is_stale e (get e.record_id e.collection store))) [
      | inl stale ↦
          rw stale (ground arith, stale_covers (get e.record_id e.collection store) e stale)
      | inr fresh ↦ absurd (ground arith)
    ]

-- What the sync loop relies on holds of the in-memory backend: an entry that is accepted is stored,
-- one that is refused is not newer than what is stored, and no push makes a stored record older.
pub in_memory-IsBackend : (name : String) → IsBackend (in_memory name) Covers
in_memory-IsBackend name = record {
  push_ok = push_ok;
  push_conflict = push_conflict;
  push_keeps = push_keeps;
}
