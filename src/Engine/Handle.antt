-- ===== src/Engine/Handle.antt =====
-- src/engine.rs: `SquirrelEngine`, the handle that sends commands to the actor and waits for replies.
use squirreld.Prelude.{ℕ, String, List, ◌≡◌, ◌≢◌, ◌⊎◌, inl, inr, refl, Option, none, some}
use squirreld.Error.{Result, ok, err, panic, actor_closed}
use squirreld.Types.{
  Bytes, Record, RecordMeta, PutOpts, ListOpts, PendingError, IndexDef, PutBlobOpts, BlobInfo,
  QueryOpts, SyncStats,
}
use squirreld.Crypto.{Cipher}
use squirreld.Engine.{ActorState, Inputs}
use squirreld.Engine.Commands.{Command, Reply, handle}

-- The task of the actor: it runs, or it has ended and its channel is closed.
pub data Actor : Type 0 where
  running : ActorState → Actor
  gone : Actor

-- What the caller gets, and the actor after it: a panic in a handler ends the task, and with it the
-- channel of the reply.
abbrev pub settled {ℓ} : {A : Type ℓ} → Result A → ActorState → Result A × Actor
settled (ok a) s = (ok a, running s)
settled (err e) s = (err e, running s)
settled panic s = (err actor_closed, gone)

abbrev pub turned {ℓ} :
    {A : Type ℓ} → (Reply → Result A) → Option (Reply × ActorState) → Result A × Actor
turned f none = (err actor_closed, gone)
turned f (some (reply, s)) = settled (f reply) s

-- `send` and then `rx.await`; `f` reads the reply of the command.
module _ (c : Cipher) (i : Inputs) where
  unfoldable pub call {ℓ} : {A : Type ℓ} → (Reply → Result A) → Command → Actor → Result A × Actor
  call f cmd gone = (err actor_closed, gone)
  call f cmd (running s) = turned f (handle c i cmd s)

-- The oneshot channel of a command has the type of its reply; no other can come.
abbrev string_reply : Reply → Result String
string_reply (Reply.put_reply r) = r
string_reply (Reply.put_blob_reply r) = r
string_reply _ = err actor_closed

abbrev record_reply : Reply → Result (Option Record)
record_reply (Reply.get_reply r) = r
record_reply _ = err actor_closed

abbrev unit_reply : Reply → Result (Unit {0})
unit_reply (Reply.delete_reply r) = r
unit_reply (Reply.clear_reply r) = r
unit_reply (Reply.register_index_reply r) = r
unit_reply (Reply.register_remote_blob_reply r) = r
unit_reply (Reply.force_flush_reply r) = r
unit_reply _ = err actor_closed

abbrev metas_reply : Reply → Result (List RecordMeta)
metas_reply (Reply.list_reply r) = r
metas_reply (Reply.query_reply r) = r
metas_reply _ = err actor_closed

abbrev errors_reply : Reply → Result (List PendingError)
errors_reply (Reply.pending_errors_reply r) = r
errors_reply _ = err actor_closed

abbrev info_reply : Reply → Result (Option BlobInfo)
info_reply (Reply.blob_info_reply r) = r
info_reply _ = err actor_closed

abbrev path_reply : Reply → Result (Option String)
path_reply (Reply.get_blob_reply r) = r
path_reply _ = err actor_closed

abbrev stats_reply : Reply → Result SyncStats
stats_reply (Reply.force_sync_reply r) = r
stats_reply _ = err actor_closed

abbrev pub count_reply : Reply → Result ℕ
count_reply (Reply.rebuild_reply r) = r
count_reply _ = err actor_closed

module _ (c : Cipher) (i : Inputs) where
  unfoldable pub put : String → Option String → Bytes → PutOpts → Actor → Result String × Actor
  put collection key payload opts = call c i string_reply (Command.put collection key payload opts)

  unfoldable pub get : String → String → Actor → Result (Option Record) × Actor
  get collection key = call c i record_reply (Command.get collection key)

  unfoldable pub delete : String → String → Actor → Result (Unit {0}) × Actor
  delete collection key = call c i unit_reply (Command.delete collection key)

  unfoldable pub list : String → ListOpts → Actor → Result (List RecordMeta) × Actor
  list collection opts = call c i metas_reply (Command.list collection opts)

  unfoldable pub pending_errors : Actor → Result (List PendingError) × Actor
  pending_errors = call c i errors_reply Command.pending_errors

  unfoldable pub clear_error : ℕ → Actor → Result (Unit {0}) × Actor
  clear_error seq = call c i unit_reply (Command.clear seq)

  unfoldable pub force_sync : Actor → Result SyncStats × Actor
  force_sync = call c i stats_reply Command.force_sync

  unfoldable pub rebuild_indexes : Actor → Result ℕ × Actor
  rebuild_indexes = call c i count_reply Command.rebuild_indexes

  unfoldable pub put_blob : Option String → String → PutBlobOpts → Actor → Result String × Actor
  put_blob key src_path opts = call c i string_reply (Command.put_blob key src_path opts)

  unfoldable pub blob_info : String → Actor → Result (Option BlobInfo) × Actor
  blob_info blob_id = call c i info_reply (Command.blob_info blob_id)

  unfoldable pub get_blob : String → Actor → Result (Option String) × Actor
  get_blob blob_id = call c i path_reply (Command.get_blob blob_id)

  unfoldable pub force_flush_blobs : Actor → Result (Unit {0}) × Actor
  force_flush_blobs = call c i unit_reply Command.force_flush_blobs

  unfoldable pub register_remote_blob : String → Actor → Result (Unit {0}) × Actor
  register_remote_blob blob_id = call c i unit_reply (Command.register_remote_blob blob_id)

  unfoldable pub register_index : IndexDef → Actor → Result (Unit {0}) × Actor
  register_index def = call c i unit_reply (Command.register_index def)

  unfoldable pub query : String → QueryOpts → Actor → Result (List RecordMeta) × Actor
  query collection opts = call c i metas_reply (Command.query collection opts)

  -- The result of the send is dropped.
  unfoldable pub shutdown : Actor → Result (Unit {0}) × Actor
  shutdown a = let (r, a') = call c i unit_reply Command.shutdown a in (ok tt, a')

settled_lem :
    {A : Type 0} (r : Result A) (s : ActorState)
    → ((settled r s ≡ (r, running s)) × (r ≢ panic))
      ⊎ ((r ≡ panic) × (settled r s ≡ (err actor_closed, gone)))
settled_lem (ok a) s = inl (refl, λ h. absurd (cc))
settled_lem (err e) s = inl (refl, λ h. absurd (cc))
settled_lem panic s = inr (refl, refl)

-- Only the shutdown is left without a reply.
handle-eq_none :
    (c : Cipher) (i : Inputs) (cmd : Command) (s : ActorState)
    → handle c i cmd s ≡ none
    → cmd ≡ Command.shutdown
unfolding handle
handle-eq_none c i (Command.put a b d e) s h = absurd (cc)
handle-eq_none c i (Command.get a b) s h = absurd (cc)
handle-eq_none c i (Command.delete a b) s h = absurd (cc)
handle-eq_none c i (Command.list a b) s h = absurd (cc)
handle-eq_none c i Command.pending_errors s h = absurd (cc)
handle-eq_none c i (Command.clear a) s h = absurd (cc)
handle-eq_none c i (Command.register_index a) s h = absurd (cc)
handle-eq_none c i (Command.put_blob a b d) s h = absurd (cc)
handle-eq_none c i (Command.blob_info a) s h = absurd (cc)
handle-eq_none c i (Command.get_blob a) s h = absurd (cc)
handle-eq_none c i (Command.register_remote_blob a) s h = absurd (cc)
handle-eq_none c i Command.force_sync s h = absurd (cc)
handle-eq_none c i Command.force_flush_blobs s h = absurd (cc)
handle-eq_none c i (Command.query a b) s h = absurd (cc)
handle-eq_none c i Command.rebuild_indexes s h = absurd (cc)
handle-eq_none c i Command.shutdown s h = refl

module _ {A : Type 0} (c : Cipher) (i : Inputs) (f : Reply → Result A) where
  -- What the handler of the command did, and returned without a panic.
  abbrev pub Handled : Command → Actor → Result A × Actor → Type 0
  Handled cmd a out =
      (s : ActorState) × (s' : ActorState) × (reply : Reply) × (a ≡ running s)
      × (handle c i cmd s ≡ some (reply, s'))
      × (out ≡ (f reply, running s'))
      × (f reply ≢ panic)

  -- Why a call finds no actor to answer it: the actor was gone, the command is the shutdown, or its
  -- handler panicked.
  abbrev pub IsClosed : Command → Actor → Type 0
  IsClosed cmd a =
      (a ≡ gone)
      ⊎ ((s : ActorState) × (a ≡ running s)
          × ((cmd ≡ Command.shutdown)
              ⊎ ((s' : ActorState) × (reply : Reply) × (handle c i cmd s ≡ some (reply, s'))
                  × (f reply ≡ panic))))

  turned_lem :
      (cmd : Command) (s : ActorState) (o : Option (Reply × ActorState))
      → handle c i cmd s ≡ o
      → Handled cmd (running s) (turned f o)
        ⊎ (IsClosed cmd (running s) × (turned f o ≡ (err actor_closed, gone)))
  turned_lem cmd s none e = inr (inr (s, refl, inl (handle-eq_none c i cmd s e)), refl)
  turned_lem cmd s (some (reply, s')) e = elim (settled_lem (f reply) s') [
    | inl (same, sound) ↦ inl (s, s', reply, refl, e, same, sound)
    | inr (panicked, ended) ↦ inr (inr (s, refl, inr (s', reply, e, panicked)), ended)
  ]

  -- A call never unwinds: it gives what the handler of the command returned, with the actor running in
  -- the state that the handler left; or the actor was gone, or the command is the shutdown, or its
  -- handler panicked, and then the call gives `actor_closed` and the actor is gone.
  pub call_lem :
      (cmd : Command) (a : Actor)
      → Handled cmd a (call c i f cmd a)
        ⊎ (IsClosed cmd a × (call c i f cmd a ≡ (err actor_closed, gone)))
  unfolding call
  call_lem cmd gone = inr (inl refl, refl)
  call_lem cmd (running s) = turned_lem cmd s (handle c i cmd s) refl

  -- After a shutdown every call is refused.
  pub call-shutdown :
      (cmd : Command) (a : Actor) → call c i f cmd (shutdown c i a).1 ≡ (err actor_closed, gone)
  unfolding call shutdown handle
  call-shutdown cmd gone = refl
  call-shutdown cmd (running s) = refl
