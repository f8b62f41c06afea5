-- ===== src/Engine/Open/Clock.antt =====
-- src/engine.rs, `open`: the clock that it starts with.
use squirreld.Prelude.{
  ℕ, List, [], ◌∷◌, Text, ◌≡◌, refl, ap, ◌∙◌, sym, arith, false, Option, none, some, Bool-cases,
  inl, inr, text_lt, All,
}
use mathlib.Core.Path.{subst}
use squirreld.Types.{Bytes}
use squirreld.Error.{Result, ok, err, panic}
use squirreld.Hlc.{Hlc, IsHlc, fmt}
use squirreld.Hlc.Format.{from_str-fmt}
use squirreld.Db.Sql.{RecordRow, Db, Conn, Sql, exec, continue, ◌>>=◌}
use squirreld.Db.Keeps.{Keeps, Keeps-exec, Keeps-pure, Keeps-lift, Keeps-bind}
use squirreld.Db.Records.{max_of, max_hlc}
use squirreld.Db.Config.{get, set, node_id_or_new, get_or_create_node_id, stored_node_id}
use squirreld.Backend.InMemory.Newest.{text_le_trans, text_lt_irrefl, text_lt_asym}
use squirreld.Engine.{ActorState}
use squirreld.Engine.Open.{
  Kdf, OpenInputs, initialize, clock_of, or_new, open_clock, open_parts, open_engine, resolve_key,
  started,
}

-- `MAX(hlc)` is one of the clocks, and none is after it.
max_of-some :
    (P : Text → Type 0) (rs : List RecordRow) (t : Text)
    → P t
    → All (λ r. P r.hlc) rs
    → (u : Text) × (max_of (some t) rs ≡ some u)
      × P u
      × (text_lt u t ≡ false)
      × All (λ r. text_lt u r.hlc ≡ false) rs
unfolding max_of
max_of-some P [] t p ps = (t, refl, p, text_lt_irrefl t, tt)
max_of-some P (r ∷ rs) t p ps = elim (Bool-cases (text_lt t r.hlc)) [
  | inl lt ↦
      let (u, e, pu, ge, all) = max_of-some P rs r.hlc ps.0 ps.1 in
      (u, rw lt e, pu, text_le_trans t u r.hlc ge (text_lt_asym t r.hlc lt), (ge, all))
  | inr le ↦
      let (u, e, pu, ge, all) = max_of-some P rs t p ps.1 in
      (u, rw le e, pu, ge, (text_le_trans r.hlc u t ge le, all))
]

-- The stored clock is the text of a clock in range.
abbrev pub HasClock : RecordRow → Type 0
HasClock r = (h : Hlc) × (IsHlc h) × (r.hlc ≡ fmt h)

abbrev NotAfter : Result Hlc → List RecordRow → Type 0
NotAfter (ok h) rs = All (λ r. text_lt (fmt h) r.hlc ≡ false) rs
NotAfter _ rs = Unit

clock_of-fmt :
    (wall_ms : ℕ) (node : List ℕ) (h : Hlc) → IsHlc h → clock_of wall_ms node (some (fmt h)) ≡ ok h
unfolding clock_of or_new
clock_of-fmt wall_ms node h v = ap (or_new wall_ms node) (from_str-fmt h v)

max_clock :
    (wall_ms : ℕ) (node : List ℕ) (rs : List RecordRow)
    → All HasClock rs
    → NotAfter (clock_of wall_ms node (max_of none rs)) rs
unfolding max_of clock_of
max_clock wall_ms node [] hs = tt
max_clock wall_ms node (r ∷ rs) hs =
    let (u, e, (h, v, same), ge, all) =
      max_of-some (λ t. (h : Hlc) × (IsHlc h) × (t ≡ fmt h)) rs r.hlc hs.0 hs.1 in
    subst (λ x. NotAfter x (r ∷ rs))
      (sym (ap (clock_of wall_ms node) (e ∙ ap some same) ∙ clock_of-fmt wall_ms node h v))
      (rw same at ge, rw same at all)

bind_ok :
    {A B : Type 0} (m : Sql A) (f : A → Sql B) (c : Conn) (b : B)
    → ((m >>= f) c).0 ≡ ok b
    → (a : A) × ((m c).0 ≡ ok a) × ((f a (m c).1).0 ≡ ok b)
bind_ok {A = A} m f c b h = go (m c).0 h
  where
    go :
        (r : Result A)
        → (continue r f (m c).1).0 ≡ ok b
        → (a : A) × (r ≡ ok a) × ((f a (m c).1).0 ≡ ok b)
    go (ok a) h = (a, refl, h)
    go (err e) h = cc
    go panic h = cc

node_id-Keeps :
    (rs : List RecordRow) (random : List ℕ)
    → Keeps (λ d. d.records ≡ rs) (get_or_create_node_id random)
unfolding get_or_create_node_id get set node_id_or_new
node_id-Keeps rs random = Keeps-bind _ _ (Keeps-exec _ (λ d h. h)) go
  where
    go : (o : Option Text) → Keeps (λ d. d.records ≡ rs) (node_id_or_new random o)
    go none = Keeps-bind _ _ (Keeps-exec _ (λ d h. h)) (λ u. Keeps-pure random)
    go (some t) = Keeps-lift (stored_node_id t)

initialize-Keeps : (P : Db → Type 0) → Keeps P initialize
unfolding initialize
initialize-Keeps P = Keeps-bind _ _ (Keeps-exec _ (λ d h. h)) (λ u.
    Keeps-bind _ _ (Keeps-exec _ (λ d h. h))
      (λ v. Keeps-bind _ _ (Keeps-exec _ (λ d h. h)) (λ w. Keeps-exec _ (λ d h. h))))

max_hlc_ok : (c : Conn) (o : Option Text) → (max_hlc c).0 ≡ ok o → o ≡ max_of none c.tables.records
unfolding max_hlc exec
max_hlc_ok c o h = ground (arith, h)

open_clock-NotAfter :
    (i : OpenInputs) (c : Conn) (h : Hlc)
    → All HasClock c.tables.records
    → (open_clock i c).0 ≡ ok h
    → All (λ r. text_lt (fmt h) r.hlc ≡ false) c.tables.records
unfolding open_clock
open_clock-NotAfter i c h hs ok_h =
    let (u, e₁, r₁) = bind_ok initialize _ c h ok_h in
    let c₁ = (initialize c).1 in
    let (node, e₂, r₂) = bind_ok (get_or_create_node_id i.random_node) _ c₁ h r₁ in
    let c₂ = (get_or_create_node_id i.random_node c₁).1 in
    let (stored, e₃, r₃) = bind_ok max_hlc _ c₂ h r₂ in
    let same : c₂.tables.records ≡ c.tables.records =
      (node_id-Keeps c.tables.records i.random_node).at c₁
        ((initialize-Keeps (λ d. d.records ≡ c.tables.records)).at c refl) in
    let most : stored ≡ max_of none c.tables.records =
      max_hlc_ok c₂ stored e₃ ∙ ap (max_of none) same in
    subst (λ r. NotAfter r c.tables.records) (ap (clock_of i.wall_ms node) (sym most) ∙ r₃)
      (max_clock i.wall_ms node c.tables.records hs)

-- An engine that was opened, whichever statements could fail, on records whose clocks are in range
-- has a clock that no stored clock is after: it goes on from the newest one.
pub open_engine_newest :
    (k : Kdf) (i : OpenInputs) (c : Conn) (s : ActorState)
    → All HasClock c.tables.records
    → open_engine k i c ≡ ok s
    → All (λ r. text_lt (fmt s.last_hlc) r.hlc ≡ false) c.tables.records
unfolding open_engine open_parts
open_engine_newest k i c s hs e = go (open_parts k i c).0 refl e
  where
    go :
        (r : Result (Hlc × Option Bytes))
        → (open_parts k i c).0 ≡ r
        → (elim r [
          | ok (clock, kek) ↦ ok (started i (open_parts k i c).1 clock kek)
          | err e ↦ err e
          | panic ↦ panic
        ])
          ≡ ok s
        → All (λ r. text_lt (fmt s.last_hlc) r.hlc ≡ false) c.tables.records
    go (ok (clock, kek)) q h =
        let (clock', e₁, r₁) = bind_ok (open_clock i) _ c (clock, kek) q in
        let (kek', e₂, r₂) =
          bind_ok (resolve_key k i.random_salt i.encryption_key) _ _ (clock, kek) r₁ in
        let same : clock' ≡ s.last_hlc = ground (arith, r₂, h) in
        subst (λ x. All (λ r. text_lt (fmt x) r.hlc ≡ false) c.tables.records) same
          (open_clock-NotAfter i c clock' hs e₁)
    go (err e) q h = cc
    go panic q h = cc
