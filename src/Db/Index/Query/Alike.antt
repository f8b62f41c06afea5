-- ===== src/Db/Index/Query/Alike.antt =====
-- src/db/index.rs: two filters that agree but for their values, piece by piece.
use squirreld.Prelude.{
  String, List, [], ◌∷◌, ◌++◌, Text, ◌≡◌, refl, sym, ap, ◌∙◌, arith, Bool, true, false, length,
  length-append,
}
use mathlib.Core.Path.{subst}
use mathlib.Core.List.{append_assoc, append-nil}
use Prim.Native.String.{◌++◌ as ◌<>◌}
use squirreld.Prelude.Decimals.{to_string}
use squirreld.Error.{Result, ok, err, panic}
use squirreld.Db.Sql.{SqlValue}
use squirreld.Db.Index.Query.{
  Built, placed, compared, close, match_sql, joined_parts, cons_part, then_parts,
}

abbrev pub is_built : {A : Type 0} → Result A → Bool
is_built (ok a) = true
is_built (err e) = false
is_built panic = false

-- The two texts are the same, as many values are bound, and those of the first are `vs`, behind `ps`.
pub record Agrees {A : Type 0} (ps vs : List SqlValue) (r r' : Built A) : Type 0 where
  pub same : r.0 ≡ r'.0
  pub count : length r.1 ≡ length r'.1
  pub bound : is_built r.0 ≡ true → r.1 ≡ ps ++ vs

pub stopped :
    {A : Type 0} (x : Result A) (ps vs qs : List SqlValue)
    → is_built x ≡ false
    → length ps ≡ length qs
    → Agrees ps vs (x, ps) (x, qs)
stopped x ps vs qs e h = record {
  same = refl;
  count = h;
  bound = λ b. absurd (ground (arith, b, e));
}

pub placed-Agrees :
    (sql : String) (v w : SqlValue) (ps qs : List SqlValue)
    → length ps ≡ length qs
    → Agrees ps (v ∷ []) (placed sql v ps) (placed sql w qs)
placed-Agrees sql v w ps qs h =
    let n : length (ps ++ (v ∷ [])) ≡ length (qs ++ (w ∷ [])) =
      omega (arith, h, length-append ps (v ∷ []), length-append qs (w ∷ [])) in
    record { same = ap (λ k. ok (sql <> ("?" <> to_string k))) n; count = n; bound = λ b. refl }

pub compared-Agrees :
    (prefix op field : String) (v w : SqlValue) (r : Result String) (ps qs : List SqlValue)
    → length ps ≡ length qs
    → Agrees ps (v ∷ []) (compared prefix op field v r ps) (compared prefix op field w r qs)
unfolding compared
compared-Agrees prefix op field v w (ok col) ps qs h =
    placed-Agrees (prefix <> (col <> op)) v w ps qs h
compared-Agrees prefix op field v w (err e) ps qs h = stopped (err e) ps (v ∷ []) qs refl h
compared-Agrees prefix op field v w panic ps qs h = stopped panic ps (v ∷ []) qs refl h

pub match-Agrees :
    (collection : String) (has_fts : Bool) (v w : Text) (ps qs : List SqlValue)
    → length ps ≡ length qs
    → Agrees ps
        (SqlValue.text v ∷ [])
        (match_sql collection has_fts v ps)
        (match_sql collection has_fts w qs)
match-Agrees collection true v w ps qs h =
    let a =
      placed-Agrees
        ("r.id IN (SELECT record_id FROM fts_"
          <> (collection <> (" WHERE fts_" <> (collection <> " MATCH "))))
        (SqlValue.text v) (SqlValue.text w) ps qs h in
    record {
      same = ap (λ (r : Result String). (close (r, [])).0) a.same;
      count = a.count;
      bound = λ b. refl;
    }
match-Agrees collection false v w ps qs h = stopped (err _) ps (SqlValue.text v ∷ []) qs refl h

pub nothing :
    {A : Type 0} {a : A} (ps qs : List SqlValue)
    → length ps ≡ length qs
    → Agrees ps [] (ok a, ps) (ok a, qs)
nothing ps qs h = record { same = refl; count = h; bound = λ b. sym (append-nil ps) }

module _ (sep : String) (ps vs : List SqlValue) where
  pub joined_alike :
      (x : Result (List String)) (bs cs : List SqlValue)
      → Agrees ps vs (x, bs) (x, cs)
      → Agrees ps vs (joined_parts sep (x, bs)) (joined_parts sep (x, cs))
  joined_alike (ok parts) bs cs a = record {
    same = refl;
    count = a.count;
    bound = λ b. a.bound refl;
  }
  joined_alike (err e) bs cs a = record {
    same = refl;
    count = a.count;
    bound = λ b. absurd (ground (arith, b));
  }
  joined_alike panic bs cs a = record {
    same = refl;
    count = a.count;
    bound = λ b. absurd (ground (arith, b));
  }

  pub joined-Agrees :
      (x y : Result (List String)) (bs cs : List SqlValue)
      → Agrees ps vs (x, bs) (y, cs)
      → Agrees ps vs (joined_parts sep (x, bs)) (joined_parts sep (y, cs))
  joined-Agrees x y bs cs a =
      let same : x ≡ y = a.same in
      subst (λ z. Agrees ps vs (joined_parts sep (x, bs)) (joined_parts sep (z, cs))) same
        (joined_alike x bs cs (subst (λ z. Agrees ps vs (x, bs) (z, cs)) (sym same) a))

module _ (ps vs ws : List SqlValue) where
  pub cons_alike :
      (p : String) (x : Result (List String)) (bs cs ds : List SqlValue)
      → bs ≡ ps ++ vs
      → Agrees bs ws (x, cs) (x, ds)
      → Agrees ps (vs ++ ws) (cons_part p (x, cs)) (cons_part p (x, ds))
  cons_alike p (ok xs) bs cs ds e a = record {
    same = refl;
    count = a.count;
    bound = λ b. a.bound refl ∙ (ap (λ l. l ++ ws) e ∙ append_assoc ps vs ws);
  }
  cons_alike p (err y) bs cs ds e a = record {
    same = refl;
    count = a.count;
    bound = λ b. absurd (ground (arith, b));
  }
  cons_alike p panic bs cs ds e a = record {
    same = refl;
    count = a.count;
    bound = λ b. absurd (ground (arith, b));
  }

  pub cons-Agrees :
      (p : String) (r r' : Built (List String)) (bs : List SqlValue)
      → bs ≡ ps ++ vs
      → Agrees bs ws r r'
      → Agrees ps (vs ++ ws) (cons_part p r) (cons_part p r')
  cons-Agrees p (x, cs) (y, ds) bs e a =
      let same : x ≡ y = a.same in
      subst (λ z. Agrees ps (vs ++ ws) (cons_part p (x, cs)) (cons_part p (z, ds))) same
        (cons_alike p x bs cs ds e (subst (λ z. Agrees bs ws (x, cs) (z, ds)) (sym same) a))

  pub then_alike :
      (x : Result String) (bs cs : List SqlValue) (f g : List SqlValue → Built (List String))
      → Agrees ps vs (x, bs) (x, cs)
      → Agrees bs ws (f bs) (g cs)
      → Agrees ps (vs ++ ws) (then_parts (x, bs) f) (then_parts (x, cs) g)
  then_alike (ok p) bs cs f g a next = cons-Agrees p (f bs) (g cs) bs (a.bound refl) next
  then_alike (err e) bs cs f g a next = record {
    same = refl;
    count = a.count;
    bound = λ b. absurd (ground (arith, b));
  }
  then_alike panic bs cs f g a next = record {
    same = refl;
    count = a.count;
    bound = λ b. absurd (ground (arith, b));
  }

  pub then-Agrees :
      (r r' : Built String) (f g : List SqlValue → Built (List String))
      → Agrees ps vs r r'
      → Agrees r.1 ws (f r.1) (g r'.1)
      → Agrees ps (vs ++ ws) (then_parts r f) (then_parts r' g)
  then-Agrees (x, bs) (y, cs) f g a next =
      let same : x ≡ y = a.same in
      subst (λ z. Agrees ps (vs ++ ws) (then_parts (x, bs) f) (then_parts (z, cs) g)) same
        (then_alike x bs cs f g (subst (λ z. Agrees ps vs (x, bs) (z, cs)) (sym same) a) next)
