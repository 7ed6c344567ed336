-- ===== src/Access/Audited.antt =====
-- insert_or_winner of Access, followed by what leaves the collection alone (an audit entry).
use aisdlc.Prelude.{◌≡◌, refl, Bool}
use aisdlc.Store.{ObjectId, Collection}
use aisdlc.Effect.{Result, ok, err, Action, and_then, ◌>>=◌}
use aisdlc.Errors.{Error}
use aisdlc.Access.{Stored, insert_or_winner}
use aisdlc.Access.Laws.{docs}
use aisdlc.Access.Unique.{Distinct}
use aisdlc.Access.Once.{insert_or_winner-Distinct}

module _ {D W A : Type 0} {clash : D → D → Bool} (C : Collection D clash) (get : W → C.State)
    (put : C.State → W → W) (get_put : (s : C.State) (w : W) → get (put s w) ≡ s)
    (k : Stored C get put → Action W Error A)
    (frame : (s : Stored C get put) (v : W) → docs C get put (k s v).1 ≡ docs C get put v) where
  and_then-frame :
      (r : Result Error (Stored C get put)) (v : W)
      → docs C get put (and_then r k v).1 ≡ docs C get put v
  and_then-frame (ok s) v = frame s v
  and_then-frame (err e) v = refl

  -- The index stays unique, whatever the result of the insert and of what follows it.
  pub insert_then-Distinct :
      (clash_sym : (a b : D) → clash a b ≡ clash b a) (mk : ObjectId → D) (p : D → Bool)
      (step : W → W) (w : W)
      → Distinct clash (docs C get put w)
      → Distinct clash (docs C get put (step w))
      → Distinct clash (docs C get put ((insert_or_winner C get put step mk p >>= k) w).1)
  insert_then-Distinct clash_sym mk p step w before after =
      rw
        (and_then-frame (insert_or_winner C get put step mk p w).0
          (insert_or_winner C get put step mk p w).1)
        (insert_or_winner-Distinct C get put get_put mk p clash_sym step w before after)
