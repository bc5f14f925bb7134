-- ===== src/Store/Exec/Keeps.antt =====
-- Invariants of actions, one rule for each way to build an action; an action keeps `P` whether it
-- succeeds or fails.
use wachat.Prelude.{Bool, true, false, ◌≡◌, refl}
use wachat.Store.Schema.{Db, Call, Sqlite}
use wachat.Store.Exec.{
  Argument, Result, ok, err, Exec, pure, modify, continue, ◌>>=◌, call, refuse_if,
  rollback_on_error, keep_if_ok,
}

pub record Keeps {A : Type 0} (P : Db → Type 0) (m : Exec A) : Type 0 where
  pub at : (db : Db) → P db → P (m db).1

module _ (P : Db → Type 0) where
  continue-Keeps :
      {A B : Type 0} (f : A → Exec B) (r : Result A) (db : Db)
      → ((a : A) → Keeps P (f a))
      → P db
      → P (continue r f db).1
  continue-Keeps f (ok a) db k h = (k a).at db h
  continue-Keeps f (err e) db k h = h

  pub Keeps-bind :
      {A B : Type 0} (m : Exec A) (f : A → Exec B)
      → Keeps P m
      → ((a : A) → Keeps P (f a))
      → Keeps P (m >>= f)
  Keeps-bind m f km kf = record { at = λ db h. continue-Keeps f (m db).0 (m db).1 kf (km.at db h) }

  pub Keeps-pure : {A : Type 0} (a : A) → Keeps P (pure a)
  Keeps-pure a = record { at = λ db h. h }

  pub Keeps-modify : (f : Db → Db) → ((db : Db) → P db → P (f db)) → Keeps P (modify f)
  Keeps-modify f h = record { at = h }

  call_by :
      (d : Sqlite) (c : Call) (b : Bool) (db : Db) → d.succeeds c ≡ b → P db → P (call d c db).1
  call_by d c true db e h = rw e h
  call_by d c false db e h = rw e h

  pub Keeps-call : (d : Sqlite) (c : Call) → Keeps P (call d c)
  Keeps-call d c = record { at = λ db h. call_by d c (d.succeeds c) db refl h }

  pub Keeps-refuse_if : (b : Bool) (a : Argument) → Keeps P (refuse_if b a)
  Keeps-refuse_if true a = record { at = λ db h. h }
  Keeps-refuse_if false a = record { at = λ db h. h }

  rollback-Keeps :
      {A : Type 0} (r : Result A) (db db' : Db) → P db → P db' → P (keep_if_ok r db db')
  rollback-Keeps (ok a) db db' h k = k
  rollback-Keeps (err e) db db' h k = h

  pub Keeps-rollback : {A : Type 0} (m : Exec A) → Keeps P m → Keeps P (rollback_on_error m)
  Keeps-rollback m k = record { at = λ db h. rollback-Keeps (m db).0 db (m db).1 h (k.at db h) }

  -- A method that checks its arguments, makes one call of the driver and writes.
  pub Keeps-write :
      (b : Bool) (a : Argument) (d : Sqlite) (c : Call) (f : Db → Db)
      → ((db : Db) → P db → P (f db))
      → Keeps P (refuse_if b a >>= λ _. call d c >>= λ _. modify f)
  Keeps-write b a d c f h =
      Keeps-bind (refuse_if b a) _ (Keeps-refuse_if b a)
        λ _. Keeps-bind (call d c) _ (Keeps-call d c) λ _. Keeps-modify f h
