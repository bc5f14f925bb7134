-- ===== src/Store/Exec.antt =====
-- Methods of the store as actions on the database that may fail: what was written before an error
-- stays written, unless a transaction takes it back.
pub mod Keeps
use wachat.Prelude.{◌≡◌, refl, ◌⊎◌, inl, inr, Bool, true, false, if◌then◌else◌}
use wachat.Store.Schema.{Db, Call, Sqlite}

-- What a method's guard finds missing or out of range.
pub data Argument : Type 0 where
  wa_id chat_jid jid key limit window status target_and_sender : Argument

pub data Error : Type 0 where
  bad : Argument → Error
  failed : Call → Error
  no_rows : Error

-- No call of the driver fails.
abbrev pub Succeeds : Sqlite → Type 0
Succeeds d = (c : Call) → d.succeeds c ≡ true

pub data Result {ℓ} (A : Type ℓ) : Type ℓ where
  ok : A → Result A
  err : Error → Result A

pub Result-cases {ℓ} :
    {A : Type ℓ} (r : Result A) → ((a : A) × (r ≡ ok a)) ⊎ ((e : Error) × (r ≡ err e))
Result-cases (ok a) = inl (a, refl)
Result-cases (err e) = inr (e, refl)

abbrev pub Exec : Type 0 → Type 0
Exec A = Db → Result A × Db

abbrev pub pure : {A : Type 0} → A → Exec A
pure a db = (ok a, db)

abbrev pub fail : {A : Type 0} → Error → Exec A
fail e db = (err e, db)

abbrev pub gets : {A : Type 0} → (Db → A) → Exec A
gets f db = (ok (f db), db)

abbrev pub modify : (Db → Db) → Exec (Unit {0})
modify f db = (ok tt, f db)

abbrev pub continue : {A B : Type 0} → Result A → (A → Exec B) → Exec B
continue (ok a) f db = f a db
continue (err e) f db = (err e, db)

infixl 5 ◌>>=◌ ◌>>◌
abbrev pub ◌>>=◌ : {A B : Type 0} → Exec A → (A → Exec B) → Exec B
◌>>=◌ m f db = let (r, db') = m db in continue r f db'

abbrev pub ◌>>◌ : {A B : Type 0} → Exec A → Exec B → Exec B
m >> k = m >>= λ _. k

-- `if _, err := c; err != nil { return err }`
abbrev pub call : Sqlite → Call → Exec (Unit {0})
call d c = if d.succeeds c then pure tt else fail (failed c)

-- `if cond { return fmt.Errorf(…) }`
abbrev pub refuse_if : Bool → Argument → Exec (Unit {0})
refuse_if true a = fail (bad a)
refuse_if false a = pure tt

abbrev pub keep_if_ok : {A : Type 0} → Result A → Db → Db → Db
keep_if_ok (ok a) before after = after
keep_if_ok (err e) before after = before

-- `defer tx.Rollback()`: an error takes back what the transaction wrote.
abbrev pub rollback_on_error : {A : Type 0} → Exec A → Exec A
rollback_on_error m db = let (r, db') = m db in (r, keep_if_ok r db db')
