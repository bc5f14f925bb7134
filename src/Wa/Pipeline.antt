-- ===== src/Wa/Pipeline.antt =====
-- The pipeline of OnMessage: persist, then send, then notify.
use wachat.Prelude.{
  ℕ, ◌≡◌, refl, ◌⊎◌, inl, inr, Bool, true, not, Option, none, some, [], ◌∷◌, ◌++◌, text_eq, ltb,
  length, arith, if◌then◌else◌, Bool-cases,
}
use wachat.Store.Schema.{Sqlite}
use wachat.Store.Exec.{Result, ok, err}
use wachat.Store.Messages.{insert}
use wachat.Wa.Extract.{MessageEvent}
use wachat.Wa.Handler.{
  Handler, World, Failure, store_failed, notified, send, deliver, to_message, on_message,
}

queue-send :
    (out : Option ℕ) (ev : MessageEvent) (w : World)
    → ((send out ev w).queue ≡ w.queue) ⊎ ((send out ev w).queue ≡ w.queue ++ ev ∷ [])
unfolding send
queue-send none ev w = inl refl
queue-send (some size) ev w = elim (Bool-cases (ltb (length w.queue) size)) [
  | inl e ↦ rw e (inr refl)
  | inr e ↦ rw e (inl refl)
]

db-send : (out : Option ℕ) (ev : MessageEvent) (w : World) → (send out ev w).db ≡ w.db
unfolding send
db-send out ev w = ground arith

trace-send : (out : Option ℕ) (ev : MessageEvent) (w : World) → (send out ev w).trace ≡ w.trace
unfolding send
trace-send out ev w = ground arith

-- What a pipeline leaves of a world, given what Insert answered.
abbrev pub IsPipeline :
    Handler → MessageEvent → World → Result Bool → Option Failure × World → Type 0
IsPipeline h ev w (err e) (outcome, after) =
    (outcome ≡ some (store_failed e)) × (after.queue ≡ w.queue) × (after.trace ≡ w.trace)
IsPipeline h ev w (ok created) (outcome, after) =
    (outcome ≡ none)
    × ((after.queue ≡ w.queue) ⊎ (after.queue ≡ w.queue ++ ev ∷ []))
    × (after.trace ≡ (if h.has_notify then w.trace ++ notified ∷ [] else w.trace))

module _ (h : Handler) (ev : MessageEvent) where
  pub db-deliver : (r : Result Bool) (w : World) → (deliver h ev (r, w)).1.db ≡ w.db
  unfolding deliver
  db-deliver (ok created) w = ground (arith, db-send h.out ev w)
  db-deliver (err e) w = refl

  deliver-IsPipeline :
      (r : Result Bool) (w before : World)
      → w.queue ≡ before.queue
      → w.trace ≡ before.trace
      → IsPipeline h ev before r (deliver h ev (r, w))
  unfolding deliver
  deliver-IsPipeline (ok created) w before q t =
      let queue = queue-send h.out ev w in
      (refl, ground (arith, queue, q), ground (arith, trace-send h.out ev w, t))
  deliver-IsPipeline (err e) w before q t = (refl, q, t)

  -- With a store, OnMessage leaves the database exactly as Insert does, however full the channel
  -- is. If Insert fails, its error is returned and nothing is sent or notified. If it succeeds,
  -- no error is returned, the event is added to the channel or dropped, and the view is notified
  -- once, if Notify is set.
  pub on_message-IsPipeline :
      (d : Sqlite) (w : World)
      → h.has_store ≡ true
      → ((on_message d h ev w).1.db ≡ (insert d (to_message ev) (not ev.from_me) w.db).1)
        × IsPipeline h ev w (insert d (to_message ev) (not ev.from_me) w.db).0 (on_message d h ev w)
  unfolding on_message
  on_message-IsPipeline d w store =
      let done = insert d (to_message ev) (not ev.from_me) w.db in
      rw store (
        db-deliver done.0 (record w { db = done.1 }),
        deliver-IsPipeline done.0 (record w { db = done.1 }) w refl refl,
      )
