-- ===== src/Main/Drain.antt =====
-- The drain ends, and takes the events in the order in which they arrived.
use wachat.Prelude.{
  ℕ, zero, suc, ◌+◌, ◌<◌, ◌≡◌, refl, ap, ◌∙◌, Option, some, List, [], ◌∷◌, ◌++◌, length,
  length-append, arith,
}
use wachat.Wa.Extract.{MessageEvent}
use wachat.Ui.State.{State, on_incoming}
use wachat.Main.{
  Toast, toast_for, toast_list, Drained, drain_incoming_notify, arrived, later_arrivals,
}

abbrev pub together : List (List MessageEvent) → List MessageEvent
together [] = []
together (b ∷ bs) = b ++ together bs

-- The state after a sequence of events, and their notifications, each read off the state after its
-- event and the time then, which is `clock i` at the i-th event.
unfoldable pub after_all : List MessageEvent → State → State
after_all [] st = st
after_all (ev ∷ evs) st = after_all evs (on_incoming ev st)

unfoldable pub toasts_of : (ℕ → ℕ) → List MessageEvent → State → List Toast
toasts_of clock [] st = []
toasts_of clock (ev ∷ evs) st =
    toast_list (toast_for (clock 0) (on_incoming ev st) ev)
    ++ toasts_of (λ i. clock (suc i)) evs (on_incoming ev st)

-- A drain that took the events in the channel and then `more`, in order.
pub record IsDrained (clock : ℕ → ℕ) (arrivals : List (List MessageEvent))
    (queue : List MessageEvent) (st : State) (result : Option Drained) : Type 0 where
  pub more : List MessageEvent
  pub left : List (List MessageEvent)
  pub done :
      result
      ≡ some (record {
        state = after_all (queue ++ more) st;
        toasts = toasts_of clock (queue ++ more) st;
        left = left;
      })
  pub in_order : more ++ together left ≡ together arrivals

append_assoc {ℓ} : {A : Type ℓ} (xs ys zs : List A) → (xs ++ ys) ++ zs ≡ xs ++ (ys ++ zs)
append_assoc [] ys zs = refl
append_assoc (x ∷ xs) ys zs = ap (λ l. x ∷ l) (append_assoc xs ys zs)

together_first :
    (arrivals : List (List MessageEvent))
    → arrived arrivals ++ together (later_arrivals arrivals) ≡ together arrivals
together_first [] = refl
together_first (b ∷ bs) = refl

-- With more fuel than there are events in the channel and yet to arrive, the drain ends: it takes
-- every event that was in the channel at first and then a part of those that arrive meanwhile, one
-- after the other in their order, and each notification reads the state after its event and the time
-- then.
pub drain-IsDrained :
    (clock : ℕ → ℕ) (fuel : ℕ) (arrivals : List (List MessageEvent)) (queue : List MessageEvent)
    (st : State)
    → length queue + length (together arrivals) < fuel
    → IsDrained clock arrivals queue st (drain_incoming_notify clock fuel arrivals queue st)
unfolding drain_incoming_notify after_all toasts_of
drain-IsDrained clock zero arrivals queue st enough = absurd (omega arith)
drain-IsDrained clock (suc fuel) arrivals [] st enough = record {
  more = [];
  left = arrivals;
  done = refl;
  in_order = refl;
}
drain-IsDrained clock (suc fuel) arrivals (ev ∷ queue) st enough =
    let first = arrived arrivals in
    let later = later_arrivals arrivals in
    let all = ap length (together_first arrivals) in
    let rest =
      drain-IsDrained (λ i. clock (suc i)) fuel later (queue ++ first) (on_incoming ev st)
        (omega (arith, all, length-append first (together later), length-append queue first)) in
    record {
      more = first ++ rest.more;
      left = rest.left;
      done = rw (rest.done, append_assoc queue first rest.more) refl;
      in_order =
          append_assoc first rest.more (together rest.left)
          ∙ ap (λ l. first ++ l) rest.in_order
          ∙ together_first arrivals;
    }
