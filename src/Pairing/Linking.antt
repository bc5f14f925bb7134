-- ===== src/Pairing/Linking.antt =====
-- The linking screen between its two writers: the items of the pairing stream, and the report of a
-- connection.
use wachat.Prelude.{
  ◌≤◌, ◌≡◌, refl, sym, ap, ◌∙◌, ◌⊎◌, inl, inr, false, List, [], ◌∷◌, ◌++◌, map, length, arith,
}
use mathlib.Core.List.{append-nil, Sublistᴰ}
use wachat.Ui.Pairing.{QrItem, new_pairing_view, handle_qr, set_phase, ready}
use wachat.Pairing.{
  QrChannelItem, adapt_item, capacity, Reach, start, later, Screen, ScreenStep, stream, handled,
  connected, drawn, ScreenReach, opened, next,
}
use wachat.Pairing.Split.{handle_all, handle_all-append}
use wachat.Pairing.Order.{Reach-IsInOrder}

ScreenReach-Reach :
    {items : List QrChannelItem} {s : Screen} → ScreenReach items s → Reach items s.net
ScreenReach-Reach opened = start
ScreenReach-Reach (next r (stream st same)) = later (ScreenReach-Reach r) st
ScreenReach-Reach (next r (handled item st more)) = later (ScreenReach-Reach r) st
ScreenReach-Reach (next r (connected needed)) = ScreenReach-Reach r
ScreenReach-Reach (next r (drawn done)) = ScreenReach-Reach r

-- What the window received before the connection was reported and after it, and the screen that
-- these two and the report between them make of a new one.
pub record IsReported (s : Screen) : Type 0 where
  pub before : List QrItem
  pub after : List QrItem
  pub received : s.net.seen ≡ before ++ after
  pub shown : s.view ≡ handle_all after (set_phase ready (handle_all before new_pairing_view))
  pub cleared : s.needs_pairing ≡ false

-- No connection was reported, and the screen is what the items received make of a new one; or one
-- was.
abbrev pub IsShown : Screen → Type 0
IsShown s = (s.view ≡ handle_all s.net.seen new_pairing_view) ⊎ IsReported s

append_assoc {ℓ} : {A : Type ℓ} (xs ys zs : List A) → (xs ++ ys) ++ zs ≡ xs ++ (ys ++ zs)
append_assoc [] ys zs = refl
append_assoc (x ∷ xs) ys zs = ap (λ l. x ∷ l) (append_assoc xs ys zs)

ScreenStep-IsShown : {s t : Screen} → ScreenStep s t → IsShown s → IsShown t
unfolding handle_all set_phase
ScreenStep-IsShown (stream st same) (inl h) =
    inl (h ∙ ap (λ l. handle_all l new_pairing_view) (sym same))
ScreenStep-IsShown (stream st same) (inr h) = inr (record {
  before = h.before;
  after = h.after;
  received = same ∙ h.received;
  shown = h.shown;
  cleared = h.cleared;
})
ScreenStep-IsShown {s} (handled {n} item st more) (inl h) = inl (
    ap (handle_qr item) h
    ∙ sym (handle_all-append s.net.seen item new_pairing_view)
    ∙ ap (λ l. handle_all l new_pairing_view) (sym more))
ScreenStep-IsShown {s} (handled {n} item st more) (inr h) = inr (record {
  before = h.before;
  after = h.after ++ item ∷ [];
  received = more ∙ ap (λ l. l ++ item ∷ []) h.received ∙ append_assoc h.before h.after (item ∷ []);
  shown = ap (handle_qr item) h.shown ∙ sym (handle_all-append h.after item _);
  cleared = h.cleared;
})
ScreenStep-IsShown {s} (connected needed) (inl h) = inr (record {
  before = s.net.seen;
  after = [];
  received = sym (append-nil s.net.seen);
  shown = ap (set_phase ready) h;
  cleared = refl;
})
ScreenStep-IsShown (connected needed) (inr h) = absurd (ground (arith, sym needed ∙ h.cleared))
ScreenStep-IsShown (drawn done) (inl h) = inl h
ScreenStep-IsShown (drawn done) (inr h) = inr (record {
  before = h.before;
  after = h.after;
  received = h.received;
  shown = h.shown;
  cleared = refl;
})

ScreenReach-IsShown : {items : List QrChannelItem} {s : Screen} → ScreenReach items s → IsShown s
unfolding handle_all
ScreenReach-IsShown opened = inl refl
ScreenReach-IsShown (next r st) = ScreenStep-IsShown st (ScreenReach-IsShown r)

-- Whatever the order of the steps of the stream, of the reports of a connection and of the frames:
-- no channel holds more than its room, and the terminal and the window receive items of the stream
-- in the stream's order. The linking screen is what the items that the window has received make of a
-- new one, or, once a connection was reported, what the items before, the phase "ready" and the
-- items after make of it; the phase is set by a report no more than once.
pub ScreenReach-IsInOrder :
    {items : List QrChannelItem} {s : Screen}
    → ScreenReach items s
    → (length s.net.bridge.buffer ≤ capacity)
      × (length s.net.terminal.buffer ≤ capacity)
      × (length s.net.window.buffer ≤ capacity)
      × Sublistᴰ (s.net.shown ++ s.net.terminal.buffer) (map adapt_item items)
      × Sublistᴰ (s.net.seen ++ s.net.window.buffer) (map adapt_item items)
      × IsShown s
ScreenReach-IsInOrder r =
    let (bridge, terminal, window, shown, seen) = Reach-IsInOrder (ScreenReach-Reach r) in
    (bridge, terminal, window, shown, seen, ScreenReach-IsShown r)
