-- ===== src/Pairing/Order.antt =====
-- What the readers of the pairing codes have received: the stream in order, less what was dropped.
use wachat.Prelude.{
  ◌≤◌, ◌≡◌, sym, ap, ◌∙◌, subst, inl, inr, true, List, [], ◌++◌, map, length, length-map, arith,
}
use mathlib.Core.List.{append-nil, Sublistᴰ}
use wachat.Ui.Pairing.{QrItem, new_pairing_view}
use wachat.Pairing.{QrChannelItem, adapt_item, capacity, Net, Reach}
use wachat.Pairing.Fed.{Sublist-more}
use wachat.Pairing.Split.{IsOrdered, Reach-IsOrdered, handle_all}

module _ {items : List QrChannelItem} {s : Net} (h : IsOrdered items s) where
  taken-Sublist : {xs : List QrItem} → Sublistᴰ xs h.taken → Sublistᴰ xs (map adapt_item items)
  taken-Sublist l = subst (Sublistᴰ _) h.whole (Sublist-more _ l)

  -- A window whose channel is closed has been offered the whole stream.
  pub all_offered : s.window.closed ≡ true → h.to_seen ≡ map adapt_item items
  all_offered c = elim h.window_open [
    | inl o ↦ absurd cc
    | inr (f, b, b_closed) ↦ elim h.bridge_open [
      | inl o ↦ absurd cc
      | inr (done, none_held) ↦
          sym (append-nil h.to_seen)
          ∙ (rw f at h.seen_taken)
          ∙ sym (append-nil h.taken)
          ∙ (rw (b, done, none_held) at h.whole)
    ]
  ]

-- The room of the channels, and what both readers have received or are about to.
pub Reach-IsInOrder :
    {items : List QrChannelItem} {s : Net}
    → Reach items s
    → (length s.bridge.buffer ≤ capacity)
      × (length s.terminal.buffer ≤ capacity)
      × (length s.window.buffer ≤ capacity)
      × Sublistᴰ (s.shown ++ s.terminal.buffer) (map adapt_item items)
      × Sublistᴰ (s.seen ++ s.window.buffer) (map adapt_item items)
Reach-IsInOrder {items} {s} r =
    let h = Reach-IsOrdered r in
    (
      h.bridge_small,
      h.shown_fed.small,
      h.seen_fed.small,
      taken-Sublist h (subst (Sublistᴰ _) h.shown_taken (Sublist-more _ h.shown_fed.in_order)),
      taken-Sublist h (subst (Sublistᴰ _) h.seen_taken (Sublist-more _ h.seen_fed.in_order)),
    )

-- A stream of at most four items reaches the window whole: once the window's channel is closed and
-- empty, the window has received exactly the stream, and HandleQR has made of a new screen what the
-- stream leads to.
pub Reach-IsWhole :
    {items : List QrChannelItem} {s : Net}
    → Reach items s
    → length items ≤ capacity
    → s.window.closed ≡ true
    → s.window.buffer ≡ []
    → (s.seen ≡ map adapt_item items)
      × (s.view ≡ handle_all (map adapt_item items) new_pairing_view)
Reach-IsWhole {items} {s} r few c empty =
    let h = Reach-IsOrdered r in
    let all = all_offered h c in
    let seen : s.seen ≡ map adapt_item items = elim h.seen_fed.few [
      | inl same ↦ sym (append-nil s.seen) ∙ ap (λ b. s.seen ++ b) (sym empty) ∙ same ∙ all
      | inr more ↦ absurd (omega (arith, ap length all, length-map adapt_item items))
    ] in
    (seen, h.handled ∙ ap (λ l. handle_all l new_pairing_view) seen)
