-- ===== src/Ui/Layout/Clicks.antt =====
-- The loops of a frame over its clicks and key events, and the rows of its lists.
use wachat.Prelude.{
  ℕ, zero, suc, String, Bool, true, false, Option, none, some, List, [], ◌∷◌, text_eq, nat_eq, ltb,
  get_elem?, if◌then◌else◌, Runes, trim_space,
}
use wachat.Store.Search.{SearchHit}
use wachat.Ui.State.{ChatSummary}
use wachat.Ui.Composer.{KeyEvent}
use wachat.Ui.View.{narrow_window_dp, row_at}
use wachat.Ui.Rows.{chat_row}
use wachat.Ui.Draw.{Tree, blank, clickable, above, chat, message, chat_at}
use wachat.Ui.Layout.Inputs.{Reads, Input}

module _ {S : Type 0} (reads : Reads S) where
  abbrev pub fire : Option (S → S) → Bool → S → S
  fire none clicked s = s
  fire (some f) clicked s = if clicked then f s else s

  -- A row that is gone is not asked for.
  abbrev pub select_at : (String → S → S) → Option ChatSummary → S → S
  select_at f none s = s
  select_at f (some c) s = f c.jid s

  -- The loop over the rows `i`, `i + 1` and so on, `n` of them.
  unfoldable pub select_clicked : (String → S → S) → (ℕ → Bool) → ℕ → ℕ → S → S
  select_clicked f clicked zero i s = s
  select_clicked f clicked (suc n) i s =
      let next = if clicked i then select_at f (get_elem? (reads.state s).chats i) s else s in
      select_clicked f clicked n (suc i) next

  abbrev pub jump_to : (SearchHit → S → S) → Option SearchHit → S → S
  jump_to f none s = s
  jump_to f (some h) s = f h s

  abbrev pub hits_of : Option (List SearchHit) → List SearchHit
  hits_of none = []
  hits_of (some hs) = hs

  unfoldable pub jump_clicked : (SearchHit → S → S) → (ℕ → Bool) → ℕ → ℕ → S → S
  jump_clicked f clicked zero i s = s
  jump_clicked f clicked (suc n) i s =
      let next = if clicked i then jump_to f (get_elem? (hits_of (reads.results s)) i) s else s in
      jump_clicked f clicked n (suc i) next

  abbrev pub if_set_select : Option (String → S → S) → (ℕ → Bool) → ℕ → S → S
  if_set_select none clicked n s = s
  if_set_select (some f) clicked n s = select_clicked f clicked n 0 s

  abbrev pub if_set_jump : Option (SearchHit → S → S) → (ℕ → Bool) → ℕ → S → S
  if_set_jump none clicked n s = s
  if_set_jump (some f) clicked n s = jump_clicked f clicked n 0 s

  -- The presses of the Return key in the search bar, each with the trimmed text.
  unfoldable pub submit_queries : (Runes → S → S) → List KeyEvent → Runes → S → S
  submit_queries f [] query s = s
  submit_queries f (e ∷ es) query s =
      submit_queries f es query (if e.is_press then f (trim_space query) s else s)

  -- The rows of the list that are visible.
  unfoldable pub chat_list : Input → List ℕ → S → Tree
  unfolding chat_row
  chat_list ev [] s = blank
  chat_list ev (i ∷ is) s =
      let rest = chat_list ev is s in
      elim (get_elem? (reads.state s).chats i) [
        | none ↦ rest
        | some c ↦ above (clickable (chat_at i) (chat (chat_row ev.date ev.now_ms c))) rest
      ]

  unfoldable pub message_list : List ℕ → S → Tree
  unfolding row_at
  message_list [] s = blank
  message_list (i ∷ is) s =
      let rest = message_list is s in
      elim (row_at (reads.state s) i) [ none ↦ rest | some r ↦ above (message r) rest ]

  abbrev pub if_set_search : Option (Runes → S → S) → List KeyEvent → Runes → S → S
  if_set_search none keys query s = s
  if_set_search (some f) keys query s = submit_queries f keys query s

  -- Each body goes to the chat that is selected when it is sent.
  unfoldable pub send_all : (String → Runes → S → S) → List Runes → S → S
  send_all f [] s = s
  send_all f (b ∷ bs) s = send_all f bs (f (reads.state s).selected_chat b s)

  abbrev pub if_set_send : Option (String → Runes → S → S) → List Runes → S → S
  if_set_send none bodies s = s
  if_set_send (some f) bodies s = send_all f bodies s

  abbrev pub is_narrow : Input → Bool
  is_narrow ev = ltb ev.width_dp narrow_window_dp

  abbrev pub is_set : Option (S → S) → Bool
  is_set none = false
  is_set (some f) = true
