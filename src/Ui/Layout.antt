-- ===== src/Ui/Layout.antt =====
-- View.Layout of view.go with the inputs of composer.go and searchbar.go: in which order a frame asks
-- its caller for what, and what it then draws.
mod Inputs
mod Clicks
pub mod Keeps
pub mod Narrow
unfoldable pub use Inputs.*
unfoldable pub use Clicks.*
use wachat.Prelude.{
  ℕ, zero, suc, String, Bool, true, false, not, ◌&&◌, Option, none, some, List, [], ◌∷◌, ◌++◌, ◌==◌,
  text_eq, nat_eq, ltb, length, get_elem?, if◌then◌else◌, Runes, runes, trim_space,
}
use wachat.Store.Search.{SearchHit}
use wachat.Ui.State.{ChatSummary, State}
use wachat.Ui.Theme.{Theme}
use wachat.Ui.Composer.{KeyEvent, can_send, submit, handle_enter}
use wachat.Ui.View.{narrow_window_dp, Position, Row, row_at, check_paging_trigger}
use wachat.Ui.Rows.{chat_row}
use wachat.Ui.Draw.{
  Tree, blank, label, line, flexed, clickable, centered, beside, above, chat, message, chat_at,
  paint_background, layout_header, layout_typing_indicator, layout_composer, layout_input,
  layout_results,
}

module _ {S : Type 0} (reads : Reads S) (cb : ViewCallbacks S) where
  -- New clickables have no click: none is read where the number of rows has changed.
  unfoldable pub handle_chat_clicks : Input → View → S → View × S
  unfolding select_clicked
  handle_chat_clicks ev v s =
      let n = length (reads.state s).chats in
      let clicked : ℕ → Bool = λ i. v.chat_clicks == n && ev.chat_clicked i in
      (record v { chat_clicks = n }, if_set_select reads cb.on_select_chat clicked n s)

  unfoldable pub handle_header_clicks : Input → S → S
  handle_header_clicks ev s = fire reads cb.on_back ev.back_clicked (
      fire reads cb.on_toggle_density ev.density_clicked
        (fire reads cb.on_toggle_theme ev.theme_clicked s))

  -- Below the search bar: the chat list, or the results while a search is active.
  unfoldable pub layout_below : Input → View → Option (List SearchHit) → S → Tree × View × S
  unfolding jump_clicked layout_results chat_list
  layout_below ev v none s = (chat_list reads ev ev.visible_chats s, v, s)
  layout_below ev v (some hits) s =
      let n = length hits in
      let clicked : ℕ → Bool = λ i. v.hit_clicks == n && ev.hit_clicked i in
      let s' = if_set_jump reads cb.on_jump_to_message clicked n s in
      (
        layout_results (reads.theme s') (some (hits_of reads (reads.results s'))),
        record v { hit_clicks = n },
        s',
      )

  unfoldable pub layout_sidebar : Input → View → S → Tree × View × S
  unfolding submit_queries layout_below layout_input
  layout_sidebar ev v s =
      let s' = if_set_search reads cb.on_search ev.search_keys v.search_text s in
      let (below, v'', s'') = layout_below ev v (reads.results s') s' in
      (above (layout_input (reads.theme s')) (flexed below), v'', s'')

  -- Composer.Layout: the Return key, and then the button.
  unfoldable pub handle_composer : Input → View → S → View × S
  unfolding handle_enter submit send_all
  handle_composer ev v s =
      let (typed, rest) = handle_enter ev.insert_newline ev.composer_keys v.composer_text in
      let (clicked, left) = if ev.send_clicked then submit rest else ([], rest) in
      (record v { composer_text = left }, if_set_send reads cb.on_send (typed ++ clicked) s)

  -- The rigid children come first, so the composer sends before the messages are laid out.
  unfoldable pub layout_conversation : Input → View → S → Tree × View × S
  unfolding handle_composer layout_header layout_typing_indicator layout_composer can_send
      message_list
  layout_conversation ev v s =
      let th = reads.theme s in
      let st = reads.state s in
      let (v', s') = handle_composer ev v s in
      if st.selected_chat == ""
      then (
        centered (label th.type_scale.body th.palette.text_secondary (runes "Select a chat")),
        v,
        s,
      )
      else (
        above (layout_header th st (is_narrow reads ev)) (
            above (flexed (message_list reads ev.visible_rows s')) (
              above (layout_typing_indicator th st ev.now_ms)
                (layout_composer (reads.theme s') (can_send v'.composer_text)))),
        v',
        s',
      )

  unfoldable pub layout_narrow : Input → View → S → Tree × View × S
  unfolding layout_sidebar layout_conversation
  layout_narrow ev v s =
      if (reads.state s).selected_chat == ""
      then layout_sidebar ev v s
      else layout_conversation ev v s

  -- The pagination trigger at the end of a wide frame.
  unfoldable pub trigger_paging : Input → View → S → View × S
  unfolding check_paging_trigger
  trigger_paging ev v s =
      let st = reads.state s in
      let (called, near) =
        check_paging_trigger (is_set reads cb.on_near_end) ev.position (length st.messages)
          v.prev_near_end in
      if st.selected_chat == ""
      then (record v { prev_near_end = false }, s)
      else (record v { prev_near_end = near }, fire reads cb.on_near_end called s)

  abbrev pub layout_wide : Input → View → S → Tree × View × S
  layout_wide ev v s =
      let (left, v1, s1) = layout_sidebar ev v s in
      let (right, v2, s2) = layout_conversation ev v1 s1 in
      let (v3, s3) = trigger_paging ev v2 s2 in
      (beside left (beside (line (reads.theme s).palette.divider) (flexed right)), v3, s3)

  unfoldable pub layout : Input → View → S → Tree × View × S
  unfolding handle_chat_clicks handle_header_clicks layout_narrow trigger_paging
  layout ev v s =
      let (v1, s1) = handle_chat_clicks ev v s in
      let s2 = handle_header_clicks ev s1 in
      let (tree, v2, s3) =
        if is_narrow reads ev then layout_narrow ev v1 s2 else layout_wide ev v1 s2 in
      (paint_background (reads.theme s2).palette.canvas tree, v2, s3)
