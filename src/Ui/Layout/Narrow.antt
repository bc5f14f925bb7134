-- ===== src/Ui/Layout/Narrow.antt =====
-- The pagination trigger and the width of the window.
use wachat.Prelude.{
  ◌≡◌, refl, sym, subst, ap, ap₂, ltb, Bool, true, Option, none, some, List, if◌then◌else◌, ◌==◌,
  text_eq,
}
use wachat.Store.Search.{SearchHit}
use wachat.Ui.View.{narrow_window_dp}
use wachat.Ui.Draw.{Tree, paint_background, above, flexed, layout_input}
use wachat.Ui.Layout.{
  ViewCallbacks, Reads, View, Input, is_narrow, if_set_search, layout_below, layout_sidebar,
  layout_conversation, layout_narrow, layout_wide, layout, handle_chat_clicks, handle_header_clicks,
  handle_composer,
}

module _ {S : Type 0} (reads : Reads S) (cb : ViewCallbacks S) (other : Option (S → S))
    (ev : Input) where
  -- The callbacks with another pagination.
  abbrev repaged : ViewCallbacks S
  repaged = record cb { on_near_end = other }

  layout_below-repaged :
      (v : View) (results : Option (List SearchHit)) (s : S)
      → layout_below reads repaged ev v results s ≡ layout_below reads cb ev v results s
  unfolding layout_below
  layout_below-repaged v none s = refl
  layout_below-repaged v (some hits) s = refl

  layout_sidebar-repaged :
      (v : View) (s : S) → layout_sidebar reads repaged ev v s ≡ layout_sidebar reads cb ev v s
  unfolding layout_sidebar
  layout_sidebar-repaged v s =
      let s' = if_set_search reads cb.on_search ev.search_keys v.search_text s in
      ap (λ (r : Tree × View × S). (above (layout_input (reads.theme s')) (flexed r.0), r.1, r.2))
        (layout_below-repaged v (reads.results s') s')

  layout_conversation-repaged :
      (v : View) (s : S)
      → layout_conversation reads repaged ev v s ≡ layout_conversation reads cb ev v s
  unfolding layout_conversation handle_composer
  layout_conversation-repaged v s = refl

  layout_narrow-repaged :
      (v : View) (s : S) → layout_narrow reads repaged ev v s ≡ layout_narrow reads cb ev v s
  unfolding layout_narrow
  layout_narrow-repaged v s =
      ap₂ (λ r t. if (reads.state s).selected_chat == "" then r else t) (layout_sidebar-repaged v s)
        (layout_conversation-repaged v s)

  -- The panes of a frame, if the window is narrow or not.
  abbrev panes : Bool → ViewCallbacks S → View → S → Tree × View × S
  panes narrow c v s = if narrow then layout_narrow reads c ev v s else layout_wide reads c ev v s

  panes-repaged :
      (v : View) (s : S)
      → is_narrow reads ev ≡ true
      → panes (is_narrow reads ev) repaged v s ≡ panes (is_narrow reads ev) cb v s
  panes-repaged v s narrow =
      subst (λ b. panes b repaged v s ≡ panes b cb v s) (sym narrow) (layout_narrow-repaged v s)

  -- In a window that is narrower than 760 dp, what a frame asks for, draws and leaves does not depend
  -- on the pagination callback: older messages are never asked for.
  pub narrow_never_pages :
      (v : View) (s : S)
      → ltb ev.width_dp narrow_window_dp ≡ true
      → layout reads repaged ev v s ≡ layout reads cb ev v s
  unfolding layout handle_chat_clicks handle_header_clicks
  narrow_never_pages v s narrow =
      let v1 = (handle_chat_clicks reads cb ev v s).0 in
      let s2 = handle_header_clicks reads cb ev (handle_chat_clicks reads cb ev v s).1 in
      ap (λ (r : Tree × View × S). (paint_background (reads.theme s2).palette.canvas r.0, r.1, r.2))
        (panes-repaged v1 s2 narrow)
