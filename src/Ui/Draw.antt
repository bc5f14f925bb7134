-- ===== src/Ui/Draw.antt =====
-- What the layout functions of internal/ui hand to Gio: a tree of labels, insets and flexes, with the
-- texts, sizes and colours that they set. Where a node is drawn is Gio's.
use wachat.Prelude.{
  ℕ, suc, String, Bool, ◌&&◌, nat_eq, Option, none, some, List, [], ◌∷◌, ◌==◌, text_eq,
  if◌then◌else◌, Runes, runes,
}
use wachat.Store.Search.{SearchHit}
use wachat.Ui.State.{State}
use wachat.Ui.Theme.{
  Color, same_color, dim, Palette, dark_palette, Density, comfortable, compact, Theme, row_pad,
}
use wachat.Ui.View.{Row, header_name, typing_line}
use wachat.Ui.Rows.{ChatRowView}
use wachat.Ui.Pairing.{
  PairingView, text, qr, nothing, layout_body, layout_status, PairingPhase, ready, ConnState,
  conn_connected, conn_connecting, conn_disconnected, conn_logged_out, banner_copy,
}

-- What a press on a part of the screen clicks.
pub data Target : Type 0 where
  theme_button density_button back_button send_button : Target
  chat_at hit_at : ℕ → Target

pub data Tree : Type 0 where
  blank : Tree
  label : ℕ → Color → Runes → Tree
  editor : Color → Color → String → Tree
  spacer : ℕ → Tree
  line : Color → Tree
  inset : (top bottom left right : ℕ) → Tree → Tree
  filled : Color → Tree → Tree
  rounded : Color → ℕ → Tree → Tree
  clickable : Target → Tree → Tree
  centered : Tree → Tree
  -- A child that takes the space that is left.
  flexed : Tree → Tree
  beside above : Tree → Tree → Tree
  -- Both at the same place, the first one below; and the room of a tree that is drawn elsewhere.
  overlaid : Tree → Tree → Tree
  room_of : Tree → Tree
  qr_code : String → Tree
  chat : ChatRowView → Tree
  message : Row → Tree

abbrev pub padded : Theme → Tree → Tree
padded th t = inset th.spacing.s th.spacing.s th.spacing.m th.spacing.m t

-- paintHeaderSurface, paintSurface and paintFilledStrip.
abbrev pub paint_header_surface : Theme → Tree → Tree
paint_header_surface th t = above (filled th.palette.surface t) (line th.palette.divider)

abbrev pub paint_surface : Theme → Tree → Tree
paint_surface th t = filled th.palette.surface t

abbrev pub paint_background : Color → Tree → Tree
paint_background c t = filled c t

unfoldable pub theme_glyph : Palette → Runes
theme_glyph p = if same_color p.canvas dark_palette.canvas then runes "☀" else runes "☾"

unfoldable pub density_glyph : Density → Runes
density_glyph compact = runes "≡"
density_glyph comfortable = runes "☰"

abbrev pub layout_header_icon : Theme → Runes → Tree
layout_header_icon th glyph =
    inset 0 0 th.spacing.s th.spacing.s (label th.type_scale.label th.palette.text_secondary glyph)

-- The header of a conversation; `show_back` is that the pane is narrow.
unfoldable pub layout_header : Theme → State → Bool → Tree
unfolding theme_glyph density_glyph
layout_header th st show_back =
    let back =
      if show_back
      then clickable back_button (
          inset 0 0 0 th.spacing.s
            (label th.type_scale.label th.palette.text_secondary (runes "←")))
      else blank in
    let name =
      flexed (label th.type_scale.title th.palette.text_primary (runes (header_name st))) in
    let density = clickable density_button (layout_header_icon th (density_glyph th.density)) in
    let theme = clickable theme_button (layout_header_icon th (theme_glyph th.palette)) in
    paint_header_surface th (padded th (beside back (beside name (beside density theme))))

unfoldable pub layout_typing_indicator : Theme → State → ℕ → Tree
layout_typing_indicator th st now_ms = elim (typing_line st now_ms) [
  | none ↦ blank
  | some msg ↦
      inset th.spacing.xs th.spacing.xxs th.spacing.m th.spacing.m
        (label th.type_scale.meta th.palette.text_secondary msg)
]

-- The send button is dimmed while there is nothing to send.
unfoldable pub layout_send_button : Theme → Bool → Tree
layout_send_button th enabled =
    rounded (if enabled then th.palette.accent else dim th.palette.accent) th.radius.button
      (padded th (label th.type_scale.label th.palette.accent_text (runes "Send")))

unfoldable pub layout_composer : Theme → Bool → Tree
unfolding layout_send_button
layout_composer th can_send = above (line th.palette.divider) (
    filled th.palette.surface (
      padded th (
        beside
          (flexed (
            rounded th.palette.canvas th.radius.button (
              padded th
                (editor th.palette.text_primary th.palette.text_secondary "Type a message"))))
          (beside (spacer th.spacing.m) (clickable send_button (layout_send_button th can_send))))))

unfoldable pub layout_input : Theme → Tree
layout_input th =
    paint_header_surface th
      (padded th (editor th.palette.text_primary th.palette.text_secondary "Search messages…"))

-- The markers of a snippet are taken out, as strings.NewReplacer does.
unfoldable pub clean_snippet : Runes → Runes
clean_snippet [] = []
clean_snippet (c ∷ []) = c ∷ []
clean_snippet (c ∷ e ∷ s) =
    let rest = clean_snippet s in
    let next = clean_snippet (e ∷ s) in
    if c == 91 && e == 91 then rest else if c == 93 && e == 93 then rest else c ∷ next

-- The snippet is drawn before the column that has its room.
unfoldable pub layout_search_hit_row : Theme → SearchHit → Tree
unfolding clean_snippet row_pad
layout_search_hit_row th hit =
    let chat = if hit.chat_name == "" then hit.chat_jid else hit.chat_name in
    let snippet =
      label th.type_scale.meta th.palette.text_secondary (clean_snippet (runes hit.snippet)) in
    inset (row_pad th) (row_pad th) th.spacing.m th.spacing.m (
      overlaid snippet (
        above (label th.type_scale.label th.palette.text_primary (runes chat))
          (above (spacer th.spacing.xxs) (room_of snippet))))

-- The rows from the first visible one on.
unfoldable pub layout_hits : Theme → ℕ → List SearchHit → Tree
unfolding layout_search_hit_row
layout_hits th i [] = blank
layout_hits th i (h ∷ hs) =
    above (clickable (hit_at i) (layout_search_hit_row th h)) (layout_hits th (suc i) hs)

unfoldable pub layout_results : Theme → Option (List SearchHit) → Tree
unfolding layout_hits
layout_results th none = blank
layout_results th (some []) =
    padded th (label th.type_scale.meta th.palette.text_secondary (runes "no matches"))
layout_results th (some (h ∷ hs)) = paint_surface th (layout_hits th 0 (h ∷ hs))

-- The colours of the banner's text and background.
unfoldable pub banner_colors : Theme → ConnState → Color × Color
banner_colors th conn_connecting = (th.palette.accent_text, th.palette.accent)
banner_colors th conn_disconnected = (th.palette.accent_text, dim th.palette.accent)
banner_colors th conn_logged_out = (th.palette.accent_text, th.palette.unread)
banner_colors th conn_connected = (th.palette.text_primary, th.palette.surface)

unfoldable pub layout_connection_banner : Theme → ConnState → Tree
unfolding banner_colors
layout_connection_banner th state =
    let (fg, bg) = banner_colors th state in
    if banner_copy state == ""
    then blank
    else filled bg (
        inset th.spacing.xs th.spacing.xs th.spacing.m th.spacing.m
          (label th.type_scale.meta fg (runes (banner_copy state))))

unfoldable pub layout_pairing_body : Theme → PairingView → Tree
layout_pairing_body th p = elim (layout_body p) [
  | nothing ↦ blank
  | qr code ↦ qr_code code
  | text s ↦
      label th.type_scale.body
        (elim p.phase [
          | PairingPhase.waiting_qr ↦ th.palette.text_secondary
          | ready ↦ th.palette.accent
          | _ ↦ th.palette.text_primary
        ])
        (runes s)
]

unfoldable pub layout_pairing : Theme → PairingView → Tree
unfolding layout_pairing_body
layout_pairing th p =
    let status : Tree = elim (layout_status p) [
      | [] ↦ blank
      | c ∷ s ↦ label th.type_scale.meta th.palette.text_secondary (c ∷ s)
    ] in
    paint_background th.palette.canvas (
      centered (
        above (label th.type_scale.display th.palette.text_primary (runes "Link to WhatsApp")) (
          above (spacer th.spacing.l)
            (above (layout_pairing_body th p) (above (spacer th.spacing.l) status)))))
