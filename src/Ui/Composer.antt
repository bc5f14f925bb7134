-- ===== src/Ui/Composer.antt =====
-- internal/ui/composer.go: the text that is sent.
use wachat.Prelude.{Bool, true, false, not, List, [], ◌∷◌, ◌++◌, if◌then◌else◌, Runes, trim_space}

-- `strings.TrimSpace(c.editor.Text()) != ""`
unfoldable pub can_send : Runes → Bool
can_send text = elim (trim_space text) [ [] ↦ false | c ∷ s ↦ true ]

-- The bodies that are sent, and the text that stays in the editor.
unfoldable pub submit : Runes → List Runes × Runes
submit text = elim (trim_space text) [ [] ↦ ([], text) | c ∷ s ↦ ((c ∷ s) ∷ [], []) ]

-- An event of the Return key.
pub record KeyEvent : Type 0 where
  pub is_press : Bool
  pub has_shift : Bool

-- The loop over the events; `insert_newline` is the editor's insertion at the caret.
unfoldable pub handle_enter : (Runes → Runes) → List KeyEvent → Runes → List Runes × Runes
unfolding submit
handle_enter insert_newline [] text = ([], text)
handle_enter insert_newline (e ∷ es) text =
    let rest = handle_enter insert_newline es in
    if not e.is_press
    then rest text
    else if e.has_shift
    then rest (insert_newline text)
    else (let (sent, left) = submit text in let (more, last) = rest left in (sent ++ more, last))
