-- ===== src/Store/Settings.antt =====
-- internal/store/settings.go: the key/value table of preferences.
use wachat.Prelude.{String, Option, none, some, List, ◌==◌, text_eq, find?}
use wachat.Prelude.Tables.{upsert_where, at_key}
use wachat.Store.Schema.{Sqlite, query, exec}
use wachat.Store.Exec.{Exec, key, pure, modify, gets, call, refuse_if, ◌>>=◌, ◌>>◌}

abbrev pub find_setting : String → List (String × String) → Option (String × String)
find_setting k = find? (at_key (λ e. e.0) k)

-- A missing key reads as the empty text.
unfoldable pub get_setting : Sqlite → String → Exec String
get_setting d k = do
  refuse_if (k == "") key
  call d query
  row ← gets (λ db. find_setting k db.settings)
  elim row [ none ↦ pure "" | some e ↦ pure e.1 ]

unfoldable pub set_setting : Sqlite → String → String → Exec (Unit {0})
set_setting d k value = do
  refuse_if (k == "") key
  call d exec
  modify (λ db. record db {
    settings = upsert_where (at_key (λ e. e.0) k) (k, value) (λ e. (e.0, value)) db.settings;
  })
