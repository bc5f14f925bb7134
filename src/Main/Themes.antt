-- ===== src/Main/Themes.antt =====
-- What a restart reads back of the theme and the density.
use wachat.Prelude.{
  ◌≡◌, ◌≢◌, refl, sym, subst, ◌∙◌, Bool-cases, ◌⊎◌, String, Option, none, some, ◌==◌, text_eq,
  text_iff, beq_ne, arith, if◌then◌else◌, inl, inr,
}
use wachat.Prelude.Tables.{find?-upsert_where}
use wachat.Store.Schema.{Db, Sqlite, query, exec}
use wachat.Store.Exec.{ok, Succeeds}
use wachat.Store.Settings.{find_setting, get_setting, set_setting}
use wachat.Ui.Theme.{
  Theme, Palette, Density, comfortable, compact, same_color, new_theme, dark_palette, light_palette,
}
use wachat.Main.{
  settings_key_theme, settings_key_density, settings_theme_light, settings_theme_dark,
  settings_density_comfortable, settings_density_compact, read_density, load_initial_theme,
  toggle_theme, toggle_density,
}

-- The value of a key; a missing one is the empty text.
abbrev pub value_in : Option (String × String) → String
value_in none = ""
value_in (some e) = e.1

abbrev pub value_of : String → Db → String
value_of k db = value_in (find_setting k db.settings)

module _ (d : Sqlite) (s : Succeeds d) (k : String) (named : k ≢ "") (db : Db) where
  get_setting_succeeds : get_setting d k db ≡ (ok (value_of k db), db)
  unfolding get_setting
  get_setting_succeeds = rw (beq_ne k "" named, s query) (ground arith)

  value_of-set_setting :
      (v j : String) → value_of j (set_setting d k v db).1 ≡ (if k == j then v else value_of j db)
  unfolding set_setting
  value_of-set_setting v j =
      rw
        (
          beq_ne k "" named,
          s exec,
          find?-upsert_where (λ (e : String × String). e.0) (λ e. (e.0, v)) (λ e. refl) (k, v) k
              refl j db.settings,
        )
        (ground arith)

theme_named : settings_key_theme ≢ ""
theme_named = ground (arith, text_iff "ui.theme" "")

density_named : settings_key_density ≢ ""
density_named = ground (arith, text_iff "ui.density" "")

pub Density-cases : (x : Density) → (x ≡ compact) ⊎ (x ≡ comfortable)
Density-cases compact = inl refl
Density-cases comfortable = inr refl

-- The palette of the other mode, and the theme of a mode.
abbrev pub other_palette : Palette → Palette
other_palette p = if same_color p.canvas dark_palette.canvas then light_palette else dark_palette

abbrev palette_from : String → Palette
palette_from v = if v == settings_theme_dark then dark_palette else light_palette

abbrev pub other_density : Density → Density
other_density comfortable = compact
other_density compact = comfortable

-- The theme that two values of settings stand for.
abbrev theme_from : String → String → Theme
theme_from palette density = record (new_theme (palette_from palette)) {
  density = if density == settings_density_compact then compact else comfortable;
}

module _ (d : Sqlite) (s : Succeeds d) where
  load_initial_theme_lem :
      (db : Db)
      → load_initial_theme d db
        ≡ theme_from (value_of settings_key_theme db) (value_of settings_key_density db)
  unfolding load_initial_theme read_density
  load_initial_theme_lem db =
      rw
        (
          get_setting_succeeds d s settings_key_theme theme_named db,
          get_setting_succeeds d s settings_key_density density_named db,
        )
        refl

  read_density_lem :
      (db : Db) → read_density d db ≡ (theme_from "" (value_of settings_key_density db)).density
  unfolding read_density
  read_density_lem db = rw (get_setting_succeeds d s settings_key_density density_named db) refl

  after_theme :
      (v : String) (db : Db)
      → load_initial_theme d (set_setting d settings_key_theme v db).1
        ≡ theme_from v (value_of settings_key_density db)
  after_theme v db =
      rw
        (
          load_initial_theme_lem (set_setting d settings_key_theme v db).1,
          value_of-set_setting d s settings_key_theme theme_named db v settings_key_theme,
          value_of-set_setting d s settings_key_theme theme_named db v settings_key_density,
        )
        refl

  after_density :
      (v : String) (db : Db)
      → load_initial_theme d (set_setting d settings_key_density v db).1
        ≡ theme_from (value_of settings_key_theme db) v
  after_density v db =
      rw
        (
          load_initial_theme_lem (set_setting d settings_key_density v db).1,
          value_of-set_setting d s settings_key_density density_named db v settings_key_theme,
          value_of-set_setting d s settings_key_density density_named db v settings_key_density,
        )
        refl

  -- Both toggles, of a theme that two values of settings stand for.
  toggled_theme :
      (db : Db)
      → let th = theme_from (value_of settings_key_theme db) (value_of settings_key_density db) in
        (load_initial_theme d (toggle_theme d (th, db)).1 ≡ (toggle_theme d (th, db)).0)
        × ((toggle_theme d (th, db)).0
            ≡ record (new_theme (other_palette th.palette)) { density = th.density })
  unfolding toggle_theme new_theme
  toggled_theme db = elim (Bool-cases (value_of settings_key_theme db == settings_theme_dark)) [
    | inl e ↦ rw e (
      after_theme settings_theme_light db ∙ rw (read_density_lem db) refl,
      rw (read_density_lem db) refl,
    )
    | inr e ↦ rw e (
      after_theme settings_theme_dark db ∙ rw (read_density_lem db) refl,
      rw (read_density_lem db) refl,
    )
  ]

  toggled_density :
      (db : Db)
      → let th = theme_from (value_of settings_key_theme db) (value_of settings_key_density db) in
        (load_initial_theme d (toggle_density d (th, db)).1 ≡ (toggle_density d (th, db)).0)
        × ((toggle_density d (th, db)).0 ≡ record th { density = other_density th.density })
  unfolding toggle_density new_theme
  toggled_density db =
      elim (Bool-cases (value_of settings_key_density db == settings_density_compact)) [
        | inl e ↦ rw e (after_density settings_density_comfortable db, refl)
        | inr e ↦ rw e (after_density settings_density_compact db, refl)
      ]

  -- With a driver that works: if the theme on the screen is the one that a restart would load, it
  -- still is after the palette or the density is toggled, and each toggle changes its own half and
  -- keeps the other, the palette with every token that is made from it.
  pub toggles-IsPersisted :
      (th : Theme) (db : Db)
      → load_initial_theme d db ≡ th
      → (load_initial_theme d (toggle_theme d (th, db)).1 ≡ (toggle_theme d (th, db)).0)
        × ((toggle_theme d (th, db)).0
            ≡ record (new_theme (other_palette th.palette)) { density = th.density })
        × (load_initial_theme d (toggle_density d (th, db)).1 ≡ (toggle_density d (th, db)).0)
        × ((toggle_density d (th, db)).0 ≡ record th { density = other_density th.density })
  toggles-IsPersisted th db h =
      subst
        (λ t.
          (load_initial_theme d (toggle_theme d (t, db)).1 ≡ (toggle_theme d (t, db)).0)
          × ((toggle_theme d (t, db)).0
              ≡ record (new_theme (other_palette t.palette)) { density = t.density })
          × (load_initial_theme d (toggle_density d (t, db)).1 ≡ (toggle_density d (t, db)).0)
          × ((toggle_density d (t, db)).0 ≡ record t { density = other_density t.density }))
        (sym (load_initial_theme_lem db) ∙ h)
        (let (theme_kept, theme_set) = toggled_theme db in
          let (density_kept, density_set) = toggled_density db in
          (theme_kept, theme_set, density_kept, density_set))
