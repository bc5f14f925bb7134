-- ===== src/Ui/Theme.antt =====
-- internal/ui/theme.go with its two palettes: the design tokens that every widget reads.
use wachat.Prelude.{
  ℕ, ◌/◌, ◌%◌, ◌^◌, Bool, false, ◌&&◌, Option, none, some, ◌==◌, nat_eq, String, if◌then◌else◌,
}

-- color.NRGBA: four bytes.
pub record Color : Type 0 where
  pub r : ℕ
  pub g : ℕ
  pub b : ℕ
  pub a : ℕ

abbrev pub same_color : Color → Color → Bool
same_color c c' = c.r == c'.r && c.g == c'.g && c.b == c'.b && c.a == c'.a

-- `uint8(rgb >> 16)` and so on.
abbrev pub nrgba : ℕ → Color
nrgba rgb = record { r = rgb / 2 ^ 16 % 2 ^ 8; g = rgb / 2 ^ 8 % 2 ^ 8; b = rgb % 2 ^ 8; a = 0xff }

-- `c.A /= 2`
abbrev pub dim : Color → Color
dim c = record c { a = c.a / 2 }

pub record Palette : Type 0 where
  pub canvas : Color
  pub surface : Color
  pub surface_raised : Color
  pub text_primary : Color
  pub text_secondary : Color
  pub accent : Color
  pub accent_text : Color
  pub bubble_sent : Color
  pub bubble_recv : Color
  pub divider : Color
  pub unread : Color

abbrev pub light_palette : Palette
light_palette = record {
  canvas = nrgba 0xf4f5f3;
  surface = nrgba 0xffffff;
  surface_raised = nrgba 0xffffff;
  text_primary = nrgba 0x11140f;
  text_secondary = nrgba 0x6b7167;
  accent = nrgba 0x1f8f6b;
  accent_text = nrgba 0xffffff;
  bubble_sent = nrgba 0xd6f3e4;
  bubble_recv = nrgba 0xffffff;
  divider = nrgba 0xe4e6e1;
  unread = nrgba 0x1f8f6b;
}

abbrev pub dark_palette : Palette
dark_palette = record {
  canvas = nrgba 0x000000;
  surface = nrgba 0x0e120f;
  surface_raised = nrgba 0x171c18;
  text_primary = nrgba 0xecefea;
  text_secondary = nrgba 0x8a9187;
  accent = nrgba 0x3fb68a;
  accent_text = nrgba 0x04130c;
  bubble_sent = nrgba 0x13402f;
  bubble_recv = nrgba 0x171c18;
  divider = nrgba 0x23291f;
  unread = nrgba 0x3fb68a;
}

-- `Type`: the sizes of text.
pub record TypeScale : Type 0 where
  pub display : ℕ
  pub title : ℕ
  pub body : ℕ
  pub meta : ℕ
  pub label : ℕ

pub record Spacing : Type 0 where
  pub xxs : ℕ
  pub xs : ℕ
  pub s : ℕ
  pub m : ℕ
  pub l : ℕ
  pub xl : ℕ
  pub xxl : ℕ

pub record Radius : Type 0 where
  pub bubble : ℕ
  pub card : ℕ
  pub button : ℕ

-- In milliseconds.
pub record Motion : Type 0 where
  pub fast : ℕ
  pub base : ℕ
  pub enter : ℕ
  pub reduced : Bool

pub data Density : Type 0 where
  comfortable compact : Density

-- What the program sets of material.Theme.
pub record Material : Type 0 where
  pub face : String
  pub fg : Color
  pub bg : Color
  pub contrast_bg : Color
  pub contrast_fg : Color
  pub text_size : ℕ

-- The text shaper is Gio's.
pub record Theme : Type 0 where
  pub palette : Palette
  pub type_scale : TypeScale
  pub spacing : Spacing
  pub radius : Radius
  pub motion : Motion
  pub density : Density
  pub mat : Option Material

abbrev pub new_material_for : Theme → Material
new_material_for t = record {
  face = "Public Sans";
  fg = t.palette.text_primary;
  bg = t.palette.canvas;
  contrast_bg = t.palette.accent;
  contrast_fg = t.palette.accent_text;
  text_size = t.type_scale.body;
}

abbrev bare_theme : Palette → Theme
bare_theme p = record {
  palette = p;
  type_scale = record { display = 22; title = 16; body = 15; meta = 12; label = 13 };
  spacing = record { xxs = 2; xs = 4; s = 8; m = 12; l = 16; xl = 24; xxl = 32 };
  radius = record { bubble = 14; card = 12; button = 10 };
  motion = record { fast = 120; base = 180; enter = 220; reduced = false };
  density = comfortable;
  mat = none;
}

unfoldable pub new_theme : Palette → Theme
new_theme p = record (bare_theme p) { mat = some (new_material_for (bare_theme p)) }

-- Built once, on the first call that finds none.
unfoldable pub material : Theme → Material × Theme
material t = elim t.mat [
  | some m ↦ (m, t)
  | none ↦ (new_material_for t, record t { mat = some (new_material_for t) })
]

unfoldable pub duration : Theme → ℕ → ℕ
duration t d = if t.motion.reduced then 0 else d

unfoldable pub row_pad : Theme → ℕ
row_pad t = elim t.density [ compact ↦ t.spacing.xs | comfortable ↦ t.spacing.s ]
