-- ===== src/Gui/Icons.antt =====
-- client/internal/gioui/icons/icons.go: the icons, which are loaded when the program starts, and how one
-- is drawn in a colour. os.Open and image.Decode are the parameter `Files`; of a decoded image the code
-- reads its size and the opacity of each pixel. Scaling and rotation are left to the drawing library.
use secure_messager_erlang.Prelude.{
  ℕ, zero, suc, ◌≡◌, arith, Bool, true, false, ◌&&◌, Option, none, some, Bytes, ◌==◌, ltb,
  if◌then◌else◌, inl, inr, Bool-cases, Option-cases,
}
use secure_messager_erlang.Outcome.{Outcome, Outcome-cases, ok, err, crash, ◌>>=◌}
use secure_messager_erlang.Gui.Click.{Color}

pub record Picture : Type 0 where
  pub width : ℕ
  pub height : ℕ
  pub alpha : ℕ → ℕ → ℕ

pub record Files (F : Type 0) : Type 0 where
  pub open_file : Bytes → Outcome F
  pub decode : F → Outcome Picture

-- A nil image is `none`. The field `Title` is never read.
pub record Icon : Type 0 where
  pub path : Bytes
  pub img : Option Picture

-- The variables of the package.
pub record Icons : Type 0 where
  pub settings : Icon
  pub spinner : Icon
  pub loader : Icon
  pub plus : Icon

-- The pixels of an `*image.RGBA`.
abbrev pub Canvas : Type 0
Canvas = ℕ → ℕ → Color

abbrev pub transparent : Color
transparent = record { r = 0; g = 0; b = 0; a = 0 }

abbrev pub is_loaded : Icon → Bool
is_loaded i = elim i.img [ none ↦ false | some p ↦ true ]

module _ {F : Type 0} (files : Files F) where
  unfoldable pub load_image : Icon → Icon × Outcome (Unit {0})
  load_image i = elim (files.open_file i.path >>= files.decode) [
    | crash ↦ (i, crash)
    | err e ↦ (i, err e)
    | ok picture ↦ (record i { img = some picture }, ok tt)
  ]

  -- One after the other, up to the first error.
  unfoldable pub load_icons : Icons → Icons × Outcome (Unit {0})
  load_icons icons =
      let (settings, r1) = load_image icons.settings in
      let icons1 = record icons { settings = settings } in
      elim r1 [
        | crash ↦ (icons1, crash)
        | err e ↦ (icons1, err e)
        | ok _ ↦
            let (spinner, r2) = load_image icons.spinner in
            let icons2 = record icons1 { spinner = spinner } in
            elim r2 [
              | crash ↦ (icons2, crash)
              | err e ↦ (icons2, err e)
              | ok _ ↦
                  let (loader, r3) = load_image icons.loader in
                  let icons3 = record icons2 { loader = loader } in
                  elim r3 [
                    | crash ↦ (icons3, crash)
                    | err e ↦ (icons3, err e)
                    | ok _ ↦
                        let (plus, r4) = load_image icons.plus in
                        (record icons3 { plus = plus }, r4)
                  ]
            ]
      ]

-- `rgba` is the conversion that `Set` makes of a colour.
module _ (rgba : Color → Color) where
  -- wImg.Set
  abbrev pub set : Canvas → ℕ → ℕ → Color → Canvas
  set canvas i j c x y = if i == x && j == y then rgba c else canvas x y

  -- The pixels of column `x` above row `n`, and the columns before column `n`.
  unfoldable pub paint_column : Picture → Color → ℕ → ℕ → Canvas → Canvas
  paint_column p c x zero canvas = canvas
  paint_column p c x (suc n) canvas =
      set (paint_column p c x n canvas) x n (record c { a = p.alpha x n })

  unfoldable pub paint_columns : Picture → Color → ℕ → Canvas → Canvas
  paint_columns p c zero canvas = canvas
  paint_columns p c (suc n) canvas = paint_column p c n p.height (paint_columns p c n canvas)

  -- What is painted, on a new transparent image. A nil image is a panic.
  unfoldable pub draw_icon : Icon → Color → Outcome Canvas
  draw_icon i icon_color = elim i.img [
    | none ↦ crash
    | some p ↦ ok (paint_columns p icon_color p.width (λ x y. transparent))
  ]

  painted_column :
      (p : Picture) (c : Color) (x n : ℕ) (canvas : Canvas) (i j : ℕ)
      → paint_column p c x n canvas i j
        ≡ (if x == i && ltb j n then rgba (record c { a = p.alpha i j }) else canvas i j)
  unfolding paint_column
  painted_column p c x zero canvas i j = ground arith
  painted_column p c x (suc n) canvas i j = elim (Bool-cases (x == i && n == j)) [
    | inl here ↦ ground (arith, here)
    | inr elsewhere ↦ ground (arith, elsewhere, painted_column p c x n canvas i j)
  ]

  painted_columns :
      (p : Picture) (c : Color) (n : ℕ) (canvas : Canvas) (i j : ℕ)
      → paint_columns p c n canvas i j
        ≡ (if ltb i n && ltb j p.height then rgba (record c { a = p.alpha i j }) else canvas i j)
  unfolding paint_columns
  painted_columns p c zero canvas i j = ground arith
  painted_columns p c (suc n) canvas i j = ground (
    arith,
    painted_column p c n p.height (paint_columns p c n canvas) i j,
    painted_columns p c n canvas i j,
  )

  -- The icon has an image, and is drawn in `c`: where the image is, with the opacity of the image's
  -- pixel, and transparent elsewhere.
  abbrev pub IsDrawn : Icon → Color → ℕ → ℕ → Type 0
  IsDrawn i c x y =
      (p : Picture) × (canvas : Canvas) × (i.img ≡ some p)
      × (draw_icon i c ≡ ok canvas)
      × (canvas x y ≡ (
          if ltb x p.width && ltb y p.height
          then rgba (record c { a = p.alpha x y })
          else transparent))

  draw_icon-IsDrawn : (i : Icon) (c : Color) (x y : ℕ) → is_loaded i ≡ true → IsDrawn i c x y
  unfolding draw_icon
  draw_icon-IsDrawn i c x y loaded = elim (Option-cases i.img) [
    | inl missing ↦ ground (arith, missing, loaded)
    | inr (p, has) ↦ (
      p,
      paint_columns p c p.width (λ j k. transparent),
      has,
      ground (arith, has),
      painted_columns p c p.width (λ j k. transparent) x y,
    )
  ]

module _ {F : Type 0} (files : Files F) where
  load_image-loaded :
      (i : Icon) → (load_image files i).1 ≡ ok tt → is_loaded (load_image files i).0 ≡ true
  unfolding load_image
  load_image-loaded i done = elim (Outcome-cases (files.open_file i.path >>= files.decode)) [
    | inl (p, e) ↦ ground (arith, e)
    | inr (inl (x, e)) ↦ ground (arith, e, done)
    | inr (inr e) ↦ ground (arith, e, done)
  ]

  load_icons-loaded :
      (icons : Icons)
      → (load_icons files icons).1 ≡ ok tt
      → (is_loaded (load_icons files icons).0.settings ≡ true)
        × (is_loaded (load_icons files icons).0.spinner ≡ true)
        × (is_loaded (load_icons files icons).0.loader ≡ true)
        × (is_loaded (load_icons files icons).0.plus ≡ true)
  unfolding load_icons
  load_icons-loaded icons done = ground (
    arith,
    done,
    load_image-loaded icons.settings,
    load_image-loaded icons.spinner,
    load_image-loaded icons.loader,
    load_image-loaded icons.plus,
  )

  -- When `LoadIcons` gives no error, each of the four icons has an image, and `DrawIcon` does not panic:
  -- it paints each pixel of the image in the colour that is asked for with the opacity of the image, and
  -- nothing else.
  pub load_icons-IsDrawn :
      (rgba : Color → Color) (icons : Icons) (c : Color) (x y : ℕ)
      → (load_icons files icons).1 ≡ ok tt
      → IsDrawn rgba (load_icons files icons).0.settings c x y
        × IsDrawn rgba (load_icons files icons).0.spinner c x y
        × IsDrawn rgba (load_icons files icons).0.loader c x y
        × IsDrawn rgba (load_icons files icons).0.plus c x y
  load_icons-IsDrawn rgba icons c x y done =
      let loaded = (load_icons files icons).0 in
      let (first, second, third, fourth) = load_icons-loaded icons done in
      (
        draw_icon-IsDrawn rgba loaded.settings c x y first,
        draw_icon-IsDrawn rgba loaded.spinner c x y second,
        draw_icon-IsDrawn rgba loaded.loader c x y third,
        draw_icon-IsDrawn rgba loaded.plus c x y fourth,
      )
