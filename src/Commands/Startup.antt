-- ===== src/Commands/Startup.antt =====
-- client/cmd/main.go, client/internal/gioui/icons/icons.go: the icons of a program that has started.
use secure_messager_erlang.Prelude.{ℕ, ◌≡◌, inl, inr, arith}
use secure_messager_erlang.Outcome.{Outcome, Outcome-cases, ok}
use secure_messager_erlang.Client.{Environment}
use secure_messager_erlang.Gui.App.{App}
use secure_messager_erlang.Gui.Click.{Color}
use secure_messager_erlang.Gui.Icons.{Files, Icons, load_icons, IsDrawn, load_icons-IsDrawn}
use secure_messager_erlang.Commands.{app_main}

module _ {D W F : Type 0} (env : Environment D W) (files : Files F) where
  -- When the program comes to its first event, each of the four icons has an image, and `DrawIcon` of it
  -- does not panic: it paints each pixel of the image in the colour that is asked for with the opacity of
  -- the image, and nothing else.
  pub app_main-IsDrawn :
      (rgba : Color → Color) (icons : Icons) (opened : Outcome D) (w : W) (c : Color) (x y : ℕ)
      {a : App D W}
      → app_main env files icons opened w ≡ ok a
      → IsDrawn rgba (load_icons files icons).0.settings c x y
        × IsDrawn rgba (load_icons files icons).0.spinner c x y
        × IsDrawn rgba (load_icons files icons).0.loader c x y
        × IsDrawn rgba (load_icons files icons).0.plus c x y
  unfolding app_main
  app_main-IsDrawn rgba icons opened w c x y started =
      load_icons-IsDrawn files rgba icons c x y (elim (Outcome-cases (load_icons files icons).1) [
        | inl (u, e) ↦ e
        | inr (inl (z, e)) ↦ ground (arith, e, started)
        | inr (inr e) ↦ ground (arith, e, started)
      ])
