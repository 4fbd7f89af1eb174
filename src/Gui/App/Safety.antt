-- ===== src/Gui/App/Safety.antt =====
-- client/internal/gioui: the page of the chats is shown to a user who is logged in, and to no one else.
use secure_messager_erlang.Prelude.{
  ◌≡◌, refl, sym, ap, ◌∙◌, inl, inr, true, arith, List, [], ◌∷◌, Option, none, some, Bool-cases,
}
use secure_messager_erlang.Outcome.{Outcome-cases, ok}
use secure_messager_erlang.Tcp.Connection.{Dialer, connect}
use secure_messager_erlang.Client.{Client, Environment}
use secure_messager_erlang.Client.Account
use secure_messager_erlang.Client.Messages.{incoming}
use secure_messager_erlang.Client.History.{incoming-Continues}
use secure_messager_erlang.Gui.Router.{register, new_router, shown}
use secure_messager_erlang.Gui.Login.{Tag, login, chats, Tag_eq, tag_beq_iff, Pages, click_button}
use secure_messager_erlang.Gui.Loading.{init}
use secure_messager_erlang.Gui.Chats.Events.{handle}
use secure_messager_erlang.Gui.App.{
  App, AppEvent, loads, types, clicks_button, clicks_link, on_chats, receives, new_pages, new_app,
  on_page, react, react_all, reaches, is_page,
}
use secure_messager_erlang.Gui.App.Access.{IsIdentified, handle-Continues}
use secure_messager_erlang.Gui.App.Guard.{
  IsComplete, IsGuarded, shown_known, log_in_again-IsGuarded, click_button-IsGuarded,
  Continues-IsGuarded,
}

current_page : (t : Tag) (page : Option Tag) → is_page t page ≡ true → page ≡ some t
current_page t none h = cc
current_page t (some u) h = ap some (sym ((tag_beq_iff t u).0 h))

module _ {D W : Type 0} (env : Environment D W) (net : Dialer W) where
  init-IsGuarded :
      (r : Pages) (c : Client D W) {s : Pages × Client D W}
      → IsComplete r
      → init env net r c ≡ ok s
      → IsGuarded env s.0 s.1
  unfolding init
  init-IsGuarded r c {s} h done =
      let (w, connected) = connect net c.world in
      let loaded = Account.load_client_data env (record c { world = (connect net c.world).0 }) in
      ground (arith, done, log_in_again-IsGuarded env r loaded.0 {s = s} h)

  on_page-IsGuarded :
      (e : AppEvent) (a : App D W) {a' : App D W}
      → IsGuarded env a.router a.client
      → reaches e a.router.current ≡ true
      → on_page env net e a ≡ ok a'
      → IsGuarded env a'.router a'.client
  unfolding on_page reaches
  on_page-IsGuarded loads a h at done = elim (Outcome-cases (init env net a.router a.client)) [
    | inl (s, e) ↦ ground (arith, e, done, init-IsGuarded a.router a.client {s = s} h.complete e)
    | inr (inl (x, e)) ↦ ground (arith, e, done)
    | inr (inr e) ↦ ground (arith, e, done)
  ]
  on_page-IsGuarded (types field text) a h at done = ground (arith, done, h)
  on_page-IsGuarded clicks_link a h at done = ground (arith, done, h)
  on_page-IsGuarded clicks_button a h at done =
      elim (Outcome-cases (click_button env a.login_page a.router a.client)) [
        | inl (s, e) ↦
            let shows = current_page login a.router.current at in
            ground (
              arith,
              e,
              done,
              click_button-IsGuarded env a.login_page a.router a.client {s = s} h.complete shows e,
            )
        | inr (inl (x, e)) ↦ ground (arith, e, done)
        | inr (inr e) ↦ ground (arith, e, done)
      ]
  on_page-IsGuarded (on_chats e) a h at done =
      elim (Outcome-cases (handle env e a.chats_page a.client)) [
        | inl (s, e') ↦
            let on = handle-Continues env e a.chats_page a.client {s = s} e' in
            ground (arith, e', done, Continues-IsGuarded env a.router on h)
        | inr (inl (x, e')) ↦ ground (arith, e', done)
        | inr (inr e') ↦ ground (arith, e', done)
      ]
  on_page-IsGuarded (receives packet) a h at done =
      let on = Continues-IsGuarded env a.router (incoming-Continues env packet a.client) h in
      elim (Outcome-cases (incoming env packet a.client).1) [
        | inl (u, e) ↦ ground (arith, e, done, on)
        | inr (inl (x, e)) ↦ ground (arith, e, done, on)
        | inr (inr e) ↦ ground (arith, e, done, on)
      ]

  react-IsGuarded :
      (e : AppEvent) (a : App D W) {a' : App D W}
      → IsGuarded env a.router a.client
      → react env net e a ≡ ok a'
      → IsGuarded env a'.router a'.client
  unfolding react
  react-IsGuarded e a {a'} h done = elim (Bool-cases (reaches e (shown a.router))) [
    | inr not_here ↦ ground (arith, not_here, done, h)
    | inl here ↦
        let at = ap (reaches e) (sym (shown_known a.router h.complete)) ∙ here in
        on_page-IsGuarded e a {a' = a'} h at (ground (arith, here, done))
  ]

  react_all-IsGuarded :
      (events : List AppEvent) (a : App D W) {a' : App D W}
      → IsGuarded env a.router a.client
      → react_all env net events a ≡ ok a'
      → IsGuarded env a'.router a'.client
  unfolding react_all
  react_all-IsGuarded [] a h done = ground (arith, h, done)
  react_all-IsGuarded (e ∷ events) a {a'} h done = elim (Outcome-cases (react env net e a)) [
    | inl (a1, e1) ↦
        react_all-IsGuarded events a1 {a' = a'} (react-IsGuarded e a {a' = a1} h e1)
          (ground (arith, e1, done))
    | inr (inl (x, e1)) ↦ ground (arith, e1, done)
    | inr (inr e1) ↦ ground (arith, e1, done)
  ]

  new_app-IsGuarded : (c : Client D W) → IsGuarded env (new_app env c).router (new_app env c).client
  unfolding new_app new_pages register new_router
  new_app-IsGuarded c = record { complete = refl; access = λ e. cc }

  -- Whatever the program loads, the user does and the server sends, in any order, as long as nothing
  -- panics: while the page of the chats is shown, the client and its connection are both known by the
  -- hash of one and the same user's name.
  pub react_all-IsIdentified :
      (events : List AppEvent) (c : Client D W) {a : App D W}
      → react_all env net events (new_app env c) ≡ ok a
      → shown a.router ≡ some chats
      → IsIdentified env a.client
  react_all-IsIdentified events c {a} done at =
      let guarded =
        react_all-IsGuarded events (new_app env c) {a' = a} (new_app-IsGuarded c) done in
      guarded.access (sym (shown_known a.router guarded.complete) ∙ at)
