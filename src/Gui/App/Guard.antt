-- ===== src/Gui/App/Guard.antt =====
-- client/internal/gioui: what the loading page and the login page do to the router and the client.
use secure_messager_erlang.Prelude.{
  ◌≡◌, refl, inl, inr, arith, some, lookup, insert, delete, Option-cases,
}
use secure_messager_erlang.Outcome.{Outcome-cases, ok}
use secure_messager_erlang.Sqlite
use secure_messager_erlang.Client.{Client, Environment}
use secure_messager_erlang.Client.Account
use secure_messager_erlang.Client.Invariant.{Continues}
use secure_messager_erlang.Gui.Router.{register, new_router, set_current, shown}
use secure_messager_erlang.Gui.Login.{
  Tag, loading, login, chats, Tag_eq, Pages, LoginPage, Session, sign_in_user, sign_up_user,
  click_button,
}
use secure_messager_erlang.Gui.Loading.{log_in_again}
use secure_messager_erlang.Gui.App.{new_pages}
use secure_messager_erlang.Gui.App.Access.{
  IsIdentified, Continues-IsIdentified, login-IsIdentified, signup-IsIdentified,
}

-- The pages of the program are the registered ones.
abbrev pub IsComplete : Pages → Type 0
IsComplete r = r.pages ≡ new_pages.pages

lookup_known : (t : Tag) → lookup new_pages.pages t ≡ some t
unfolding new_pages register new_router lookup insert delete
lookup_known loading = refl
lookup_known login = refl
lookup_known chats = refl

lookup-IsComplete : (r : Pages) (t : Tag) → IsComplete r → lookup r.pages t ≡ some t
lookup-IsComplete r t h = rw h (lookup_known t)

set_current_known : (r : Pages) (t : Tag) → IsComplete r → (set_current r t).current ≡ some t
unfolding set_current
set_current_known r t h = ground (arith, lookup-IsComplete r t h)

set_current-IsComplete : (r : Pages) (t : Tag) → IsComplete r → IsComplete (set_current r t)
unfolding set_current
set_current-IsComplete r t h = ground (arith, h, lookup-IsComplete r t h)

pub shown_known : (r : Pages) → IsComplete r → shown r ≡ r.current
unfolding shown
shown_known r h = elim (Option-cases r.current) [
  | inl nothing ↦ ground (arith, nothing)
  | inr (t, at) ↦ ground (arith, at, lookup-IsComplete r t h)
]

module _ {D W : Type 0} (env : Environment D W) where
  pub record IsGuarded (r : Pages) (c : Client D W) : Type 0 where
    pub complete : IsComplete r
    pub access : r.current ≡ some chats → IsIdentified env c

  guards_login : (r : Pages) (c : Client D W) → IsComplete r → IsGuarded (set_current r login) c
  guards_login r c h = record {
    complete = set_current-IsComplete r login h;
    access = λ e. cc (e, set_current_known r login h);
  }

  guards_chats :
      (r : Pages) (c : Client D W)
      → IsComplete r
      → IsIdentified env c
      → IsGuarded (set_current r chats) c
  guards_chats r c h yes_ = record {
    complete = set_current-IsComplete r chats h;
    access = λ e. yes_;
  }

  pub log_in_again-IsGuarded :
      (r : Pages) (c : Client D W) {s : Pages × Client D W}
      → IsComplete r
      → log_in_again env r c ≡ ok s
      → IsGuarded s.0 s.1
  unfolding log_in_again
  log_in_again-IsGuarded r c h done =
      elim (Outcome-cases (Sqlite.get_login_data env.storage c.db)) [
        | inr (inl (x, e)) ↦ ground (arith, e, done, guards_login r c h)
        | inr (inr e) ↦ ground (arith, e, done)
        | inl ((user_id, password), e) ↦
            let tried = Account.login env user_id password c in
            elim (Outcome-cases tried.1) [
              | inl (u, e') ↦
                  let known = login-IsIdentified env user_id password c e' in
                  ground (arith, e, e', done, guards_chats r tried.0 h known)
              | inr (inl (x, e')) ↦ ground (arith, e, e', done, guards_login r tried.0 h)
              | inr (inr e') ↦ ground (arith, e, e', done)
            ]
      ]

  stays_login : (r : Pages) (c : Client D W) → IsComplete r → r.current ≡ some login → IsGuarded r c
  stays_login r c h at = record { complete = h; access = λ e. cc (e, at) }

  sign_in_user-IsGuarded :
      (p : LoginPage) (r : Pages) (c : Client D W) {s : Session D W}
      → IsComplete r
      → r.current ≡ some login
      → sign_in_user env p r c ≡ ok s
      → IsGuarded s.1 s.2
  unfolding sign_in_user
  sign_in_user-IsGuarded p r c h at done =
      let tried = Account.login env p.username_input p.password_input c in
      elim (Outcome-cases tried.1) [
        | inl (u, e) ↦
            let known = login-IsIdentified env p.username_input p.password_input c e in
            ground (arith, e, done, guards_chats r tried.0 h known)
        | inr (inl (x, e)) ↦ ground (arith, e, done, stays_login r tried.0 h at)
        | inr (inr e) ↦ ground (arith, e, done)
      ]

  sign_up_user-IsGuarded :
      (p : LoginPage) (r : Pages) (c : Client D W) {s : Session D W}
      → IsComplete r
      → r.current ≡ some login
      → sign_up_user env p r c ≡ ok s
      → IsGuarded s.1 s.2
  unfolding sign_up_user
  sign_up_user-IsGuarded p r c h at done =
      let tried = Account.signup env p.username_input p.password_input c in
      let away = stays_login r c h at in
      elim (Outcome-cases tried.1) [
        | inl (u, e) ↦
            let known = signup-IsIdentified env p.username_input p.password_input c e in
            ground (arith, e, done, away, guards_chats r tried.0 h known)
        | inr (inl (x, e)) ↦ ground (arith, e, done, away, stays_login r tried.0 h at)
        | inr (inr e) ↦ ground (arith, e, done, away)
      ]

  pub click_button-IsGuarded :
      (p : LoginPage) (r : Pages) (c : Client D W) {s : Session D W}
      → IsComplete r
      → r.current ≡ some login
      → click_button env p r c ≡ ok s
      → IsGuarded s.1 s.2
  unfolding click_button
  click_button-IsGuarded p r c {s} h at done = ground (
    arith,
    done,
    sign_in_user-IsGuarded p r c {s = s} h at,
    sign_up_user-IsGuarded p r c {s = s} h at,
  )

  pub Continues-IsGuarded :
      (r : Pages) {c c' : Client D W} → Continues c c' → IsGuarded r c → IsGuarded r c'
  Continues-IsGuarded r {c} {c'} on h = record {
    complete = h.complete;
    access = λ e. Continues-IsIdentified env c c' on (h.access e);
  }
