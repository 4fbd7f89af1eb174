-- ===== src/Gui/Login.antt =====
-- client/internal/gioui/pages/login/login.go: the page on which the user signs in or signs up. The
-- texts of the page are named by what they say.
use mathlib.Core.Logic.{◌↔◌}
use secure_messager_erlang.Prelude.{
  ◌≡◌, refl, Bool, true, List, [], ◌∷◌, Bytes, bytes_equal, ℕ, ◌==◌, if◌then◌else◌, Eq,
}
use secure_messager_erlang.Outcome.{Outcome, ok, err, crash}
use secure_messager_erlang.Client.{Client, Environment}
use secure_messager_erlang.Client.Account
use secure_messager_erlang.Gui.Router.{Router, set_current}

-- The tags of the router's pages.
pub data Tag : Type 0 where
  loading login chats : Tag

abbrev tag_number : Tag → ℕ
tag_number loading = 0
tag_number login = 1
tag_number chats = 2

abbrev pub tag_beq : Tag → Tag → Bool
tag_beq t u = tag_number t == tag_number u

pub tag_beq_iff : (t u : Tag) → (tag_beq t u ≡ true) ↔ (t ≡ u)
tag_beq_iff t u = (eq t u, λ e. rw e (same u))
  where
    same : (u : Tag) → tag_beq u u ≡ true
    same loading = refl
    same login = refl
    same chats = refl

    eq : (t u : Tag) → tag_beq t u ≡ true → t ≡ u
    eq loading loading h = refl
    eq login login h = refl
    eq chats chats h = refl
    eq loading login h = cc
    eq loading chats h = cc
    eq login loading h = cc
    eq login chats h = cc
    eq chats loading h = cc
    eq chats login h = cc

pub data State : Type 0 where
  login_state signup_state : State

-- "Sign In", "Sign Up", "Login", "Already have an account? ", "Don't have an account? ".
pub data Caption : Type 0 where
  sign_in sign_up log_in have_account no_account : Caption

-- The three inputs, by their hints.
pub data Field : Type 0 where
  username password repeat_password : Field

pub record LoginPage : Type 0 where
  pub state : State
  pub username_input : Bytes
  pub password_input : Bytes
  pub password_repeat_input : Bytes
  pub link_title : Caption

unfoldable pub new_page : LoginPage
new_page = record {
  state = login_state;
  username_input = [];
  password_input = [];
  password_repeat_input = [];
  link_title = sign_in;
}

-- The handler of the link below the button.
unfoldable pub switch_state : LoginPage → LoginPage
switch_state p = elim p.state [
  | signup_state ↦ record p { link_title = sign_up; state = login_state }
  | login_state ↦ record p { link_title = sign_in; state = signup_state }
]

-- What `Layout` puts on the page, from top to bottom: space of a height, a line of words with their
-- size, one of the inputs, one of the two buttons by its title, and a line that ends with the link.
pub data Widget : Type 0 where
  space : ℕ → Widget
  label : ℕ → Caption → Widget
  input : Field → Widget
  button : Caption → Widget
  line_with_link : ℕ → Caption → Caption → Widget

unfoldable pub layout : LoginPage → List Widget
layout p =
    space 10
    ∷ label 24 (elim p.state [ signup_state ↦ sign_up | login_state ↦ log_in ])
    ∷ space 20
    ∷ input username
    ∷ space 10
    ∷ input password
    ∷ space (elim p.state [ signup_state ↦ 10 | login_state ↦ 0 ])
    ∷ (elim p.state [ signup_state ↦ input repeat_password | login_state ↦ space 0 ])
    ∷ space 20
    ∷ button (elim p.state [ signup_state ↦ sign_up | login_state ↦ sign_in ])
    ∷ space 20
    ∷ line_with_link 12 (elim p.state [ signup_state ↦ have_account | login_state ↦ no_account ])
        p.link_title
    ∷ []

-- The user types into an input.
unfoldable pub type_into : LoginPage → Field → Bytes → LoginPage
type_into p username text = record p { username_input = text }
type_into p password text = record p { password_input = text }
type_into p repeat_password text = record p { password_repeat_input = text }

instance abbrev pub Tag_eq : Eq Tag
Tag_eq = record { beq = tag_beq; beq_iff = tag_beq_iff }

-- A page is a pointer, so what the router holds is which of the three it is.
abbrev pub Pages : Type 0
Pages = Router Tag Tag

-- The page, the router and the client that a handler leaves.
abbrev pub Session : Type 0 → Type 0 → Type 0
Session D W = LoginPage × Pages × Client D W

module _ {D W : Type 0} (env : Environment D W) where
  unfoldable pub sign_in_user : LoginPage → Pages → Client D W → Outcome (Session D W)
  sign_in_user p r c =
      let (c1, done) = Account.login env p.username_input p.password_input c in
      elim done [
        | crash ↦ crash
        | err _ ↦ ok (record p { password_input = [] }, r, c1)
        | ok _ ↦ ok (p, set_current r chats, c1)
      ]

  unfoldable pub sign_up_user : LoginPage → Pages → Client D W → Outcome (Session D W)
  sign_up_user p r c =
      if bytes_equal p.password_input p.password_repeat_input
      then (let (c1, done) = Account.signup env p.username_input p.password_input c in
          elim done [
            | crash ↦ crash
            | err _ ↦ ok (record p { password_input = []; password_repeat_input = [] }, r, c1)
            | ok _ ↦ ok (p, set_current r chats, c1)
          ])
      else ok (p, r, c)

  -- The handler of the one button that the page shows.
  unfoldable pub click_button : LoginPage → Pages → Client D W → Outcome (Session D W)
  click_button p r c = elim p.state [
    | signup_state ↦ sign_up_user p r c
    | login_state ↦ sign_in_user p r c
  ]
