-- ===== src/Gui/Chats/Buttons.antt =====
-- client/internal/gioui/pages/chats: what the handler of a button finds.
use secure_messager_erlang.Prelude.{
  ℕ, zero, suc, ◌<◌, ◌≡◌, refl, ap, ◌∙◌, inl, inr, Bool, true, false, arith, List, [], ◌∷◌, some,
  Bytes, length, pos, eqb_ℤ, Bool-cases,
}
use secure_messager_erlang.Outcome.{ok}
use secure_messager_erlang.Gui.Click.{ClickableButton, set_active}
use secure_messager_erlang.Gui.Chats.{Chat, ChatsPage, set_active_at, activate_first, click_chat}
use secure_messager_erlang.Gui.Chats.Events.{nth}
use secure_messager_erlang.Gui.Chats.Selection.{Fits, IsBuilt, nth-lt}

-- The same handlers at the same places.
abbrev pub SameHandlers : List (ClickableButton Chat) → List (ClickableButton Chat) → Type 0
SameHandlers bs cs =
    (length cs ≡ length bs)
    × ((k : ℕ) (b : ClickableButton Chat)
        → nth cs k ≡ some b
        → (b0 : ClickableButton Chat) × (nth bs k ≡ some b0) × (b.click ≡ b0.click))

SameHandlers-IsBuilt :
    (ids : List Bytes) (bs cs : List (ClickableButton Chat))
    → SameHandlers bs cs
    → IsBuilt ids bs
    → IsBuilt ids cs
SameHandlers-IsBuilt ids bs cs (_, same) h k b e =
    let (b0, at, clicks) = same k b e in
    let (chat, set, place, id) = h k b0 at in (chat, ap (λ c. c.on_click) clicks ∙ set, place, id)

same_cons :
    (b b' : ClickableButton Chat) (bs cs : List (ClickableButton Chat))
    → b'.click ≡ b.click
    → SameHandlers bs cs
    → SameHandlers (b ∷ bs) (b' ∷ cs)
same_cons b b' bs cs e (len, same) = (ap suc len, at)
  where
    at :
        (k : ℕ) (x : ClickableButton Chat)
        → nth (b' ∷ cs) k ≡ some x
        → (b0 : ClickableButton Chat) × (nth (b ∷ bs) k ≡ some b0) × (x.click ≡ b0.click)
    at zero x h = (b, refl, cc)
    at (suc k) x h = same k x h

same_refl : (bs : List (ClickableButton Chat)) → SameHandlers bs bs
same_refl bs = (refl, λ k b e. (b, e, refl))

same_trans :
    (bs cs ds : List (ClickableButton Chat))
    → SameHandlers bs cs
    → SameHandlers cs ds
    → SameHandlers bs ds
same_trans bs cs ds (l, s) (l', s') = (
  l' ∙ l,
  λ k b e.
      (let (b1, e1, same1) = s' k b e in
        let (b0, e0, same0) = s k b1 e1 in (b0, e0, same1 ∙ same0)),
)

-- A button that is there can be made active, and keeps its handler.
set_active_at-ok :
    (bs : List (ClickableButton Chat)) (i : ℕ) (active : Bool)
    → i < length bs
    → (cs : List (ClickableButton Chat)) × (set_active_at bs (pos i) active ≡ ok cs)
      × SameHandlers bs cs
unfolding set_active_at set_active
set_active_at-ok [] i active h = absurd (omega arith)
set_active_at-ok (b ∷ bs) zero active h =
    (set_active b active ∷ bs, refl, same_cons b (set_active b active) bs bs refl (same_refl bs))
set_active_at-ok (b ∷ bs) (suc i) active h =
    let (cs, done, same) = set_active_at-ok bs i active (omega arith) in
    (b ∷ cs, rw done refl, same_cons b b bs cs refl same)

-- Two buttons that are there, one after the other.
set_active_at_twice :
    (bs : List (ClickableButton Chat)) (i k : ℕ)
    → i < length bs
    → k < length bs
    → (cs ds : List (ClickableButton Chat)) × (set_active_at bs (pos i) false ≡ ok cs)
      × (set_active_at cs (pos k) true ≡ ok ds)
      × SameHandlers bs ds
set_active_at_twice bs i k h h' =
    let (cs, done, same) = set_active_at-ok bs i false h in
    let (ds, done', same') = set_active_at-ok cs k true (omega (arith, same.0)) in
    (cs, ds, done, done', same_trans bs cs ds same same')

select_chat-Fits :
    (ids : List Bytes) (p : ChatsPage) (k : ℕ) (chat : Bytes) (ds : List (ClickableButton Chat))
    → Fits ids p
    → k < length p.chat_buttons
    → nth ids k ≡ some chat
    → SameHandlers p.chat_buttons ds
    → Fits ids
        (record p { chat_buttons = ds; chat_text = []; selected_idx = pos k; selected_chat = chat })
select_chat-Fits ids p k chat ds h lt known same = record {
  built = SameHandlers-IsBuilt ids p.chat_buttons ds same h.built;
  selected = inr (k, refl, omega (arith, same.0), known);
}

-- The handler of a button in the list finds both buttons that it changes.
pub click_chat-ok :
    (ids : List Bytes) (p : ChatsPage) (b : ClickableButton Chat) (chat : Chat)
    → Fits ids p
    → nth p.chat_buttons chat.index ≡ some b
    → nth ids chat.index ≡ some chat.id
    → (p1 : ChatsPage) × (click_chat p chat ≡ ok p1) × Fits ids p1
unfolding click_chat
click_chat-ok ids p b chat h at known = elim (Bool-cases (eqb_ℤ p.selected_idx (pos chat.index))) [
  | inl same ↦ (p, rw same refl, h)
  | inr other ↦ elim h.selected [
    | inl (_, none_yet) ↦ absurd (omega (arith, nth-lt p.chat_buttons chat.index at, none_yet))
    | inr (i, idx, lt, _) ↦
        let last = nth-lt p.chat_buttons chat.index at in
        let (cs, ds, d1, d2, same) = set_active_at_twice p.chat_buttons i chat.index lt last in
        (
          _,
          rw (other, idx, d1, d2) refl,
          select_chat-Fits ids p chat.index chat.id ds h last known same,
        )
  ]
]

activate_first-SameHandlers :
    (bs : List (ClickableButton Chat)) → SameHandlers bs (activate_first bs)
unfolding activate_first set_active
activate_first-SameHandlers [] = same_refl []
activate_first-SameHandlers (b ∷ bs) = same_cons b (set_active b true) bs bs refl (same_refl bs)

pub activate_first-Fits :
    (ids : List Bytes) (p : ChatsPage)
    → Fits ids p
    → Fits ids (record p { initialized = true; chat_buttons = activate_first p.chat_buttons })
activate_first-Fits ids p h =
    let same = activate_first-SameHandlers p.chat_buttons in
    record {
      built = SameHandlers-IsBuilt ids p.chat_buttons _ same h.built;
      selected = rw same.0 h.selected;
    }
