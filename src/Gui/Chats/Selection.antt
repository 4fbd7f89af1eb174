-- ===== src/Gui/Chats/Selection.antt =====
-- client/internal/gioui/pages/chats: the selected chat is always one of the user's contacts.
use secure_messager_erlang.Prelude.{
  ℕ, zero, suc, ◌+◌, ◌<◌, ◌≡◌, refl, ap, ◌⊎◌, inl, inr, arith, List, [], ◌∷◌, ◌++◌, some, Bytes,
  length, ℤ, pos, negsuc,
}
use secure_messager_erlang.Contact.Search.{id_hashes}
use secure_messager_erlang.Contact.Evolution.{Evolves-id_hashes}
use secure_messager_erlang.Client.{Client, Environment, get_contact_ids}
use secure_messager_erlang.Client.Invariant.{Continues}
use secure_messager_erlang.Gui.Click.{ClickableButton, set_on_click}
use secure_messager_erlang.Gui.Chats.{
  Chat, ChatsPage, chat_buttons_from, select_first, update_chats,
}
use secure_messager_erlang.Gui.Chats.Events.{nth}

module _ {A : Type 0} where
  pub nth-lt : (xs : List A) (k : ℕ) {a : A} → nth xs k ≡ some a → k < length xs
  nth-lt [] k h = cc
  nth-lt (x ∷ xs) zero h = omega arith
  nth-lt (x ∷ xs) (suc k) h = omega (arith, nth-lt xs k h)

  nth-append : (xs ys : List A) (k : ℕ) {a : A} → nth xs k ≡ some a → nth (xs ++ ys) k ≡ some a
  nth-append [] ys k h = cc
  nth-append (x ∷ xs) ys zero h = h
  nth-append (x ∷ xs) ys (suc k) h = nth-append xs ys k h

-- Every button is that of the contact at its place.
abbrev pub IsBuilt : List Bytes → List (ClickableButton Chat) → Type 0
IsBuilt ids buttons =
    (k : ℕ) (b : ClickableButton Chat)
    → nth buttons k ≡ some b
    → (chat : Chat) × (b.click.on_click ≡ some chat) × (chat.index ≡ k) × (nth ids k ≡ some chat.id)

-- Nothing is selected while there is no button; or a button's place and its contact are.
abbrev pub IsSelected : List Bytes → ℕ → ℤ → Bytes → Type 0
IsSelected ids count idx chat =
    ((idx ≡ negsuc 0) × (count ≡ 0))
    ⊎ ((i : ℕ) × (idx ≡ pos i) × (i < count) × (nth ids i ≡ some chat))

pub record Fits (ids : List Bytes) (p : ChatsPage) : Type 0 where
  pub built : IsBuilt ids p.chat_buttons
  pub selected : IsSelected ids (length p.chat_buttons) p.selected_idx p.selected_chat

IsSelected-append :
    (ids more : List Bytes) (count : ℕ) (idx : ℤ) (chat : Bytes)
    → IsSelected ids count idx chat
    → IsSelected (ids ++ more) count idx chat
IsSelected-append ids more count idx chat (inl h) = inl h
IsSelected-append ids more count idx chat (inr (i, e, lt, at)) =
    inr (i, e, lt, nth-append ids more i at)

Fits-append : (ids more : List Bytes) (p : ChatsPage) → Fits ids p → Fits (ids ++ more) p
Fits-append ids more p h = record {
  built = λ k b e.
      (let (chat, set, at, id) = h.built k b e in (chat, set, at, nth-append ids more k id));
  selected = IsSelected-append ids more _ _ _ h.selected;
}

length-chat_buttons_from :
    (n : ℕ) (ids : List Bytes) → length (chat_buttons_from n ids) ≡ length ids
unfolding chat_buttons_from
length-chat_buttons_from n [] = refl
length-chat_buttons_from n (id ∷ ids) = ap suc (length-chat_buttons_from (n + 1) ids)

chat_buttons_from-nth :
    (n : ℕ) (ids : List Bytes) (k : ℕ) (b : ClickableButton Chat)
    → nth (chat_buttons_from n ids) k ≡ some b
    → (chat : Chat) × (b.click.on_click ≡ some chat)
      × (chat.index ≡ n + k)
      × (nth ids k ≡ some chat.id)
unfolding chat_buttons_from set_on_click
chat_buttons_from-nth n [] k b h = cc
chat_buttons_from-nth n (id ∷ ids) zero b h =
    (record { index = n; id = id }, ground (arith, h), omega arith, refl)
chat_buttons_from-nth n (id ∷ ids) (suc k) b h =
    let (chat, set, at, known) = chat_buttons_from-nth (n + 1) ids k b h in
    (chat, set, omega (arith, at), known)

-- New buttons fit the contacts that they are made from.
Fits-new_buttons :
    (ids : List Bytes) (p : ChatsPage)
    → IsSelected ids (length ids) p.selected_idx p.selected_chat
    → Fits ids (record p { chat_buttons = chat_buttons_from 0 ids })
Fits-new_buttons ids p h = record {
  built = λ k b e.
      (let (chat, set, at, id) = chat_buttons_from-nth 0 ids k b e in
        (chat, set, omega (arith, at), id));
  selected = rw (length-chat_buttons_from 0 ids) h;
}

select_first-IsSelected :
    (ids : List Bytes) (p : ChatsPage)
    → Fits ids p
    → IsSelected ids
        (length ids)
        (select_first p ids).selected_idx
        (select_first p ids).selected_chat
unfolding select_first
select_first-IsSelected [] p h = elim h.selected [
  | inl (e, _) ↦ inl (e, refl)
  | inr (i, e, lt, at) ↦ cc
]
select_first-IsSelected (id ∷ ids) p h = elim h.selected [
  | inl (e, _) ↦ inr (0, ground (arith, e), omega arith, ground (arith, e))
  | inr (i, e, lt, at) ↦ inr (i, ground (arith, e), nth-lt (id ∷ ids) i at, ground (arith, e, at))
]

module _ {D W : Type 0} (env : Environment D W) where
  pub update_chats-Fits :
      (p : ChatsPage) (c : Client D W)
      → Fits (get_contact_ids c) p
      → Fits (get_contact_ids c) (update_chats env p c)
  unfolding update_chats
  update_chats-Fits p c h =
      Fits-new_buttons (get_contact_ids c) (select_first p (get_contact_ids c))
        (select_first-IsSelected (get_contact_ids c) p h)

  pub Continues-Fits :
      (p : ChatsPage) {c c' : Client D W}
      → Continues c c'
      → Fits (get_contact_ids c) p
      → Fits (get_contact_ids c') p
  unfolding get_contact_ids
  Continues-Fits p {c} {c'} on h =
      let (more, e) = Evolves-id_hashes on.contacts in
      rw e (Fits-append (id_hashes c.contacts) more p h)
