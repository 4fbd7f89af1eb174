-- ===== src/Gui/Chats/Promise.antt =====
-- client/internal/gioui/pages/chats: what the page promises before and after each event.
use secure_messager_erlang.Prelude.{
  ℕ, zero, suc, ◌≡◌, refl, ◌⊎◌, inl, inr, Bool, true, false, arith, List, [], ◌∷◌, some, Bytes,
  if◌then◌else◌, negsuc, Option-cases, Bool-cases, bytes_equal, bytes_equal_iff,
}
use secure_messager_erlang.Outcome.{ok, crash}
use secure_messager_erlang.Contact.{Contact, get_contact_by_id_hash}
use secure_messager_erlang.Contact.Search.{id_hashes}
use secure_messager_erlang.Client.{Client, Environment, get_contact_ids}
use secure_messager_erlang.Client.Contacts
use secure_messager_erlang.Client.Messages.{incoming, send_plain_message}
use secure_messager_erlang.Gui.Chats.{ChatsPage, Session, new_page, update_chats, initialize_page}
use secure_messager_erlang.Gui.Chats.Events.{
  Event, clicks_send, clicks_add, arrives, nth, click_at, handle,
}
use secure_messager_erlang.Gui.Chats.Selection.{Fits, update_chats-Fits}
use secure_messager_erlang.Gui.Chats.Buttons.{click_chat-ok, activate_first-Fits}

pub contact_known :
    (xs : List Contact) (i : ℕ) (id : Bytes)
    → nth (id_hashes xs) i ≡ some id
    → (x : Contact) × (get_contact_by_id_hash xs id ≡ some x)
unfolding get_contact_by_id_hash
contact_known [] i id h = cc
contact_known (x ∷ xs) zero id h = (x, ground (arith, bytes_equal_iff x.id_hash id, h))
contact_known (x ∷ xs) (suc i) id h =
    let (y, found) = contact_known xs i id h in
    elim (Bool-cases (bytes_equal x.id_hash id)) [
      | inl same ↦ (x, rw same refl)
      | inr other ↦ (y, rw other found)
    ]

module _ {D W : Type 0} (env : Environment D W) where
  abbrev pub FitsClient : ChatsPage → Client D W → Type 0
  FitsClient p c = Fits (get_contact_ids c) p

  -- The client's own call for an event panics.
  abbrev pub CallPanics : Event → ChatsPage → Client D W → Type 0
  CallPanics clicks_send p c = (send_plain_message env p.selected_chat p.chat_text c).1 ≡ crash
  CallPanics clicks_add p c = (Contacts.add_contact env p.add_friend_text c).1 ≡ crash
  CallPanics (arrives packet) p c = (incoming env packet c).1 ≡ crash
  CallPanics _ p c = ⊥

  -- One of the client's calls panics, after events that the page has handled.
  abbrev pub SomeCallPanics : List Event → ChatsPage → Client D W → Type 0
  SomeCallPanics [] p c = ⊥
  SomeCallPanics (e ∷ events) p c =
      CallPanics e p c
      ⊎ ((s : Session env) × (handle env e p c ≡ ok s) × SomeCallPanics events s.0 s.1)

  -- Nothing is selected yet, or the selected chat is one of the user's contacts.
  abbrev pub SelectsContact : ChatsPage → Client D W → Type 0
  SelectsContact p c =
      (p.selected_idx ≡ negsuc 0)
      ⊎ ((x : Contact) × (get_contact_by_id_hash c.contacts p.selected_chat ≡ some x))

  pub FitsClient-SelectsContact :
      (p : ChatsPage) (c : Client D W) → FitsClient p c → SelectsContact p c
  unfolding get_contact_ids
  FitsClient-SelectsContact p c h = elim h.selected [
    | inl (none_yet, _) ↦ inl none_yet
    | inr (i, idx, lt, at) ↦ inr (contact_known c.contacts i p.selected_chat at)
  ]

  pub new_page-FitsClient : (c : Client D W) → FitsClient (new_page env c).0 (new_page env c).1
  unfolding new_page
  new_page-FitsClient c = record { built = λ k b e. cc; selected = inl (refl, refl) }

  either-FitsClient :
      (b : Bool) (p q : ChatsPage) (c : Client D W)
      → FitsClient p c
      → FitsClient q c
      → FitsClient (if b then p else q) c
  either-FitsClient true p q c h h' = h
  either-FitsClient false p q c h h' = h'

  pub initialize_page-FitsClient :
      (p : ChatsPage) (c : Client D W) → FitsClient p c → FitsClient (initialize_page env p c) c
  unfolding initialize_page
  initialize_page-FitsClient p c h =
      either-FitsClient p.initialized p _ c h (
        activate_first-Fits (get_contact_ids c) (update_chats env p c)
          (update_chats-Fits env p c h))

  pub click_at-ok :
      (ids : List Bytes) (p : ChatsPage) (k : ℕ)
      → Fits ids p
      → (p1 : ChatsPage) × (click_at env p k ≡ ok p1) × Fits ids p1
  unfolding click_at
  click_at-ok ids p k h = elim (Option-cases (nth p.chat_buttons k)) [
    | inl nothing ↦ (p, rw (nothing, click_at) refl, h)
    | inr (b, at) ↦
        let (chat, set, place, known) = h.built k b at in
        let (p1, done, fits) = click_chat-ok ids p b chat h (rw place at) (rw place known) in
        (p1, ground (arith, at, set, done), fits)
  ]
