-- ===== src/Sqlite/Schema/Contacts.antt =====
-- client/internal/sqlite/contacts.go and messages.go over the schema: what is loaded after contacts
-- were added and updated, and which messages are kept.
use secure_messager_erlang.Prelude.{
  ◌≡◌, refl, sym, ap, ◌∙◌, inl, inr, arith, List, [], ◌∷◌, ◌++◌, map, none, Bytes, ℕ, eqb_ℤ_iff,
  bytes_equal_iff,
}
use secure_messager_erlang.Outcome.{Outcome, Outcome-cases, ok, ◌>>=◌}
use secure_messager_erlang.Ratchet.DhRatchet.{DhRatchet}
use secure_messager_erlang.Message.{Message}
use secure_messager_erlang.Contact.{Contact, get_contact_by_id_hash, put_ratchet}
use secure_messager_erlang.Contact.Search.{IsDistinct}
use secure_messager_erlang.Sqlite.{
  blob, scan_rows, get_contacts, add_contact, update_contact_row, save_message,
}
use secure_messager_erlang.Sqlite.Schema.{
  Tables, ContactRow, MessageRow, update_rows, execute, select, schema,
}
use secure_messager_erlang.Sqlite.Schema.Laws.{insert_row_twice}

module _ (marshal : DhRatchet → Outcome Bytes) (unmarshal : Bytes → Outcome DhRatchet) where
  -- What the loop of `GetContacts` makes of the rows.
  abbrev contacts_of : List ContactRow → Outcome (List Contact)
  contacts_of [] = ok []
  contacts_of (row ∷ rows) = do
    r ← unmarshal row.ratchet
    xs ← contacts_of rows
    ok (record { id_hash = row.id_hash; dh_ratchet = r } ∷ xs)

  get_contacts_rows :
      (t : Tables) → get_contacts (schema marshal unmarshal) t ≡ contacts_of t.contacts
  unfolding get_contacts select scan_rows
  get_contacts_rows t = go t.contacts
    where
      go :
          (rows : List ContactRow)
          → scan_rows
              (schema marshal unmarshal)
              (λ contact_id_hash ratchet_bytes. unmarshal ratchet_bytes >>= λ ratchet.
                ok (record { id_hash = contact_id_hash; dh_ratchet = ratchet }))
              (map (λ (row : ContactRow). (blob row.id_hash, blob row.ratchet)) rows)
            ≡ contacts_of rows
      go [] = refl
      go (row ∷ rows) = elim (Outcome-cases (unmarshal row.ratchet)) [
        | inl (r, e) ↦ ground (arith, e, go rows)
        | inr (inl (x, e)) ↦ ground (arith, e)
        | inr (inr e) ↦ ground (arith, e)
      ]

  contacts_of-append :
      (rows : List ContactRow) (xs : List Contact) (h b : Bytes) (r : DhRatchet)
      → contacts_of rows ≡ ok xs
      → unmarshal b ≡ ok r
      → contacts_of (rows ++ (record { id_hash = h; ratchet = b } ∷ []))
        ≡ ok (xs ++ (record { id_hash = h; dh_ratchet = r } ∷ []))
  contacts_of-append [] xs h b r e d = ground (arith, e, d)
  contacts_of-append (row ∷ rows) xs h b r e d = elim (Outcome-cases (unmarshal row.ratchet)) [
    | inr (inl (x, f)) ↦ ground (arith, e, f)
    | inr (inr f) ↦ ground (arith, e, f)
    | inl (r0, f) ↦ elim (Outcome-cases (contacts_of rows)) [
      | inr (inl (x, g)) ↦ ground (arith, e, f, g)
      | inr (inr g) ↦ ground (arith, e, f, g)
      | inl (ys, g) ↦ ground (arith, e, f, g, contacts_of-append rows ys h b r g d)
    ]
  ]

  contacts_of-absent :
      (rows : List ContactRow) (xs : List Contact) (h b : Bytes)
      → contacts_of rows ≡ ok xs
      → get_contact_by_id_hash xs h ≡ none
      → contacts_of (update_rows b h rows) ≡ ok xs
  unfolding update_rows get_contact_by_id_hash
  contacts_of-absent [] xs h b e free = e
  contacts_of-absent (row ∷ rows) xs h b e free = elim (Outcome-cases (unmarshal row.ratchet)) [
    | inr (inl (x, f)) ↦ ground (arith, e, f)
    | inr (inr f) ↦ ground (arith, e, f)
    | inl (r0, f) ↦ elim (Outcome-cases (contacts_of rows)) [
      | inr (inl (x, g)) ↦ ground (arith, e, f, g)
      | inr (inr g) ↦ ground (arith, e, f, g)
      | inl (ys, g) ↦ ground (arith, e, f, g, free, contacts_of-absent rows ys h b g)
    ]
  ]

  -- Inversion of the first step of the loop.
  contacts_of-cons :
      (row : ContactRow) (rows : List ContactRow) (zs : List Contact)
      → contacts_of (row ∷ rows) ≡ ok zs
      → (r : DhRatchet) × (ys : List Contact) × (unmarshal row.ratchet ≡ ok r)
        × (contacts_of rows ≡ ok ys)
        × (zs ≡ record { id_hash = row.id_hash; dh_ratchet = r } ∷ ys)
  contacts_of-cons row rows zs e = elim (Outcome-cases (unmarshal row.ratchet)) [
    | inr (inl (x, f)) ↦ ground (arith, e, f)
    | inr (inr f) ↦ ground (arith, e, f)
    | inl (r0, f) ↦ elim (Outcome-cases (contacts_of rows)) [
      | inr (inl (x, g)) ↦ ground (arith, e, f, g)
      | inr (inr g) ↦ ground (arith, e, f, g)
      | inl (ys, g) ↦ (r0, ys, f, g, ground (arith, e, f, g))
    ]
  ]

  contacts_of-update :
      (rows : List ContactRow) (xs : List Contact) (h b : Bytes) (r : DhRatchet)
      → contacts_of rows ≡ ok xs
      → IsDistinct xs
      → unmarshal b ≡ ok r
      → contacts_of (update_rows b h rows) ≡ ok (put_ratchet xs h r)
  unfolding update_rows put_ratchet
  contacts_of-update [] [] h b r e distinct d = refl
  contacts_of-update [] (x ∷ xs) h b r e distinct d = ground (arith, e)
  contacts_of-update (row ∷ rows) [] h b r e distinct d =
      let (_, _, _, _, none_left) = contacts_of-cons row rows [] e in cc
  contacts_of-update (row ∷ rows) (z ∷ zs) h b r e (own, rest) d =
      let (r0, ys, read, at_ys, parts) = contacts_of-cons row rows (z ∷ zs) e in
      let at_tail : contacts_of rows ≡ ok zs = at_ys ∙ ap ok (ground (arith, parts)) in
      ground (
        arith,
        read,
        d,
        own,
        parts,
        contacts_of-absent rows zs h b at_tail,
        contacts_of-update rows zs h b r at_tail rest d,
        bytes_equal_iff row.id_hash h,
      )

  -- A contact that was added is loaded behind the others, with what is read of its ratchet's bytes.
  pub get_contacts-add_contact :
      (t : Tables) {xs : List Contact} (h : Bytes) (r r' : DhRatchet) {b : Bytes}
      → get_contacts (schema marshal unmarshal) t ≡ ok xs
      → marshal r ≡ ok b
      → unmarshal b ≡ ok r'
      → get_contacts (schema marshal unmarshal) (add_contact (schema marshal unmarshal) t h r).0
        ≡ ok (xs ++ (record { id_hash = h; dh_ratchet = r' } ∷ []))
  unfolding add_contact execute
  get_contacts-add_contact t {xs} h r r' {b} e m d =
      rw (m, get_contacts_rows)
        (contacts_of-append t.contacts xs h b r' (sym (get_contacts_rows t) ∙ e) d)

  -- A contact whose ratchet was written is loaded in its place, with what is read of the bytes, if no two
  -- contacts have the same hash.
  pub get_contacts-update_contact_row :
      (t : Tables) {xs : List Contact} (h : Bytes) (r r' : DhRatchet) {b : Bytes}
      → get_contacts (schema marshal unmarshal) t ≡ ok xs
      → IsDistinct xs
      → marshal r ≡ ok b
      → unmarshal b ≡ ok r'
      → ((update_contact_row
            (schema marshal unmarshal)
            t
            (record { id_hash = h; dh_ratchet = r })).1
          ≡ ok tt)
        × (get_contacts
              (schema marshal unmarshal)
              (update_contact_row
                (schema marshal unmarshal)
                t
                (record { id_hash = h; dh_ratchet = r })).0
            ≡ ok (put_ratchet xs h r'))
  unfolding update_contact_row execute
  get_contacts-update_contact_row t {xs} h r r' {b} e distinct m d = (
    ground (arith, m),
    rw (m, get_contacts_rows)
        (contacts_of-update t.contacts xs h b r' (sym (get_contacts_rows t) ∙ e) distinct d),
  )

  -- Of two messages of one sender that have the same index in ratchets with the same index, whoever
  -- they are for, only the second is kept.
  pub save_message_overwrites :
      (t : Tables) (ratchet_index : ℕ) (first second : Message)
      → first.sender_id_hash ≡ second.sender_id_hash
      → first.header.index ≡ second.header.index
      → save_message
          (schema marshal unmarshal)
          (save_message (schema marshal unmarshal) t ratchet_index first).0
          ratchet_index
          second
        ≡ save_message (schema marshal unmarshal) t ratchet_index second
  unfolding save_message execute
  save_message_overwrites t ratchet_index first second hs hi =
      ap (λ (rows : List MessageRow). (record t { messages = rows }, ok tt))
        (insert_row_twice _ _ t.messages (
          ground (
            arith,
            hs,
            hi,
            bytes_equal_iff second.sender_id_hash first.sender_id_hash,
            eqb_ℤ_iff second.header.index first.header.index,
          )))
