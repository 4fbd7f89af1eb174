-- ===== src/Sqlite/Schema/Messages.antt =====
-- client/internal/sqlite/messages.go over the schema: what is read after a message was saved.
use secure_messager_erlang.Prelude.{
  ℕ, ◌≡◌, refl, ap, ◌∙◌, inl, inr, arith, Bool, true, List, [], ◌∷◌, ◌++◌, map, Bytes, pos,
  bytes_equal, bytes_equal_refl, ◌||◌, not,
}
use secure_messager_erlang.Outcome.{Outcome, Outcome-cases, ok}
use secure_messager_erlang.Contact.{Contact}
use secure_messager_erlang.Ratchet.DhRatchet.{DhRatchet}
use secure_messager_erlang.Message.{Message, zero_hash}
use secure_messager_erlang.Sqlite
use secure_messager_erlang.Sqlite.{Value, blob, scan_rows, get_messages}
use secure_messager_erlang.Sqlite.Schema.{
  Tables, MessageRow, where_rows, conflicts, insert_row, schema, execute, select,
}

-- A message as the loop of `GetMessages` reads it.
abbrev pub stored_message : Bytes → Bytes → Message
stored_message sender text = record {
  header = record { public_key = []; index = pos 0; prev_count = pos 0 };
  encrypted_message = [];
  plain_message = text;
  hash = zero_hash;
  sender_id_hash = sender;
  receiver_id_hash = [];
}

-- The rows that `GetMessages` selects.
abbrev concerns : Bytes → MessageRow → Bool
concerns id row = bytes_equal row.sender_id_hash id || bytes_equal row.receiver_id_hash id

abbrev read_row : MessageRow → Message
read_row row = stored_message row.sender_id_hash row.message

where_rows-append :
    (p : MessageRow → Bool) (rows : List MessageRow) (row : MessageRow)
    → p row ≡ true
    → map read_row (where_rows p (rows ++ (row ∷ [])))
      ≡ map read_row (where_rows p rows) ++ (read_row row ∷ [])
where_rows-append p [] row h = ground (arith, h)
where_rows-append p (r ∷ rows) row h = ground (arith, where_rows-append p rows row h)

abbrev row_of : ℕ → Message → MessageRow
row_of i m = record {
  ratchet_index = pos i;
  thread_index = m.header.index;
  receiver_id_hash = m.receiver_id_hash;
  sender_id_hash = m.sender_id_hash;
  message = m.plain_message;
}

module _ (marshal : DhRatchet → Outcome Bytes) (unmarshal : Bytes → Outcome DhRatchet) where
  get_messages_rows :
      (t : Tables) (id : Bytes)
      → get_messages (schema marshal unmarshal) t id
        ≡ ok (map read_row (where_rows (concerns id) t.messages))
  unfolding get_messages select scan_rows
  get_messages_rows t id = go (where_rows (concerns id) t.messages)
    where
      go :
          (rows : List MessageRow)
          → scan_rows
              (schema marshal unmarshal)
              (λ sender_id_hash plain_message. ok (stored_message sender_id_hash plain_message))
              (map (λ (row : MessageRow). (blob row.sender_id_hash, blob row.message)) rows)
            ≡ ok (map read_row rows)
      go [] = refl
      go (row ∷ rows) = ground (arith, go rows)

  -- A message that was saved is the last one in the history of its sender.
  pub get_messages-save_message :
      (t : Tables) (i : ℕ) (m : Message) (id : Bytes)
      → m.sender_id_hash ≡ id
      → (old : List Message) × (get_messages
            (schema marshal unmarshal)
            (Sqlite.save_message (schema marshal unmarshal) t i m).0
            id
          ≡ ok (old ++ (stored_message id m.plain_message ∷ [])))
  unfolding Sqlite.save_message execute insert_row
  get_messages-save_message t i m id e =
      let kept = where_rows (λ old. not (conflicts (row_of i m) old)) t.messages in
      let older = map read_row (where_rows (concerns id) kept) in
      (
        older,
        get_messages_rows _ id
            ∙ ap ok (
                where_rows-append (concerns id) kept (row_of i m)
                  (ground (arith, e, bytes_equal_refl id)))
            ∙ ap (λ (h : Bytes). ok (older ++ (stored_message h m.plain_message ∷ []))) e,
      )

  pub update_contact_row_messages :
      (t : Tables) (x : Contact) (id : Bytes)
      → get_messages
          (schema marshal unmarshal)
          (Sqlite.update_contact_row (schema marshal unmarshal) t x).0
          id
        ≡ get_messages (schema marshal unmarshal) t id
  unfolding Sqlite.update_contact_row execute get_messages select
  update_contact_row_messages t x id = elim (Outcome-cases (marshal x.dh_ratchet)) [
    | inl (b, e) ↦ ground (arith, e)
    | inr (inl (y, e)) ↦ ground (arith, e)
    | inr (inr e) ↦ ground (arith, e)
  ]
