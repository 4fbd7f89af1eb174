-- ===== src/Sqlite.antt =====
-- client/internal/sqlite: what the client stores. The database engine (database/sql with its
-- driver) and the gob encoding of ratchets are parameters; a statement stands for its SQL text.
pub mod Settings
pub mod Schema
use secure_messager_erlang.Prelude.{List, [], ◌∷◌, ◌++◌, Bytes, ℤ, pos, ℕ}
use secure_messager_erlang.Outcome.{Error, Outcome, ok, err, crash, ◌>>=◌, ◌>>◌}
use secure_messager_erlang.Crypt.{KeyPair}
use secure_messager_erlang.Ratchet.DhRatchet.{DhRatchet}
use secure_messager_erlang.Message.{Message, zero_hash}
use secure_messager_erlang.Contact.{Contact}

pub data Statement : Type 0 where
  select_contacts insert_contact update_contact : Statement
  insert_message select_messages : Statement
  set_setting get_setting : Statement

-- The rows of `user_settings` that the program uses.
pub data Setting : Type 0 where
  public_key private_key username password : Setting

-- An argument or a column.
pub data Value : Type 0 where
  blob : Bytes → Value
  integer : ℤ → Value
  key : Setting → Value

-- What the program calls of `*sql.DB` and of `*sql.Stmt`, with `D` for the database's content.
-- `exec` gives the content after the call, whether or not it fails. `query` gives the rows up to
-- the end or an error, which `rows.Next` does not tell apart. `scan` reads a column into a slice.
pub record Storage (D : Type 0) : Type 0 where
  pub prepare : D → Statement → Outcome (Unit {0})
  pub exec : D → Statement → List Value → D × Outcome (Unit {0})
  pub query : D → Statement → List Value → Outcome (List (Value × Value))
  pub query_row : D → Statement → List Value → Outcome Value
  pub scan : Value → Outcome Bytes
  pub marshal : DhRatchet → Outcome Bytes
  pub unmarshal : Bytes → Outcome DhRatchet

module _ {D : Type 0} (s : Storage D) where
  -- A statement is prepared, its arguments are made, and it is executed.
  abbrev pub run : D → Statement → Outcome (List Value) → D × Outcome (Unit {0})
  run d stmt arguments = elim (s.prepare d stmt >> arguments) [
    | ok values ↦ s.exec d stmt values
    | err e ↦ (d, err e)
    | crash ↦ (d, crash)
  ]

  -- Two rows, one after the other, through one statement.
  abbrev pub run_twice : D → Statement → List Value → List Value → D × Outcome (Unit {0})
  run_twice d stmt first second = elim (s.prepare d stmt) [
    | err e ↦ (d, err e)
    | crash ↦ (d, crash)
    | ok _ ↦
        let (d1, done) = s.exec d stmt first in
        elim done [ ok _ ↦ s.exec d1 stmt second | err e ↦ (d1, err e) | crash ↦ (d1, crash) ]
  ]

  -- The rows of a query, each through `row`.
  unfoldable pub scan_rows {ℓ} :
      {A : Type ℓ} → (Bytes → Bytes → Outcome A) → List (Value × Value) → Outcome (List A)
  scan_rows row [] = ok []
  scan_rows row ((a, b) ∷ rows) = do
    x ← s.scan a
    y ← s.scan b
    v ← row x y
    vs ← scan_rows row rows
    ok (v ∷ vs)

  unfoldable pub get_contacts : D → Outcome (List Contact)
  get_contacts d = do
    s.prepare d select_contacts
    rows ← s.query d select_contacts []
    scan_rows
        (λ contact_id_hash ratchet_bytes. s.unmarshal ratchet_bytes >>= λ ratchet.
          ok (record { id_hash = contact_id_hash; dh_ratchet = ratchet }))
        rows

  unfoldable pub add_contact : D → Bytes → DhRatchet → D × Outcome (Unit {0})
  add_contact d contact_id_hash ratchet =
      run d insert_contact
        (s.marshal ratchet >>= λ ratchet_bytes. ok (blob contact_id_hash ∷ blob ratchet_bytes ∷ []))

  unfoldable pub update_contact_row : D → Contact → D × Outcome (Unit {0})
  update_contact_row d x =
      run d update_contact
        (s.marshal x.dh_ratchet >>= λ ratchet_bytes. ok (blob ratchet_bytes ∷ blob x.id_hash ∷ []))

  unfoldable pub save_message : D → ℕ → Message → D × Outcome (Unit {0})
  save_message d ratchet_index m = run d insert_message (
      ok (
        integer (pos ratchet_index)
        ∷ integer m.header.index
        ∷ blob m.receiver_id_hash
        ∷ blob m.sender_id_hash
        ∷ blob m.plain_message
        ∷ []))

  unfoldable pub get_messages : D → Bytes → Outcome (List Message)
  get_messages d sender_id = do
    s.prepare d select_messages
    rows ← s.query d select_messages (blob sender_id ∷ blob sender_id ∷ [])
    scan_rows
        (λ sender_id_hash plain_message. ok (record {
          header = record { public_key = []; index = pos 0; prev_count = pos 0 };
          encrypted_message = [];
          plain_message = plain_message;
          hash = zero_hash;
          sender_id_hash = sender_id_hash;
          receiver_id_hash = [];
        }))
        rows

  unfoldable pub set_user_key_pair : D → KeyPair → D × Outcome (Unit {0})
  set_user_key_pair d keypair =
      run_twice d set_setting (key public_key ∷ blob keypair.public_key ∷ [])
        (key private_key ∷ blob keypair.private_key ∷ [])

  abbrev pub get_two : D → Setting → Setting → Outcome (Bytes × Bytes)
  get_two d first second = do
    s.prepare d get_setting
    row ← s.query_row d get_setting (key first ∷ [])
    a ← s.scan row
    row' ← s.query_row d get_setting (key second ∷ [])
    b ← s.scan row'
    ok (a, b)

  unfoldable pub get_user_key_pair : D → Outcome KeyPair
  get_user_key_pair d = do
    (a, b) ← get_two d public_key private_key
    ok (record { public_key = a; private_key = b })

  unfoldable pub set_login_data : D → Bytes → Bytes → D × Outcome (Unit {0})
  set_login_data d user_id password_bytes =
      run_twice d set_setting (key username ∷ blob user_id ∷ [])
        (key password ∷ blob password_bytes ∷ [])

  unfoldable pub get_login_data : D → Outcome (Bytes × Bytes)
  get_login_data d = get_two d username password
