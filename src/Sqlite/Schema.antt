-- ===== src/Sqlite/Schema.antt =====
-- client/internal/sqlite: the tables of sqlite.go, and what the SQL text of each statement does to
-- them. A row that violates a UNIQUE constraint declared ON CONFLICT REPLACE takes the place of the
-- old one, at the end of its table. The PRIMARY KEY `id` of contacts is never given, so it does not
-- constrain. SQLite does not check FOREIGN KEY unless it is asked to, which the program does not.
-- A query without ORDER BY gives the rows in the order of their insertion.
pub mod Laws
pub mod Contacts
pub mod Messages
use secure_messager_erlang.Prelude.{
  ◌&&◌, ◌||◌, not, Bool, true, false, List, [], ◌∷◌, ◌++◌, map, Bytes, ℤ, eqb_ℤ, bytes_equal,
  if◌then◌else◌,
}
use secure_messager_erlang.Outcome.{Outcome, ok, err, library}
use secure_messager_erlang.Ratchet.DhRatchet.{DhRatchet}
use secure_messager_erlang.Sqlite.{
  Storage, Statement, Setting, Value, select_contacts, insert_contact, update_contact,
  insert_message, select_messages, set_setting, get_setting, public_key, private_key, username,
  password, blob, integer, key,
}

pub record MessageRow : Type 0 where
  pub ratchet_index : ℤ
  pub thread_index : ℤ
  pub receiver_id_hash : Bytes
  pub sender_id_hash : Bytes
  pub message : Bytes

pub record ContactRow : Type 0 where
  pub id_hash : Bytes
  pub ratchet : Bytes

pub record Tables : Type 0 where
  pub user_settings : List (Setting × Bytes)
  pub messages : List MessageRow
  pub contacts : List ContactRow

-- CREATE TABLE IF NOT EXISTS, on a new file.
unfoldable pub open_database : Tables
open_database = record { user_settings = []; messages = []; contacts = [] }

abbrev pub same_setting : Setting → Setting → Bool
same_setting public_key public_key = true
same_setting private_key private_key = true
same_setting username username = true
same_setting password password = true
same_setting k j = false

-- The rows for which a test holds.
abbrev pub where_rows {ℓ} : {A : Type ℓ} → (A → Bool) → List A → List A
where_rows p [] = []
where_rows p (a ∷ rows) = let rest = where_rows p rows in if p a then a ∷ rest else rest

-- UNIQUE(sender_id_hash, ratchet_index, thread_index)
abbrev pub conflicts : MessageRow → MessageRow → Bool
conflicts a b =
    bytes_equal a.sender_id_hash b.sender_id_hash
    && eqb_ℤ a.ratchet_index b.ratchet_index
    && eqb_ℤ a.thread_index b.thread_index

-- INSERT INTO messages, ON CONFLICT REPLACE
unfoldable pub insert_row : MessageRow → List MessageRow → List MessageRow
insert_row row rows = where_rows (λ old. not (conflicts row old)) rows ++ (row ∷ [])

-- INSERT OR REPLACE INTO user_settings, UNIQUE(key)
unfoldable pub replace_setting : Setting → Bytes → List (Setting × Bytes) → List (Setting × Bytes)
replace_setting k v rows = where_rows (λ row. not (same_setting k row.0)) rows ++ ((k, v) ∷ [])

-- UPDATE contacts SET ratchet = ? WHERE id_hash = ?
unfoldable pub update_rows : Bytes → Bytes → List ContactRow → List ContactRow
update_rows ratchet_bytes h [] = []
update_rows ratchet_bytes h (row ∷ rows) =
    (if bytes_equal row.id_hash h then record row { ratchet = ratchet_bytes } else row)
    ∷ update_rows ratchet_bytes h rows

-- SELECT value FROM user_settings WHERE key = ?
unfoldable pub find_setting : List (Setting × Bytes) → Setting → Outcome Value
find_setting [] k = err (library 1)
find_setting ((j, v) ∷ rows) k = if same_setting j k then ok (blob v) else find_setting rows k

-- A statement with arguments that do not fit it is an error of the driver.
unfoldable pub execute : Tables → Statement → List Value → Tables × Outcome (Unit {0})
execute t set_setting (key k ∷ blob v ∷ []) =
    (record t { user_settings = replace_setting k v t.user_settings }, ok tt)
execute t insert_contact (blob h ∷ blob r ∷ []) =
    (record t { contacts = t.contacts ++ (record { id_hash = h; ratchet = r } ∷ []) }, ok tt)
execute t update_contact (blob r ∷ blob h ∷ []) =
    (record t { contacts = update_rows r h t.contacts }, ok tt)
execute t insert_message (integer i ∷ integer j ∷ blob receiver ∷ blob sender ∷ blob text ∷ []) = (
  record t {
    messages =
        insert_row
          (record {
            ratchet_index = i;
            thread_index = j;
            receiver_id_hash = receiver;
            sender_id_hash = sender;
            message = text;
          })
          t.messages;
  },
  ok tt,
)
execute t _ _ = (t, err (library 0))

-- SELECT id_hash, ratchet FROM contacts, and SELECT sender_id_hash, message FROM messages WHERE
-- sender_id_hash = ? OR receiver_id_hash = ?
unfoldable pub select : Tables → Statement → List Value → Outcome (List (Value × Value))
select t select_contacts [] =
    ok (map (λ (row : ContactRow). (blob row.id_hash, blob row.ratchet)) t.contacts)
select t select_messages (blob sender ∷ blob receiver ∷ []) = ok (
    map (λ (row : MessageRow). (blob row.sender_id_hash, blob row.message))
      (where_rows
        (λ (row : MessageRow).
          bytes_equal row.sender_id_hash sender || bytes_equal row.receiver_id_hash receiver)
        t.messages))
select t _ _ = err (library 0)

unfoldable pub select_row : Tables → Statement → List Value → Outcome Value
select_row t get_setting (key k ∷ []) = find_setting t.user_settings k
select_row t _ _ = err (library 0)

-- rows.Scan into a []byte. (The program scans no number.)
abbrev pub scan_bytes : Value → Outcome Bytes
scan_bytes (blob b) = ok b
scan_bytes _ = err (library 2)

-- The database, over the encoding of ratchets.
abbrev pub schema : (DhRatchet → Outcome Bytes) → (Bytes → Outcome DhRatchet) → Storage Tables
schema marshal unmarshal = record {
  prepare = λ t statement. ok tt;
  exec = execute;
  query = select;
  query_row = select_row;
  scan = scan_bytes;
  marshal = marshal;
  unmarshal = unmarshal;
}
