-- ===== src/Client/Stored.antt =====
-- client/internal/client/client.go over the tables of the schema and gob: the contacts in the database
-- hold what those in memory hold, each chain with a map of its own.
pub mod Sending
pub mod Receiving
pub mod Adding
pub mod Unknown
use secure_messager_erlang.Prelude.{
  ◌≡◌, refl, sym, ap, ◌∙◌, arith, false, List, [], ◌∷◌, map, none, some, Bytes, length, ◌==◌,
  bytes_equal, Bool-cases, inl, inr, if◌then◌else◌,
}
use secure_messager_erlang.Outcome.{Outcome-cases, crash, Outcome, ok}
use secure_messager_erlang.Crypt.Library.{Crypto}
use secure_messager_erlang.Contact.{Contact, get_contact_by_id_hash, put_ratchet}
use secure_messager_erlang.Contact.Search.{IsDistinct}
use secure_messager_erlang.Ratchet.DhRatchet.{DhRatchet}
use secure_messager_erlang.Ratchet.DhRatchet.Stored.{
  StoredRatchet, Gob, GobLaws, IsEncodable, flatten, rebuild, marshal, unmarshal, flatten-rebuild,
  unmarshal-rebuild,
}
use secure_messager_erlang.Sqlite
use secure_messager_erlang.Sqlite.Schema.{Tables}
use secure_messager_erlang.Sqlite.Schema.Contacts.{get_contacts-update_contact_row}
use secure_messager_erlang.Tcp.Server.{Network}
use secure_messager_erlang.Client.{Client, Environment}
use secure_messager_erlang.Client.Messages.{
  send_to, send_plain_message, decrypt_for, save, other_side, handle_incoming_message,
}
use secure_messager_erlang.Message.{Message}
use secure_messager_erlang.Message.Cipher
use secure_messager_erlang.Message.Cipher.{Result}
use secure_messager_erlang.Client.History.{send_to_contacts}
use secure_messager_erlang.Client.Persistence.{
  over_schema, sealed, send_to_db, save_message_contacts, send_plain_message_known,
}

-- The contacts with their ratchets as values.
abbrev pub values : List Contact → List (Bytes × StoredRatchet)
values xs = map (λ x. (x.id_hash, flatten x.dh_ratchet)) xs

put_value : List (Bytes × StoredRatchet) → Bytes → StoredRatchet → List (Bytes × StoredRatchet)
put_value [] h v = []
put_value ((k, w) ∷ l) h v = if bytes_equal k h then (k, v) ∷ l else (k, w) ∷ put_value l h v

values-put_ratchet :
    (xs : List Contact) (h : Bytes) (r : DhRatchet)
    → values (put_ratchet xs h r) ≡ put_value (values xs) h (flatten r)
unfolding put_ratchet put_value
values-put_ratchet [] h r = refl
values-put_ratchet (x ∷ xs) h r = ground (arith, values-put_ratchet xs h r)

abbrev first_hash : List (Bytes × StoredRatchet) → Bytes
first_hash [] = []
first_hash ((k, v) ∷ l) = k

abbrev behind : List (Bytes × StoredRatchet) → List (Bytes × StoredRatchet)
behind [] = []
behind (p ∷ l) = l

get_contact-values :
    (xs ys : List Contact) (h : Bytes)
    → values ys ≡ values xs
    → get_contact_by_id_hash xs h ≡ none
    → get_contact_by_id_hash ys h ≡ none
unfolding get_contact_by_id_hash
get_contact-values xs [] h same free = refl
get_contact-values [] (y ∷ ys) h same free = cc
get_contact-values (x ∷ xs) (y ∷ ys) h same free =
    let hash : y.id_hash ≡ x.id_hash = ap first_hash same in
    let later : values ys ≡ values xs = ap behind same in
    elim (Bool-cases (bytes_equal x.id_hash h)) [
      | inl found ↦ ground (arith, found, free)
      | inr other ↦
          ground (
            arith,
            hash,
            other,
            free,
            get_contact-values xs ys h later (ground (arith, other, free)),
          )
    ]

values-IsDistinct : (xs ys : List Contact) → values ys ≡ values xs → IsDistinct xs → IsDistinct ys
values-IsDistinct xs [] same h = tt
values-IsDistinct [] (y ∷ ys) same h = cc
values-IsDistinct (x ∷ xs) (y ∷ ys) same (own, rest) =
    let hash : y.id_hash ≡ x.id_hash = ap first_hash same in
    let later : values ys ≡ values xs = ap behind same in
    (rw hash (get_contact-values xs ys x.id_hash later own), values-IsDistinct xs ys later rest)

module _ {W : Type 0} (crypto : Crypto) (network : Network W) (g : Gob) where
  abbrev pub over_gob : Environment Tables W
  over_gob = over_schema crypto network (marshal g) (unmarshal g)

  -- The database can be read, and holds what the contacts in memory hold.
  abbrev pub IsStored : Client Tables W → Type 0
  IsStored c =
      (ys : List Contact) × (Sqlite.get_contacts over_gob.storage c.db ≡ ok ys)
      × (values ys ≡ values c.contacts)

  -- What `Encrypt` leaves of the contact's ratchet in `SendMessage`.
  abbrev pub ratchet_after : Contact → Bytes → Client Tables W → DhRatchet
  ratchet_after x text c = (sealed crypto network (marshal g) (unmarshal g) x text c).1

  -- What a contact's row becomes, in tables that hold what contacts in memory hold.
  pub update_stored :
      (laws : GobLaws g) (t : Tables) (xs ys : List Contact) (h : Bytes) (r : DhRatchet) {b : Bytes}
      → Sqlite.get_contacts over_gob.storage t ≡ ok ys
      → values ys ≡ values xs
      → IsDistinct xs
      → IsEncodable (flatten r)
      → marshal g r ≡ ok b
      → (zs : List Contact) × (Sqlite.get_contacts over_gob.storage
            (Sqlite.update_contact_row over_gob.storage t
              (record { id_hash = h; dh_ratchet = r })).0
          ≡ ok zs)
        × (values zs ≡ values (put_ratchet xs h r))
  update_stored laws t xs ys h r loaded kept distinct encodable m =
      let read = unmarshal-rebuild g laws r encodable m in
      let (_, written) =
        get_contacts-update_contact_row (marshal g) (unmarshal g) t h r (rebuild (flatten r)) loaded
          (values-IsDistinct xs ys kept distinct) m read in
      (
        put_ratchet ys h (rebuild (flatten r)),
        written,
        values-put_ratchet ys h (rebuild (flatten r))
            ∙ ap (λ v. put_value (values ys) h v) (flatten-rebuild (flatten r))
            ∙ ap (λ l. put_value l h (flatten r)) kept
            ∙ sym (values-put_ratchet xs h r),
      )
