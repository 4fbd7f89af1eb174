-- ===== src/Contact.antt =====
-- client/internal/contact/contact.go: contacts, and the search for one. The program keeps pointers
-- to contacts, each allocated for one entry of one slice; a write through the pointer that
-- `GetContactByIDHash` returned is a write to the first entry with that hash.
pub mod Search
pub mod Evolution
use secure_messager_erlang.Prelude.{
  ℕ, zero, suc, ◌+◌, ◌-◌, ◌*◌, ◌/◌, ◌%◌, ◌^◌, ◌≤◌, ◌<◌, ◌≡◌, ◌≢◌, refl, sym, ap, ◌∙◌, ◌↔◌, ◌⊎◌, inl,
  inr, Bool, true, false, not, ◌&&◌, ◌||◌, List, [], ◌∷◌, ◌++◌, append_assoc, append-nil, arith,
  Option, none, some, Bytes, length, length-append, length-take, length-drop, take, drop,
  take-append, drop-append, take-append-drop, take_all, replicate, length-replicate, le→ltb, lt→ltb,
  ltb, leb, ◌==◌, ==_refl, if◌then◌else◌, Bool-cases, Option-cases, bytes_equal, bytes_equal_iff,
  bytes_equal_refl, ℤ, ℤ_eq, ℕ_eq, Bytes_eq, pos, negsuc, pos_part, neg_part, sub_ℕ, ◌+ℤ◌, ◌-ℤ◌,
  ◌≤ℤ◌, ltb_ℤ, eqb_ℤ, Eq, Assoc, lookup, insert, delete, lookup-insert, lookup-delete,
  length-insert, length-delete,
}
use secure_messager_erlang.Outcome.{
  Error, Outcome, ok, err, crash, ◌>>=◌, ◌>>◌, invalid_hash_length, insufficient_message_length,
  insufficient_message, failed_to_parse, invalid_message_key_index, too_many_skipped,
  already_processed, invalid_mac, no_matching_ratchet, packet_too_long, auth_not_set,
  invalid_packet_length, invalid_auth_token_length,
}
use secure_messager_erlang.Crypt.Library.{Crypto, CryptoLaws}
use secure_messager_erlang.Crypt.{
  KeyPair, key_length, encrypt_aes, decrypt_aes, generate_key_pair, generate_shared_secret,
  or_fatal,
}
use secure_messager_erlang.Ratchet.DhRatchet.{
  DhRatchet, current_keys, Maps, make_map, store_map, is_current_ratchet, get_prev_ratchet,
  store_current, start_chain, rk_cycle, new_dh_ratchet, RatchetState, sending, receiving,
}

pub record Contact : Type 0 where
  pub id_hash : Bytes
  pub dh_ratchet : DhRatchet

unfoldable pub new_contact : Crypto → Bytes → KeyPair → Bytes → RatchetState → Outcome Contact
new_contact c id_hash keypair public_key init_state = do
  dh_ratchet ← new_dh_ratchet c keypair public_key init_state
  ok (record { id_hash = id_hash; dh_ratchet = dh_ratchet })

unfoldable pub get_contact_by_id_hash : List Contact → Bytes → Option Contact
get_contact_by_id_hash [] contact_id = none
get_contact_by_id_hash (x ∷ xs) contact_id =
    if bytes_equal x.id_hash contact_id then some x else get_contact_by_id_hash xs contact_id

-- What the ratchet's methods write, through the pointer to the contact that the search found.
unfoldable pub put_ratchet : List Contact → Bytes → DhRatchet → List Contact
put_ratchet [] contact_id r = []
put_ratchet (x ∷ xs) contact_id r =
    if bytes_equal x.id_hash contact_id
    then record x { dh_ratchet = r } ∷ xs
    else x ∷ put_ratchet xs contact_id r
