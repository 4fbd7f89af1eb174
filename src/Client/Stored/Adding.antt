-- ===== src/Client/Stored/Adding.antt =====
-- client/internal/client/client.go: what `addContactByHash` leaves in the database.
use secure_messager_erlang.Prelude.{
  ◌≡◌, refl, sym, ap, ◌∙◌, arith, List, [], ◌∷◌, ◌++◌, map-append, Bytes, length, ◌==◌, inl, inr,
  Option-cases, Bool-cases,
}
use secure_messager_erlang.Outcome.{Outcome, Outcome-cases, ok, err, crash}
use secure_messager_erlang.Crypt.Library.{Crypto}
use secure_messager_erlang.Crypt.{KeyPair}
use secure_messager_erlang.Contact.{Contact, new_contact, get_contact_by_id_hash}
use secure_messager_erlang.Ratchet.DhRatchet.{DhRatchet, RatchetState, new_dh_ratchet}
use secure_messager_erlang.Ratchet.DhRatchet.Stored.{
  IsEncodable, Gob, GobLaws, flatten, rebuild, marshal, unmarshal, flatten-rebuild,
  unmarshal-rebuild,
}
use secure_messager_erlang.Message.Cipher.Restart.{new_dh_ratchet-IsSeparate}
use secure_messager_erlang.Sqlite
use secure_messager_erlang.Sqlite.Schema.{Tables}
use secure_messager_erlang.Sqlite.Schema.Contacts.{get_contacts-add_contact}
use secure_messager_erlang.Tcp.Packet.{Packet, req_pub_key}
use secure_messager_erlang.Tcp.Server.{Network}
use secure_messager_erlang.Client.{Client, Action, Environment, ◌>>=◌, ◌>>◌, store, request}
use secure_messager_erlang.Client.Contacts.{append_contact, fetch_contact, add_contact_by_hash}
use secure_messager_erlang.Client.Stored.{values, over_gob, IsStored}

module _ {W : Type 0} (crypto : Crypto) (network : Network W) (g : Gob) where
  abbrev env : Environment Tables W
  env = over_gob crypto network g

  -- What `addContactByHash` does with the contact, and with the answer of the server before.
  abbrev keep : Bytes → Outcome Contact → Action Tables W (Unit {0})
  keep h made = (λ (c' : Client Tables W). (c', made)) >>= λ (contact : Contact).
      append_contact env contact
      >> store (λ d. Sqlite.add_contact env.storage d h contact.dh_ratchet)

  abbrev keep_answer : Bytes → RatchetState → Outcome Packet → Action Tables W (Unit {0})
  keep_answer h state answer = (λ (c' : Client Tables W). (c', answer)) >>= λ (response : Packet).
      λ (c' : Client Tables W). keep h (new_contact crypto h c'.keypair response.bytes state) c'

  add_contact-encodes :
      (t : Tables) (h : Bytes) (r : DhRatchet)
      → (Sqlite.add_contact env.storage t h r).1 ≡ ok tt
      → (b : Bytes) × (marshal g r ≡ ok b)
  unfolding Sqlite.add_contact
  add_contact-encodes t h r done = elim (Outcome-cases (marshal g r)) [
    | inl (b, e) ↦ (b, e)
    | inr (inl (x, e)) ↦ ground (arith, e, done)
    | inr (inr e) ↦ ground (arith, e, done)
  ]

  add_stored :
      (laws : GobLaws g) (t : Tables) (xs ys : List Contact) (h : Bytes) (r : DhRatchet)
      → Sqlite.get_contacts env.storage t ≡ ok ys
      → values ys ≡ values xs
      → IsEncodable (flatten r)
      → (Sqlite.add_contact env.storage t h r).1 ≡ ok tt
      → (zs : List Contact) × (Sqlite.get_contacts env.storage
            (Sqlite.add_contact env.storage t h r).0
          ≡ ok zs)
        × (values zs ≡ values (xs ++ (record { id_hash = h; dh_ratchet = r } ∷ [])))
  add_stored laws t xs ys h r loaded kept encodable done =
      let (b, m) = add_contact-encodes t h r done in
      let last = rebuild (flatten r) in
      (
        ys ++ (record { id_hash = h; dh_ratchet = last } ∷ []),
        get_contacts-add_contact (marshal g) (unmarshal g) t h r last loaded m
            (unmarshal-rebuild g laws r encodable m),
        map-append _ ys _
            ∙ ap (λ l. l ++ ((h, flatten last) ∷ [])) kept
            ∙ ap (λ v. values xs ++ ((h, v) ∷ [])) (flatten-rebuild (flatten r))
            ∙ sym (map-append _ xs _),
      )

  new_contact-IsEncodable :
      (h : Bytes) (keypair : KeyPair) (foreign : Bytes) (state : RatchetState) {x : Contact}
      → new_contact crypto h keypair foreign state ≡ ok x
      → (x.id_hash ≡ h) × IsEncodable (flatten x.dh_ratchet)
  unfolding new_contact
  new_contact-IsEncodable h keypair foreign state {x} made =
      elim (Outcome-cases (new_dh_ratchet crypto keypair foreign state)) [
        | inr (inr e) ↦ ground (arith, e, made)
        | inr (inl (y, e)) ↦ ground (arith, e, made)
        | inl (r, e) ↦
            let is : record { id_hash = h; dh_ratchet = r } ≡ x = ground (arith, e, made) in
            rw (← is) (refl, (new_dh_ratchet-IsSeparate crypto keypair foreign state e).1)
      ]

  keep-IsStored :
      (laws : GobLaws g) (h : Bytes) (state : RatchetState) (foreign : Bytes) (c : Client Tables W)
      (made : Outcome Contact)
      → new_contact crypto h c.keypair foreign state ≡ made
      → IsStored crypto network g c
      → (keep h made c).1 ≡ ok tt
      → IsStored crypto network g (keep h made c).0
  keep-IsStored laws h state foreign c (err x) is stored done = stored
  keep-IsStored laws h state foreign c crash is stored done = stored
  keep-IsStored laws h state foreign c (ok x) is (ys, loaded, kept) done =
      let (hash, encodable) = new_contact-IsEncodable h c.keypair foreign state is in
      let (zs, written, held) =
        add_stored laws c.db c.contacts ys h x.dh_ratchet loaded kept encodable done in
      (
        zs,
        written,
        held ∙ ap (λ i. values (c.contacts ++ (record x { id_hash = i } ∷ []))) (sym hash),
      )

  keep_answer-IsStored :
      (laws : GobLaws g) (h : Bytes) (state : RatchetState) (c : Client Tables W)
      (answer : Outcome Packet)
      → IsStored crypto network g c
      → (keep_answer h state answer c).1 ≡ ok tt
      → IsStored crypto network g (keep_answer h state answer c).0
  keep_answer-IsStored laws h state c (err x) stored done = stored
  keep_answer-IsStored laws h state c crash stored done = stored
  keep_answer-IsStored laws h state c (ok response) stored done =
      keep-IsStored laws h state response.bytes c _ refl stored done

  -- A contact that is added without an error leaves the database holding what the contacts in memory
  -- hold, if it did before and gob keeps what it encodes.
  pub add_contact_by_hash-IsStored :
      (laws : GobLaws g) (h : Bytes) (state : RatchetState) (c : Client Tables W)
      → IsStored crypto network g c
      → (add_contact_by_hash env h state c).1 ≡ ok tt
      → IsStored crypto network g (add_contact_by_hash env h state c).0
  unfolding add_contact_by_hash fetch_contact request
  add_contact_by_hash-IsStored laws h state c stored done = elim (Bool-cases (length h == 0)) [
    | inl empty ↦ ground (arith, empty, done)
    | inr given ↦ elim (Option-cases (get_contact_by_id_hash c.contacts h)) [
      | inr (x, found) ↦ rw (given, found) stored
      | inl free ↦
          let asked = request env req_pub_key h c in
          let done' : (keep_answer h state asked.1 asked.0).1 ≡ ok tt =
            sym (rw (given, free) refl) ∙ done in
          rw (given, free) (keep_answer-IsStored laws h state asked.0 asked.1 stored done')
    ]
  ]
