-- ===== src/Contact/Evolution.antt =====
-- client/internal/contact: how a list of contacts may change. Ratchets are written through pointers to
-- contacts, and new contacts are put behind the others; no contact is ever removed.
use secure_messager_erlang.Prelude.{
  ◌≡◌, refl, sym, ap, ◌∙◌, List, [], ◌∷◌, ◌++◌, append_assoc, append-nil, none, Bytes,
}
use secure_messager_erlang.Ratchet.DhRatchet.{DhRatchet}
use secure_messager_erlang.Contact.{Contact, get_contact_by_id_hash, put_ratchet}
use secure_messager_erlang.Contact.Search.{
  IsDistinct, put_ratchet-IsDistinct, append-IsDistinct, id_hashes, id_hashes-put_ratchet,
}

pub data Evolves (xs : List Contact) : List Contact → Type 0 where
  stays : Evolves xs xs
  writes :
      {ys : List Contact} (k : Bytes) (r : DhRatchet)
      → Evolves xs ys
      → Evolves xs (put_ratchet ys k r)
  appends :
      {ys : List Contact} (x : Contact)
      → get_contact_by_id_hash ys x.id_hash ≡ none
      → Evolves xs ys
      → Evolves xs (ys ++ (x ∷ []))

pub Evolves_refl : (xs : List Contact) → Evolves xs xs
Evolves_refl xs = stays

pub Evolves-trans : {xs ys zs : List Contact} → Evolves xs ys → Evolves ys zs → Evolves xs zs
Evolves-trans a stays = a
Evolves-trans a (writes k r b) = writes k r (Evolves-trans a b)
Evolves-trans a (appends x free b) = appends x free (Evolves-trans a b)

pub Evolves-IsDistinct : {xs ys : List Contact} → Evolves xs ys → IsDistinct xs → IsDistinct ys
Evolves-IsDistinct stays h = h
Evolves-IsDistinct (writes {ys = ys} k r a) h =
    put_ratchet-IsDistinct ys k r (Evolves-IsDistinct a h)
Evolves-IsDistinct (appends {ys = ys} x free a) h =
    append-IsDistinct ys x (Evolves-IsDistinct a h) free

id_hashes-append :
    (xs : List Contact) (x : Contact)
    → id_hashes (xs ++ (x ∷ [])) ≡ id_hashes xs ++ (x.id_hash ∷ [])
id_hashes-append [] x = refl
id_hashes-append (y ∷ ys) x = ap (λ t. y.id_hash ∷ t) (id_hashes-append ys x)

-- The hashes stay, in their order, and the new ones follow.
pub Evolves-id_hashes :
    {xs ys : List Contact}
    → Evolves xs ys
    → (more : List Bytes) × (id_hashes ys ≡ id_hashes xs ++ more)
Evolves-id_hashes {xs} stays = ([], sym (append-nil (id_hashes xs)))
Evolves-id_hashes (writes {ys = ys} k r a) =
    let (more, e) = Evolves-id_hashes a in (more, id_hashes-put_ratchet ys k r ∙ e)
Evolves-id_hashes {xs} (appends {ys = ys} x free a) =
    let (more, e) = Evolves-id_hashes a in
    (
      more ++ (x.id_hash ∷ []),
      id_hashes-append ys x
          ∙ ap (λ t. t ++ (x.id_hash ∷ [])) e
          ∙ append_assoc (id_hashes xs) more (x.id_hash ∷ []),
    )
