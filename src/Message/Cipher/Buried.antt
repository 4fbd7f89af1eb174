-- ===== src/Message/Cipher/Buried.antt =====
-- client/internal/contact/message/message.go, contact/ratchet/dhratchet.go: messages with a public key
-- with which no secret can be computed.
use secure_messager_erlang.Prelude.{
  ℕ, zero, suc, ◌+◌, ◌≤◌, ◌≡◌, refl, sym, ap, ◌∙◌, arith, Bytes, none, some, All, All-append, List,
  [], ◌∷◌, ◌++◌, append_assoc, append-nil, true, false, inl, inr, Bool-cases, bytes_equal, length,
  length-append, replicate, length-replicate, lookup, ltb, ltb_ℤ, ℤ_eq, pos,
}
use secure_messager_erlang.Outcome.{Error, ok, err, invalid_message_key_index}
use secure_messager_erlang.Crypt.Library.{Crypto}
use secure_messager_erlang.Crypt.{generate_shared_secret}
use secure_messager_erlang.Message.{Message}
use secure_messager_erlang.Ratchet.MessageRatchet
use secure_messager_erlang.Ratchet.MessageRatchet.{MessageRatchet, decrypt_new}
use secure_messager_erlang.Ratchet.DhRatchet.{
  DhRatchet, store_map, current_keys, is_current_ratchet, find_ratchet, get_prev_ratchet, rk_cycle,
  store_current, limit_previous, prev_ratchet_limit, receiving,
}
use secure_messager_erlang.Ratchet.DhRatchet.Cycle.{rk_cycle_no_secret}
use secure_messager_erlang.Ratchet.DhRatchet.Separate.{limit_previous-All}
use secure_messager_erlang.Message.Cipher.{Result, decrypt_current, decrypt}

-- A message with a key that no chain has, and with which no secret can be computed; its index is
-- negative, and no key is stored for it.
pub record IsBurying (c : Crypto) (m : Message) (e : Error) (r : DhRatchet) : Type 0 where
  pub begun : ltb 0 (length r.current_mratchet.foreign_public_key) ≡ true
  pub other : bytes_equal r.current_mratchet.foreign_public_key m.header.public_key ≡ false
  pub unknown :
      All (λ x. bytes_equal x.foreign_public_key m.header.public_key ≡ false) r.previous_mratchets
  pub no_secret : generate_shared_secret c r.keypair m.header.public_key ≡ err e
  pub negative : ltb_ℤ m.header.index (pos 0) ≡ true
  pub unstored : lookup (current_keys r) m.header.index ≡ none

find_ratchet-none :
    (ms : List MessageRatchet) (public_key : Bytes)
    → All (λ x. bytes_equal x.foreign_public_key public_key ≡ false) ms
    → find_ratchet ms public_key ≡ none
unfolding find_ratchet
find_ratchet-none [] public_key h = refl
find_ratchet-none (m ∷ ms) public_key h = ground (arith, h.0, find_ratchet-none ms public_key h.1)

-- What such a message leaves.
abbrev buried : DhRatchet → DhRatchet
buried r = record r {
  previous_mratchets = limit_previous (r.previous_mratchets ++ (r.current_mratchet ∷ []));
  state = receiving;
  maps = store_map r.maps r.current_mratchet.skipped_message_keys (current_keys r);
}

module _ (c : Crypto) where
  store_current_begun :
      (r : DhRatchet)
      → ltb 0 (length r.current_mratchet.foreign_public_key) ≡ true
      → store_current r ≡ record r {
        previous_mratchets = limit_previous (r.previous_mratchets ++ (r.current_mratchet ∷ []));
      }
  unfolding store_current
  store_current_begun r begun = ground (arith, begun)

  refused :
      (m : Message) (r : DhRatchet)
      → ltb_ℤ m.header.index (pos 0) ≡ true
      → lookup (current_keys r) m.header.index ≡ none
      → decrypt_current c m r ≡ (
        m,
        record r {
          maps = store_map r.maps r.current_mratchet.skipped_message_keys (current_keys r);
        },
        err invalid_message_key_index,
      )
  unfolding decrypt_current MessageRatchet.decrypt decrypt_new
  refused m r negative unstored = ground (arith, negative, unstored)

  decrypt_buries :
      (m : Message) (e : Error) (r : DhRatchet)
      → IsBurying c m e r
      → decrypt c m r ≡ (m, buried r, err invalid_message_key_index)
  unfolding decrypt is_current_ratchet get_prev_ratchet
  decrypt_buries m e r h =
      let s = record r {
        previous_mratchets = limit_previous (r.previous_mratchets ++ (r.current_mratchet ∷ []));
        state = receiving;
      } in
      let cycled : rk_cycle c r (some m.header.public_key) ≡ ok (store_current r) =
        rk_cycle_no_secret c r (some m.header.public_key) h.no_secret in
      ground (
        arith,
        h.other,
        find_ratchet-none r.previous_mratchets m.header.public_key h.unknown,
        cycled ∙ ap ok (store_current_begun r h.begun),
        refused m s h.negative h.unstored,
      )

  buried-IsBurying :
      (m : Message) (e : Error) (r : DhRatchet) → IsBurying c m e r → IsBurying c m e (buried r)
  buried-IsBurying m e r h = record {
    begun = h.begun;
    other = h.other;
    unknown =
        limit_previous-All (λ x. bytes_equal x.foreign_public_key m.header.public_key ≡ false)
          (r.previous_mratchets ++ (r.current_mratchet ∷ []))
          (All-append (λ x. bytes_equal x.foreign_public_key m.header.public_key ≡ false)
            r.previous_mratchets (r.current_mratchet ∷ []) h.unknown (h.other, tt));
    no_secret = h.no_secret;
    negative = h.negative;
    unstored = ground (arith, h.unstored);
  }

-- The last `k` previous chains are `x`.
abbrev EndsIn : ℕ → MessageRatchet → List MessageRatchet → Type 0
EndsIn k x ms =
    (old : List MessageRatchet) × (ms ≡ old ++ replicate k x)
    × (length old + k ≤ prev_ratchet_limit)

replicate_end : (k : ℕ) (x : MessageRatchet) → replicate k x ++ (x ∷ []) ≡ replicate (suc k) x
replicate_end zero x = refl
replicate_end (suc k) x = ap (λ l. x ∷ l) (replicate_end k x)

limit_previous_short :
    (ms : List MessageRatchet) → length ms ≤ prev_ratchet_limit → limit_previous ms ≡ ms
unfolding limit_previous
limit_previous_short ms h = ground (arith, h)

limit_previous_over :
    (m : MessageRatchet) (ms : List MessageRatchet)
    → length ms ≡ prev_ratchet_limit
    → limit_previous (m ∷ ms) ≡ ms
unfolding limit_previous
limit_previous_over m ms h = rw h refl

limit_previous-EndsIn :
    (k : ℕ) (x : MessageRatchet) (old : List MessageRatchet)
    → length old + k ≤ prev_ratchet_limit
    → suc k ≤ prev_ratchet_limit
    → EndsIn (suc k) x (limit_previous (old ++ replicate (suc k) x))
limit_previous-EndsIn k x [] h room = (
  [],
  limit_previous_short (replicate (suc k) x) (rw (length-replicate (suc k) x) room),
  omega (arith, room),
)
limit_previous-EndsIn k x (m ∷ old) h room =
    let total : length (old ++ replicate (suc k) x) ≡ length old + suc k =
      length-append old (replicate (suc k) x)
      ∙ ap (λ n. length old + n) (length-replicate (suc k) x) in
    elim (Bool-cases (ltb prev_ratchet_limit (suc (length old + suc k)))) [
      | inl over ↦ (
        old,
        limit_previous_over m (old ++ replicate (suc k) x) (total ∙ full h over),
        omega (arith, h),
      )
      | inr under ↦ (
        m ∷ old,
        limit_previous_short (m ∷ (old ++ replicate (suc k) x)) (rw total (fits under)),
        omega (arith, fits under),
      )
    ]
  where
    full :
        suc (length old) + k ≤ prev_ratchet_limit
        → ltb prev_ratchet_limit (suc (length old + suc k)) ≡ true
        → length old + suc k ≡ prev_ratchet_limit
    full h over = ground (arith, h, over)

    fits :
        ltb prev_ratchet_limit (suc (length old + suc k)) ≡ false
        → suc (length old + suc k) ≤ prev_ratchet_limit
    fits under = ground (arith, under)

-- The ratchet after so many deliveries of one message.
abbrev pub deliver : Crypto → Message → ℕ → DhRatchet → DhRatchet
deliver c m zero r = r
deliver c m (suc n) r = deliver c m n (decrypt c m r).1

module _ (c : Crypto) where
  deliver-EndsIn :
      (m : Message) (e : Error) (n k : ℕ) (r : DhRatchet)
      → k + n ≤ prev_ratchet_limit
      → IsBurying c m e r
      → EndsIn k r.current_mratchet r.previous_mratchets
      → EndsIn (k + n) r.current_mratchet (deliver c m n r).previous_mratchets
  deliver-EndsIn m e zero k r room h ends = let same : k + 0 ≡ k = omega arith in rw same ends
  deliver-EndsIn m e (suc n) k r room h (old, at, short) =
      let x = r.current_mratchet in
      let row : r.previous_mratchets ++ (x ∷ []) ≡ old ++ replicate (suc k) x =
        ap (λ l. l ++ (x ∷ [])) at
        ∙ append_assoc old (replicate k x) (x ∷ [])
        ∙ ap (λ l. old ++ l) (replicate_end k x) in
      let ends : EndsIn (suc k) x (buried r).previous_mratchets =
        rw row (limit_previous-EndsIn k x old short (omega (arith, room))) in
      let more : k + suc n ≡ suc k + n = omega arith in
      let left : (decrypt c m r).1 ≡ buried r =
        ap (λ (o : Result). o.1) (decrypt_buries c m e r h) in
      let (kept, at', room') =
        deliver-EndsIn m e n (suc k) (buried r) (omega (arith, room)) (buried-IsBurying c m e r h)
          ends in
      rw more (kept, ap (λ (q : DhRatchet). (deliver c m n q).previous_mratchets) left ∙ at', room')

  -- Take a ratchet with ten previous chains at most and a current one with a public key. A message with
  -- a public key that none of its chains has and with which no secret can be computed, and with a
  -- negative index for which no key is stored, is refused; but delivered ten times it pushes every
  -- previous chain out of the ratchet, and what is left are copies of the current chain.
  pub deliver_buries :
      (m : Message) (e : Error) (r : DhRatchet)
      → IsBurying c m e r
      → length r.previous_mratchets ≤ prev_ratchet_limit
      → ((decrypt c m r).2 ≡ err invalid_message_key_index)
        × ((deliver c m prev_ratchet_limit r).previous_mratchets
            ≡ replicate prev_ratchet_limit r.current_mratchet)
  deliver_buries m e r h short =
      let (old, at, room) =
        deliver-EndsIn m e prev_ratchet_limit 0 r (omega arith) h
          (r.previous_mratchets, sym (append-nil r.previous_mratchets), omega (arith, short)) in
      (
        ap (λ (o : Result). o.2) (decrypt_buries c m e r h),
        at
            ∙ ap (λ l. l ++ replicate prev_ratchet_limit r.current_mratchet)
                (nothing old (omega (arith, room))),
      )
    where
      nothing : (l : List MessageRatchet) → length l ≤ 0 → l ≡ []
      nothing [] h = refl
      nothing (x ∷ l) h = absurd (omega (arith, h))
