-- ===== src/Examples/Sessions.antt =====
-- The theorems on the turns of the root key and on whole messages, at concrete inputs.
use secure_messager_erlang.Prelude.{
  ◌≡◌, refl, inl, false, [], ◌∷◌, arith, none, some, Bytes, replicate, bytes_equal, ℤ_eq, ℕ_eq,
  Bytes_eq, pos,
}
use secure_messager_erlang.Outcome.{ok}
use secure_messager_erlang.Crypt.{KeyPair, generate_key_pair, generate_shared_secret, or_fatal}
use secure_messager_erlang.Examples.Toy.{toy, toy_laws}
use secure_messager_erlang.Ratchet.DhRatchet.{
  DhRatchet, current_keys, is_current_ratchet, get_prev_ratchet, rk_cycle, RatchetState, sending,
  receiving,
}
use secure_messager_erlang.Message.{Message}
use secure_messager_erlang.Message.Cipher.{Draws, encrypt, decrypt}
use secure_messager_erlang.Examples.Ratchets.{chain, chain-InSync, root, nonce, text}
use secure_messager_erlang.Ratchet.MessageRatchet.Receiving.{InSync}
use secure_messager_erlang.Ratchet.MessageRatchet.Delivery.{encrypt_lem}
use secure_messager_erlang.Ratchet.MessageRatchet.KeySchedule.{Follows}
use secure_messager_erlang.Ratchet.DhRatchet.{find_ratchet}
use secure_messager_erlang.Ratchet.DhRatchet.Cycle.{next_root, rk_cycle_agree}
use secure_messager_erlang.Message.Wire.Format.{delivered}
use secure_messager_erlang.Message.Cipher.Delivery.{
  IsSealed, decrypt-encrypt_same_chain, decrypt-encrypt_turn,
}
use secure_messager_erlang.Message.Cipher.Previous.{decrypt_previous_replay, decrypt_unchecked_turn}

abbrev pub alice : KeyPair
alice = record { public_key = replicate 32 10; private_key = replicate 32 1 }

abbrev pub bob : KeyPair
bob = record { public_key = replicate 32 11; private_key = replicate 32 2 }

-- The key pair that Alice draws when she answers.
abbrev pub fresh : KeyPair
fresh = record { public_key = replicate 32 14; private_key = replicate 32 5 }

abbrev ratchet_of : KeyPair → Bytes → RatchetState → DhRatchet
ratchet_of keypair foreign state = record {
  keypair = keypair;
  root_key = root;
  child_key = [];
  current_mratchet = record chain { foreign_public_key = foreign };
  previous_mratchets = [];
  ratchet_index = 0;
  state = state;
  maps = record { next = 1; cell = λ _. [] };
}

abbrev pub of_alice : DhRatchet
of_alice = ratchet_of alice bob.public_key sending

abbrev pub of_bob : DhRatchet
of_bob = ratchet_of bob alice.public_key receiving

-- Alice has read something and is about to answer.
abbrev pub answering : DhRatchet
answering = ratchet_of alice bob.public_key receiving

abbrev pub draws : Draws
draws = record { private_key = ok fresh.private_key; nonce = ok nonce }

abbrev pub alice_id : Bytes
alice_id = replicate 16 4

abbrev pub bob_id : Bytes
bob_id = replicate 16 6

abbrev pub hello : Message
hello = record {
  header = record { public_key = []; index = pos 0; prev_count = pos 0 };
  encrypted_message = [];
  plain_message = text;
  hash = replicate 32 0;
  sender_id_hash = alice_id;
  receiver_id_hash = bob_id;
}

pub of_bob-InSync : InSync toy root 0 (current_keys of_bob) of_bob.current_mratchet
of_bob-InSync = record {
  follows = record {
    input = chain-InSync.follows.input;
    index = chain-InSync.follows.index;
    bound = chain-InSync.follows.bound;
  };
  held = record { old = chain-InSync.held.old };
}

pub of_alice-Follows : Follows toy root 0 of_alice.current_mratchet
of_alice-Follows = record {
  input = chain-InSync.follows.input;
  index = chain-InSync.follows.index;
  bound = chain-InSync.follows.bound;
}

pub alice_shares : generate_shared_secret toy alice bob.public_key ≡ ok (replicate 32 12)
unfolding generate_shared_secret
alice_shares = refl

pub bob_shares : generate_shared_secret toy bob alice.public_key ≡ ok (replicate 32 12)
unfolding generate_shared_secret
bob_shares = refl

pub fresh_shares : generate_shared_secret toy fresh bob.public_key ≡ ok (replicate 32 16)
unfolding generate_shared_secret
fresh_shares = refl

pub bob_shares_fresh : generate_shared_secret toy bob fresh.public_key ≡ ok (replicate 32 16)
unfolding generate_shared_secret
bob_shares_fresh = refl

pub draws_fresh : generate_key_pair toy (ok fresh.private_key) ≡ ok fresh
unfolding generate_key_pair or_fatal
draws_fresh = refl

pub not_current : is_current_ratchet of_bob fresh.public_key ≡ false
unfolding is_current_ratchet bytes_equal
not_current = refl

pub not_previous : get_prev_ratchet of_bob fresh.public_key ≡ none
unfolding get_prev_ratchet find_ratchet bytes_equal
not_previous = refl

rk_cycle_agree_example :
    (a' : DhRatchet) × (b' : DhRatchet) × (rk_cycle toy of_alice (some bob.public_key) ≡ ok a')
    × (rk_cycle toy of_bob (some alice.public_key) ≡ ok b')
    × (a'.root_key ≡ b'.root_key)
    × InSync toy a'.root_key 0 (current_keys a') a'.current_mratchet
    × InSync toy a'.root_key 0 (current_keys b') b'.current_mratchet
rk_cycle_agree_example = rk_cycle_agree toy toy_laws of_alice of_bob refl refl refl alice_shares

decrypt-encrypt_same_chain_example :
    ((encrypt toy hello of_alice draws).2 ≡ ok tt)
    × ((decrypt toy (delivered bob_id alice_id (encrypt toy hello of_alice draws).0) of_bob).2
        ≡ ok tt)
    × ((decrypt toy
          (delivered bob_id alice_id (encrypt toy hello of_alice draws).0)
          of_bob).0.plain_message
        ≡ text)
decrypt-encrypt_same_chain_example =
    decrypt-encrypt_same_chain toy toy_laws root 0 0 hello of_alice of_bob draws bob_id alice_id
      nonce refl of_alice-Follows of_bob-InSync refl (inl (omega arith)) refl refl

decrypt-encrypt_turn_example :
    ((encrypt toy hello answering draws).2 ≡ ok tt)
    × ((decrypt toy (delivered bob_id alice_id (encrypt toy hello answering draws).0) of_bob).2
        ≡ ok tt)
    × ((decrypt toy
          (delivered bob_id alice_id (encrypt toy hello answering draws).0)
          of_bob).0.plain_message
        ≡ text)
decrypt-encrypt_turn_example =
    decrypt-encrypt_turn toy toy_laws hello answering of_bob draws bob_id alice_id nonce refl refl
      draws_fresh refl refl fresh_shares not_current not_previous refl refl

-- Bob's ratchet after a turn of Alice's: the chain that he reads with is a previous one.
abbrev turned : DhRatchet
turned = record of_bob {
  current_mratchet = record chain {
    foreign_public_key = fresh.public_key;
    skipped_message_keys = 1;
  };
  previous_mratchets = record chain { foreign_public_key = alice.public_key } ∷ [];
}

-- What `Encrypt` makes of the text at the start of the chain.
sealed : (m : Message) × IsSealed toy root 0 text m × (m.header.public_key ≡ alice.public_key)
sealed =
    let (ct, mac, _, opened, _, _, _) =
      encrypt_lem toy toy_laws root 0 chain text nonce chain-InSync.follows refl in
    (
      record hello {
        header = record { public_key = alice.public_key; index = pos 0; prev_count = pos 0 };
        encrypted_message = ct;
        hash = mac;
      },
      record { opens = opened; index = refl },
      refl,
    )

not_turned : is_current_ratchet turned sealed.0.header.public_key ≡ false
unfolding is_current_ratchet bytes_equal
not_turned = rw sealed.2 refl

in_turned :
    get_prev_ratchet turned sealed.0.header.public_key
    ≡ some (record chain { foreign_public_key = alice.public_key })
unfolding get_prev_ratchet find_ratchet bytes_equal
in_turned = rw sealed.2 refl

decrypt_previous_replay_example :
    ((decrypt toy sealed.0 turned).2 ≡ ok tt)
    × ((decrypt toy sealed.0 turned).0.plain_message ≡ text)
    × ((decrypt toy sealed.0 (decrypt toy sealed.0 turned).1).2 ≡ ok tt)
    × ((decrypt toy sealed.0 (decrypt toy sealed.0 turned).1).0.plain_message ≡ text)
decrypt_previous_replay_example =
    decrypt_previous_replay toy toy_laws root 0 0 sealed.0 turned not_turned in_turned of_bob-InSync
      (omega arith) (omega arith) sealed.1

-- A message that nobody sealed.
abbrev forged : Message
forged = record hello {
  header = record { public_key = fresh.public_key; index = pos 0; prev_count = pos 0 };
}

decrypt_unchecked_turn_example :
    (decrypt toy forged of_bob).1.root_key ≡ next_root toy root (replicate 32 16)
decrypt_unchecked_turn_example =
    decrypt_unchecked_turn toy toy_laws forged of_bob not_current not_previous bob_shares_fresh
