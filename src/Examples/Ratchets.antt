-- ===== src/Examples/Ratchets.antt =====
-- The theorems on key derivation and on one chain of message keys, at concrete inputs.
use secure_messager_erlang.Prelude.{
  List, false, ℕ, ◌≤◌, ◌≡◌, refl, inl, [], ◌∷◌, arith, none, Bytes, length, take, replicate, ℤ_eq,
  ℕ_eq, Bytes_eq, pos, negsuc, lookup,
}
use secure_messager_erlang.Outcome.{ok, err, invalid_message_key_index, already_processed}
use secure_messager_erlang.Ratchet.MessageRatchet.{MessageRatchet, chain_info, decrypt, encrypt}
use secure_messager_erlang.Ratchet.MessageRatchet.KeySchedule.{chain_key_at}
use secure_messager_erlang.Ratchet.MessageRatchet.Receiving.{InSync, decrypt_negative}
use secure_messager_erlang.Examples.Toy.{toy, toy_laws}
use secure_messager_erlang.Ratchet.Hkdf.{derive}
use secure_messager_erlang.Ratchet.Hkdf.Rfc5869.{blocks, derive-rfc5869, pseudorandom_key}
use secure_messager_erlang.Ratchet.MessageRatchet.Delivery.{decrypt-encrypt, decrypt_out_of_order}
use secure_messager_erlang.Ratchet.MessageRatchet.Window.{
  Window, Arrival, Refines, window_run, ratchet_run, ratchet_run-Refines,
}
use secure_messager_erlang.Ratchet.MessageRatchet.Window.AtMostOnce.{opened, opened-ratchet_run}
use secure_messager_erlang.Ratchet.MessageRatchet.Safety.{
  decrypt-InSync, decrypt_no_replay, length-decrypt,
}

abbrev pub root : Bytes
root = replicate 32 3

-- A chain that has just been started.
abbrev pub chain : MessageRatchet
chain = record {
  foreign_public_key = replicate 32 8;
  root_key = root;
  chain_key = none;
  skipped_message_keys = 0;
  max_skip = pos 100;
  previous_index = negsuc 0;
}

abbrev pub nonce : Bytes
nonce = replicate 12 1

abbrev pub text : Bytes
text = b'h' ∷ b'i' ∷ []

pub chain-InSync : InSync toy root 0 [] chain
unfolding chain_key_at lookup
chain-InSync = record {
  follows = record { input = refl; index = refl; bound = refl };
  held = record { old = λ i k e. absurd (ground (arith, e)) };
}

derive-rfc5869_example :
    (okm : Bytes) × (derive toy root none chain_info 80 ≡ ok okm)
    × (length okm ≡ 80)
    × (okm ≡ take 80 (blocks toy (pseudorandom_key toy none root) chain_info 0 2))
derive-rfc5869_example = derive-rfc5869 toy toy_laws root none chain_info 80 (omega arith)

decrypt-encrypt_example :
    (ct : Bytes) × (mac : Bytes) × ((encrypt toy chain text (ok nonce)).1 ≡ ok (ct, mac, pos 0))
    × ((decrypt toy [] chain ct mac (pos 0)).2 ≡ ok text)
decrypt-encrypt_example =
    decrypt-encrypt toy toy_laws root 0 0 chain chain [] text nonce chain-InSync.follows
      chain-InSync refl (inl (omega arith))

decrypt_out_of_order_example :
    (ct : Bytes) × (mac : Bytes) × ((encrypt toy chain text (ok nonce)).1 ≡ ok (ct, mac, pos 0))
    × ((decrypt toy
          (decrypt toy [] chain text text (pos 2)).0
          (decrypt toy [] chain text text (pos 2)).1
          ct
          mac
          (pos 0)).2
        ≡ ok text)
decrypt_out_of_order_example =
    decrypt_out_of_order toy toy_laws root 0 0 2 chain chain [] text nonce text text
      chain-InSync.follows chain-InSync refl (omega arith) (omega arith) (omega arith)

decrypt-InSync_example :
    (n' : ℕ) × (0 ≤ n')
    × InSync toy root n'
        (decrypt toy [] chain text text (pos 7)).0
        (decrypt toy [] chain text text (pos 7)).1
decrypt-InSync_example = decrypt-InSync toy toy_laws root text text (pos 7) chain-InSync

decrypt_no_replay_example :
    decrypt toy
      (decrypt toy [] chain text text (pos 7)).0
      (decrypt toy [] chain text text (pos 7)).1
      nonce
      nonce
      (pos 7)
    ≡ (
      (decrypt toy [] chain text text (pos 7)).0,
      (decrypt toy [] chain text text (pos 7)).1,
      err already_processed,
    )
decrypt_no_replay_example =
    decrypt_no_replay toy toy_laws root 7 text text nonce nonce chain-InSync (omega arith)

length-decrypt_example : length (decrypt toy [] chain text text (pos 7)).0 ≤ 100
length-decrypt_example = length-decrypt toy [] chain text text (pos 7)

decrypt_negative_example :
    decrypt toy [] chain text text (negsuc 4) ≡ ([], chain, err invalid_message_key_index)
decrypt_negative_example = decrypt_negative toy toy_laws root chain-InSync text text 4

-- Nothing was received.
abbrev nothing_yet : Window
nothing_yet = record { next = 0; missing = λ a. false }

chain-Refines : Refines toy root nothing_yet [] chain
unfolding lookup
chain-Refines = record { in_sync = chain-InSync; stored = λ a. refl }

-- The third message first, then the first one, twice.
abbrev three_arrivals : List Arrival
three_arrivals =
    record { cipher_text = text; mac_hash = text; index = pos 2 }
    ∷ record { cipher_text = text; mac_hash = nonce; index = pos 0 }
    ∷ record { cipher_text = nonce; mac_hash = text; index = pos 0 }
    ∷ []

ratchet_run-Refines_example :
    ratchet_run toy [] chain three_arrivals ≡ window_run toy root nothing_yet three_arrivals
ratchet_run-Refines_example =
    ratchet_run-Refines toy toy_laws root nothing_yet [] chain three_arrivals chain-Refines

opened-ratchet_run_example : opened 0 three_arrivals (ratchet_run toy [] chain three_arrivals) ≤ 1
opened-ratchet_run_example =
    opened-ratchet_run toy toy_laws root nothing_yet [] chain 0 three_arrivals chain-Refines
