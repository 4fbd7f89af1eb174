-- ===== src/Examples/Burials.antt =====
-- A message that no secret can be computed for, at concrete inputs.
use secure_messager_erlang.Prelude.{
  ◌≡◌, refl, [], ◌∷◌, replicate, arith, negsuc, pos, length, ◌==◌, if◌then◌else◌, bytes_equal,
  lookup, ℤ_eq,
}
use secure_messager_erlang.Outcome.{err, library, invalid_message_key_index}
use secure_messager_erlang.Crypt.Library.{Crypto}
use secure_messager_erlang.Crypt.{generate_shared_secret}
use secure_messager_erlang.Message.{Message}
use secure_messager_erlang.Message.Cipher.{decrypt}
use secure_messager_erlang.Message.Cipher.Buried.{IsBurying, deliver, deliver_buries}
use secure_messager_erlang.Ratchet.DhRatchet.{DhRatchet}
use secure_messager_erlang.Examples.Toy.{toy}
use secure_messager_erlang.Examples.Ratchets.{chain}
use secure_messager_erlang.Examples.Sessions.{of_bob, hello, fresh}

-- Points of a wrong length are refused.
abbrev strict : Crypto
strict = record toy {
  x25519 = λ scalar point. if length point == 32 then toy.x25519 scalar point else err (library 9);
}

abbrev pointless : Message
pointless = record hello {
  header = record { public_key = 1 ∷ []; index = negsuc 0; prev_count = pos 0 };
}

-- Bob still has a chain that he could read late messages with.
abbrev with_previous : DhRatchet
with_previous = record of_bob {
  previous_mratchets = record chain { foreign_public_key = fresh.public_key } ∷ [];
}

pointless-IsBurying : IsBurying strict pointless (library 9) with_previous
unfolding generate_shared_secret bytes_equal lookup
pointless-IsBurying = record {
  begun = refl;
  other = refl;
  unknown = (refl, tt);
  no_secret = refl;
  negative = refl;
  unstored = refl;
}

deliver_buries_example :
    ((decrypt strict pointless with_previous).2 ≡ err invalid_message_key_index)
    × ((deliver strict pointless 10 with_previous).previous_mratchets
        ≡ replicate 10 with_previous.current_mratchet)
deliver_buries_example =
    deliver_buries strict pointless (library 9) with_previous pointless-IsBurying (omega arith)
