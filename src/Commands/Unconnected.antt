-- ===== src/Commands/Unconnected.antt =====
-- client/cmd/sending, client/cmd/receiving: neither calls `Connect`, so `conn` is nil all the time.
use secure_messager_erlang.Prelude.{[], refl, ◌≡◌, ◌≢◌, inl, inr, Bytes, arith, ℕ}
use secure_messager_erlang.Outcome.{Outcome, Outcome-cases, ok, err, crash}
use secure_messager_erlang.Crypt.{or_fatal}
use secure_messager_erlang.Sqlite
use secure_messager_erlang.Tcp.Packet.{
  MessageType, Packet, payload, create_packet, req_key, req_login, req_signup,
}
use secure_messager_erlang.Tcp.Server.{send_receive, new_tcp_server}
use secure_messager_erlang.Client.{Client, Environment, request}
use secure_messager_erlang.Client.Account.{
  new_client, load_client_data, authenticate, login, signup,
}
use secure_messager_erlang.Commands.{
  enter, begin_trial, receiving_main, sending_main, test7, test8, trial_password,
}

module _ {D W : Type 0} (env : Environment D W)
    (unconnected : (w : W) (frame : Bytes) → (env.network.write w frame).1 ≡ crash) where
  request-unconnected :
      (t : MessageType) (b : Bytes) (c : Client D W) (p : Packet) → (request env t b c).1 ≢ ok p
  unfolding request send_receive
  request-unconnected t b c p done =
      let (w, id) = env.network.random_id c.world in
      elim (Outcome-cases
        (payload (create_packet t b id) c.tcp_server.auth_id c.tcp_server.auth_token)) [
          | inl (frame, e) ↦ ground (arith, e, done, unconnected w frame)
          | inr (inl (x, e)) ↦ ground (arith, e, done)
          | inr (inr e) ↦ ground (arith, e, done)
        ]

  authenticate-unconnected :
      (t : MessageType) (user_id password : Bytes) (public_part : Client D W → Bytes)
      (c : Client D W)
      → (authenticate env t user_id password public_part c).1 ≢ ok tt
  unfolding authenticate
  authenticate-unconnected t user_id password public_part c done =
      let h = env.crypto.md5 user_id in
      let c1 = record c { id_hash = h } in
      elim (Outcome-cases (request env req_key h c1).1) [
        | inl (p, e) ↦ absurd (request-unconnected req_key h c1 p e)
        | inr (inl (x, e)) ↦ ground (arith, e, done)
        | inr (inr e) ↦ ground (arith, e, done)
      ]

  login-unconnected :
      (user_id password : Bytes) (c : Client D W) → (login env user_id password c).1 ≢ ok tt
  unfolding login
  login-unconnected user_id password c done =
      elim (Outcome-cases (authenticate env req_login user_id password (λ _. []) c).1) [
        | inl (u, e) ↦ absurd (authenticate-unconnected req_login user_id password (λ _. []) c e)
        | inr (inl (x, e)) ↦ ground (arith, e, done)
        | inr (inr e) ↦ ground (arith, e, done)
      ]

  signup-unconnected :
      (user_id password : Bytes) (c : Client D W) → (signup env user_id password c).1 ≢ ok tt
  unfolding signup
  signup-unconnected user_id password c done = ground (
    arith,
    done,
    authenticate-unconnected req_signup user_id password (λ (x : Client D W). x.keypair.public_key)
        c,
  )

  enter-unconnected : (new_user_id : Bytes) (c : Client D W) → (enter env new_user_id c).1 ≡ crash
  unfolding enter or_fatal
  enter-unconnected new_user_id c = elim (Outcome-cases (Sqlite.get_login_data env.storage c.db)) [
    | inl ((user_id, password), e) ↦ elim (Outcome-cases (login env user_id password c).1) [
      | inl (u, e1) ↦ absurd (login-unconnected user_id password c e1)
      | inr (inl (x, e1)) ↦ ground (arith, e, e1)
      | inr (inr e1) ↦ ground (arith, e, e1)
    ]
    | inr (inl (x, e)) ↦ elim (Outcome-cases (signup env new_user_id trial_password c).1) [
      | inl (u, e1) ↦ absurd (signup-unconnected new_user_id trial_password c e1)
      | inr (inl (y, e1)) ↦ ground (arith, e, e1)
      | inr (inr e1) ↦ ground (arith, e, e1)
    ]
    | inr (inr e) ↦ ground (arith, e)
  ]

  begin_trial-unconnected :
      (new_user_id : Bytes) (c : Client D W) → (begin_trial env new_user_id c).1 ≡ crash
  unfolding begin_trial or_fatal
  begin_trial-unconnected new_user_id c = elim (Outcome-cases (load_client_data env c).1) [
    | inl (u, e) ↦ ground (arith, e, enter-unconnected new_user_id (load_client_data env c).0)
    | inr (inl (x, e)) ↦ ground (arith, e)
    | inr (inr e) ↦ ground (arith, e)
  ]

  -- When a write to the connection that was never made panics, both trials end the program, whatever
  -- the database holds and whether or not it could be opened.
  pub trials-unconnected :
      (sleep : W → ℕ → W) (opened : Outcome D) (w : W)
      → (sending_main env sleep opened w ≡ crash) × (receiving_main env opened w ≡ crash)
  unfolding sending_main receiving_main
  trials-unconnected sleep crash w = (refl, refl)
  trials-unconnected sleep (err x) w = (refl, refl)
  trials-unconnected sleep (ok db) w =
      let c = new_client new_tcp_server db w in
      (
        ground (arith, begin_trial-unconnected test8 c),
        ground (arith, begin_trial-unconnected test7 c),
      )
