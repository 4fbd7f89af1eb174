-- ===== src/Tcp/Server.antt =====
-- client/internal/tcpclient/tcpclient.go: the state of the connection, requests, and what the
-- listener does with a packet. The socket and the clock are the parameter `Network`. Each function
-- is one run of its code without another goroutine in between; what the listener does while a
-- request waits is `reply`.
pub mod Requests
pub mod Shutdown
pub mod Traffic
use secure_messager_erlang.Prelude.{
  ℕ, Bool, true, false, List, [], ◌∷◌, Option, none, some, Bytes, ◌==◌, if◌then◌else◌, Assoc,
  lookup, insert, delete, ℕ_eq, Bytes_eq, ℤ,
}
use secure_messager_erlang.Outcome.{Error, Outcome, ok, err, crash, ◌>>=◌, timeout, server_error}
use secure_messager_erlang.Tcp.Packet.{
  MessageType, Packet, error, payload, create_packet, parse_packet, message_id_str, zero_auth_id,
  zero_auth_token,
}

-- The socket's and the system's calls on the state `W` of the world: the bytes of a message id, a
-- write, what comes on the channel of a request within five seconds (none: the time is over), the
-- bytes that `rand.Read` fills in, the clock.
pub record Network (W : Type 0) : Type 0 where
  pub random_id : W → W × Bytes
  pub write : W → Bytes → W × Outcome (Unit {0})
  pub reply : W → Bytes → W × Option Packet
  pub random : W → ℕ → W × Outcome Bytes
  pub now : W → W × ℤ

-- `H` are the handlers. A channel has no state of its own.
pub record TcpServer (H : Type 0) : Type 0 where
  pub auth_id : Bytes
  pub auth_token : Bytes
  pub pending_responses : Assoc Bytes (Unit {0})
  pub message_handlers : Assoc MessageType H

-- What the listener does with the bytes of a read.
pub data Dispatched (H : Type 0) : Type 0 where
  to_waiter : Packet → Dispatched H
  to_handler : H → Packet → Dispatched H
  dropped : Packet → Dispatched H
  unreadable : Error → Dispatched H
  panic : Dispatched H

module _ {H : Type 0} where
  unfoldable pub new_tcp_server : TcpServer H
  new_tcp_server = record {
    auth_id = zero_auth_id;
    auth_token = zero_auth_token;
    pending_responses = [];
    message_handlers = [];
  }

  unfoldable pub register_handler : TcpServer H → MessageType → H → TcpServer H
  register_handler s message_type handler = record s {
    message_handlers = insert s.message_handlers message_type handler;
  }

  unfoldable pub set_auth_token : TcpServer H → Bytes → TcpServer H
  set_auth_token s token = record s { auth_token = token }

  unfoldable pub set_auth_id : TcpServer H → Bytes → TcpServer H
  set_auth_id s auth_id = record s { auth_id = auth_id }

  -- s.pendingResponses[id] = responseChan, and delete(s.pendingResponses, id)
  abbrev pub add_pending : TcpServer H → Bytes → TcpServer H
  add_pending s id = record s { pending_responses = insert s.pending_responses id tt }

  abbrev pub remove_pending : TcpServer H → Bytes → TcpServer H
  remove_pending s id = record s { pending_responses = delete s.pending_responses id }

  -- One round of the loop in `startListener`, with what was read.
  unfoldable pub dispatch : TcpServer H → Bytes → TcpServer H × Dispatched H
  dispatch s bytes = elim (parse_packet bytes) [
    | crash ↦ (s, panic)
    | err e ↦ (s, unreadable e)
    | ok packet ↦ elim (lookup s.pending_responses (message_id_str packet)) [
      | some channel ↦ (remove_pending s (message_id_str packet), to_waiter packet)
      | none ↦ elim (lookup s.message_handlers packet.message_type) [
        | some handler ↦ (s, to_handler handler packet)
        | none ↦ (s, dropped packet)
      ]
    ]
  ]

  module _ {W : Type 0} (net : Network W) where
    -- The select: an answer, whose entry the listener has deleted, or the end of the time.
    unfoldable pub receive : TcpServer H → W → Bytes → TcpServer H × W × Outcome Packet
    receive s w id =
        let (w1, response) = net.reply w id in
        elim response [
          | none ↦ (remove_pending s id, w1, err timeout)
          | some p ↦ (
            remove_pending s id,
            w1,
            if p.message_type == error then err (server_error p.bytes) else ok p,
          )
        ]

    unfoldable pub send_receive :
        TcpServer H → W → MessageType → Bytes → TcpServer H × W × Outcome Packet
    unfolding receive
    send_receive s w message_type bytes =
        let (w1, id) = net.random_id w in
        let packet = create_packet message_type bytes id in
        let s1 = add_pending s (message_id_str packet) in
        elim (payload packet s.auth_id s.auth_token) [
          | crash ↦ (s1, w1, crash)
          | err e ↦ (s1, w1, err e)
          | ok frame ↦
              let (w2, written) = net.write w1 frame in
              elim written [
                | crash ↦ (s1, w2, crash)
                | err e ↦ (remove_pending s1 (message_id_str packet), w2, err e)
                | ok _ ↦ receive s1 w2 (message_id_str packet)
              ]
        ]

    unfoldable pub send : TcpServer H → W → MessageType → Bytes → W × Outcome (Unit {0})
    send s w message_type bytes =
        let (w1, id) = net.random_id w in
        elim (payload (create_packet message_type bytes id) s.auth_id s.auth_token) [
          | crash ↦ (w1, crash)
          | err e ↦ (w1, err e)
          | ok frame ↦ net.write w1 frame
        ]
