-- ===== src/Tcp/Server/Requests.antt =====
-- client/internal/tcpclient/tcpclient.go: the entries of `pendingResponses` over a request, and to
-- whom a packet goes.
use secure_messager_erlang.Prelude.{
  ◌≡◌, ◌≢◌, arith, none, some, Bytes, bytes_equal, bytes_equal_refl, if◌then◌else◌, lookup, insert,
  lookup-insert, lookup-delete, ℕ_eq, Bytes_eq,
}
use secure_messager_erlang.Outcome.{Error, ok, err, crash}
use secure_messager_erlang.Tcp.Packet.{
  MessageType, Packet, payload, create_packet, parse_packet, message_id_str,
}
use secure_messager_erlang.Tcp.Server.{
  Network, TcpServer, to_waiter, to_handler, dropped, add_pending, remove_pending, dispatch,
  receive, send_receive,
}

module _ {W : Type 0} (net : Network W) where
  -- The packet that a request builds first.
  abbrev pub request_packet : W → MessageType → Bytes → Packet
  request_packet w t bytes = record {
    version = 1;
    message_type = t;
    message_id = (net.random_id w).1;
    bytes = bytes;
  }

module _ {H W : Type 0} (net : Network W) where
  receive_done :
      (s : TcpServer H) (w : W) (id : Bytes) → (receive net s w id).0 ≡ remove_pending s id
  unfolding receive
  receive_done s w id = ground arith

  -- Once the frame is built, a request leaves no entry of its own, however it ends: by an answer, an
  -- error of the server, a failed write or the end of the time.
  pub send_receive_done :
      (s : TcpServer H) (w : W) (t : MessageType) (bytes : Bytes) {frame : Bytes}
      → payload (request_packet net w t bytes) s.auth_id s.auth_token ≡ ok frame
      → (net.write (net.random_id w).0 frame).1 ≢ crash
      → (k : Bytes)
      → lookup (send_receive net s w t bytes).0.pending_responses k
        ≡ (if bytes_equal (net.random_id w).1 k then none else lookup s.pending_responses k)
  unfolding send_receive create_packet message_id_str
  send_receive_done s w t bytes {frame} h no_crash k =
      let id = (net.random_id w).1 in
      ground (
        arith,
        h,
        lookup-delete (insert s.pending_responses id tt) id k,
        lookup-insert s.pending_responses id k tt,
        receive_done (add_pending s id) (net.write (net.random_id w).0 frame).0 id,
      )

  -- A frame that is refused (too long, or without credentials) is not written, but the entry of the
  -- request stays for good.
  pub send_receive_refused :
      (s : TcpServer H) (w : W) (t : MessageType) (bytes : Bytes) {e : Error}
      → payload (request_packet net w t bytes) s.auth_id s.auth_token ≡ err e
      → ((send_receive net s w t bytes).2 ≡ err e)
        × ((send_receive net s w t bytes).1 ≡ (net.random_id w).0)
        × (lookup (send_receive net s w t bytes).0.pending_responses (net.random_id w).1 ≡ some tt)
  unfolding send_receive create_packet message_id_str
  send_receive_refused s w t bytes {e} h = ground (
    arith,
    h,
    lookup-insert s.pending_responses (net.random_id w).1 (net.random_id w).1 tt,
    bytes_equal_refl (net.random_id w).1,
  )

module _ {H : Type 0} where
  -- A packet whose id is waited for goes to the waiting request and takes its entry away, so that
  -- the same bytes, read again, go to the handler of their type or nowhere.
  pub dispatch_twice :
      (s : TcpServer H) (bytes : Bytes) {p : Packet}
      → parse_packet bytes ≡ ok p
      → lookup s.pending_responses p.message_id ≡ some tt
      → ((dispatch s bytes).1 ≡ to_waiter p)
        × ((dispatch (dispatch s bytes).0 bytes).0 ≡ (dispatch s bytes).0)
        × ((dispatch (dispatch s bytes).0 bytes).1
            ≡ (elim (lookup s.message_handlers p.message_type) [
              | some handler ↦ to_handler handler p
              | none ↦ dropped p
            ]))
  unfolding dispatch message_id_str
  dispatch_twice s bytes {p} h e = ground (
    arith,
    h,
    e,
    lookup-delete s.pending_responses p.message_id p.message_id,
    bytes_equal_refl p.message_id,
  )
