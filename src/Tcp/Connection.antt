-- ===== src/Tcp/Connection.antt =====
-- client/internal/tcpclient/tcpclient.go: `Connect`, which dials until the server answers. The calls
-- of the packages net and time on the state of the world are the parameter `Dialer`.
use secure_messager_erlang.Prelude.{ℕ, zero, suc, ◌+◌, ◌*◌, ◌≤◌, ◌≡◌, ◌≢◌, inl, inr, arith, Bytes}
use secure_messager_erlang.Outcome.{Error, Outcome, Outcome-cases, ok, err, crash}

-- net.Dial, time.Sleep (in seconds) and the first read from the connection.
pub record Dialer (W : Type 0) : Type 0 where
  pub dial : W → W × Outcome (Unit {0})
  pub sleep : W → ℕ → W
  pub read_handshake : W → W × Outcome Bytes

abbrev pub max_retries : ℕ
max_retries = 10

module _ {W : Type 0} (net : Dialer W) where
  -- The loop, with the tries that are left, the interval and the last error. It ends with the first
  -- connection, or after the last try with its error.
  unfoldable pub dial_loop : ℕ → ℕ → Outcome (Unit {0}) → W → W × Outcome (Unit {0})
  dial_loop zero retry_interval last w = (w, last)
  dial_loop (suc tries) retry_interval last w =
      let (w1, dialed) = net.dial w in
      elim dialed [
        | ok _ ↦ (w1, ok tt)
        | crash ↦ (w1, crash)
        | err e ↦ dial_loop tries (retry_interval * 2) (err e) (net.sleep w1 retry_interval)
      ]

  -- `log.Fatalf` ends the program. The listener's goroutine is started at the end.
  unfoldable pub connect : W → W × Outcome (Unit {0})
  connect w =
      let (w1, dialed) = dial_loop max_retries 1 (ok tt) w in
      elim dialed [
        | crash ↦ (w1, crash)
        | err _ ↦ (w1, crash)
        | ok _ ↦
            let (w2, handshake) = net.read_handshake w1 in
            elim handshake [ crash ↦ (w2, crash) | err _ ↦ (w2, crash) | ok _ ↦ (w2, ok tt) ]
      ]

-- The seconds of so many intervals, each twice the one before.
abbrev pub doubling : ℕ → ℕ → ℕ
doubling zero interval = 0
doubling (suc n) interval = interval + doubling n (interval * 2)

module _ {W : Type 0} (net : Dialer W) (seconds : W → ℕ)
    (sleeps : (w : W) (n : ℕ) → seconds (net.sleep w n) ≡ seconds w + n) (one_dial one_read : ℕ)
    (dials : (w : W) → seconds (net.dial w).0 ≤ seconds w + one_dial)
    (reads : (w : W) → seconds (net.read_handshake w).0 ≤ seconds w + one_read) where
  dial_loop-seconds :
      (tries interval : ℕ) (last : Outcome (Unit {0})) (w : W)
      → seconds (dial_loop net tries interval last w).0
        ≤ seconds w + (tries * one_dial + doubling tries interval)
  unfolding dial_loop
  dial_loop-seconds zero interval last w = omega arith
  dial_loop-seconds (suc tries) interval last w = elim (Outcome-cases (net.dial w).1) [
    | inl (u, e) ↦ ground (arith, e, dials w)
    | inr (inr e) ↦ ground (arith, e, dials w)
    | inr (inl (x, e)) ↦
        let woken = net.sleep (net.dial w).0 interval in
        ground (
          arith,
          e,
          dials w,
          sleeps (net.dial w).0 interval,
          dial_loop-seconds tries (interval * 2) (err x) woken,
        )
  ]

  connect_waits :
      (w : W)
      → seconds (connect net w).0 ≤ seconds (dial_loop net max_retries 1 (ok tt) w).0 + one_read
  unfolding connect
  connect_waits w = elim (Outcome-cases (dial_loop net max_retries 1 (ok tt) w).1) [
    | inl (u, e) ↦
        let w1 = (dial_loop net max_retries 1 (ok tt) w).0 in
        elim (Outcome-cases (net.read_handshake w1).1) [
          | inl (b, e') ↦ ground (arith, e, e', reads w1)
          | inr (inl (x, e')) ↦ ground (arith, e, e', reads w1)
          | inr (inr e') ↦ ground (arith, e, e', reads w1)
        ]
    | inr (inl (x, e)) ↦ ground (arith, e)
    | inr (inr e) ↦ ground (arith, e)
  ]

  connect_no_error : (w : W) (x : Error) → (connect net w).1 ≢ err x
  unfolding connect
  connect_no_error w x h = elim (Outcome-cases (dial_loop net max_retries 1 (ok tt) w).1) [
    | inl (u, e) ↦
        let w1 = (dial_loop net max_retries 1 (ok tt) w).0 in
        elim (Outcome-cases (net.read_handshake w1).1) [
          | inl (b, e') ↦ ground (arith, e, e', h)
          | inr (inl (y, e')) ↦ ground (arith, e, e', h)
          | inr (inr e') ↦ ground (arith, e, e', h)
        ]
    | inr (inl (y, e)) ↦ ground (arith, e, h)
    | inr (inr e) ↦ ground (arith, e, h)
  ]

  -- If sleeping takes the seconds that it is given, each call of net.Dial is over in `one_dial`
  -- seconds, and the read of the handshake in `one_read`, then `Connect` is over after 1023 seconds, ten
  -- times `one_dial` and `one_read` at most; and it never gives its caller an error: it returns with a
  -- connection, or it ends the program.
  pub connect-seconds :
      (w : W)
      → (seconds (connect net w).0 ≤ seconds w + (1023 + 10 * one_dial + one_read))
        × ((x : Error) → (connect net w).1 ≢ err x)
  connect-seconds w = (
    omega (arith, connect_waits w, dial_loop-seconds max_retries 1 (ok tt) w),
    connect_no_error w,
  )
