-- ===== src/Tcp/Server/Shutdown.antt =====
-- client/internal/tcpclient/tcpclient.go: `Close` and the loop of the listener as two goroutines, over
-- the unbuffered channel `stopListener`.
use secure_messager_erlang.Prelude.{◌≡◌, ◌≢◌, refl, Bool, true, false}

-- The listener is at its select, or in `conn.Read` and what it does with the bytes, or has returned.
pub data Loop : Type 0 where
  selecting reading stopped : Loop

-- `Close` has not been called, is at the channel, is behind it, or has set the connection to nil.
pub data Closer : Type 0 where
  idle stopping locking closed : Closer

-- The last index of each side: whether the connection is there.
pub data Step : Loop → Closer → Bool → Loop → Closer → Bool → Type 0 where
  calls : {l : Loop} {o : Bool} → Step l idle o l stopping o
  -- Both sides of the channel at once.
  stops : {o : Bool} → Step selecting stopping o stopped locking o
  -- The default of the select, when nobody is at the channel.
  reads : {c : Closer} {o : Bool} → c ≢ stopping → Step selecting c o reading c o
  -- The read gives bytes, or an error after which the loop goes on.
  returns : {c : Closer} {o : Bool} → Step reading c o selecting c o
  closes : {l : Loop} {o : Bool} → Step l locking o l closed false

pub data Reachable : Loop → Closer → Bool → Type 0 where
  start : Reachable selecting idle true
  next :
      {l l' : Loop} {c c' : Closer} {o o' : Bool}
      → Reachable l c o
      → Step l c o l' c' o'
      → Reachable l' c' o'

-- The connection is there until the listener has returned.
abbrev pub Keeps : Loop → Closer → Bool → Type 0
Keeps l idle o = (o ≡ true) × (l ≢ stopped)
Keeps l stopping o = (o ≡ true) × (l ≢ stopped)
Keeps l locking o = (o ≡ true) × (l ≡ stopped)
Keeps l closed o = (o ≡ false) × (l ≡ stopped)

Step-Keeps :
    {l l' : Loop} {c c' : Closer} {o o' : Bool} → Step l c o l' c' o' → Keeps l c o → Keeps l' c' o'
Step-Keeps calls h = h
Step-Keeps stops (open_, _) = (open_, refl)
Step-Keeps (reads {c = idle} other) (open_, _) = (open_, λ e. cc)
Step-Keeps (reads {c = stopping} other) h = absurd (other refl)
Step-Keeps (reads {c = locking} other) (_, e) = cc
Step-Keeps (reads {c = closed} other) (_, e) = cc
Step-Keeps (returns {c = idle}) (open_, _) = (open_, λ e. cc)
Step-Keeps (returns {c = stopping}) (open_, _) = (open_, λ e. cc)
Step-Keeps (returns {c = locking}) (_, e) = cc
Step-Keeps (returns {c = closed}) (_, e) = cc
Step-Keeps closes (_, e) = (refl, e)

Reachable-Keeps : {l : Loop} {c : Closer} {o : Bool} → Reachable l c o → Keeps l c o
Reachable-Keeps start = (refl, λ e. cc)
Reachable-Keeps (next h s) = Step-Keeps s (Reachable-Keeps h)

waits :
    {l l' : Loop} {c c' : Closer} {o o' : Bool}
    → l ≡ reading
    → c ≡ stopping
    → Step l c o l' c' o'
    → (l' ≡ selecting) × (c' ≡ stopping)
waits hl hc calls = cc
waits hl hc stops = cc
waits hl hc (reads other) = cc
waits hl hc returns = (refl, hc)
waits hl hc closes = cc

open_while_reading : (c : Closer) {o : Bool} → Keeps reading c o → o ≡ true
open_while_reading idle (h, _) = h
open_while_reading stopping (h, _) = h
open_while_reading locking (_, e) = cc
open_while_reading closed (_, e) = cc

-- In every order of steps the listener reads only from a connection that `Close` has not taken away.
pub reading_open : (c : Closer) {o : Bool} → Reachable reading c o → o ≡ true
reading_open c h = open_while_reading c (Reachable-Keeps h)

-- While the listener reads, a call of `Close` waits: the only step is that the read returns.
pub close_waits :
    {l : Loop} {c : Closer} {o o' : Bool}
    → Step reading stopping o l c o'
    → (l ≡ selecting) × (c ≡ stopping)
close_waits s = waits refl refl s
