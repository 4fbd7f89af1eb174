-- ===== src/Tcp/Server/Traffic.antt =====
-- client/internal/tcpclient/tcpclient.go: any number of requests and the listener, interleaved. The
-- requests are numbered; each has a message id of its own, and so a channel of its own. A section
-- under the mutex that only touches the map or writes to the socket is one step; the listener keeps
-- the mutex while it sends on a channel, and runs a handler without it.
pub mod Entries
pub mod Handlers
pub mod Stuck
use secure_messager_erlang.Prelude.{
  ℕ, ◌≡◌, ◌≢◌, refl, ◌∙◌, arith, Bool, true, false, ◌⊎◌, inl, inr, ◌==◌, ==_iff, if◌then◌else◌,
  Bool-cases,
}

-- Where a call of `SendReceive` stands: not made; behind the first section, which enters the channel;
-- behind a write that failed, before the section that deletes the entry; at the select; behind the end
-- of its time, before the section that deletes the entry; returned with the answer, with the error of
-- the time, with that of the write, or with that of `payload`.
pub data Phase : Type 0 where
  fresh entered unwritten waiting expired answered timed_out failed refused : Phase

-- The listener reads; it has found the channel of a request, holds the mutex and is at
-- `respChan <- packet`; it has sent the packet, still holds the mutex and is at `delete`; or it runs a
-- handler, which makes a request.
pub data Listener : Type 0 where
  reading : Listener
  handing deleting handling : ℕ → Listener

-- `by_handler` marks the requests that a handler made.
pub record Traffic : Type 0 where
  pub listener : Listener
  pub phase : ℕ → Phase
  pub pending : ℕ → Bool
  pub by_handler : ℕ → Bool

abbrev pub put {ℓ} : {A : Type ℓ} → (ℕ → A) → ℕ → A → ℕ → A
put f i a j = if i == j then a else f j

-- The mutex can be locked.
abbrev pub is_free : Listener → Bool
is_free reading = true
is_free (handing k) = false
is_free (deleting k) = false
is_free (handling j) = true

abbrev pub has_returned : Phase → Bool
has_returned answered = true
has_returned timed_out = true
has_returned failed = true
has_returned refused = true
has_returned _ = false

-- Returned by way of a section under the mutex.
abbrev pub has_locked : Phase → Bool
has_locked answered = true
has_locked timed_out = true
has_locked failed = true
has_locked _ = false

-- The listener has sent the answer of this request and not yet deleted its entry.
abbrev pub is_deleting : Listener → ℕ → Bool
is_deleting (deleting k) i = k == i
is_deleting _ i = false

-- In which phases a request has its entry in `pendingResponses`.
abbrev pub has_entry : Phase → Bool
has_entry refused = true
has_entry entered = true
has_entry unwritten = true
has_entry waiting = true
has_entry expired = true
has_entry _ = false

pub data Step (s : Traffic) : Traffic → Type 0 where
  enters :
      (i : ℕ)
      → is_free s.listener ≡ true
      → s.phase i ≡ fresh
      → Step s (record s { phase = put s.phase i entered; pending = put s.pending i true })
  writes :
      (i : ℕ)
      → is_free s.listener ≡ true
      → s.phase i ≡ entered
      → Step s (record s { phase = put s.phase i waiting })
  -- The section of the write ends with an error; that of the deletion comes later.
  fails :
      (i : ℕ)
      → is_free s.listener ≡ true
      → s.phase i ≡ entered
      → Step s (record s { phase = put s.phase i unwritten })
  drops :
      (i : ℕ)
      → is_free s.listener ≡ true
      → s.phase i ≡ unwritten
      → Step s (record s { phase = put s.phase i failed; pending = put s.pending i false })
  -- The error of `payload` leaves the entry.
  refuses : (i : ℕ) → s.phase i ≡ entered → Step s (record s { phase = put s.phase i refused })
  -- time.After
  expires : (i : ℕ) → s.phase i ≡ waiting → Step s (record s { phase = put s.phase i expired })
  gives_up :
      (i : ℕ)
      → is_free s.listener ≡ true
      → s.phase i ≡ expired
      → Step s (record s { phase = put s.phase i timed_out; pending = put s.pending i false })
  -- A packet with the id of `k` is read, and the entry found.
  finds :
      (k : ℕ)
      → s.listener ≡ reading
      → s.pending k ≡ true
      → Step s (record s { listener = handing k })
  -- Both sides of the channel at once: the request has its answer, and the listener goes on.
  hands_over :
      (k : ℕ)
      → s.listener ≡ handing k
      → s.phase k ≡ waiting
      → Step s (record s { listener = deleting k; phase = put s.phase k answered })
  -- The listener deletes the entry and unlocks.
  deletes :
      (k : ℕ)
      → s.listener ≡ deleting k
      → Step s (record s { listener = reading; pending = put s.pending k false })
  -- A packet without an entry starts a handler, whose first request will be `j`.
  handles :
      (j : ℕ)
      → s.listener ≡ reading
      → s.phase j ≡ fresh
      → Step s (record s { listener = handling j; by_handler = put s.by_handler j true })
  -- The handler makes another request.
  asks_again :
      (i j : ℕ)
      → s.listener ≡ handling i
      → has_returned (s.phase i) ≡ true
      → s.phase j ≡ fresh
      → Step s (record s { listener = handling j; by_handler = put s.by_handler j true })
  handled :
      (j : ℕ)
      → s.listener ≡ handling j
      → has_returned (s.phase j) ≡ true
      → Step s (record s { listener = reading })

abbrev pub new_traffic : Traffic
new_traffic = record {
  listener = reading;
  phase = λ i. fresh;
  pending = λ i. false;
  by_handler = λ i. false;
}

-- Any number of steps.
pub data Steps (s : Traffic) : Traffic → Type 0 where
  none_yet : Steps s s
  then_step : {t u : Traffic} → Steps s t → Step t u → Steps s u
