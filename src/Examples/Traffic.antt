-- ===== src/Examples/Traffic.antt =====
-- Requests and the listener in concrete orders of their steps.
use secure_messager_erlang.Prelude.{◌≡◌, ◌≢◌, refl, true, false, if◌then◌else◌}
use secure_messager_erlang.Tcp.Server.Traffic.{
  fresh, entered, waiting, expired, answered, refused, reading, handing, handling, Traffic, put,
  has_locked, has_entry, is_deleting, deleting, hands_over, enters, writes, refuses, expires, finds,
  handles, new_traffic, Steps, none_yet, then_step,
}
use secure_messager_erlang.Tcp.Server.Traffic.Entries.{Steps-has_entry}
use secure_messager_erlang.Tcp.Server.Traffic.Handlers.{by_handler_unanswered}
use secure_messager_erlang.Tcp.Server.Traffic.Stuck.{Steps-stuck}

-- Request 3 waits, and request 5 has entered.
abbrev two_requests : Traffic
two_requests = record {
  listener = reading;
  phase = put (put (put (λ i. fresh) 3 entered) 5 entered) 3 waiting;
  pending = put (put (λ i. false) 3 true) 5 true;
  by_handler = λ i. false;
}

to_two_requests : Steps new_traffic two_requests
to_two_requests =
    then_step (then_step (then_step none_yet (enters 3 refl refl)) (enters 5 refl refl))
      (writes 3 refl refl)

-- Request 3 has its answer, and the listener has not yet deleted its entry.
abbrev just_answered : Traffic
just_answered = record two_requests {
  listener = deleting 3;
  phase = put two_requests.phase 3 answered;
}

to_just_answered : Steps new_traffic just_answered
to_just_answered =
    then_step (then_step to_two_requests (finds 3 refl refl)) (hands_over 3 refl refl)

Steps-has_entry_example :
    just_answered.pending 3
    ≡ (if has_entry (just_answered.phase 3) then true else is_deleting just_answered.listener 3)
Steps-has_entry_example = Steps-has_entry 3 to_just_answered

-- A handler makes request 2, whose time is over.
abbrev own_request : Traffic
own_request = record {
  listener = handling 2;
  phase = put (put (put (λ i. fresh) 2 entered) 2 waiting) 2 expired;
  pending = put (λ i. false) 2 true;
  by_handler = put (λ i. false) 2 true;
}

to_own_request : Steps new_traffic own_request
to_own_request =
    then_step
      (then_step (then_step (then_step none_yet (handles 2 refl refl)) (enters 2 refl refl))
        (writes 2 refl refl))
      (expires 2 refl)

by_handler_unanswered_example : own_request.phase 2 ≢ answered
by_handler_unanswered_example = by_handler_unanswered 2 to_own_request refl

-- The answer of request 3 was found, and its time is over.
abbrev stopped : Traffic
stopped = record two_requests { listener = handing 3; phase = put two_requests.phase 3 expired }

to_stopped : Steps two_requests stopped
to_stopped = then_step (then_step none_yet (finds 3 refl refl)) (expires 3 refl)

-- Request 5 gets the error of its frame afterwards.
abbrev after_stop : Traffic
after_stop = record stopped { phase = put stopped.phase 5 refused }

Steps-stuck_example :
    (after_stop.listener ≡ handing 3)
    × (has_locked (after_stop.phase 5) ≡ has_locked (stopped.phase 5))
    × (after_stop.phase 8 ≡ fresh)
Steps-stuck_example =
    Steps-stuck {s = stopped} 3 5 8 (then_step none_yet (refuses 5 refl)) refl refl refl
