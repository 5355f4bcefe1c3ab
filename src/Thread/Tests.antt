-- ===== src/Thread/Tests.antt =====
-- Tests of DelegateMQ/port/os/stdlib/Thread.cpp, with numbers for invokers.
use async_duck_db.Common.{ℕ, ◌+◌, ◌≡◌, refl, true, false, [], ◌∷◌, ◌++◌, some, arith}
use async_duck_db.Thread.{
  Thread, DelegateMsg, normal, high, drop, new_thread, dispatch_message, dispatch_delegate,
  queue_size, take_next,
}
use async_duck_db.Thread.Process.{Invoked, succeeded, exits}
use async_duck_db.Thread.History.{History, produce, consume, events, event, InOrder}
use async_duck_db.Thread.Fifo.{events-InOrder}
use async_duck_db.Thread.Bounds.{IsBounded, dispatch_delegate-IsBounded}
use async_duck_db.Thread.Drain.{run_all, exit_thread, exit_thread-run_all}

abbrev message : ℕ → DelegateMsg ℕ
message i = record { invoker = some i; priority = normal }

abbrev urgent : ℕ → DelegateMsg ℕ
urgent i = record { invoker = some i; priority = high }

abbrev running : Thread ℕ
running = record (new_thread 2 drop) { created = true }

abbrev history : History ℕ
history = record { thread = running; accepted = []; taken = [] }

urgent_first :
    (events history
      (produce (message 1) ∷ produce (urgent 2) ∷ produce (message 3) ∷ consume ∷ [])).taken
    ≡ dispatch_message (urgent 2) ∷ []
unfolding events event dispatch_delegate take_next
urgent_first = refl

events-InOrder_example :
    InOrder (events history (produce (message 1) ∷ produce (urgent 2) ∷ consume ∷ []))
events-InOrder_example =
    events-InOrder history (produce (message 1) ∷ produce (urgent 2) ∷ consume ∷ [])
      ((tt, tt), refl, refl)

dispatch_delegate-IsBounded_example : IsBounded (dispatch_delegate (λ t. t) (message 1) running).1
dispatch_delegate-IsBounded_example =
    dispatch_delegate-IsBounded (λ t. t) (message 1) running (λ u b. b) (λ h. omega arith)

abbrev add_up : ℕ → ℕ → Invoked × ℕ
add_up i s = (succeeded, s + i)

abbrev waiting : Thread ℕ
waiting = record running {
  high_queue = dispatch_message (urgent 5) ∷ [];
  normal_queue = dispatch_message (message 2) ∷ [];
}

exit_thread-run_all_example :
    exit_thread add_up (λ n. n) (queue_size waiting + 0 + 1) waiting 10 ≡ (
      exits,
      record waiting {
        created = false;
        exiting = true;
        alive = 0;
        high_queue = [];
        normal_queue = [];
      },
      run_all add_up (waiting.high_queue ++ waiting.normal_queue) 10,
    )
exit_thread-run_all_example =
    exit_thread-run_all add_up (λ n. n) 0 waiting 10 refl ((λ s. refl), tt) ((λ s. refl), tt)

abbrev stalled : ℕ → Thread ℕ
stalled i = record running { alive = 10; watchdog_timeout = 2 }
