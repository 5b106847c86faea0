-- ===== src/Reactor/Sections.antt =====
-- The reactor's changes of the session that leave the byte streams alone.
use dart_terminal.Base.{ℕ, Bool, Option, arith}
use dart_terminal.Reactor.Filters.{switch_read, switch_write}
use dart_terminal.Reactor.Reading.{claim, clear_retry, request_retry, reach_end}
use dart_terminal.Reactor.Reaping.{
  note_status, note_ready, take_pending, set_finished, set_failed, end_reaping, drop_kqueue,
  drop_exec_error, drop_master,
}
use dart_terminal.Reactor.Control.{take_requests, expect_wait, set_deadline}
use dart_terminal.Reactor.Running.{install_child, install_exec_error, install_kqueue, output_state}
use dart_terminal.Reactor.Sound.{IsMinor}

pub switch_read-IsMinor : (b : Bool) → IsMinor (λ s. (switch_read b s).1)
unfolding switch_read
switch_read-IsMinor b = record {
  inv = λ s v. ground arith;
  queue = λ s. ground arith;
  completed = λ s. ground arith;
}

pub switch_write-IsMinor : (b : Bool) → IsMinor (switch_write b)
unfolding switch_write
switch_write-IsMinor b = record {
  inv = λ s v. ground arith;
  queue = λ s. ground arith;
  completed = λ s. ground arith;
}

pub claim-IsMinor : IsMinor (λ s. (claim s).1)
unfolding claim
claim-IsMinor = record {
  inv = λ s v. ground arith;
  queue = λ s. ground arith;
  completed = λ s. ground arith;
}

pub clear_retry-IsMinor : IsMinor clear_retry
unfolding clear_retry
clear_retry-IsMinor = record {
  inv = λ s v. ground arith;
  queue = λ s. ground arith;
  completed = λ s. ground arith;
}

pub request_retry-IsMinor : IsMinor request_retry
unfolding request_retry
request_retry-IsMinor = record {
  inv = λ s v. ground arith;
  queue = λ s. ground arith;
  completed = λ s. ground arith;
}

pub reach_end-IsMinor : IsMinor reach_end
unfolding reach_end
reach_end-IsMinor = record {
  inv = λ s v. ground arith;
  queue = λ s. ground arith;
  completed = λ s. ground arith;
}

pub note_status-IsMinor : (n : ℕ) → IsMinor (note_status n)
unfolding note_status
note_status-IsMinor n = record {
  inv = λ s v. ground arith;
  queue = λ s. ground arith;
  completed = λ s. ground arith;
}

pub note_ready-IsMinor : IsMinor note_ready
unfolding note_ready
note_ready-IsMinor = record {
  inv = λ s v. ground arith;
  queue = λ s. ground arith;
  completed = λ s. ground arith;
}

pub take_pending-IsMinor : IsMinor (λ s. (take_pending s).1)
unfolding take_pending
take_pending-IsMinor = record {
  inv = λ s v. ground arith;
  queue = λ s. ground arith;
  completed = λ s. ground arith;
}

pub set_finished-IsMinor : IsMinor (λ s. (set_finished s).1)
unfolding set_finished
set_finished-IsMinor = record {
  inv = λ s v. ground arith;
  queue = λ s. ground arith;
  completed = λ s. ground arith;
}

pub set_failed-IsMinor : IsMinor (λ s. (set_failed s).1)
unfolding set_failed
set_failed-IsMinor = record {
  inv = λ s v. ground arith;
  queue = λ s. ground arith;
  completed = λ s. ground arith;
}

pub end_reaping-IsMinor : IsMinor end_reaping
unfolding end_reaping
end_reaping-IsMinor = record {
  inv = λ s v. ground arith;
  queue = λ s. ground arith;
  completed = λ s. ground arith;
}

pub drop_kqueue-IsMinor : IsMinor drop_kqueue
unfolding drop_kqueue
drop_kqueue-IsMinor = record {
  inv = λ s v. ground arith;
  queue = λ s. ground arith;
  completed = λ s. ground arith;
}

pub drop_exec_error-IsMinor : IsMinor drop_exec_error
unfolding drop_exec_error
drop_exec_error-IsMinor = record {
  inv = λ s v. ground arith;
  queue = λ s. ground arith;
  completed = λ s. ground arith;
}

pub drop_master-IsMinor : IsMinor (λ s. (drop_master s).1)
unfolding drop_master
drop_master-IsMinor = record {
  inv = λ s v. ground arith;
  queue = λ s. ground arith;
  completed = λ s. ground arith;
}

pub take_requests-IsMinor : IsMinor (λ s. (take_requests s).1)
unfolding take_requests
take_requests-IsMinor = record {
  inv = λ s v. ground arith;
  queue = λ s. ground arith;
  completed = λ s. ground arith;
}

pub expect_wait-IsMinor : IsMinor (λ s. (expect_wait s).1)
unfolding expect_wait
expect_wait-IsMinor = record {
  inv = λ s v. ground arith;
  queue = λ s. ground arith;
  completed = λ s. ground arith;
}

pub set_deadline-IsMinor : (d : Option ℕ) → IsMinor (set_deadline d)
unfolding set_deadline
set_deadline-IsMinor d = record {
  inv = λ s v. ground arith;
  queue = λ s. ground arith;
  completed = λ s. ground arith;
}

pub install_child-IsMinor : (a b : ℕ) → IsMinor (λ s. (install_child a b s).1)
unfolding install_child
install_child-IsMinor a b = record {
  inv = λ s v. ground arith;
  queue = λ s. ground arith;
  completed = λ s. ground arith;
}

pub install_exec_error-IsMinor : (n : ℕ) → IsMinor (install_exec_error n)
unfolding install_exec_error
install_exec_error-IsMinor n = record {
  inv = λ s v. ground arith;
  queue = λ s. ground arith;
  completed = λ s. ground arith;
}

pub install_kqueue-IsMinor : (n : ℕ) → IsMinor (install_kqueue n)
unfolding install_kqueue
install_kqueue-IsMinor n = record {
  inv = λ s v. ground arith;
  queue = λ s. ground arith;
  completed = λ s. ground arith;
}

pub output_state-IsMinor : IsMinor (λ s. (output_state s).1)
unfolding output_state
output_state-IsMinor = record {
  inv = λ s v. ground arith;
  queue = λ s. ground arith;
  completed = λ s. ground arith;
}

pub ruleset minor_rules = (
  switch_read-IsMinor, switch_write-IsMinor, claim-IsMinor, clear_retry-IsMinor,
  request_retry-IsMinor, reach_end-IsMinor, note_status-IsMinor, note_ready-IsMinor,
  take_pending-IsMinor, set_finished-IsMinor, set_failed-IsMinor, end_reaping-IsMinor,
  drop_kqueue-IsMinor, drop_exec_error-IsMinor, drop_master-IsMinor, take_requests-IsMinor,
  expect_wait-IsMinor, set_deadline-IsMinor, install_child-IsMinor, install_exec_error-IsMinor,
  install_kqueue-IsMinor, output_state-IsMinor,
)
