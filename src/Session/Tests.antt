-- ===== src/Session/Tests.antt =====
-- Runs of a session's calls, and the theorems at them.
use dart_terminal.Base.{◌≡◌, refl, ◌↔◌, true, false, some, [], ◌∷◌, ◌++◌}
use dart_terminal.Event.{wakes}
use dart_terminal.Status.{backpressured}
use dart_terminal.Session.{new_session}
use dart_terminal.Session.Calls.{writes_bytes, closes_within, perform, enqueue_write, acknowledge}
use dart_terminal.Session.Invariant.{Inv}
use dart_terminal.Session.Preserve.{perform-Inv}
use dart_terminal.Session.Bytes.{unwritten, accepted_bytes, unwritten-perform}
use dart_terminal.Session.Answers.{IsAnswered, enqueue_write-IsAnswered}
use dart_terminal.Session.Samples.{busy, busy-Inv}
use dart_terminal.Session.Acknowledge.{
  Acknowledged, acknowledge_cases, StaysClosed, perform-closing,
}

full_queue : (enqueue_write (some (1 ∷ 1 ∷ 1 ∷ 1 ∷ [])) false busy).error.status ≡ backpressured
unfolding enqueue_write busy
full_queue = refl

acknowledged_wakes : (acknowledge 0 3 busy).effects ≡ wakes 5 ∷ []
unfolding acknowledge busy
acknowledged_wakes = refl

perform-Inv_example : Inv (perform (writes_bytes (some (4 ∷ 5 ∷ [])) true) busy).session
perform-Inv_example = perform-Inv (writes_bytes (some (4 ∷ 5 ∷ [])) true) busy busy-Inv

unwritten-perform_example :
    unwritten (perform (writes_bytes (some (4 ∷ 5 ∷ [])) true) busy).session
    ≡ unwritten busy
      ++ accepted_bytes
          (writes_bytes (some (4 ∷ 5 ∷ [])) true)
          (perform (writes_bytes (some (4 ∷ 5 ∷ [])) true) busy)
unwritten-perform_example = unwritten-perform (writes_bytes (some (4 ∷ 5 ∷ [])) true) busy busy-Inv

enqueue_write-IsAnswered_example :
    ((enqueue_write (some (1 ∷ 1 ∷ 1 ∷ 1 ∷ [])) true busy).error.status ≡ backpressured)
    ↔ IsAnswered (some (1 ∷ 1 ∷ 1 ∷ 1 ∷ [])) busy backpressured
enqueue_write-IsAnswered_example =
    enqueue_write-IsAnswered (some (1 ∷ 1 ∷ 1 ∷ 1 ∷ [])) true busy busy-Inv backpressured

acknowledge_cases_example : Acknowledged 0 3 busy.outstanding busy (acknowledge 0 3 busy)
acknowledge_cases_example = acknowledge_cases 0 3 busy busy-Inv

perform-closing_example :
    StaysClosed
      (record busy { closing = true })
      (perform (closes_within 9) (record busy { closing = true })).session
unfolding new_session
perform-closing_example = perform-closing (closes_within 9) (record busy { closing = true }) refl
