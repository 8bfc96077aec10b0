-- ===== src/Callbacks/Grequest/Tests.antt =====
-- A generalized request at small inputs: it is started, queried and cancelled, beside another.
use mpif.Prelude.{ℕ, ◌+◌, ◌≡◌, refl, Bool, true, none, some, List, [], ◌∷◌, All}
use mpif.Machine.{ok}
use mpif.Logical
use mpif.Heap
use mpif.Heap.{Heap}
use mpif.Heap.Laws.{live}
use mpif.Callbacks.Predefined.{user}
use mpif.Callbacks.Grequest.{
  Box, Fortran, mpif_grequest_reserve, mpif_grequest_query_trampoline,
  mpif_grequest_cancel_trampoline, mpif_grequest_free_trampoline,
}
use mpif.Callbacks.Grequest.Start.{StartOutcome, mpi_grequest_start, grequest_start-StartOutcome}
use mpif.Callbacks.Grequest.History
use mpif.Callbacks.Grequest.History.{Event, Steps, done, next}
use mpif.Callbacks.Grequest.Lifetime.{Steps-live}
use mpif.Callbacks.Grequest.Request.{request_calls_its_callbacks}

-- Each call of a callback adds one to extra_state; a query answers the code 9.
abbrev counting : Fortran ℕ
counting = record {
  query = λ fn x status e. (record { extra_state = x + 1; ierror = 9 }, status + 1);
  free_request = λ fn x e. record { extra_state = x; ierror = x };
  cancel = λ fn x complete e. record { extra_state = x + 1; ierror = e };
  logical_true = 1;
  logical_false = 0;
}

abbrev always : Heap Box → Bool
always h = true

abbrev box : Box
box = record { query_fn = user 1; free_fn = user 2; cancel_fn = user 3; extra_state = 40 }

abbrev other : Box
other = record { query_fn = user 4; free_fn = user 5; cancel_fn = user 6; extra_state = 50 }

abbrev events : List (Event ℕ)
events =
    Event.query 0 100
    ∷ Event.reserve other
    ∷ Event.query 1 100
    ∷ Event.cancel 0 1
    ∷ Event.free_box 1
    ∷ []

abbrev at_start : Heap Box
at_start = some box ∷ []

abbrev at_end : Heap Box
at_end = some (record box { extra_state = 42 }) ∷ none ∷ []

reserved : mpif_grequest_reserve always [] (user 1) (user 2) (user 3) 40 ≡ (some 0, at_start)
unfolding mpif_grequest_reserve Heap.allocate
reserved = refl

steps : Steps always counting at_start events at_end
unfolding History.step mpif_grequest_reserve Heap.allocate Heap.read Heap.write Heap.free
    mpif_grequest_query_trampoline mpif_grequest_cancel_trampoline mpif_grequest_free_trampoline
    Logical.mpif_bool2logical
steps = next refl (next refl (next refl (next refl (next refl done))))

spares : All (History.Spares always counting 0) events
spares = (tt, (tt, (tt, (tt, ((λ e. cc), tt)))))

after_reserve :
    Steps always counting
      (mpif_grequest_reserve always [] (user 1) (user 2) (user 3) 40).1
      events
      at_end
unfolding mpif_grequest_reserve Heap.allocate
after_reserve = steps

at_zero : (mpif_grequest_reserve always [] (user 1) (user 2) (user 3) 40).0 ≡ some 0
unfolding mpif_grequest_reserve Heap.allocate
at_zero = refl

request_calls_its_callbacks_example :
    (mpif_grequest_query_trampoline counting at_end 0 7
      ≡ ok (some (record box { extra_state = 43 }) ∷ none ∷ [], 8, 9))
    × (mpif_grequest_cancel_trampoline counting at_end 0 1
        ≡ ok (some (record box { extra_state = 43 }) ∷ none ∷ [], 0))
    × (mpif_grequest_free_trampoline counting at_end 0 ≡ ok (none ∷ none ∷ [], 42))
request_calls_its_callbacks_example =
    request_calls_its_callbacks always counting [] (user 1) (user 2) (user 3) 40 0 events at_end 7 1
      at_zero after_reserve spares

Steps-live_example : live at_end + 1 + 1 ≡ live at_start + 2
Steps-live_example = Steps-live always counting steps

grequest_start-StartOutcome_example :
    StartOutcome always
      (λ r. r)
      0
      (λ b. (0, some 77))
      []
      box
      5
      (mpi_grequest_start always (λ r. r) 0 (λ b. (0, some 77)) [] (user 1) (user 2) (user 3) 40 5)
grequest_start-StartOutcome_example =
    grequest_start-StartOutcome always (λ r. r) 0 (λ b. (0, some 77)) [] (user 1) (user 2) (user 3)
      40 5
