-- ===== src/Callbacks/Grequest/History.antt =====
-- A sequence of starts and callbacks: which box is changed, by which callbacks, until it is freed.
use mpif.Prelude.{
  ℕ, ◌≡◌, ◌≢◌, refl, sym, ap, ◌∙◌, subst, Bool, none, some, List, [], ◌∷◌, ◌++◌, arith, set, inl,
  inr, Bool-cases, Option-cases, if◌then◌else◌, ◌==◌,
}
use mpif.Machine.{Run, ok, ◌>>=◌, >>=-eq-ok}
use mpif.Abi.{mpi_success}
use mpif.Logical.{mpif_bool2logical}
use mpif.Heap.{Heap, object_at, allocate, read}
use mpif.Callbacks.Grequest.{
  Box, Fortran, mpif_grequest_reserve, mpif_grequest_query_trampoline,
  mpif_grequest_free_trampoline, mpif_grequest_cancel_trampoline,
}
use mpif.Callbacks.Grequest.Boxes.{
  updated, query_trampoline-live, cancel_trampoline-live, free_trampoline-live,
}

-- A box is made, or MPI calls a trampoline with an address.
pub data Event (Status : Type 0) : Type 0 where
  reserve : Box → Event Status
  query : ℕ → Status → Event Status
  cancel : ℕ → ℕ → Event Status
  free_box : ℕ → Event Status

module _ {Status : Type 0} (room : Heap Box → Bool) (f : Fortran Status) where
  unfoldable pub step : Heap Box → Event Status → Run (Heap Box)
  step h (reserve b) =
      ok (mpif_grequest_reserve room h b.query_fn b.free_fn b.cancel_fn b.extra_state).1
  step h (query a status) = mpif_grequest_query_trampoline f h a status >>= λ r. ok r.0
  step h (cancel a complete) = mpif_grequest_cancel_trampoline f h a complete >>= λ r. ok r.0
  step h (free_box a) = mpif_grequest_free_trampoline f h a >>= λ r. ok r.0

  -- A run of events, none of which faults.
  pub data Steps : Heap Box → List (Event Status) → Heap Box → Type 0 where
    done : {h : Heap Box} → Steps h [] h
    next :
        {h mid after : Heap Box} {e : Event Status} {es : List (Event Status)}
        → step h e ≡ ok mid
        → Steps mid es after
        → Steps h (e ∷ es) after

  -- How an event changes the box `b` at address `a`, and whether it frees it.
  abbrev pub apply_event : ℕ → Event Status → Box → Box
  apply_event a (reserve _) b = b
  apply_event a (query p status) b =
      if p == a then updated b (f.query b.query_fn b.extra_state status mpi_success).0 else b
  apply_event a (cancel p complete) b =
      if p == a
      then updated b (
          f.cancel b.cancel_fn b.extra_state
            (mpif_bool2logical f.logical_true f.logical_false complete) mpi_success)
      else b
  apply_event a (free_box _) b = b

  abbrev pub apply_events : ℕ → List (Event Status) → Box → Box
  apply_events a [] b = b
  apply_events a (e ∷ es) b = apply_events a es (apply_event a e b)

  abbrev pub Spares : ℕ → Event Status → Type 0
  Spares a (free_box p) = p ≢ a
  Spares a _ = Unit

  -- What a step says of the heap.
  pub data Effect (h : Heap Box) : Event Status → Heap Box → Type 0 where
    no_memory : {b : Box} → Effect h (reserve b) h
    appended : {b : Box} → Effect h (reserve b) (h ++ (some b ∷ []))
    queried :
        {a : ℕ} {status : Status} (b : Box)
        → object_at h a ≡ some b
        → Effect h
            (query a status)
            (set h a (some (updated b (f.query b.query_fn b.extra_state status mpi_success).0)))
    cancelled :
        {a complete : ℕ} (b : Box)
        → object_at h a ≡ some b
        → Effect h (cancel a complete) (
            set h a (
              some (
                updated b (
                  f.cancel b.cancel_fn b.extra_state
                    (mpif_bool2logical f.logical_true f.logical_false complete)
                    mpi_success))))
    freed : {a : ℕ} (b : Box) → object_at h a ≡ some b → Effect h (free_box a) (set h a none)

  read-live : (h : Heap Box) (a : ℕ) {b : Box} → read h a ≡ ok b → object_at h a ≡ some b
  unfolding read
  read-live h a is = elim (Option-cases (object_at h a)) [
    | inl gone ↦ absurd (ground arith)
    | inr (x, at) ↦ rw at ground arith
  ]

  ok-injective : {x y : Heap Box} → ok x ≡ ok y → x ≡ y
  ok-injective e = cc

  pub step-Effect :
      (h : Heap Box) (e : Event Status) (mid : Heap Box) → step h e ≡ ok mid → Effect h e mid
  unfolding step mpif_grequest_reserve allocate mpif_grequest_query_trampoline
      mpif_grequest_cancel_trampoline mpif_grequest_free_trampoline
  step-Effect h (reserve b) mid is = elim (Bool-cases (room h)) [
    | inl has ↦ subst (Effect h (reserve b)) (rw (← ok-injective is, has) refl) appended
    | inr full ↦ subst (Effect h (reserve b)) (rw (← ok-injective is, full) refl) no_memory
  ]
  step-Effect h (query a status) mid is =
      let (r, ran, _) = >>=-eq-ok (mpif_grequest_query_trampoline f h a status) (λ r. ok r.0) is in
      let (b, found, _) = >>=-eq-ok (read h a) _ ran in
      let at = read-live h a found in
      subst (Effect h (query a status))
        (ok-injective
          (ap (λ m. m >>= λ r. ok r.0) (sym (query_trampoline-live f h a b at status)) ∙ is))
        (queried b at)
  step-Effect h (cancel a complete) mid is =
      let (r, ran, _) =
        >>=-eq-ok (mpif_grequest_cancel_trampoline f h a complete) (λ r. ok r.0) is in
      let (b, found, _) = >>=-eq-ok (read h a) _ ran in
      let at = read-live h a found in
      subst (Effect h (cancel a complete))
        (ok-injective
          (ap (λ m. m >>= λ r. ok r.0) (sym (cancel_trampoline-live f h a b at complete)) ∙ is))
        (cancelled b at)
  step-Effect h (free_box a) mid is =
      let (r, ran, _) = >>=-eq-ok (mpif_grequest_free_trampoline f h a) (λ r. ok r.0) is in
      let (b, found, _) = >>=-eq-ok (read h a) _ ran in
      let at = read-live h a found in
      subst (Effect h (free_box a))
        (ok-injective (ap (λ m. m >>= λ r. ok r.0) (sym (free_trampoline-live f h a b at)) ∙ is))
        (freed b at)
