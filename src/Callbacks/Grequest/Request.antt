-- ===== src/Callbacks/Grequest/Request.antt =====
-- A generalized request as a whole: the box that is made for it, a sequence of events, and then
-- each of the three callbacks.
use mpif.Prelude.{
  ℕ, ◌≡◌, refl, sym, ap, ◌∙◌, Bool, none, some, List, [], ◌∷◌, ◌++◌, arith, length, set, All, inl,
  inr, Bool-cases, ◌==◌,
}
use mpif.Machine.{ok}
use mpif.Abi.{mpi_success}
use mpif.Logical.{mpif_bool2logical}
use mpif.Heap.{Heap, object_at, allocate}
use mpif.Heap.Laws.{object_at-append_self}
use mpif.Callbacks.Predefined.{Procedure}
use mpif.Callbacks.Grequest.{
  Box, Fortran, mpif_grequest_reserve, mpif_grequest_query_trampoline,
  mpif_grequest_free_trampoline, mpif_grequest_cancel_trampoline,
}
use mpif.Callbacks.Grequest.Boxes.{
  query_trampoline-live, cancel_trampoline-live, free_trampoline-live,
}
use mpif.Callbacks.Grequest.History.{
  Event, reserve, query, cancel, free_box, Steps, Spares, apply_event, apply_events,
}
use mpif.Callbacks.Grequest.Lifetime.{Steps-keep}

module _ {Status : Type 0} (room : Heap Box → Bool) (f : Fortran Status) where
  reserve-box :
      (h : Heap Box) (q r c : Procedure) (x a : ℕ)
      → (mpif_grequest_reserve room h q r c x).0 ≡ some a
      → object_at (mpif_grequest_reserve room h q r c x).1 a
        ≡ some (record { query_fn = q; free_fn = r; cancel_fn = c; extra_state = x })
  unfolding mpif_grequest_reserve allocate
  reserve-box h q r c x a at = elim (Bool-cases (room h)) [
    | inl has ↦
        let same : length h ≡ a = ground arith in
        rw (has, mpif_grequest_reserve, allocate)
          (ap (object_at (h ++ (some _ ∷ []))) (sym same) ∙ object_at-append_self h (some _))
    | inr full ↦ absurd (ground arith)
  ]

  -- Only extra_state ever changes.
  SameCallbacks : Box → Box → Type 0
  SameCallbacks b c =
      (b.query_fn ≡ c.query_fn) × (b.free_fn ≡ c.free_fn) × (b.cancel_fn ≡ c.cancel_fn)

  apply_event-SameCallbacks :
      (a : ℕ) (e : Event Status) (b : Box) → SameCallbacks (apply_event room f a e b) b
  unfolding SameCallbacks
  apply_event-SameCallbacks a (reserve _) b = (refl, refl, refl)
  apply_event-SameCallbacks a (free_box _) b = (refl, refl, refl)
  apply_event-SameCallbacks a (query p status) b = elim (Bool-cases (p == a)) [
    | inl eq ↦ rw eq (refl, refl, refl)
    | inr ne ↦ rw ne (refl, refl, refl)
  ]
  apply_event-SameCallbacks a (cancel p complete) b = elim (Bool-cases (p == a)) [
    | inl eq ↦ rw eq (refl, refl, refl)
    | inr ne ↦ rw ne (refl, refl, refl)
  ]

  apply_events-SameCallbacks :
      (a : ℕ) (es : List (Event Status)) (b : Box) → SameCallbacks (apply_events room f a es b) b
  unfolding SameCallbacks
  apply_events-SameCallbacks a [] b = (refl, refl, refl)
  apply_events-SameCallbacks a (e ∷ es) b =
      let (q, r, c) = apply_events-SameCallbacks a es (apply_event room f a e b) in
      let (q', r', c') = apply_event-SameCallbacks a e b in (q ∙ q', r ∙ r', c ∙ c')

  SameCallbacks-eq : (b c : Box) → SameCallbacks b c → b ≡ record c { extra_state = b.extra_state }
  unfolding SameCallbacks
  SameCallbacks-eq b c (q, r, k) i = record {
    query_fn = q i;
    free_fn = r i;
    cancel_fn = k i;
    extra_state = b.extra_state;
  }

  module _ (h : Heap Box) (q r c : Procedure) (x a : ℕ) where
    abbrev pub box_of : ℕ → Box
    box_of y = record { query_fn = q; free_fn = r; cancel_fn = c; extra_state = y }

    -- The registered value, as the request's own callbacks have changed it.
    abbrev pub state_after : List (Event Status) → ℕ
    state_after es = (apply_events room f a es (box_of x)).extra_state

    -- A request calls the three procedures that it was started with, after any events in which its
    -- box is not freed, and always with its own extra_state: the registered value, as its own
    -- callbacks have changed it. Only the free callback frees the box.
    pub request_calls_its_callbacks :
        (es : List (Event Status)) (after : Heap Box) (status : Status) (complete : ℕ)
        → (mpif_grequest_reserve room h q r c x).0 ≡ some a
        → Steps room f (mpif_grequest_reserve room h q r c x).1 es after
        → All (Spares room f a) es
        → (mpif_grequest_query_trampoline f after a status ≡ (
            let left = f.query q (state_after es) status mpi_success in
            ok (set after a (some (box_of left.0.extra_state)), left.1, left.0.ierror)))
          × (mpif_grequest_cancel_trampoline f after a complete ≡ (
              let left =
                f.cancel c
                  (state_after es)
                  (mpif_bool2logical f.logical_true f.logical_false complete)
                  mpi_success in
              ok (set after a (some (box_of left.extra_state)), left.ierror)))
          × (mpif_grequest_free_trampoline f after a
              ≡ ok (set after a none, (f.free_request r (state_after es) mpi_success).ierror))
    request_calls_its_callbacks es after status complete at steps spares = (
      query_trampoline-live f after a (box_of (state_after es)) live status,
      cancel_trampoline-live f after a (box_of (state_after es)) live complete,
      free_trampoline-live f after a (box_of (state_after es)) live,
    )
      where
        live : object_at after a ≡ some (box_of (state_after es))
        live =
            Steps-keep room f a _ steps spares (reserve-box h q r c x a at)
            ∙ ap some (
                SameCallbacks-eq (apply_events room f a es (box_of x)) (box_of x)
                  (apply_events-SameCallbacks a es (box_of x)))
