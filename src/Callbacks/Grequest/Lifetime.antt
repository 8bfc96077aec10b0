-- ===== src/Callbacks/Grequest/Lifetime.antt =====
-- The life of a generalized request's box: from its start to the one call of its free callback.
use mpif.Prelude.{
  ℕ, suc, ◌+◌, ◌≡◌, sym, ap, ◌∙◌, Bool, none, some, List, [], ◌∷◌, arith, length, set, length-set,
  length-append, All, inl, inr, Bool-cases, if◌then◌else◌, ◌==◌, ==_iff, true≢false,
}
use mathlib.Core.Option
use mpif.Abi.{mpi_success}
use mpif.Logical.{mpif_bool2logical}
use mpif.Heap.{Heap, object_at}
use mpif.Heap.Laws.{
  object_at-set_self, object_at-set_ne, object_at-append_ne, object_at_end, live, live-append,
  live-set, object_at-lt,
}
use mpif.Callbacks.Grequest.{Box, Fortran}
use mpif.Callbacks.Grequest.Boxes.{updated}
use mpif.Callbacks.Grequest.History.{
  Event, reserve, query, cancel, free_box, Steps, done, next, Effect, no_memory, appended, queried,
  cancelled, freed, step-Effect, Spares, apply_event, apply_events,
}

module _ {Status : Type 0} (room : Heap Box → Bool) (f : Fortran Status) where
  -- The box at `p` is overwritten by its image, seen from `a`.
  overwrite :
      (h : Heap Box) (p a : ℕ) (b c : Box) (g : Box → Box)
      → object_at h p ≡ some c
      → object_at h a ≡ some b
      → object_at (set h p (some (g c))) a ≡ some (if p == a then g b else b)
  overwrite h p a b c g at_p at_a = elim (Bool-cases (p == a)) [
    | inl eq ↦
        let e = (==_iff p a).0 eq in
        let same : some c ≡ some b = sym at_p ∙ ap (object_at h) e ∙ at_a in
        rw eq (
          ap (object_at (set h p (some (g c)))) (sym e)
          ∙ object_at-set_self h p (some (g c)) (object_at-lt h p at_p)
          ∙ ap (Option.map g) same)
    | inr ne ↦
        rw ne (object_at-set_ne h p a (some (g c)) (λ e. true≢false ((==_iff p a).1 e) ne) ∙ at_a)
  ]

  Effect-keeps :
      {h mid : Heap Box} {e : Event Status} (a : ℕ) (b : Box)
      → Effect room f h e mid
      → Spares room f a e
      → object_at h a ≡ some b
      → object_at mid a ≡ some (apply_event room f a e b)
  Effect-keeps a b no_memory spares at = at
  Effect-keeps {h} a b appended spares at =
      object_at-append_ne h _ a (λ e. ground (arith, object_at_end h, ap (object_at h) e)) ∙ at
  Effect-keeps {h} a b (queried {a = p} {status = status} c at_p) spares at =
      overwrite h p a b c (λ x. updated x (f.query x.query_fn x.extra_state status mpi_success).0)
        at_p at
  Effect-keeps {h} a b (cancelled {a = p} {complete = complete} c at_p) spares at =
      overwrite h p a b c
        (λ x. updated x (
          f.cancel x.cancel_fn x.extra_state
            (mpif_bool2logical f.logical_true f.logical_false complete) mpi_success))
        at_p at
  Effect-keeps {h} a b (freed {a = p} c at_p) spares at = object_at-set_ne h p a none spares ∙ at

  -- A box that is not freed keeps its callbacks, and its extra_state is what its own callbacks have
  -- made of it, one after another.
  pub Steps-keep :
      {h after : Heap Box} {es : List (Event Status)} (a : ℕ) (b : Box)
      → Steps room f h es after
      → All (Spares room f a) es
      → object_at h a ≡ some b
      → object_at after a ≡ some (apply_events room f a es b)
  Steps-keep a b done spares at = at
  Steps-keep {h} a b (next {mid = mid} {e = e} one rest) spares at =
      Steps-keep a (apply_event room f a e b) rest spares.1
        (Effect-keeps a b (step-Effect room f h e mid one) spares.0 at)

  abbrev pub frees : List (Event Status) → ℕ
  frees [] = 0
  frees (free_box a ∷ es) = suc (frees es)
  frees (reserve b ∷ es) = frees es
  frees (query a status ∷ es) = frees es
  frees (cancel a complete ∷ es) = frees es

  -- The balance of one step.
  Effect-live :
      {h mid : Heap Box} (e : Event Status)
      → Effect room f h e mid
      → live mid + frees (e ∷ []) + length h ≡ live h + length mid
  Effect-live _ no_memory = omega arith
  Effect-live {h} _ (appended {b = b}) =
      omega (arith, live-append h b, length-append h (some b ∷ []))
  Effect-live {h} _ (queried {a = a} c at) =
      omega (arith, live-set h a (some _) at, length-set h a (some _))
  Effect-live {h} _ (cancelled {a = a} c at) =
      omega (arith, live-set h a (some _) at, length-set h a (some _))
  Effect-live {h} _ (freed {a = a} c at) = omega (arith, live-set h a none at, length-set h a none)

  frees-cons :
      (e : Event Status) (es : List (Event Status)) → frees (e ∷ es) ≡ frees (e ∷ []) + frees es
  frees-cons (free_box a) es = omega arith
  frees-cons (reserve b) es = omega arith
  frees-cons (query a status) es = omega arith
  frees-cons (cancel a complete) es = omega arith

  -- No box is lost: those that are live at the end are those that were live before and those that
  -- were allocated, less one for each call of a free callback.
  pub Steps-live :
      {h after : Heap Box} {es : List (Event Status)}
      → Steps room f h es after
      → live after + frees es + length h ≡ live h + length after
  Steps-live done = omega arith
  Steps-live {h} (next {mid = mid} {e = e} {es = es} one rest) =
      omega
        (arith, frees-cons e es, Effect-live e (step-Effect room f h e mid one), Steps-live rest)
