-- ===== src/Cdesc/Entry/Buffers.antt =====
-- What an entry point with two buffers gives to MPI.
use mathlib.Core.List.Perm
use mathlib.Core.List.{append_assoc, append-nil, Perm, perm_append_comm}
use mpif.Prelude.{
  ℕ, ◌≡◌, refl, sym, ap, ◌∙◌, subst, Bool, true, false, List, [], ◌++◌, ◌==◌, if◌then◌else◌, inl,
  inr, ◌⊎◌,
}
use mpif.Prelude.Int.{ℤ}
use mpif.Machine.{Returns, ok}
use mpif.Abi.{mpi_success}
use mpif.Sentinels.{Cells, mpif_c_buffer}
use mpif.Cdesc.{Descriptor, Datatypes}
use mpif.Cdesc.Walk.{Documented}
use mpif.Cdesc.Layout.{IsSection}
use mpif.Cdesc.Entry.{
  Choice, Message, Prepared, refused, answered, Done, prepare, freed_if_owned, message,
  with_buffers,
}
use mpif.Cdesc.Entry.Plain.{IsPlain, IsGapped, plain_or_not_needed, needed-IsGapped}
use mpif.Cdesc.Entry.Buffer.{
  IsSolid, Prepares, as_counted, as_section, not_at_all, prepare-Prepares,
}

-- Two lists that are freed after one another, and those in use, in another order.
regroup {ℓ} : {A : Type ℓ} (f g o q : List A) → Perm (f ++ (g ++ (o ++ q))) ((f ++ o) ++ (g ++ q))
regroup f g o q =
    let inner : Perm (g ++ (o ++ q)) (o ++ (g ++ q)) =
      subst (λ l. Perm l (o ++ (g ++ q))) (append_assoc g o q)
        (subst (λ l. Perm ((g ++ o) ++ q) l) (append_assoc o g q)
          (Perm.append_right q (perm_append_comm g o))) in
    subst (λ l. Perm (f ++ (g ++ (o ++ q))) l) (sym (append_assoc f o (g ++ q)))
      (Perm.append_left f inner)

module _ {H : Type 0} (cells : Cells) (mpi : Datatypes H) (is_contiguous : Descriptor → Bool)
    (offsets : H → List ℤ) (lb extent : H → ℤ) (law : Documented mpi offsets lb extent) where
  -- A message for a buffer: as the caller counts it, or one element of a datatype for its section.
  pub data Carries (needed : Bool) (c : Choice) (count : ℕ) (type : H) (m : Message H)
      : Type 0 where
    counted :
        (needed ≡ false) ⊎ IsPlain cells is_contiguous c
        → m ≡ record { buf = mpif_c_buffer cells c.base_addr; count = count; type = type }
        → Carries needed c count type m
    section :
        (t : H)
        → (needed ≡ true) × IsGapped cells is_contiguous c
        → IsSection mpi offsets lb extent law c.cdesc count type t
        → m ≡ record { buf = mpif_c_buffer cells c.base_addr; count = 1; type = t }
        → Carries needed c count type m

  -- What was made is what was freed and what is in use.
  kept :
      (needed : Bool) (c : Choice) (count : ℕ) (type : H) (p : Prepared H)
      → Prepares cells mpi is_contiguous offsets lb extent law needed c count type p
      → p.created ≡ p.freed ++ freed_if_owned cells mpi is_contiguous p
  kept needed c count type p (as_counted plain is) = rw is refl
  kept needed c count type p (as_section strided is (e, one, owned) created) = rw owned created
  kept needed c count type p (not_at_all strided (failure, owned) created) =
      rw owned (created ∙ sym (append-nil p.freed))

  -- With no error the message carries the buffer.
  carries :
      (needed : Bool) (c : Choice) (count : ℕ) (type : H) (p : Prepared H)
      → Prepares cells mpi is_contiguous offsets lb extent law needed c count type p
      → (p.err ≡ mpi_success) × Carries needed c count type (message cells mpi is_contiguous c p)
        ⊎ ((p.err == mpi_success) ≡ false) × ((needed ≡ true) × IsGapped cells is_contiguous c)
  carries needed c count type p (as_counted plain is) = inl (
    ap (λ (q : Prepared H). q.err) is,
    counted (plain_or_not_needed cells mpi is_contiguous needed c plain)
        (ap (message cells mpi is_contiguous c) is),
  )
  carries needed c count type p (as_section strided is (e, one, owned) created) = inl (
    e,
    section p.type (needed-IsGapped cells mpi is_contiguous needed c strided) is (rw one refl),
  )
  carries needed c count type p (not_at_all strided (failure, owned) created) =
      inr (failure, needed-IsGapped cells mpi is_contiguous needed c strided)

  module _ {A : Type 0} (sn : Bool) (send : Choice) (sc : ℕ) (st : H) (rn : Bool) (recv : Choice)
      (rc : ℕ) (rt : H) (call : Message H → Message H → A) where
    -- Both messages, or no call.
    pub data DeliversBoth (d : Done H A) : Type 0 where
      sent :
          (s r : Message H)
          → Carries sn send sc st s
          → Carries rn recv rc rt r
          → d.reply ≡ answered (call s r)
          → DeliversBoth d
      unsent :
          (err : ℕ)
          → (err == mpi_success) ≡ false
          → ((sn ≡ true) × IsGapped cells is_contiguous send)
            ⊎ ((rn ≡ true) × IsGapped cells is_contiguous recv)
          → d.reply ≡ refused err
          → DeliversBoth d

    abbrev done : Prepared H → Prepared H → Done H A
    done s r = record {
      reply =
          if r.err == mpi_success
          then answered (
              call (message cells mpi is_contiguous send s)
                (message cells mpi is_contiguous recv r))
          else refused r.err;
      created = s.created ++ r.created;
      freed =
          s.freed
          ++ (r.freed
              ++ (freed_if_owned cells mpi is_contiguous s
                  ++ freed_if_owned cells mpi is_contiguous r));
    }

    all_freed :
        (s r : Prepared H)
        → s.created ≡ s.freed ++ freed_if_owned cells mpi is_contiguous s
        → r.created ≡ r.freed ++ freed_if_owned cells mpi is_contiguous r
        → Perm (done s r).freed (done s r).created
    all_freed s r ks kr = rw (ks, kr) (regroup s.freed r.freed _ _)

    -- Where the first buffer is refused the second is not prepared.
    abbrev passed_on : ℕ → Prepared H
    passed_on err = record {
      err = err;
      count = rc;
      type = rt;
      owned = false;
      created = [];
      freed = [];
    }

    both :
        IsSolid recv.cdesc
        → (s : Prepared H) → Prepares cells mpi is_contiguous offsets lb extent law sn send sc st s
        → (r : Prepared H) × (prepare cells mpi is_contiguous s.err rn recv rc rt ≡ ok r)
          × DeliversBoth (done s r)
          × Perm (done s r).freed (done s r).created
    unfolding prepare
    both solid s ps = elim (carries sn send sc st s ps) [
      | inr (failure, strided) ↦ (
        passed_on s.err,
        rw (failure, prepare) refl,
        unsent s.err failure (inl strided) (rw failure refl),
        all_freed s (passed_on s.err) (kept sn send sc st s ps) refl,
      )
      | inl (success, cs) ↦
          let (r, e, pr) =
            prepare-Prepares cells mpi is_contiguous offsets lb extent law rn recv rc rt solid in
          (
            r,
            rw success e,
            elim (carries rn recv rc rt r pr) [
              | inl (also, cr) ↦ sent _ _ cs cr (rw also refl)
              | inr (failure, strided) ↦ unsent r.err failure (inr strided) (rw failure refl)
            ],
            all_freed s r (kept sn send sc st s ps) (kept rn recv rc rt r pr),
          )
    ]

    -- For buffers with elements, and MPI's constructors as documented, an entry point with two buffers
    -- always returns. MPI is called with a message for each, as the caller counts it if the buffer is
    -- a sentinel, a scalar or contiguous or does not count here, and otherwise as one element of a datatype for its section.
    -- If a datatype cannot be made, MPI is not called and the reply is an error. In every case the
    -- datatypes that are freed are those that were made, each as often.
    pub with_buffers-DeliversBoth :
        IsSolid send.cdesc
        → IsSolid recv.cdesc
        → Returns
            (λ d. DeliversBoth d × Perm d.freed d.created)
            (with_buffers cells mpi is_contiguous sn send sc st rn recv rc rt call)
    unfolding with_buffers
    with_buffers-DeliversBoth send_solid recv_solid =
        let (s, es, ps) =
          prepare-Prepares cells mpi is_contiguous offsets lb extent law sn send sc st send_solid in
        let (r, er, delivers, freed) = both recv_solid s ps in
        (done s r, rw (es, er, with_buffers) refl, (delivers, freed))
