-- ===== src/Control/ConfidentialVm/Switching.antt =====
-- core/control_data/confidential_vm.rs: assigning a confidential hart to a hardware hart and taking it
-- back.
use ace_riscv.Base.{
  ℕ, ◌<◌, ◌≡◌, ◌≢◌, refl, sym, ap, ◌∙◌, subst, ◌⊎◌, inl, inr, ◌==◌, true, false, Bool-cases, none,
  some, Option-cases, length, get_elem?, set, get_elem?-set_self, get_elem?-set_ne, get_elem?-lt,
  length-set, ok, err, invalid_hart_id, hart_already_running, hart_not_executable, arith,
}
use ace_riscv.Control.ConfidentialHart
use ace_riscv.Control.ConfidentialHart.{
  ConfidentialHart, confidential_hart_id, is_dummy, may_run, is_executable,
}
use ace_riscv.Control.HardwareHart
use ace_riscv.Control.HardwareHart.{HardwareHart}
use ace_riscv.Control.ConfidentialVm.{
  ConfidentialVm, assign, unassign, steal_confidential_hart, return_confidential_hart,
}

-- The answer to a request to assign a hart: an error for an id that names no hart, for a hart that is
-- already assigned, and for one whose lifecycle state does not allow to run it, and else the hart.
abbrev pub StealAnswer : ℕ → ConfidentialVm → HardwareHart → Type 0
StealAnswer id vm w =
    ((get_elem? vm.confidential_harts id ≡ none)
      × (steal_confidential_hart id vm w ≡ err invalid_hart_id))
    ⊎ ((h : ConfidentialHart) × (get_elem? vm.confidential_harts id ≡ some h)
        × (((is_dummy h ≡ true) × (steal_confidential_hart id vm w ≡ err hart_already_running))
            ⊎ ((is_dummy h ≡ false)
                × (may_run h.lifecycle_state ≡ false)
                × (steal_confidential_hart id vm w ≡ err hart_not_executable))
            ⊎ ((is_dummy h ≡ false)
                × (may_run h.lifecycle_state ≡ true)
                × (steal_confidential_hart id vm w ≡ ok (assign id h vm w)))))

-- A hart is assigned exactly where the id names a hart of the confidential VM that is not already
-- assigned and whose lifecycle state allows to run it; each other case has its error.
pub steal_confidential_hart-cases :
    (id : ℕ) (vm : ConfidentialVm) (w : HardwareHart) → StealAnswer id vm w
unfolding steal_confidential_hart is_executable is_dummy
steal_confidential_hart-cases id vm w = elim (Option-cases (get_elem? vm.confidential_harts id)) [
  | inl e ↦ inl (e, ground arith)
  | inr (h, e) ↦ inr (
    h,
    e,
    elim (Bool-cases (is_dummy h)) [
      | inl d ↦ inl (d, ground arith)
      | inr d ↦ inr (elim (Bool-cases (may_run h.lifecycle_state)) [
        | inr m ↦ inl (d, m, ground arith)
        | inl m ↦ inr (d, m, ground arith)
      ])
    ],
  )
]

pub steal_confidential_hart-ok :
    (id : ℕ) (vm : ConfidentialVm) (w : HardwareHart) {r : ConfidentialVm × HardwareHart}
    → steal_confidential_hart id vm w ≡ ok r
    → (h : ConfidentialHart) × (get_elem? vm.confidential_harts id ≡ some h)
      × (is_dummy h ≡ false)
      × (may_run h.lifecycle_state ≡ true)
      × (r ≡ assign id h vm w)
steal_confidential_hart-ok id vm w q = elim (steal_confidential_hart-cases id vm w) [
  | inl (a, b) ↦ absurd (ground arith)
  | inr (h, a, inl (b, c)) ↦ absurd (ground arith)
  | inr (h, a, inr (inl (b, c, d))) ↦ absurd (ground arith)
  | inr (h, a, inr (inr (b, c, d))) ↦ (h, a, b, c, ground arith)
]

-- A hart that has been assigned to one hardware hart, which held a dummy one, cannot be assigned to another.
pub steal_confidential_hart-exclusive :
    (id : ℕ) (vm vm' : ConfidentialVm) (w w' other : HardwareHart)
    → is_dummy w.confidential_hart ≡ true
    → steal_confidential_hart id vm w ≡ ok (vm', w')
    → steal_confidential_hart id vm' other ≡ err hart_already_running
unfolding assign HardwareHart.store_control_status_registers
steal_confidential_hart-exclusive id vm vm' w w' other d q =
    let (h, e, b, c, r) = steal_confidential_hart-ok id vm w q in
    let v : vm' ≡ (assign id h vm w).0 = ap (λ p. p.0) r in
    let g : get_elem? vm'.confidential_harts id ≡ some w.confidential_hart = rw v (
      get_elem?-set_self vm.confidential_harts id w.confidential_hart
        (get_elem?-lt vm.confidential_harts id e)) in
    elim (steal_confidential_hart-cases id vm' other) [
      | inl (a, x) ↦ absurd (ground arith)
      | inr (k, a, inl (x, y)) ↦ y
      | inr (k, a, inr (inl (x, y, z))) ↦ absurd (ground arith)
      | inr (k, a, inr (inr (x, y, z))) ↦ absurd (ground arith)
    ]

-- The slots of a confidential VM hold its own harts at their ids, or dummy harts.
unfoldable pub WellFormed : ConfidentialVm → Type 0
WellFormed vm =
    (i : ℕ) (h : ConfidentialHart)
    → get_elem? vm.confidential_harts i ≡ some h
    → (is_dummy h ≡ true) ⊎ ((h.confidential_vm_id ≡ some vm.id) × (confidential_hart_id h ≡ i))

set-WellFormed :
    (vm : ConfidentialVm) (i : ℕ) (h : ConfidentialHart)
    → WellFormed vm
    → (is_dummy h ≡ true) ⊎ ((h.confidential_vm_id ≡ some vm.id) × (confidential_hart_id h ≡ i))
    → WellFormed (record vm { confidential_harts = set vm.confidential_harts i h })
unfolding WellFormed
set-WellFormed vm i h wf k j g e = elim (Bool-cases (i == j)) [
  | inl p ↦
      let ij : i ≡ j = ground arith in
      let n : j < length vm.confidential_harts = omega (
        arith,
        get_elem?-lt (set vm.confidential_harts i h) j e,
        length-set vm.confidential_harts i h,
      ) in
      let f : get_elem? (set vm.confidential_harts j h) j ≡ some h =
        get_elem?-set_self vm.confidential_harts j h n in
      let gh : h ≡ g = at_slot ij e f in
      subst
        (λ x.
          (is_dummy x ≡ true)
          ⊎ ((x.confidential_vm_id ≡ some vm.id) × (confidential_hart_id x ≡ j)))
        gh (rw (sym ij) k)
  | inr p ↦
      let ne : i ≢ j = ground arith in
      wf j g (sym (get_elem?-set_ne vm.confidential_harts i j h ne) ∙ e)
]
  where
    at_slot :
        {j : ℕ} {g : ConfidentialHart}
        → i ≡ j
        → get_elem? (set vm.confidential_harts i h) j ≡ some g
        → get_elem? (set vm.confidential_harts j h) j ≡ some h
        → h ≡ g
    at_slot {j} {g} ij e f =
        let e' : get_elem? (set vm.confidential_harts j h) j ≡ some g =
          subst (λ k. get_elem? (set vm.confidential_harts k h) j ≡ some g) ij e in
        ground arith

pub return_confidential_hart-ok :
    (vm : ConfidentialVm) (w : HardwareHart) {r : ConfidentialVm × HardwareHart}
    → return_confidential_hart vm w ≡ ok r
    → (d : ConfidentialHart) × (get_elem? vm.confidential_harts
          (confidential_hart_id w.confidential_hart)
        ≡ some d)
      × (w.confidential_hart.confidential_vm_id ≡ some vm.id)
      × (r ≡ unassign (confidential_hart_id w.confidential_hart) d vm w)
unfolding return_confidential_hart confidential_hart_id is_dummy
return_confidential_hart-ok vm w q =
    elim (Option-cases
      (get_elem? vm.confidential_harts (confidential_hart_id w.confidential_hart))) [
        | inl e ↦ absurd (ground arith)
        | inr (d, e) ↦ (d, e, ground arith, ground arith)
      ]

-- Assigning a hart to a hardware hart that holds a dummy one keeps the slots well formed, and what the
-- hardware hart then holds belongs to the confidential VM.
pub steal_confidential_hart-WellFormed :
    (id : ℕ) (vm vm' : ConfidentialVm) (w w' : HardwareHart)
    → WellFormed vm
    → is_dummy w.confidential_hart ≡ true
    → steal_confidential_hart id vm w ≡ ok (vm', w')
    → WellFormed vm'
      × (w'.confidential_hart.confidential_vm_id ≡ some vm'.id)
      × (confidential_hart_id w'.confidential_hart ≡ id)
unfolding assign WellFormed confidential_hart_id HardwareHart.store_control_status_registers
    ConfidentialHart.load_control_status_registers
steal_confidential_hart-WellFormed id vm vm' w w' wf d q =
    let (h, e, b, c, r) = steal_confidential_hart-ok id vm w q in
    let v : vm' ≡ (assign id h vm w).0 = ap (λ p. p.0) r in
    let u : w' ≡ (assign id h vm w).1 = ap (λ p. p.1) r in
    let own : (h.confidential_vm_id ≡ some vm.id) × (confidential_hart_id h ≡ id) =
      elim (wf id h e) [ inl x ↦ absurd (ground arith) | inr x ↦ x ] in
    (rw v (set-WellFormed vm id w.confidential_hart wf (inl d)), rw (u, v) own.0, rw u own.1)

-- Taking a hart back from a hardware hart keeps the slots well formed.
pub return_confidential_hart-WellFormed :
    (vm vm' : ConfidentialVm) (w w' : HardwareHart)
    → WellFormed vm
    → return_confidential_hart vm w ≡ ok (vm', w')
    → WellFormed vm'
unfolding unassign WellFormed confidential_hart_id ConfidentialHart.store_control_status_registers
return_confidential_hart-WellFormed vm vm' w w' wf q =
    let (d, e, o, r) = return_confidential_hart-ok vm w q in
    let v : vm' ≡ (unassign (confidential_hart_id w.confidential_hart) d vm w).0 =
      ap (λ p. p.0) r in
    rw v (set-WellFormed vm (confidential_hart_id w.confidential_hart) _ wf (inr (o, refl)))
