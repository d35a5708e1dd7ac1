-- ===== src/Control/ConfidentialVm/Broadcast.antt =====
-- core/control_data/confidential_vm.rs: requests from one confidential hart to others.
use ace_riscv.Base.{
  ℕ, zero, suc, ◌+◌, ◌-◌, ◌^◌, ◌<◌, ◌≤◌, ◌≡◌, ◌↔◌, subst, ◌⊎◌, inl, inr, ◌==◌, true, Bool-cases,
  some, Option-cases, List, [], ◌∷◌, ◌++◌, length, get_elem?, length-append, Outcome, ok, err,
  panic, Outcome-cases, bit_and, usize_max, arith,
}
use ace_riscv.Base.Bits.{bit, bit-le, bit_and-two_pow}
use native.Mathlib.Nat.{one-le-pow}
use ace_riscv.Control.Requests.{
  HartMask, InterHartRequest, is_hart_selected, is_in_mask, into_expose_to_confidential_vm,
}
use ace_riscv.Control.ConfidentialHart
use ace_riscv.Control.ConfidentialHart.{ConfidentialHart, confidential_hart_id, is_dummy}
use ace_riscv.Control.ConfidentialVm.{
  ConfidentialVm, queue_request, put_queue, deliver, broadcast_from, broadcast_inter_hart_request,
}

mask_bit : (a i : ℕ) → (bit_and a (2 ^ i) == 0) ≡ (bit a i == 0)
mask_bit a i = ground (arith, bit_and-two_pow i a, bit-le a i, one-le-pow i 2)

-- A mask selects a hart where its base is the greatest word, or where the hart is one of the 64 from
-- the base on and its bit in the mask is set.
pub is_in_mask_iff :
    (id : ℕ) (v : HartMask)
    → (is_in_mask id v ≡ true) ↔ (
        (v.hart_mask_base ≡ usize_max)
        ⊎ ((v.hart_mask_base ≤ id)
            × (id < v.hart_mask_base + 64)
            × (bit v.hart_mask (id - v.hart_mask_base) ≡ 1)))
unfolding is_in_mask
is_in_mask_iff id v =
    rw (mask_bit v.hart_mask (id - v.hart_mask_base))
      (ground (arith, bit-le v.hart_mask (id - v.hart_mask_base)))

-- No queue holds more than 64 requests.
unfoldable pub Bounded : ConfidentialVm → Type 0
Bounded vm = (k : ℕ) (q : List InterHartRequest) → vm.inter_hart_requests k ≡ some q → length q ≤ 64

queue_request-Bounded :
    (r : InterHartRequest) (id : ℕ) (vm : ConfidentialVm) {vm' : ConfidentialVm}
    → Bounded vm
    → queue_request r id vm ≡ ok vm'
    → Bounded vm'
unfolding Bounded queue_request put_queue
queue_request-Bounded r id vm {vm'} b h k q e = elim (Option-cases (vm.inter_hart_requests id)) [
  | inl n ↦ absurd (ground arith)
  | inr (p, n) ↦ elim (Bool-cases (k == id)) [
    | inl g ↦
        let l : length p < 64 = ground arith in
        let o : q ≡ p ++ r ∷ [] = ground arith in rw o (omega (arith, length-append p (r ∷ [])))
    | inr g ↦ b k q (ground arith)
  ]
]

module _ (send_ipi : ℕ → Outcome (Unit {0})) where
  deliver-Bounded :
      (r : InterHartRequest) (id : ℕ) (h : ConfidentialHart) (vm : ConfidentialVm)
      {x : Outcome (Unit {0})} {vm' : ConfidentialVm}
      → Bounded vm
      → deliver send_ipi r id h vm ≡ ok (x, vm')
      → Bounded vm'
  unfolding deliver Bounded
  deliver-Bounded r id h vm {x} {vm'} b q k l e = elim (Bool-cases (is_dummy h)) [
    | inl d ↦ elim (Outcome-cases (queue_request r id vm)) [
      | inl (vm1, o) ↦ queue_request-Bounded r id vm b o k l (ground arith)
      | inr (inl (y, o)) ↦ b k l (ground arith)
      | inr (inr o) ↦ absurd (ground arith)
    ]
    | inr d ↦ elim (Outcome-cases (ConfidentialHart.apply (into_expose_to_confidential_vm r) h)) [
      | inl (h1, o) ↦ b k l (ground arith)
      | inr (inl (y, o)) ↦ absurd (ground arith)
      | inr (inr o) ↦ absurd (ground arith)
    ]
  ]

  broadcast_from-Bounded :
      (r : InterHartRequest) (n id : ℕ) (vm : ConfidentialVm) {x : Outcome (Unit {0})}
      {vm' : ConfidentialVm}
      → Bounded vm
      → broadcast_from send_ipi r n id vm ≡ ok (x, vm')
      → Bounded vm'
  unfolding broadcast_from
  broadcast_from-Bounded r zero id vm {x} {vm'} b q = subst Bounded (ground arith) b
  broadcast_from-Bounded r (suc n) id vm {x} {vm'} b q = elim (Bool-cases (is_hart_selected r id)) [
    | inr s ↦ broadcast_from-Bounded r n (suc id) vm {x = x} b (ground arith)
    | inl s ↦ elim (Option-cases (get_elem? vm.confidential_harts id)) [
      | inl e ↦ absurd (ground arith)
      | inr (h, e) ↦ elim (Outcome-cases (deliver send_ipi r id h vm)) [
        | inl ((ok _, vm1), o) ↦
            broadcast_from-Bounded r n (suc id) vm1 {x = x} (deliver-Bounded r id h vm b o)
              (ground arith)
        | inl ((err y, vm1), o) ↦ subst Bounded (ground arith) (deliver-Bounded r id h vm b o)
        | inl ((panic, vm1), o) ↦ absurd (ground arith)
        | inr (inl (y, o)) ↦ absurd (ground arith)
        | inr (inr o) ↦ absurd (ground arith)
      ]
    ]
  ]

-- A broadcast keeps every queue of requests within 64 entries, whether it succeeds or fails.
pub broadcast_inter_hart_request-Bounded :
    (send_ipi : ℕ → Outcome (Unit {0})) (r : InterHartRequest) (vm vm' : ConfidentialVm)
    (x : Outcome (Unit {0}))
    → Bounded vm
    → broadcast_inter_hart_request send_ipi r vm ≡ ok (x, vm')
    → Bounded vm'
unfolding broadcast_inter_hart_request
broadcast_inter_hart_request-Bounded send_ipi r vm vm' x b q =
    broadcast_from-Bounded send_ipi r (length vm.confidential_harts) 0 vm b q
