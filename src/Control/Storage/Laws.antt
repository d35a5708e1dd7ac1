-- ===== src/Control/Storage/Laws.antt =====
-- core/control_data/storage.rs: identifiers are unique, and only a confidential VM whose harts are all
-- shut down and none of which is assigned leaves the store.
use ace_riscv.Base.{
  ℕ, zero, suc, ◌+◌, ◌≤◌, ◌≡◌, refl, ap, ◌∙◌, subst, ◌⊎◌, inl, inr, ◌==◌, ltb, true, Bool-cases,
  none, some, Option-cases, List, [], ◌∷◌, get_elem?, ok, err, usize_mod, usize_max, arith,
  too_many_confidential_vms,
}
use ace_riscv.Control.ConfidentialHart.{ConfidentialHart, shutdown}
use ace_riscv.Control.ConfidentialVm.{ConfidentialVm, are_all_harts_shutdown, all_shutdown}
use ace_riscv.Control.Storage.{
  ControlData, lookup, remove, max_key, unique_id, insert_confidential_vm, confidential_vm,
  remove_confidential_vm,
}

max_key-none : (d : ControlData) → max_key d ≡ none → d ≡ []
unfolding max_key
max_key-none [] e = refl
max_key-none (v ∷ vms) e = elim (Option-cases (max_key vms)) [
  | inl n ↦ absurd (ground arith)
  | inr (k, n) ↦ absurd (ground arith)
]

max_key-le :
    (d : ControlData) (m : ℕ)
    → max_key d ≡ some m
    → (id : ℕ) (vm : ConfidentialVm) → lookup id d ≡ some vm
    → id ≤ m
unfolding max_key lookup
max_key-le [] m e id vm l = absurd (ground arith)
max_key-le (v ∷ vms) m e id vm l = elim (Bool-cases (v.id == id)) [
  | inl g ↦ elim (Option-cases (max_key vms)) [ inl n ↦ ground arith | inr (k, n) ↦ ground arith ]
  | inr g ↦
      let r : lookup id vms ≡ some vm = ground arith in
      elim (Option-cases (max_key vms)) [
        | inl n ↦ absurd (nothing vms r (max_key-none vms n))
        | inr (k, n) ↦ let o : id ≤ k = max_key-le vms k n id vm r in ground arith
      ]
]
  where
    nothing : (ds : ControlData) → lookup id ds ≡ some vm → ds ≡ [] → ⊥
    nothing [] r e = ground arith
    nothing (d ∷ ds) r e = ground arith

-- A new identifier is that of no stored confidential VM.
pub unique_id-lookup : (d : ControlData) (id : ℕ) → unique_id d ≡ ok id → lookup id d ≡ none
unfolding unique_id lookup
unique_id-lookup d id q = elim (Option-cases (max_key d)) [
  | inl n ↦ rw (max_key-none d n) refl
  | inr (m, n) ↦ elim (Option-cases (lookup id d)) [
    | inl l ↦ l
    | inr (vm, l) ↦ let o : id ≤ m = max_key-le d m n id vm l in absurd (ground arith)
  ]
]

-- A confidential VM with an identifier that was just given out is inserted, whatever is stored, and
-- is then found under that identifier.
pub unique_id-insert :
    (d : ControlData) (id : ℕ) (vm : ConfidentialVm)
    → unique_id d ≡ ok id
    → vm.id ≡ id
    → (d' : ControlData) × (insert_confidential_vm vm d ≡ ok (id, d'))
      × (confidential_vm id d' ≡ ok vm)
unfolding insert_confidential_vm confidential_vm lookup
unique_id-insert d id vm q e =
    let n : lookup vm.id d ≡ none = rw e (unique_id-lookup d id q) in
    (vm ∷ d, ground arith, ground arith)

-- An identifier is given out, or the greatest one stored is the greatest word and the error says
-- that there are too many confidential VMs.
pub unique_id-total :
    (d : ControlData)
    → ((id : ℕ) × (unique_id d ≡ ok id))
      ⊎ ((m : ℕ) × (max_key d ≡ some m)
          × (usize_max ≤ m)
          × (unique_id d ≡ err too_many_confidential_vms))
unfolding unique_id
unique_id-total d = elim (Option-cases (max_key d)) [
  | inl n ↦ inl (0, ground arith)
  | inr (m, n) ↦ elim (Bool-cases (ltb (m + 1) usize_mod)) [
    | inl l ↦ inl (m + 1, ground arith)
    | inr l ↦ inr (m, n, ground arith, ground arith)
  ]
]

all_shutdown-get_elem? :
    (hs : List ConfidentialHart) (i : ℕ) (h : ConfidentialHart)
    → all_shutdown hs ≡ true
    → get_elem? hs i ≡ some h
    → h.lifecycle_state ≡ shutdown
unfolding all_shutdown
all_shutdown-get_elem? [] i h a e = absurd (ground arith)
all_shutdown-get_elem? (x ∷ xs) zero h a e = ground arith
all_shutdown-get_elem? (x ∷ xs) (suc i) h a e = all_shutdown-get_elem? xs i h (ground arith) e

-- A confidential VM that is removed was stored under the given identifier, is taken off the map, and
-- has in each of its slots a hart that is shut down.
pub remove_confidential_vm-shutdown :
    (id : ℕ) (d d' : ControlData) (vm : ConfidentialVm)
    → remove_confidential_vm id d ≡ ok (vm, d')
    → (lookup id d ≡ some vm)
      × (d' ≡ remove id d)
      × ((i : ℕ) (h : ConfidentialHart)
          → get_elem? vm.confidential_harts i ≡ some h
          → h.lifecycle_state ≡ shutdown)
unfolding remove_confidential_vm confidential_vm are_all_harts_shutdown
remove_confidential_vm-shutdown id d d' vm q = elim (Option-cases (lookup id d)) [
  | inl n ↦ absurd (ground arith)
  | inr (v, n) ↦
      let (a, b, c) : (v ≡ vm) × (d' ≡ remove id d) × (all_shutdown v.confidential_harts ≡ true) =
        ground arith in
      (
        n ∙ ap some a,
        b,
        λ i h g.
            all_shutdown-get_elem? vm.confidential_harts i h
              (subst (λ x. all_shutdown x.confidential_harts ≡ true) a c) g,
      )
]
