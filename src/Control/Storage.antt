-- ===== src/Control/Storage.antt =====
-- core/control_data/storage.rs. The ordered map of confidential VMs is an association list; the static
-- CONTROL_DATA and its locks are explicit state.
pub mod Laws
use ace_riscv.Base.{
  ℕ, zero, suc, ◌+◌, ◌==◌, ltb, max, Bool, true, false, if◌then◌else◌, Option, none, some, List, [],
  ◌∷◌, Outcome, ok, err, panic, ◌>>=◌, ◌>>◌, ok_or, assure, usize_mod, too_many_confidential_vms,
  invalid_confidential_vm_id, hart_already_running,
}
use ace_riscv.Control.ConfidentialVm.{ConfidentialVm, are_all_harts_shutdown}

-- The key of each entry is its VM's id, which `insert_confidential_vm` sees to.
abbrev pub ControlData : Type 0
ControlData = List ConfidentialVm

-- `get(&id)`
unfoldable pub lookup : ℕ → ControlData → Option ConfidentialVm
lookup id [] = none
lookup id (vm ∷ vms) = let rest = lookup id vms in if vm.id == id then some vm else rest

-- `get_mut(&id)` and an update of what stands there.
unfoldable pub update : ConfidentialVm → ControlData → ControlData
update vm' [] = []
update vm' (vm ∷ vms) =
    let rest = update vm' vms in if vm.id == vm'.id then vm' ∷ vms else vm ∷ rest

-- `remove(&id)`
unfoldable pub remove : ℕ → ControlData → ControlData
remove id [] = []
remove id (vm ∷ vms) = let rest = remove id vms in if vm.id == id then vms else vm ∷ rest

-- `keys().max()`
unfoldable pub max_key : ControlData → Option ℕ
max_key [] = none
max_key (vm ∷ vms) = elim (max_key vms) [ none ↦ some vm.id | some k ↦ some (max vm.id k) ]

-- `checked_add(1)`
abbrev pub checked_suc : ℕ → Option ℕ
checked_suc k = if ltb (k + 1) usize_mod then some (k + 1) else none

unfoldable pub unique_id : ControlData → Outcome ℕ
unfolding max_key
unique_id d =
    ok_or (elim (max_key d) [ none ↦ some 0 | some k ↦ checked_suc k ]) too_many_confidential_vms

unfoldable pub insert_confidential_vm : ConfidentialVm → ControlData → Outcome (ℕ × ControlData)
unfolding lookup
insert_confidential_vm vm d = elim (lookup vm.id d) [
  | none ↦ ok (vm.id, vm ∷ d)
  | some _ ↦ err invalid_confidential_vm_id
]

-- `ControlData::confidential_vm`
unfoldable pub confidential_vm : ℕ → ControlData → Outcome ConfidentialVm
unfolding lookup
confidential_vm id d = ok_or (lookup id d) invalid_confidential_vm_id

unfoldable pub remove_confidential_vm : ℕ → ControlData → Outcome (ConfidentialVm × ControlData)
unfolding confidential_vm are_all_harts_shutdown remove
remove_confidential_vm id d = do
  vm ← confidential_vm id d
  assure (are_all_harts_shutdown vm) hart_already_running
  ok (vm, remove id d)
