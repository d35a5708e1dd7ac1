-- ===== src/Control/Requests.antt =====
-- core/transformations: what is exposed to the other security domain and what harts ask of each other.
use ace_riscv.Base.{
  ℕ, ◌-◌, ◌^◌, Bool, true, not, ◌&&◌, ltb, leb, ◌==◌, if◌then◌else◌, bit_and, usize_max,
}
use ace_riscv.Memory.PageSize.{PageSize}
use ace_riscv.Riscv.Registers.{GeneralPurposeRegister, a0, a1, a2, a3, a4, a5, a6, a7}
use ace_riscv.Riscv.HartState.{HartArchitecturalState, gpr}

pub record SbiRequest : Type 0 where
  pub extension_id : ℕ
  pub function_id : ℕ
  pub argument0 : ℕ
  pub argument1 : ℕ
  pub argument2 : ℕ
  pub argument3 : ℕ
  pub argument4 : ℕ
  pub argument5 : ℕ

-- `SbiRequest::new` with zeros after the second argument.
abbrev sbi_request : ℕ → ℕ → ℕ → ℕ → SbiRequest
sbi_request extension function x y = record {
  extension_id = extension;
  function_id = function;
  argument0 = x;
  argument1 = y;
  argument2 = 0;
  argument3 = 0;
  argument4 = 0;
  argument5 = 0;
}

unfoldable pub kvm_ace_register : ℕ → ℕ → SbiRequest
kvm_ace_register vm_id hart_id = sbi_request 0x509999 1 vm_id hart_id

unfoldable pub kvm_ace_page_in : ℕ → SbiRequest
kvm_ace_page_in page_address = sbi_request 0x509999 2 page_address 0

unfoldable pub kvm_hsm_hart_start : ℕ → SbiRequest
kvm_hsm_hart_start virtual_hart_id = sbi_request 0x48534D 0 virtual_hart_id 0

unfoldable pub kvm_hsm_hart_stop : SbiRequest
kvm_hsm_hart_stop = sbi_request 0x48534D 1 0 0

unfoldable pub kvm_hsm_hart_suspend : SbiRequest
kvm_hsm_hart_suspend = sbi_request 0x48534D 3 0 0

unfoldable pub kvm_srst_system_reset : SbiRequest
kvm_srst_system_reset = sbi_request 0x53525354 0 0 0

unfoldable pub from_hart_state : HartArchitecturalState → SbiRequest
unfolding gpr
from_hart_state h = record {
  extension_id = gpr h a7;
  function_id = gpr h a6;
  argument0 = gpr h a0;
  argument1 = gpr h a1;
  argument2 = gpr h a2;
  argument3 = gpr h a3;
  argument4 = gpr h a4;
  argument5 = gpr h a5;
}

pub record SbiResult : Type 0 where
  pub error_code : ℕ
  pub value : ℕ
  pub pc_offset : ℕ

unfoldable pub success : ℕ → SbiResult
success code = record { error_code = 0; value = code; pc_offset = 4 }

unfoldable pub failure : ℕ → SbiResult
failure code = record { error_code = code; value = 0; pc_offset = 4 }

-- `SbiResult::ecall`
unfoldable pub ecall : HartArchitecturalState → SbiResult
unfolding gpr
ecall h = record { error_code = gpr h a0; value = gpr h a1; pc_offset = 4 }

pub record SharePageRequest : Type 0 where
  pub confidential_vm_virtual_address : ℕ
  pub page_size : PageSize

pub record GuestLoadPageFaultRequest : Type 0 where
  pub instruction_length : ℕ
  pub result_gpr : GeneralPurposeRegister

pub record GuestLoadPageFaultResult : Type 0 where
  pub loaded : ℕ
  pub into : GeneralPurposeRegister
  pub length : ℕ

-- `GuestLoadPageFaultResult::new`
unfoldable pub guest_load_page_fault_result :
    HartArchitecturalState → GuestLoadPageFaultRequest → GuestLoadPageFaultResult
unfolding gpr
guest_load_page_fault_result h request = record {
  loaded = gpr h request.result_gpr;
  into = request.result_gpr;
  length = request.instruction_length;
}

pub record SbiHsmHartStart : Type 0 where
  pub confidential_hart_id : ℕ
  pub start_address : ℕ
  pub opaque : ℕ

-- The targets of `SbiIpi`, `SbiRemoteFenceI`, `SbiRemoteSfenceVma` and `SbiRemoteSfenceVmaAsid`.
pub record HartMask : Type 0 where
  pub hart_mask : ℕ
  pub hart_mask_base : ℕ

pub data InterHartRequest : Type 0 where
  sbi_ipi sbi_remote_fence_i : HartMask → InterHartRequest
  sbi_remote_sfence_vma : HartMask → (start_address size : ℕ) → InterHartRequest
  sbi_remote_sfence_vma_asid : HartMask → (start_address size asid : ℕ) → InterHartRequest
  sbi_srst_system_reset : (initiating_confidential_hart_id : ℕ) → InterHartRequest

pub data PendingRequest : Type 0 where
  share_page : SharePageRequest → PendingRequest
  guest_load_page_fault : GuestLoadPageFaultRequest → PendingRequest
  guest_store_page_fault : (instruction_length : ℕ) → PendingRequest
  hsm_hart_start hsm_hart_start_pending request : PendingRequest

pub data ExposeToConfidentialVm : Type 0 where
  result : SbiResult → ExposeToConfidentialVm
  load_page_fault_result : GuestLoadPageFaultResult → ExposeToConfidentialVm
  virtual_instruction_result store_page_fault_result :
      (instruction_length : ℕ) → ExposeToConfidentialVm
  resume hart_start hart_start_pending system_reset : ExposeToConfidentialVm
  ipi remote_fence_i : HartMask → ExposeToConfidentialVm
  remote_sfence_vma : HartMask → (start_address size : ℕ) → ExposeToConfidentialVm
  remote_sfence_vma_asid : HartMask → (start_address size asid : ℕ) → ExposeToConfidentialVm

unfoldable pub into_expose_to_confidential_vm : InterHartRequest → ExposeToConfidentialVm
into_expose_to_confidential_vm (sbi_ipi v) = ipi v
into_expose_to_confidential_vm (sbi_remote_fence_i v) = remote_fence_i v
into_expose_to_confidential_vm (sbi_remote_sfence_vma v start size) = remote_sfence_vma v start size
into_expose_to_confidential_vm (sbi_remote_sfence_vma_asid v start size asid) =
    remote_sfence_vma_asid v start size asid
into_expose_to_confidential_vm (sbi_srst_system_reset v) = system_reset

-- `_is_hart_selected`; the `checked_sub` fails below the base.
unfoldable pub is_in_mask : ℕ → HartMask → Bool
is_in_mask hart_id v =
    if v.hart_mask_base == usize_max
    then true
    else leb v.hart_mask_base hart_id
      && (ltb (hart_id - v.hart_mask_base) 64
          && not (bit_and v.hart_mask (2 ^ (hart_id - v.hart_mask_base)) == 0))

unfoldable pub is_hart_selected : InterHartRequest → ℕ → Bool
unfolding is_in_mask
is_hart_selected (sbi_ipi v) hart_id = is_in_mask hart_id v
is_hart_selected (sbi_remote_fence_i v) hart_id = is_in_mask hart_id v
is_hart_selected (sbi_remote_sfence_vma v start size) hart_id = is_in_mask hart_id v
is_hart_selected (sbi_remote_sfence_vma_asid v start size asid) hart_id = is_in_mask hart_id v
is_hart_selected (sbi_srst_system_reset initiating_confidential_hart_id) hart_id =
    not (initiating_confidential_hart_id == hart_id)
