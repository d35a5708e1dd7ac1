-- ===== src/Riscv/Sbi.antt =====
-- core/architecture/riscv/supervisor_binary_interface.rs and trap_cause.rs: what a call or a trap asks.
pub mod Decoding
use ace_riscv.Base.{ℕ, ◌%◌, ◌==◌, if◌then◌else◌}
use ace_riscv.Riscv.Words.{is_bit_enabled}

pub data AceExtension : Type 0 where
  promote_to_confidential_vm resume_confidential_hart share_page_with_hypervisor
        stop_sharing_page_with_hypervisor terminate_confidential_vm print_debug_info :
      AceExtension
  unknown : ℕ → ℕ → AceExtension

abbrev pub ace_extid : ℕ
ace_extid = 0x510000

unfoldable pub ace_from_function_id : ℕ → AceExtension
ace_from_function_id function_id =
    if function_id == 1000
    then promote_to_confidential_vm
    else if function_id == 1010
    then resume_confidential_hart
    else if function_id == 2000
    then share_page_with_hypervisor
    else if function_id == 2001
    then stop_sharing_page_with_hypervisor
    else if function_id == 3001
    then terminate_confidential_vm
    else if function_id == 9000
    then print_debug_info
    else AceExtension.unknown ace_extid function_id

pub data BaseExtension : Type 0 where
  get_spec_version get_impl_id get_impl_version probe_extension get_mvendor_id get_marchid
        get_mimpid :
      BaseExtension
  unknown : ℕ → ℕ → BaseExtension

abbrev pub base_extid : ℕ
base_extid = 0x10

unfoldable pub base_from_function_id : ℕ → BaseExtension
base_from_function_id function_id =
    if function_id == 0
    then get_spec_version
    else if function_id == 1
    then get_impl_id
    else if function_id == 2
    then get_impl_version
    else if function_id == 3
    then probe_extension
    else if function_id == 4
    then get_mvendor_id
    else if function_id == 5
    then get_marchid
    else if function_id == 6
    then get_mimpid
    else BaseExtension.unknown base_extid function_id

pub data IpiExtension : Type 0 where
  send_ipi : IpiExtension
  unknown : ℕ → ℕ → IpiExtension

abbrev pub ipi_extid : ℕ
ipi_extid = 0x735049

unfoldable pub ipi_from_function_id : ℕ → IpiExtension
ipi_from_function_id function_id =
    if function_id == 0 then send_ipi else IpiExtension.unknown ipi_extid function_id

pub data RfenceExtension : Type 0 where
  remote_fence_i remote_sfence_vma remote_sfence_vma_asid remote_hfence_gvma_vmid remote_hfence_gvma
        remote_hfence_vvma_asid remote_hfence_vvma :
      RfenceExtension
  unknown : ℕ → ℕ → RfenceExtension

abbrev pub rfence_extid : ℕ
rfence_extid = 0x52464e43

unfoldable pub rfence_from_function_id : ℕ → RfenceExtension
rfence_from_function_id function_id =
    if function_id == 0
    then remote_fence_i
    else if function_id == 1
    then remote_sfence_vma
    else if function_id == 2
    then remote_sfence_vma_asid
    else if function_id == 3
    then remote_hfence_gvma_vmid
    else if function_id == 4
    then remote_hfence_gvma
    else if function_id == 5
    then remote_hfence_vvma_asid
    else if function_id == 6
    then remote_hfence_vvma
    else RfenceExtension.unknown rfence_extid function_id

pub data HsmExtension : Type 0 where
  hart_start hart_stop hart_get_status hart_suspend : HsmExtension
  unknown : ℕ → ℕ → HsmExtension

abbrev pub hsm_extid : ℕ
hsm_extid = 0x48534d

unfoldable pub hsm_from_function_id : ℕ → HsmExtension
hsm_from_function_id function_id =
    if function_id == 0
    then hart_start
    else if function_id == 1
    then hart_stop
    else if function_id == 2
    then hart_get_status
    else if function_id == 3
    then hart_suspend
    else HsmExtension.unknown hsm_extid function_id

pub data SrstExtension : Type 0 where
  system_reset : SrstExtension
  unknown : ℕ → ℕ → SrstExtension

abbrev pub srst_extid : ℕ
srst_extid = 0x53525354

unfoldable pub srst_from_function_id : ℕ → SrstExtension
srst_from_function_id function_id =
    if function_id == 0 then system_reset else SrstExtension.unknown srst_extid function_id

pub data SbiExtension : Type 0 where
  ace : AceExtension → SbiExtension
  base : BaseExtension → SbiExtension
  ipi : IpiExtension → SbiExtension
  rfence : RfenceExtension → SbiExtension
  hsm : HsmExtension → SbiExtension
  srst : SrstExtension → SbiExtension
  unknown : ℕ → ℕ → SbiExtension

unfoldable pub decode : ℕ → ℕ → SbiExtension
unfolding ace_from_function_id base_from_function_id ipi_from_function_id rfence_from_function_id
    hsm_from_function_id srst_from_function_id
decode a7 a6 =
    if a7 == ace_extid
    then ace (ace_from_function_id a6)
    else if a7 == base_extid
    then base (base_from_function_id a6)
    else if a7 == ipi_extid
    then ipi (ipi_from_function_id a6)
    else if a7 == rfence_extid
    then rfence (rfence_from_function_id a6)
    else if a7 == hsm_extid
    then hsm (hsm_from_function_id a6)
    else if a7 == srst_extid
    then srst (srst_from_function_id a6)
    else SbiExtension.unknown a7 a6

pub data TrapCause : Type 0 where
  interrupt illegal_instruction load_address_misaligned load_access_fault : TrapCause
  store_address_misaligned store_access_fault machine_ecall : TrapCause
  guest_instruction_page_fault guest_load_page_fault virtual_instruction guest_store_page_fault :
      TrapCause
  vs_ecall hs_ecall : SbiExtension → TrapCause
  unknown : ℕ → TrapCause

-- The constants CAUSE_* of specification.rs stand as numbers; the cause is cut to 8 bits.
unfoldable pub trap_cause : ℕ → ℕ → ℕ → TrapCause
unfolding is_bit_enabled decode
trap_cause cause extension_id function_id =
    let code = cause % 256 in
    if is_bit_enabled cause 63
    then interrupt
    else if code == 0x2
    then illegal_instruction
    else if code == 0x4
    then load_address_misaligned
    else if code == 0x5
    then load_access_fault
    else if code == 0x6
    then store_address_misaligned
    else if code == 0x7
    then store_access_fault
    else if code == 0x9
    then hs_ecall (decode extension_id function_id)
    else if code == 0xa
    then vs_ecall (decode extension_id function_id)
    else if code == 0xb
    then machine_ecall
    else if code == 0x14
    then guest_instruction_page_fault
    else if code == 0x15
    then guest_load_page_fault
    else if code == 0x16
    then virtual_instruction
    else if code == 0x17
    then guest_store_page_fault
    else TrapCause.unknown code
