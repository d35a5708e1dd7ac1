-- ===== src/Riscv/Sbi/Decoding.antt =====
-- core/architecture/riscv/supervisor_binary_interface.rs: the numbers that the specification gives to each
-- function, independent of the decoder.
use ace_riscv.Base.{ℕ, ◌≡◌, arith}
use ace_riscv.Riscv.Sbi.{
  AceExtension, promote_to_confidential_vm, resume_confidential_hart, share_page_with_hypervisor,
  stop_sharing_page_with_hypervisor, terminate_confidential_vm, print_debug_info,
  ace_from_function_id, BaseExtension, get_spec_version, get_impl_id, get_impl_version,
  probe_extension, get_mvendor_id, get_marchid, get_mimpid, base_from_function_id, IpiExtension,
  send_ipi, ipi_from_function_id, RfenceExtension, remote_fence_i, remote_sfence_vma,
  remote_sfence_vma_asid, remote_hfence_gvma_vmid, remote_hfence_gvma, remote_hfence_vvma_asid,
  remote_hfence_vvma, rfence_from_function_id, HsmExtension, hart_start, hart_stop, hart_get_status,
  hart_suspend, hsm_from_function_id, SrstExtension, system_reset, srst_from_function_id,
  SbiExtension, ace, base, ipi, rfence, hsm, srst, decode,
}

unfoldable pub ace_number : AceExtension → ℕ
ace_number promote_to_confidential_vm = 1000
ace_number resume_confidential_hart = 1010
ace_number share_page_with_hypervisor = 2000
ace_number stop_sharing_page_with_hypervisor = 2001
ace_number terminate_confidential_vm = 3001
ace_number print_debug_info = 9000
ace_number (AceExtension.unknown e i) = i

unfoldable pub base_number : BaseExtension → ℕ
base_number get_spec_version = 0
base_number get_impl_id = 1
base_number get_impl_version = 2
base_number probe_extension = 3
base_number get_mvendor_id = 4
base_number get_marchid = 5
base_number get_mimpid = 6
base_number (BaseExtension.unknown e i) = i

unfoldable pub ipi_number : IpiExtension → ℕ
ipi_number send_ipi = 0
ipi_number (IpiExtension.unknown e i) = i

unfoldable pub rfence_number : RfenceExtension → ℕ
rfence_number remote_fence_i = 0
rfence_number remote_sfence_vma = 1
rfence_number remote_sfence_vma_asid = 2
rfence_number remote_hfence_gvma_vmid = 3
rfence_number remote_hfence_gvma = 4
rfence_number remote_hfence_vvma_asid = 5
rfence_number remote_hfence_vvma = 6
rfence_number (RfenceExtension.unknown e i) = i

unfoldable pub hsm_number : HsmExtension → ℕ
hsm_number hart_start = 0
hsm_number hart_stop = 1
hsm_number hart_get_status = 2
hsm_number hart_suspend = 3
hsm_number (HsmExtension.unknown e i) = i

unfoldable pub srst_number : SrstExtension → ℕ
srst_number system_reset = 0
srst_number (SrstExtension.unknown e i) = i

-- The registers `a7` and `a6` of a call.
unfoldable pub call_registers : SbiExtension → ℕ × ℕ
unfolding ace_number base_number ipi_number rfence_number hsm_number srst_number
call_registers (ace f) = (0x510000, ace_number f)
call_registers (base f) = (0x10, base_number f)
call_registers (ipi f) = (0x735049, ipi_number f)
call_registers (rfence f) = (0x52464e43, rfence_number f)
call_registers (hsm f) = (0x48534d, hsm_number f)
call_registers (srst f) = (0x53525354, srst_number f)
call_registers (SbiExtension.unknown e i) = (e, i)

ace_number_lem : (i : ℕ) → ace_number (ace_from_function_id i) ≡ i
unfolding ace_number ace_from_function_id
ace_number_lem i = ground arith

base_number_lem : (i : ℕ) → base_number (base_from_function_id i) ≡ i
unfolding base_number base_from_function_id
base_number_lem i = ground arith

ipi_number_lem : (i : ℕ) → ipi_number (ipi_from_function_id i) ≡ i
unfolding ipi_number ipi_from_function_id
ipi_number_lem i = ground arith

rfence_number_lem : (i : ℕ) → rfence_number (rfence_from_function_id i) ≡ i
unfolding rfence_number rfence_from_function_id
rfence_number_lem i = ground arith

hsm_number_lem : (i : ℕ) → hsm_number (hsm_from_function_id i) ≡ i
unfolding hsm_number hsm_from_function_id
hsm_number_lem i = ground arith

srst_number_lem : (i : ℕ) → srst_number (srst_from_function_id i) ≡ i
unfolding srst_number srst_from_function_id
srst_number_lem i = ground arith

-- The call that two registers decode to has these registers, whatever they hold: the decoder confuses no
-- two calls and gives each function the numbers of the specification.
pub decode_roundtrip : (a7 a6 : ℕ) → call_registers (decode a7 a6) ≡ (a7, a6)
unfolding call_registers decode
decode_roundtrip a7 a6 = ground (
  arith,
  ace_number_lem a6,
  base_number_lem a6,
  ipi_number_lem a6,
  rfence_number_lem a6,
  hsm_number_lem a6,
  srst_number_lem a6,
)
