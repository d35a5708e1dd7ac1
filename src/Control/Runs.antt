-- ===== src/Control/Runs.antt =====
-- confidential_flow/control_flow and non_confidential_flow: every run of one hardware hart, as a sequence
-- of entries into the security monitor. Between two of them the hypervisor or the confidential hart runs.
use ace_riscv.Base.{ℕ, ◌≡◌, subst, arith, ok, >>=-ok-elim}
use ace_riscv.Riscv.Csr.{Csrs}
use ace_riscv.Riscv.CompressedInstructions.{DecodedInstruction}
use ace_riscv.Memory.Layout.{MemoryLayout}
use ace_riscv.Riscv.Pmp.{SameProtection, Access-same, IsConfigured, IsConfigured-same}
use ace_riscv.Control.Declassify.{trap_reason}
use ace_riscv.Control.Exits.{Monitor, Exit, to_hypervisor, to_confidential_hart}
use ace_riscv.Control.Dispatch.{dispatch}
use ace_riscv.Control.Flow.{enter_confidential_flow, route_confidential_flow}
use ace_riscv.Control.Flow.Safety.{IsGuarded, Closed}
use ace_riscv.Control.Flow.Routes.{route-Closed}
use ace_riscv.Control.Router.{SbiTrapRegs, Environment, route_non_confidential_flow}
use ace_riscv.Control.Router.Closing.{route_non_confidential_flow-Closed}

-- What the hypervisor can do to a hardware hart before it calls the security monitor: it reaches neither
-- the protection registers nor the hart that is assigned.
unfoldable pub IsReachable : Monitor → Monitor → Type 0
IsReachable m m' =
    SameProtection m.hardware_hart.csrs m'.hardware_hart.csrs
    × (m'.hardware_hart.confidential_hart ≡ m.hardware_hart.confidential_hart)

module _ (env : Environment) (decode : ℕ → DecodedInstruction) (instruction_length : ℕ → ℕ) where
  -- One entry into the security monitor, from the exit before to the exit after it. A confidential hart can
  -- have done anything but change the protection registers, which only machine mode reaches.
  pub data Enters : Exit → Exit → Type 0 where
    traps :
        (m m' : Monitor) (x : Exit)
        → SameProtection m.hardware_hart.csrs m'.hardware_hart.csrs
        → route_confidential_flow env.state_address env.send_ipi decode instruction_length m' ≡ ok x
        → Enters (to_confidential_hart m) x
    calls :
        (m m' : Monitor) (x : Exit)
        → IsReachable m m'
        → route_non_confidential_flow env m' ≡ ok x
        → Enters (to_hypervisor m) x

  pub data Run : Exit → Exit → Type 0 where
    done : (x : Exit) → Run x x
    enters : {x y z : Exit} → Enters x y → Run y z → Run x z

  route_confidential_flow-closes :
      (l : MemoryLayout) (m : Monitor) {x : Exit}
      → IsGuarded l m
      → route_confidential_flow env.state_address env.send_ipi decode instruction_length m ≡ ok x
      → Closed l x
  unfolding route_confidential_flow enter_confidential_flow
  route_confidential_flow-closes l m {x} g q =
      >>=-ok-elim (enter_confidential_flow env.state_address env.send_ipi m) _ q (λ m' a q1.
        let h = m'.hardware_hart.confidential_hart in
        let e : m.hardware_hart.csrs ≡ m'.hardware_hart.csrs = ground arith in
        >>=-ok-elim
          (dispatch decode instruction_length (trap_reason m'.hardware_hart.csrs h.state) h
            m'.hardware_hart.csrs)
          _ q1
          (λ t b q2.
            route-Closed l env.state_address env.send_ipi t m' x (subst (IsConfigured l) e g) q2))

  module _ (l : MemoryLayout)
      (keeps : (regs : SbiTrapRegs) (csrs : Csrs)
        → SameProtection csrs (env.sbi_trap_handler regs csrs).1) where
    Enters-Closed : {x y : Exit} → Enters x y → Closed l x → Closed l y
    unfolding IsReachable Closed
    Enters-Closed (traps m m' y s q) c =
        route_confidential_flow-closes l m'
          (IsConfigured-same l m.hardware_hart.csrs m'.hardware_hart.csrs s c) q
    Enters-Closed (calls m m' y (s, k) q) (a, b) =
        route_non_confidential_flow-Closed l env keeps m' y
          (Access-same l 0 m.hardware_hart.csrs m'.hardware_hart.csrs s a, rw k b) q

    -- Of every run of a hardware hart, of any traps of confidential harts and any calls of the hypervisor:
    -- if at its start the first two protection entries describe the confidential memory of a layout and,
    -- where it starts at an exit to the hypervisor, deny every access to it while a dummy hart is
    -- assigned, then so they do at its end; and a run may end at any of its exits. Between two entries
    -- of the monitor, the hypervisor and the confidential hart leave the protection registers and the
    -- former the assigned hart as they are, and OpenSBI keeps these registers.
    pub Run-Closed : {x y : Exit} → Closed l x → Run x y → Closed l y
    Run-Closed c (done x) = c
    Run-Closed c (enters e r) = Run-Closed (Enters-Closed e c) r
