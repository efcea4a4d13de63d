-- ===== src/Spi/Discipline.antt =====
-- The discipline of the lock and of the chip select line, as an automaton over the trace.
use libeos.Prelude.{ℕ, Bool, true, false, Option, none, some, List, [], ◌∷◌, ◌≡◌, arith}
use libeos.Spi.Machine.{
  Event, lock, unlock, select, deselect, received, sent, waited, configured, Sys, Act, lock_spi,
  unlock_spi, call_enable, call_disable, put_recv, put_send, Bus,
}
use libeos.Spi.Chip.{Buffer, recv_buffer, send_buffer, null, spi_transfer}
use libeos.Spi.Memory.{wait_us}
use libeos.Spi.Triple.{Triple, Ends, Triple-modify}

-- Nothing held; `spi_lock` held; the chip selected too; a rule broken.
pub data Phase : Type 0 where
  idle held selected broken : Phase

-- `wired` says that the callbacks exist: if so a transfer needs the chip selected, if not the
-- controller drives the line and the lock is enough.
abbrev pub next : Bool → Phase → Event → Phase
next wired idle lock = held
next wired held unlock = idle
next wired held select = selected
next wired selected deselect = held
next wired selected (received n) = selected
next wired selected (sent bytes) = selected
next true held (waited us) = held
next false held (waited us) = held
next false held (received n) = held
next false held (sent bytes) = held
next wired held (configured r v) = held
next wired phase event = broken

-- The phase after a trace, whose latest event comes first.
abbrev pub phase : Bool → List Event → Phase
phase wired [] = idle
phase wired (e ∷ log) = next wired (phase wired log) e

abbrev pub is_some {ℓ} : {A : Type ℓ} → Option A → Bool
is_some none = false
is_some (some a) = true

-- Both callbacks exist, or neither does, and the trace has come to a phase without a fault.
pub record In {W : Type 0} (wired : Bool) (ph : Phase) (s : Sys W) : Type 0 where
  pub has_enable : is_some s.enable ≡ wired
  pub has_disable : is_some s.disable ≡ wired
  pub at_phase : phase wired s.log ≡ ph

-- Where a transfer may happen.
abbrev pub transferring : Bool → Phase
transferring true = selected
transferring false = held

module _ {W : Type 0} (wired : Bool) where
  -- A step of a method that holds the lock; if the method returns, the lock is free.
  abbrev pub Steps : {A : Type 0} → Phase → Act W A → Phase → Type 0
  Steps from m to = Triple (In wired from) m (λ _. In wired to) (λ _. In wired idle)

  pub lock_spi-Steps : Steps idle lock_spi held
  unfolding lock_spi
  lock_spi-Steps = Triple-modify _ (λ s h. ground arith)

  pub unlock_spi-Steps : Steps held unlock_spi idle
  unfolding unlock_spi
  unlock_spi-Steps = Triple-modify _ (λ s h. ground arith)

  call_enable-In : (s : Sys W) → In wired held s → In wired (transferring wired) (call_enable s).1
  unfolding call_enable
  call_enable-In s h = ground arith

  call_disable-In : (s : Sys W) → In wired (transferring wired) s → In wired held (call_disable s).1
  unfolding call_disable
  call_disable-In s h = ground arith

  pub call_enable-Steps : Steps held call_enable (transferring wired)
  unfolding call_enable
  call_enable-Steps = record { at = call_enable-In }

  pub call_disable-Steps : Steps (transferring wired) call_disable held
  unfolding call_disable
  call_disable-Steps = record { at = call_disable-In }

  pub put_recv-Steps : (bytes : List ℕ) (ph : Phase) → Steps ph (put_recv bytes) ph
  unfolding put_recv
  put_recv-Steps bytes ph = Triple-modify _ (λ s h. ground arith)

  pub put_send-Steps : (bytes : List ℕ) (ph : Phase) → Steps ph (put_send bytes) ph
  unfolding put_send
  put_send-Steps bytes ph = Triple-modify _ (λ s h. ground arith)

  pub wait_us-Steps : (bus : Bus W) (us : ℕ) → Steps held (wait_us bus us) held
  unfolding wait_us
  wait_us-Steps bus us = Triple-modify _ (λ s h. ground arith)

  spi_transfer-at :
      (bus : Bus W) (b : Buffer) (rx tx : ℕ) (s : Sys W)
      → In wired (transferring wired) s
      → Ends (λ _. In wired (transferring wired)) (λ _. In wired idle) (spi_transfer bus b rx tx s)
  unfolding spi_transfer
  spi_transfer-at bus recv_buffer rx tx s h = ground arith
  spi_transfer-at bus send_buffer rx tx s h = ground arith
  spi_transfer-at bus null rx tx s h = h

  pub spi_transfer-Steps :
      (bus : Bus W) (b : Buffer) (rx tx : ℕ)
      → Steps (transferring wired) (spi_transfer bus b rx tx) (transferring wired)
  spi_transfer-Steps bus b rx tx = record { at = spi_transfer-at bus b rx tx }
