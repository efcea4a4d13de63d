-- ===== src/Spi/Memory/RoundTrip.antt =====
-- A write, and a read of the same place after it, for any of the chips without pages.
use libeos.Prelude.{
  ℕ, ◌+◌, ◌≤◌, ◌<◌, ◌≡◌, refl, sym, pos, to_int, List, Buf, memcpy, memcpy-zero, memcpy-back, ◌∙◌,
}
use libeos.Spi.Machine.{Bus, Sys, Act, call}
use libeos.Spi.Memory.{device_read, device_write, ulong_mod}
use libeos.Spi.Memory.Behaviour.{MemoryChip, Quiet, Encodes}
use libeos.Spi.Memory.WriteRound.{Waits}
use libeos.Spi.Memory.Reading
use libeos.Spi.Memory.Writing
use libeos.Spi.Triple.{Triple-result}

module _ {W : Type 0} {bus : Bus W} {addr_len capacity slack : ℕ}
    (c : MemoryChip bus addr_len capacity slack) where
  -- The chip is ready, and the callbacks of the object do nothing to what it holds.
  pub record Attached (s : Sys W) : Type 0 where
    pub quiet_enable : Quiet c s.enable
    pub quiet_disable : Quiet c s.disable
    pub ready : c.busy s.world ≡ 0

  -- A call has left the chip with this content, and attached.
  pub record Leaves (content : Buf) (s : Sys W) : Type 0 where
    pub attached : Attached s
    pub holds : c.mem s.world ≡ content

  module _ (addr_bytes : ℕ → List ℕ) (enc : Encodes addr_bytes addr_len capacity)
      (small : capacity < ulong_mod) (room : addr_len < 31) (start len : ℕ) where
    -- A read returns the length, copies the cells, and leaves the chip as it was.
    pub device_read-copies :
        (s : Sys W)
        → Attached s
        → start + len ≤ capacity
        → let (ret, t) = call (device_read bus addr_len addr_bytes start len) s in
          (ret ≡ to_int len)
          × (t.data_buf ≡ memcpy s.data_buf 0 (c.mem s.world) start len)
          × Leaves (c.mem s.world) t
    device_read-copies s a fits =
        let begins : Reading.Begins c addr_bytes enc s.data_buf (c.mem s.world) start s = record {
          quiet_enable = a.quiet_enable;
          quiet_disable = a.quiet_disable;
          holds = refl;
          ready = a.ready;
          count = refl;
          copied = sym (memcpy-zero s.data_buf (c.mem s.world) 0 start);
        } in
        let (ret, g) =
          Triple-result _
            (Reading.device_read-Triple c addr_bytes enc s.data_buf (c.mem s.world) start small room
              len fits)
            s begins in
        (
          ret,
          g.copied,
          record {
            attached = record {
              quiet_enable = g.quiet_enable;
              quiet_disable = g.quiet_disable;
              ready = g.ready;
            };
            holds = g.holds;
          },
        )

    -- A write returns 0, and the chip holds the bytes, and elsewhere what it held.
    pub device_write-stores :
        {wait : Act W (Unit {0})}
        → ((source before : Buf) → Waits c addr_bytes enc source before start wait)
        → (s : Sys W) → Attached s
        → start + len ≤ capacity
        → let (ret, t) = call (device_write bus addr_len addr_bytes wait start len) s in
          (ret ≡ pos 0)
          × (t.data_buf ≡ s.data_buf)
          × Leaves (memcpy (c.mem s.world) start s.data_buf 0 len) t
    device_write-stores {wait} waits s a fits =
        let begins : Writing.Begins c addr_bytes enc s.data_buf (c.mem s.world) start s = (
          record {
            quiet_enable = a.quiet_enable;
            quiet_disable = a.quiet_disable;
            holds = sym (memcpy-zero (c.mem s.world) s.data_buf start 0);
            count = refl;
            unread = refl;
          },
          a.ready,
        ) in
        let (ret, (g, ready)) =
          Triple-result _
            (Writing.device_write-Triple c addr_bytes enc s.data_buf (c.mem s.world) start small
              room (waits s.data_buf (c.mem s.world)) len fits)
            s begins in
        (
          ret,
          g.unread,
          record {
            attached = record {
              quiet_enable = g.quiet_enable;
              quiet_disable = g.quiet_disable;
              ready = ready;
            };
            holds = g.holds;
          },
        )

    -- A write, and then a read of the same place into a buffer that held `other`.
    pub device_read-device_write :
        {wait : Act W (Unit {0})}
        → ((source before : Buf) → Waits c addr_bytes enc source before start wait)
        → (other : Buf) (s : Sys W) → Attached s
        → start + len ≤ capacity
        → let (written, t) = call (device_write bus addr_len addr_bytes wait start len) s in
          let (got, u) =
            call (device_read bus addr_len addr_bytes start len) (record t { data_buf = other }) in
          (written ≡ pos 0)
          × (got ≡ to_int len)
          × (u.data_buf ≡ memcpy other 0 s.data_buf 0 len)
          × Leaves (memcpy (c.mem s.world) start s.data_buf 0 len) u
    device_read-device_write {wait} waits other s a fits =
        let (written, kept, left) = device_write-stores waits s a fits in
        let t = (call (device_write bus addr_len addr_bytes wait start len) s).1 in
        let b = left.attached in
        let again : Attached (record t { data_buf = other }) = record {
          quiet_enable = b.quiet_enable;
          quiet_disable = b.quiet_disable;
          ready = b.ready;
        } in
        let (got, copied, after) = device_read-copies (record t { data_buf = other }) again fits in
        (
          written,
          got,
          copied
              ∙ (λ i. memcpy other 0 (left.holds i) start len)
              ∙ memcpy-back other (c.mem s.world) s.data_buf start len,
          record { attached = after.attached; holds = after.holds ∙ left.holds },
        )
