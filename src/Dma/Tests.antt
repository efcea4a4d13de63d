-- ===== src/Dma/Tests.antt =====
-- The theorems on the DMA engines at concrete inputs, on a driver whose calls succeed.
use libeos.Prelude.{ℕ, ◌+◌, pos, some, none, [], arith}
use libeos.Dma.{
  Blocks, Driver, Host, eos_init_dma_arg, eos_init_dma_arg_channel, eos_get_dma_buffer_addr,
  eos_get_dma_buffer_addr_channel,
}
use libeos.Dma.Lengths.{Sent, eos_init_dma_arg_sends}
use libeos.Dma.Buffers.{Looked, eos_get_dma_buffer_addr-Looked}
use libeos.Dma.Proxy.{eos_start_dma_proxy_sg_transfer, eos_start_dma_proxy_memcpy_transfer}
use libeos.Dma.Proxy.Transfers.{Fails, eos_start_dma_proxy-Fails}

-- The world counts the requests.
abbrev engine : Driver ℕ
engine = record {
  sys_open = λ name w. (pos 3, w);
  sys_close = λ fd w. (pos 0, w);
  ioctl = λ fd r w. (pos 0, w + 1);
  get_dma_addr = λ fd variable w. (pos 0, 0x8000, w + 1);
  read_status = λ fd stale w. (pos 0, w);
  sys_mmap = λ fd phy w. (some 0x4000, w);
  sys_munmap = λ addr w. w;
  proxy_status = λ w. 0;
}

abbrev host : Host ℕ
host = record { requests = []; files = 1; mappings = 0; world = 0 }

-- Blocks of 0x1000 bytes each.
abbrev pages : Blocks
pages i = (i, 0x1000)

eos_init_dma_arg_sends_example :
    Sent engine (pos 3) pages 3 none host (eos_init_dma_arg engine (pos 3) pages 3 host)
    × Sent engine
        (pos 3)
        pages
        3
        (some (pos 1))
        host
        (eos_init_dma_arg_channel engine (pos 3) pages 3 (pos 1) host)
eos_init_dma_arg_sends_example =
    eos_init_dma_arg_sends engine (pos 3) pages 3 host (pos 1) (omega arith) (omega arith)

eos_get_dma_buffer_addr-Looked_example :
    Looked host (eos_get_dma_buffer_addr engine (pos 3) host)
    × Looked host (eos_get_dma_buffer_addr_channel engine (pos 3) (pos 1) host)
eos_get_dma_buffer_addr-Looked_example = eos_get_dma_buffer_addr-Looked engine (pos 3) (pos 1) host

eos_start_dma_proxy-Fails_example :
    Fails host (eos_start_dma_proxy_sg_transfer engine (pos 3) pages 3 1 host)
    × Fails host (eos_start_dma_proxy_memcpy_transfer engine (pos 3) 0x1000 64 1 host)
eos_start_dma_proxy-Fails_example =
    eos_start_dma_proxy-Fails engine (pos 3) pages 3 0x1000 64 1 host
