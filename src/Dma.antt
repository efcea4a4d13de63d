-- ===== src/Dma.antt =====
-- The DMA engines: eos_lib/eos_lib/eos_cpu_dma.cpp, and eos_lib/eos_lib/eos_cpu_dma_proxy.cpp in
-- Dma/Proxy.antt.
pub mod Lengths
pub mod Buffers
pub mod Proxy
mod Tests
use Prim.Native.String.{String}
use libeos.Prelude.{
  ℕ, zero, suc, ◌+◌, ◌-◌, ◌*◌, ◌%◌, ◌^◌, ℤ, pos, negsuc, minus_one, is_neg, is_minus_one, Bool,
  true, Option, none, some, List, [], ◌∷◌, ltb, leb, ◌||◌, if◌then◌else◌,
}

-- EOS_DMA_MAX_LEN, EOS_DMA_MAX_BLOCK and EOS_DMA_MAX_CHANNEL
abbrev pub dma_max_len : ℕ
dma_max_len = 0xa000

abbrev pub dma_max_block : ℕ
dma_max_block = 10

-- The caller's array p[][2] of physical addresses and lengths.
abbrev pub Blocks : Type 0
Blocks = ℕ → ℕ × ℕ

-- An argument that goes to the driver, with `num` entries of `addr_size` filled.
pub data Request : Type 0 where
  -- EOS_SET_DMA_ARG with eos_dma_arg or eos_dma_arg_channel, EOS_START_DMA_TRANSFER with NULL or a
  -- channel, EOS_READ_BUFFER_DATA with an offset
  set_dma_arg : (addr_size : List (ℕ × ℕ)) (num : ℕ) (ch_num : Option ℤ) → Request
  start_dma_transfer : (channel : Option ℤ) → Request
  read_buffer_data : (off : ℕ) → Request
  -- eos_dma_proxy_sg_arg and eos_dma_proxy_memcpy_arg
  proxy_sg : (addr_size : List (ℕ × ℕ)) (num dir : ℕ) → Request
  proxy_memcpy : (addr size dir : ℕ) → Request

-- What the code uses of the system and the drivers. `get_dma_addr` is the ioctl that fills in an
-- address, from what the variable held; `read_status` is read() of the four bytes of a status; and
-- `proxy_status` is the status in the memory that a proxy driver shares.
pub record Driver (W : Type 0) : Type 0 where
  pub sys_open : String → W → ℤ × W
  pub sys_close : ℤ → W → ℤ × W
  pub ioctl : ℤ → Request → W → ℤ × W
  pub get_dma_addr : ℤ → ℤ → W → ℤ × ℕ × W
  pub read_status : ℤ → ℤ → W → ℤ × W
  pub sys_mmap : ℤ → ℕ → W → Option ℕ × W
  pub sys_munmap : ℕ → W → W
  pub proxy_status : W → ℕ

-- The requests that were sent, the latest first, and what is open and mapped.
pub record Host (W : Type 0) : Type 0 where
  pub requests : List Request
  pub files : ℕ
  pub mappings : ℕ
  pub world : W

-- for(i = 0; i < num; i++) { all_length += p[i][1]; } in `unsigned int`
unfoldable pub sum_lengths : Blocks → (i num acc : ℕ) → ℕ
sum_lengths p i zero acc = acc
sum_lengths p i (suc num) acc = sum_lengths p (i + 1) num ((acc + (p i).1) % 2 ^ 32)

-- The loop that copies `p` into the argument.
unfoldable pub copy_blocks : Blocks → (i num : ℕ) → List (ℕ × ℕ)
copy_blocks p i zero = []
copy_blocks p i (suc num) = p i ∷ copy_blocks p (i + 1) num

module _ {W : Type 0} (dev : Driver W) where
  abbrev pub call_ioctl : ℤ → Request → Host W → ℤ × Host W
  call_ioctl fd r h =
      let (ret, w) = dev.ioctl fd r h.world in
      (ret, record h { world = w; requests = r ∷ h.requests })

  -- if(ret == -1) { return -1; } return 0;
  abbrev pub zero_unless_failed : ℤ × Host W → ℤ × Host W
  zero_unless_failed (ret, h) = (if is_minus_one ret then minus_one else pos 0, h)

  unfoldable pub eos_open_dma : String → Host W → ℤ × Host W
  eos_open_dma devname h =
      let (fd, w) = dev.sys_open devname h.world in
      if is_minus_one fd
      then (minus_one, record h { world = w })
      else (fd, record h { world = w; files = h.files + 1 })

  abbrev pub close_node : ℤ → Host W → Host W
  close_node fd h = record h { world = (dev.sys_close fd h.world).1; files = h.files - 1 }

  unfoldable pub eos_close_dma : ℤ → Host W → ℤ × Host W
  eos_close_dma fd h = (pos 0, close_node fd h)

  -- The two functions for a driver with channels, and the one for a driver that shares a buffer.
  abbrev pub eos_open_dma_channel : String → Host W → ℤ × Host W
  eos_open_dma_channel = eos_open_dma

  abbrev pub eos_close_dma_channel : ℤ → Host W → ℤ × Host W
  eos_close_dma_channel = eos_close_dma

  abbrev pub eos_open_dma_proxy : String → Host W → ℤ × Host W
  eos_open_dma_proxy = eos_open_dma

  unfoldable pub eos_init_dma_arg : ℤ → Blocks → (num : ℕ) → Host W → ℤ × Host W
  unfolding sum_lengths copy_blocks
  eos_init_dma_arg fd p num h =
      if ltb dma_max_block num
      then (minus_one, h)
      else if ltb dma_max_len (sum_lengths p 0 num 0)
      then (minus_one, h)
      else zero_unless_failed (call_ioctl fd (set_dma_arg (copy_blocks p 0 num) num none) h)

  unfoldable pub eos_init_dma_arg_channel :
      ℤ → Blocks → (num : ℕ) (channel : ℤ) → Host W → ℤ × Host W
  unfolding sum_lengths copy_blocks
  eos_init_dma_arg_channel fd p num channel h =
      if ltb dma_max_block num
      then (minus_one, h)
      else if ltb dma_max_len (sum_lengths p 0 num 0)
      then (minus_one, h)
      else zero_unless_failed
          (call_ioctl fd (set_dma_arg (copy_blocks p 0 num) num (some channel)) h)

  unfoldable pub eos_start_dma_transfer : ℤ → Host W → ℤ × Host W
  eos_start_dma_transfer fd h = zero_unless_failed (call_ioctl fd (start_dma_transfer none) h)

  -- channel < 0 or channel >= EOS_DMA_MAX_CHANNEL
  abbrev pub is_no_channel : ℤ → Bool
  is_no_channel (pos n) = leb 2 n
  is_no_channel (negsuc n) = true

  unfoldable pub eos_start_dma_transfer_channel : ℤ → (channel : ℤ) → Host W → ℤ × Host W
  eos_start_dma_transfer_channel fd channel h =
      if is_no_channel channel
      then (minus_one, h)
      else zero_unless_failed (call_ioctl fd (start_dma_transfer (some channel)) h)

  -- From mmap's result on; the address, if there is one, is what `*addr` is set to.
  abbrev pub with_mapped : (mem_fd : ℤ) → Option ℕ → Host W → ℤ × Option ℕ × Host W
  with_mapped mem_fd none h = (minus_one, none, close_node mem_fd h)
  with_mapped mem_fd (some addr) h = (pos 0, some addr, record h { mappings = h.mappings + 1 })

  -- `variable` is what `dma_phy_addr` holds before the ioctl: 0, or the channel.
  unfoldable pub get_buffer_addr : ℤ → (variable : ℤ) → Host W → ℤ × Option ℕ × Host W
  get_buffer_addr fd variable h =
      let (ret, phy, w) = dev.get_dma_addr fd variable h.world in
      if is_minus_one ret
      then (minus_one, none, record h { world = w })
      else let (mem_fd, w2) = dev.sys_open "/dev/mem" w in
        if is_minus_one mem_fd
        then (minus_one, none, record h { world = w2 })
        else let (addr, w3) = dev.sys_mmap mem_fd phy w2 in
          with_mapped mem_fd addr (record h { world = w3; files = h.files + 1 })

  unfoldable pub eos_get_dma_buffer_addr : ℤ → Host W → ℤ × Option ℕ × Host W
  unfolding get_buffer_addr
  eos_get_dma_buffer_addr fd h = get_buffer_addr fd (pos 0) h

  unfoldable pub eos_get_dma_buffer_addr_channel :
      ℤ → (channel : ℤ) → Host W → ℤ × Option ℕ × Host W
  unfolding get_buffer_addr
  eos_get_dma_buffer_addr_channel fd channel h = get_buffer_addr fd channel h

  -- `stale` is what the uninitialised `status` holds, which a read() that fails leaves there.
  unfoldable pub eos_get_dma_status : ℤ → (stale : ℤ) → Host W → ℤ × Host W
  eos_get_dma_status fd stale h =
      let (status, w) = dev.read_status fd stale h.world in (status, record h { world = w })

  unfoldable pub eos_get_dma_status_channel : ℤ → (channel : ℤ) → Host W → ℤ × Host W
  eos_get_dma_status_channel fd channel h =
      let (status, w) = dev.read_status fd channel h.world in (status, record h { world = w })

  unfoldable pub eos_print_dma_data : String → (addr : ℕ) → Host W → ℤ × Host W
  eos_print_dma_data devname addr h =
      let (fd, w) = dev.sys_open devname h.world in
      if is_minus_one fd
      then (minus_one, record h { world = w })
      else let (ret, h') =
          call_ioctl fd (read_buffer_data addr) (record h { world = w; files = h.files + 1 }) in
        (pos 0, close_node fd h')
