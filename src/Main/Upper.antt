-- ===== src/Main/Upper.antt =====
-- `setup_post_relocation` of src/asm/post_relocation.S, which `kernel_init` of src/main.c jumps to, and
-- what it calls: `modify_rodata_ptrs` and `kernel_main`.
use fifth_kernel.Base.{ℕ, ◌+◌, ◌*◌, ◌/◌, ◌^◌, ◌≤◌, ◌<◌, ◌≡◌, ◌≢◌, ap, ◌∙◌, arith, ◌⊎◌, inl, inr}
use fifth_kernel.Memory.{IsBytes}
use fifth_kernel.Machine.{Machine, Csr, u64}
use fifth_kernel.Machine.Returns.{Returns, bind, mono}
use fifth_kernel.Page.Boot.{kernel_start_page, kernel_end_page}
use fifth_kernel.Page.Tree.{Places}
use fifth_kernel.Page.Beside.{IsBeside, IsBeside-IsPaged, IsBeside-space}
use fifth_kernel.Page.Paged.{IsPaged, space}
use fifth_kernel.Page.Requests.{first_request}
use fifth_kernel.Page.Fill.{boot_requests}
use fifth_kernel.Page.Translated.{IsLayout}
use fifth_kernel.Page.FirstPage.{current}
use fifth_kernel.ElfFormat.{ehdr}
use fifth_kernel.Elf.Entries.{IsSmall}
use fifth_kernel.Main.{kernel_main, setup_post_relocation}
use fifth_kernel.Main.Rodata.{Relocates, modify_rodata_ptrs-Relocates}
use fifth_kernel.Main.Handover.{IsHigh, IsCleared-IsHigh}
use fifth_kernel.Main.Kernel.{IsRunning, IsSmall-same, kernel_main-IsRunning}

-- The kernel when it comes to its loop, where `s` was the state behind the jump: the lower half has
-- none of its pages and the higher half all of them, its counter is set, and the trap stack is the
-- one of the higher half.
pub record IsUpper (before : Machine) (diff : ℕ) (s s' : Machine) : Type 0 where
  pub high : IsHigh before (current s) s'
  pub counter : s'.counter ≡ 69
  pub csr : s'.csr ≡ record s.csr { sscratch = u64 (s.csr.sscratch + diff) }
  pub device : s'.device ≡ s.device
  pub bytes : IsBytes s'.memory

-- The table at `current_pt` is well formed, and maps what was asked for.
pub record IsJumped (before s : Machine) : Type 0 where
  pub places : Places
  pub paged : IsPaged places (current s) s
  pub given : current s ≢ 0
  pub asked : (v : ℕ) → v < 2 ^ 27 → space (current s) s v ≡ first_request (boot_requests before) v
  pub starts : s.kernel_start_addr ≡ before.kernel_start_addr
  pub ends : s.kernel_end_addr ≡ before.kernel_end_addr
  pub layout : IsLayout before
  pub order : kernel_start_page before ≤ kernel_end_page before
  pub bytes : IsBytes s.memory

module _ (before s : Machine) (jumped : IsJumped before s) (diff rodata n start : ℕ)
    (rodata_beside : IsBeside rodata (8 * n) s) (start_beside : IsBeside start 64 s)
    (apart : (start + 64 ≤ rodata) ⊎ (rodata + 8 * n ≤ start))
    (small : IsSmall (ehdr s.memory start)) where
  -- The state in which `modify_rodata_ptrs` is called.
  relocating : Machine
  relocating = record s { csr = record s.csr { sscratch = u64 (s.csr.sscratch + diff) } }

  Relocates-IsUpper :
      (last : ℕ) (u : Unit {0}) (s2 : Machine)
      → Relocates rodata n relocating s2
      → Returns (λ _ s3. IsUpper before diff s s3) (kernel_main start last s2)
  unfolding relocating
  Relocates-IsUpper last u s2 (m, e, out, words, bytes) = rw e (
      mono
        (kernel_main-IsRunning start last (record relocating { memory = m }) jumped.places paged
          jumped.given order low (bytes jumped.bytes) (in_relocating start_beside)
          (IsSmall-same s.memory m start (λ x lo hi. out x (beyond apart lo hi)) small))
        (λ _ s3 running. upper s3 running))
    where
      in_relocating : IsBeside start 64 s → IsBeside start 64 (record relocating { memory = m })
      in_relocating (inl h) = inl h
      in_relocating (inr h) = inr h

      beyond :
          {x : ℕ}
          → (start + 64 ≤ rodata) ⊎ (rodata + 8 * n ≤ start)
          → start ≤ x
          → x < start + 64
          → (x < rodata) ⊎ (rodata + 8 * n ≤ x)
      beyond (inl h) lo hi = inl (omega arith)
      beyond (inr h) lo hi = inr (omega arith)

      paged : IsPaged jumped.places (current s) (record relocating { memory = m })
      paged =
          let p = IsBeside-IsPaged s jumped.paged rodata (8 * n) rodata_beside m out in
          record { tree = p.tree; bitmap = p.bitmap; range = p.range }

      first_same : kernel_start_page s ≡ kernel_start_page before
      first_same = ap (λ z. z / 4096) jumped.starts

      last_same : kernel_end_page s ≡ kernel_end_page before
      last_same = ap (λ z. u64 (z + 4095) / 4096) jumped.ends

      order : kernel_start_page s ≤ kernel_end_page s
      order = omega (arith, first_same, last_same, jumped.order)

      low : kernel_end_page s < 2 ^ 27
      low = omega (arith, last_same, jumped.layout.kernel_low)

      relocated : Machine
      relocated = record relocating { memory = m }

      asked :
          (v : ℕ)
          → v < 2 ^ 27
          → space (current s) relocated v ≡ first_request (boot_requests before) v
      asked v h =
          IsBeside-space s jumped.paged rodata (8 * n) rodata_beside m out v h ∙ jumped.asked v h

      upper :
          (s3 : Machine)
          → IsRunning (current s) (kernel_start_page s) (kernel_end_page s + 1) relocated s3
          → IsUpper before diff s s3
      upper s3 running =
          let c = rw (first_same, last_same) at running.cleared in
          let h =
            IsCleared-IsHigh before (record relocated { counter = 69 }) (current s) jumped.layout
              asked (record s3 { console = s.console }) c in
          record {
            high = record {
              places = h.places;
              paged = record {
                tree = h.paged.tree;
                bitmap = h.paged.bitmap;
                range = h.paged.range;
              };
              low = h.low;
              high = h.high;
            };
            counter = running.counter;
            csr = ap {A = Machine} {B = Csr} (λ z. z.csr) c.rest;
            device = ap (λ z. z.device) c.rest;
            bytes = c.bytes (bytes jumped.bytes);
          }

  pub setup_post_relocation-IsUpper :
      (last : ℕ)
      → rodata + 8 * n + 8 < 2 ^ 64
      → Returns
          (λ _ s'. IsUpper before diff s s')
          (setup_post_relocation diff rodata (rodata + 8 * n) start last s)
  unfolding setup_post_relocation relocating
  setup_post_relocation-IsUpper last fits =
      bind (modify_rodata_ptrs-Relocates rodata n relocating fits) (Relocates-IsUpper last)
