-- ===== src/Page/Handover.antt =====
-- The end of `enable_paging` of src/page.c: the table it leaves is the one that the later calls find.
use mathlib.Core.Path.{subst}
use fifth_kernel.Base.{
  ℕ, ◌+◌, ◌-◌, ◌*◌, ◌/◌, ◌%◌, ◌^◌, ◌≤◌, ◌<◌, ◌≡◌, ◌≢◌, refl, sym, ap, ◌∙◌, arith, true, some, ◌⊎◌,
  inl, inr, bit_or, List, [],
}
use fifth_kernel.Base.Bits.{bit_or_above}
use fifth_kernel.Frame.{frame_count}
use fifth_kernel.Frame.Bitmap.{IsBitmap, allocated}
use fifth_kernel.Frame.Free.{free_frames}
use fifth_kernel.Frame.Lowest.{taken-below}
use fifth_kernel.Memory.{IsBytes}
use fifth_kernel.Machine.{Machine, Csr, Printed}
use fifth_kernel.Page.Walk.{lookup}
use fifth_kernel.Machine.Returns.{Returns, mono}
use fifth_kernel.Page.MapType
use fifth_kernel.Page.Tree.{Place, place, Places, IsRange, IsFramed}
use fifth_kernel.Page.Boot.{enable_paging}
use fifth_kernel.Page.Paged.{IsPaged, space, available}
use fifth_kernel.Page.Requests.{first_request, new_tables}
use fifth_kernel.Page.Enable.{IsTranslated, enable_paging-IsTranslated}
use fifth_kernel.Page.Fill.{boot_requests}
use fifth_kernel.Page.Translated.{IsLayout}
use fifth_kernel.Page.Maps.{boot_requests-AreSmall, memory_reached}
use fifth_kernel.Page.FirstPage.{current}
use fifth_kernel.Page.Through.{seen, satp_root, through, seen-page}
use fifth_kernel.Page.Shifted.{moved, moved-IsTree, moved-lookup}

-- The first `ram_frames` frames of the bitmap are in memory, the frames that are allocated are among
-- them, and so are frames enough for the tables; the frames of the bitmap lie below the higher half.
pub record IsRam (ram_frames : ℕ) (s : Machine) : Type 0 where
  pub in_bitmap : ram_frames ≤ frame_count
  pub in_ram : 4096 * ram_frames ≤ s.device.ram_size
  pub taken_low : (f : ℕ) → f < frame_count → allocated s.frames f ≡ true → f < ram_frames
  pub enough : 1 + 2 * new_tables [] (boot_requests s) < free_frames ram_frames s.frames
  pub low : s.device.ram_start + 4096 * frame_count ≤ 4096 * (2 ^ 26 - 2 ^ 20)

satp_value : (r : ℕ) → r < 2 ^ 60 → bit_or r MapType.paging_mode_sv39 ≡ r + 8 * 2 ^ 60
satp_value r small = bit_or_above 60 8 r small

-- Through the table that `satp` names, at `current_pt`, the table is well formed, and it stands for
-- the address space that was asked for.
pub record IsHandedOver (s s' : Machine) : Type 0 where
  pub places : Places
  pub paged : IsPaged places (current (through s')) (through s')
  pub given : current (through s') ≢ 0
  pub mapped :
      (v : ℕ)
      → v < 2 ^ 27
      → space (current (through s')) (through s') v ≡ first_request (boot_requests s) v
  pub looked :
      (v : ℕ) → v < 2 ^ 27 → lookup s'.memory 0 (satp_root s') v ≡ first_request (boot_requests s) v
  pub bytes : IsBytes s.memory → IsBytes s'.memory
  pub rest : s' ≡ record s {
    frames = s'.frames;
    memory = s'.memory;
    flushes = s'.flushes;
    csr = s'.csr;
    console = s'.console;
    ident_map_addr = MapType.ident_map_addr;
  }

module _ (s s' : Machine) (ram_frames : ℕ) (ram : IsRam ram_frames s) (layout : IsLayout s)
    (aligned : s.device.ram_start % 4096 ≡ 0) (t : IsTranslated s s') where
  device_same : s'.device ≡ s.device
  device_same = ap (λ z. z.device) t.rest

  ident_same : s'.ident_map_addr ≡ MapType.ident_map_addr
  ident_same = ap (λ z. z.ident_map_addr) t.rest

  tree_placed :
      (x : ℕ) (pl : Place)
      → t.places x ≡ some pl
      → (f : ℕ) × (f < ram_frames) × (x ≡ s.device.ram_start + 4096 * f)
  tree_placed x pl there = place_of (rw device_same at (t.paged.tree.framed x pl there))
    where
      place_of :
          IsFramed s'.frames s.device.ram_start 0 x
          → (f : ℕ) × (f < ram_frames) × (x ≡ s.device.ram_start + 4096 * f)
      place_of framed = (
        framed.frame,
        below framed.in_bitmap (
            taken-below ram_frames (frame_count - ram_frames)
              (1 + 2 * new_tables [] (boot_requests s)) s.frames s'.frames t.held t.filled
              (rw whole t.frames_left) ram.enough framed.frame framed.taken),
        omega (arith, framed.here),
      )
        where
          whole : ram_frames + (frame_count - ram_frames) ≡ frame_count
          whole = omega (arith, ram.in_bitmap)

          below :
              {f : ℕ}
              → f < frame_count
              → (allocated s.frames f ≡ true) ⊎ (f < ram_frames)
              → f < ram_frames
          below {f} in_bitmap (inl old) = ram.taken_low f in_bitmap old
          below in_bitmap (inr new) = new

  root_placed : (f : ℕ) × (f < ram_frames) × (t.root ≡ s.device.ram_start + 4096 * f)
  root_placed = tree_placed t.root (place 2 0) t.paged.tree.root_placed

  root_low : (t.root % 4096 ≡ 0) × (t.root < 2 ^ 56)
  root_low =
      let (f, small, e) = root_placed in
      (omega (arith, e, aligned), omega (arith, e, ram.in_bitmap, ram.low))

  satp_named : s'.csr.satp ≡ t.root / 4096 + 8 * 2 ^ 60
  satp_named = ap (λ z. z.csr.satp) t.rest ∙ satp_value (t.root / 4096) (omega (arith, root_low.1))

  named : satp_root s' ≡ t.root
  named = omega (arith, satp_named, root_low.0, root_low.1)

  current_moved : current (through s') ≡ t.root + s'.ident_map_addr
  current_moved =
      let (f, small, e) = root_placed in
      omega (arith, satp_named, root_low.0, e, small, ram.in_bitmap, ram.low, ident_same)

  see :
      (x : ℕ) (pl : Place)
      → t.places x ≡ some pl
      → (j : ℕ) → j < 4096
      → s'.memory (x + j) ≡ seen s'.memory t.root (x + s'.ident_map_addr + j)
  see x pl there j small =
      let (f, low, e) = tree_placed x pl there in
      let a : ℕ = x + j in
      let at : (a + s'.ident_map_addr) % 2 ^ 64 / 4096 % 2 ^ 27
          ≡ (x + s'.ident_map_addr + j) / 4096 % 2 ^ 27 =
        omega (arith, e, low, ram.in_bitmap, ram.low, ident_same) in
      let back : a / 4096 * 4096 + (x + s'.ident_map_addr + j) % 4096 ≡ a =
        omega (arith, e, low, ident_same, aligned) in
      sym (
        seen-page s'.memory t.root (x + s'.ident_map_addr + j) (a / 4096)
          (rw at at (
            memory_reached s s' layout t a (omega (arith, e))
              (omega (arith, e, low, ram.in_ram, aligned))))
          (omega (arith, e, low, ram.in_bitmap, ram.low))
        ∙ ap s'.memory back)

  range : IsRange s'.device.ram_start s'.ident_map_addr
  range =
      rw (device_same, ident_same)
        record {
          ram_aligned = aligned;
          ident_aligned = refl;
          no_wrap = omega (arith, ram.low);
          fits = omega (arith, ram.low);
        }

  pub IsTranslated-IsHandedOver : IsHandedOver s s'
  IsTranslated-IsHandedOver = record {
    places = moved t.places s'.ident_map_addr;
    paged = record {
      tree =
          rw (current_moved, named) (moved-IsTree t.paged.tree range (seen s'.memory t.root) see);
      bitmap = t.paged.bitmap;
      range = range;
    };
    given = omega (arith, current_moved, ident_same);
    mapped = λ v small.
        rw (current_moved, named)
          (moved-lookup t.paged.tree range (seen s'.memory t.root) see v small ∙ t.mapped v small);
    looked = rw named t.mapped;
    bytes = t.bytes;
    rest =
        t.rest
        ∙ ap {A = Csr × List Printed} {B = Machine}
            (λ c. record s {
              frames = s'.frames;
              memory = s'.memory;
              flushes = s'.flushes;
              csr = c.0;
              console = c.1;
              ident_map_addr = MapType.ident_map_addr;
            })
            (sym (ap {A = Machine} {B = Csr × List Printed} (λ z. (z.csr, z.console)) t.rest));
  }

-- Other registers than `satp`, and the console, do not matter.
pub IsHandedOver-same :
    (s x s' : Machine)
    → s' ≡ record x { csr = s'.csr; console = s'.console }
    → s'.csr.satp ≡ x.csr.satp
    → IsHandedOver s x
    → IsHandedOver s s'
IsHandedOver-same s x s' rest e h =
    subst (λ z. IsHandedOver s z) (sym rest)
      record {
        places = h.places;
        paged = record { tree = rw e h.paged.tree; bitmap = h.paged.bitmap; range = h.paged.range };
        given = rw e h.given;
        mapped = rw e h.mapped;
        looked = rw e h.looked;
        bytes = h.bytes;
        rest =
            ap {A = Machine} {B = Machine} (λ z. record z { csr = s'.csr; console = s'.console })
              h.rest;
      }

-- `enable_paging` returns, under the conditions of `IsLayout` and `IsRam`, in a state whose table is
-- the one that the later calls find: through the translation by the table that `satp` names, the
-- table at `current_pt` is well formed, with `ident_map_addr` as the distance at which its tables
-- are seen, and it maps exactly what was asked for.
pub enable_paging-IsHandedOver :
    (s : Machine) (ram_frames : ℕ)
    → IsBitmap s.frames
    → IsRange s.device.ram_start 0
    → 0 < s.device.ram_start
    → IsLayout s
    → IsRam ram_frames s
    → 1 + 2 * new_tables [] (boot_requests s) ≤ available s
    → Returns (λ _ s'. IsHandedOver s s') (enable_paging s)
enable_paging-IsHandedOver s ram_frames bytes range above layout ram enough =
    mono (enable_paging-IsTranslated s bytes range above (boot_requests-AreSmall s layout) enough)
      (λ _ s' t. IsTranslated-IsHandedOver s s' ram_frames ram layout range.ram_aligned t)
