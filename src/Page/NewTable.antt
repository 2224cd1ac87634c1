-- ===== src/Page/NewTable.antt =====
-- `allocate_new_page_table` of src/page.c.
use fifth_kernel.Mem.Copy.{memset_lem}
use fifth_kernel.Machine.Returns.{Returns, returns}
use fifth_kernel.Base.{ℕ, ◌+◌, ◌*◌, ◌<◌, ◌≡◌, arith, true, false, some, ◌==◌, ◌||◌, ◌⊎◌, ◌≤◌, refl}
use fifth_kernel.Mem.{memset}
use fifth_kernel.Frame.{Frames, frame_count, allocate_first_frame}
use fifth_kernel.Frame.Bitmap.{IsBitmap, allocated}
use fifth_kernel.Frame.Search.{IsLowestFree, allocate_first_frame_lem}
use fifth_kernel.Machine.{Machine, done, u64}
use fifth_kernel.Page.{allocate_new_page_table}
use fifth_kernel.Page.Tree.{frame_addr, IsRange}

-- The frames after one was taken.
pub record IsTaken (fs fs' : Frames) (f : ℕ) : Type 0 where
  pub in_bitmap : f < frame_count
  pub was_free : allocated fs f ≡ false
  pub lowest : (x : ℕ) → x < f → allocated fs x ≡ true
  pub bitmap : IsBitmap fs'
  pub marked : (n : ℕ) → allocated fs' n ≡ (n == f || allocated fs n)

allocate_new_page_table_run :
    (s : Machine) (fs : Frames) (f : ℕ)
    → allocate_first_frame s.frames ≡ some (fs, f)
    → (let pt = u64 (s.device.ram_start + 4096 * f + s.ident_map_addr) in
        allocate_new_page_table s
        ≡ done pt (record s { frames = fs; memory = memset s.memory pt 0 4096 }))
unfolding allocate_new_page_table
allocate_new_page_table_run s fs f e = rw (e, allocate_new_page_table)

-- While a frame is free, the call returns the address of a free frame's page, zeroed, and marks
-- the frame.
pub allocate_new_page_table_lem :
    (s : Machine) (n : ℕ)
    → IsBitmap s.frames
    → IsRange s.device.ram_start s.ident_map_addr
    → n < frame_count
    → allocated s.frames n ≡ false
    → (f : ℕ) × (fs : Frames) × IsTaken s.frames fs f
      × (let pt = frame_addr s.device.ram_start s.ident_map_addr f in
          allocate_new_page_table s
          ≡ done pt (record s { frames = fs; memory = memset s.memory pt 0 4096 }))
allocate_new_page_table_lem s n bytes range h free =
    finish (allocate_first_frame_lem s.frames n bytes h free)
  where
    finish :
        (r : ℕ) × (fs' : Frames) × (allocate_first_frame s.frames ≡ some (fs', r))
          × (r < frame_count)
          × IsLowestFree s.frames r
          × IsBitmap fs'
          × ((m : ℕ) → allocated fs' m ≡ (m == r || allocated s.frames m))
        → (f : ℕ) × (fs : Frames) × IsTaken s.frames fs f
          × (let pt = frame_addr s.device.ram_start s.ident_map_addr f in
              allocate_new_page_table s
              ≡ done pt (record s { frames = fs; memory = memset s.memory pt 0 4096 }))
    finish (f, fs, e, small, lowest, bitmap, marked) =
        let fits : u64 (s.device.ram_start + 4096 * f + s.ident_map_addr)
            ≡ frame_addr s.device.ram_start s.ident_map_addr f =
          omega (arith, range.no_wrap) in
        (
          f,
          fs,
          record {
            in_bitmap = small;
            was_free = lowest.free;
            lowest = lowest.lowest;
            bitmap = bitmap;
            marked = marked;
          },
          rw (← fits) (allocate_new_page_table_run s fs f e),
        )

-- What a call that takes a new table leaves: the lowest free frame is taken, its page is zeroed, and
-- nothing else changed.
pub record IsNew (s : Machine) (pt : ℕ) (s' : Machine) : Type 0 where
  pub frame : ℕ
  pub taken : IsTaken s.frames s'.frames frame
  pub here : pt ≡ frame_addr s.device.ram_start s.ident_map_addr frame
  pub zeroed : (a : ℕ) → pt ≤ a → a < pt + 4096 → s'.memory a ≡ 0
  pub others : (a : ℕ) → (a < pt) ⊎ (pt + 4096 ≤ a) → s'.memory a ≡ s.memory a
  pub rest : s' ≡ record s { frames = s'.frames; memory = s'.memory }

-- While a frame of the bitmap is free, `allocate_new_page_table` returns: it marks the lowest free
-- frame and no other, gives the address of that frame's page as `ident_map_addr` shows it, and
-- leaves each of the page's 4096 bytes 0, every other byte of memory and the rest of the state as
-- they were.
pub allocate_new_page_table-IsNew :
    (s : Machine) (n : ℕ)
    → IsBitmap s.frames
    → IsRange s.device.ram_start s.ident_map_addr
    → n < frame_count
    → allocated s.frames n ≡ false
    → Returns (IsNew s) (allocate_new_page_table s)
allocate_new_page_table-IsNew s n bytes range h free =
    zero_page (allocate_new_page_table_lem s n bytes range h free)
  where
    zero_page :
        (f : ℕ) × (fs : Frames) × IsTaken s.frames fs f
          × (let pt = frame_addr s.device.ram_start s.ident_map_addr f in
              allocate_new_page_table s
              ≡ done pt (record s { frames = fs; memory = memset s.memory pt 0 4096 }))
        → Returns (IsNew s) (allocate_new_page_table s)
    zero_page (f, fs, taken, run) =
        let pt : ℕ = frame_addr s.device.ram_start s.ident_map_addr f in
        rw run (
          returns record {
            frame = f;
            taken = taken;
            here = refl;
            zeroed = λ a lo hi. ground (arith, memset_lem s.memory pt 0 4096 a);
            others = λ a out. ground (arith, out, memset_lem s.memory pt 0 4096 a);
            rest = refl;
          })
