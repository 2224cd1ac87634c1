-- ===== src/Page/Enable.antt =====
-- `enable_paging` of src/page.c.
use fifth_kernel.Page.Fill.{memory_offset, boot_requests, fill, filled}
use fifth_kernel.Memory.{IsBytes}
use fifth_kernel.Frame.Lowest.{Held, Filled, Filled-trans}
use fifth_kernel.Page.Footprint.{OutsideFree}
use fifth_kernel.Base.{
  ℕ, ◌+◌, ◌*◌, ◌/◌, ◌^◌, ◌≤◌, ◌<◌, ◌≡◌, refl, sym, ap, ◌∙◌, arith, [], ◌∷◌, bit_or, ◌-◌, Option,
}
use fifth_kernel.Frame.Bitmap.{IsBitmap}
use fifth_kernel.Machine.{
  Machine, Run, done, Cmd, and_then, ◌>>◌, ◌>>=◌, modify, get, printf, fault, hang, out_of_fuel,
}
use fifth_kernel.Machine.Returns.{Returns, returns, bind}
use fifth_kernel.Page.MapType
use fifth_kernel.Page.Walk.{lookup, Leaf}
use fifth_kernel.Page.Tree.{Places, IsRange}
use fifth_kernel.Page.Boot.{
  for_pages, identity_map_memory, kernel_start_page, kernel_end_page, map_kernel_page,
  map_locations, enable_paging,
}
use fifth_kernel.Page.Paged.{IsPaged, space, available}
use fifth_kernel.Page.Requests.{AreSmall, after, new_tables, first_request}
use fifth_kernel.Page.MapAll.{Mapped}
use fifth_kernel.Page.BootList.{bind_assoc}
use fifth_kernel.Page.Fresh.{IsFresh, allocate_new_page_table-IsFresh}

-- What `enable_paging` does when the table is filled.
abbrev finish : (pt : ℕ) → Cmd (Unit {0})
finish pt = do
  modify λ s. record s { csr = record s.csr { satp = bit_or (pt / 4096) MapType.paging_mode_sv39 } }
  s ← get
  printf "satp: %#zx\n" (s.csr.satp ∷ [])
  modify λ s. record s { ident_map_addr = MapType.ident_map_addr }

abbrev bare : Machine → Machine
bare s = record s { ident_map_addr = 0 }

regroup :
    (r : Run (Unit {0})) (l i k : Cmd (Unit {0}))
    → and_then r (λ _. l >> (i >> k)) ≡ and_then (and_then r (λ _. l >> i)) (λ _. k)
regroup (done tt s) l i k = sym (bind_assoc (l s) (λ _. i) (λ _. k))
regroup fault l i k = refl
regroup hang l i k = refl
regroup out_of_fuel l i k = refl

enable_paging-fill :
    (s : Machine) (root : ℕ) (s1 : Machine)
    → IsFresh (bare s) root s1
    → enable_paging s ≡ and_then (fill root s1 s1) (λ _. finish root)
unfolding enable_paging
enable_paging-fill s root s1 fresh = rw fresh.run (
    regroup
      (for_pages (kernel_end_page s1 + 1 - kernel_start_page s1) (kernel_start_page s1)
        (map_kernel_page root (kernel_start_page s1)) s1)
      (map_locations root s1.device.mapped_locations) (identity_map_memory root memory_offset)
      (finish root))

-- The state behind `enable_paging`: the table that `satp` names is well formed where memory is seen
-- untranslated, it gives each page the leaf of the first request of it, and no byte outside the
-- frames that were free has changed.
pub record IsTranslated (s s' : Machine) : Type 0 where
  pub root : ℕ
  pub places : Places
  pub paged : IsPaged places root (record s' { ident_map_addr = 0 })
  pub preserved : (x : ℕ) → OutsideFree s.frames s.device.ram_start 0 x → s'.memory x ≡ s.memory x
  pub held : Held s.frames s'.frames
  pub filled : Filled s.frames s'.frames
  pub bytes : IsBytes s.memory → IsBytes s'.memory
  pub frames_left : available s ≤ available s' + (1 + 2 * new_tables [] (boot_requests s))
  pub mapped : (v : ℕ) → v < 2 ^ 27 → lookup s'.memory 0 root v ≡ first_request (boot_requests s) v
  pub rest :
      let satp = bit_or (root / 4096) MapType.paging_mode_sv39 in
      s' ≡ record s {
        frames = s'.frames;
        memory = s'.memory;
        flushes = s'.flushes;
        csr = record s.csr { satp = satp };
        console = record { format = "satp: %#zx\n"; args = satp ∷ [] } ∷ s.console;
        ident_map_addr = MapType.ident_map_addr;
      }

finish-IsTranslated :
    (s : Machine) (root : ℕ) (s1 s2 : Machine) (fresh : IsFresh (bare s) root s1)
    → Mapped root fresh.given s1 (boot_requests s1) [] s2
    → Returns (λ _ s'. IsTranslated s s') (finish root s2)
finish-IsTranslated s root s1 s2 fresh m = returns record {
  root = root;
  places = m.places;
  paged = record {
    tree = rw untranslated at m.paged.tree;
    bitmap = m.paged.bitmap;
    range = rw untranslated at m.paged.range;
  };
  preserved = λ x out. let (outside, first) = fresh.spares x out in (m.spares x outside).1 ∙ first;
  held = λ f h. m.held f (fresh.held f h);
  bytes = λ h. m.bytes (fresh.bytes h);
  filled = Filled-trans s.frames s1.frames s2.frames fresh.filled m.held m.filled;
  frames_left = omega (
    arith,
    fresh.frames_left,
    m.frames_left,
    ap (λ z. new_tables [] (boot_requests z)) fresh.rest,
  );
  mapped = λ v h. rw untranslated at (m.mapped v h) ∙ asked v;
  rest =
      ap {A = Machine} {B = Machine}
        (λ z. record z {
          ident_map_addr = MapType.ident_map_addr;
          csr = record z.csr { satp = satp };
          console = record { format = "satp: %#zx\n"; args = satp ∷ [] } ∷ z.console;
        })
        unchanged;
}
  where
    satp : ℕ
    satp = bit_or (root / 4096) MapType.paging_mode_sv39

    unchanged : s2 ≡ record s {
      frames = s2.frames;
      memory = s2.memory;
      flushes = s2.flushes;
      ident_map_addr = 0;
    }
    unchanged =
        m.rest
        ∙ ap {A = Machine} {B = Machine}
            (λ z. record z { frames = s2.frames; memory = s2.memory; flushes = s2.flushes })
            fresh.rest

    untranslated : s2.ident_map_addr ≡ 0
    untranslated = ap (λ z. z.ident_map_addr) unchanged

    asked : (v : ℕ) → after (space root s1) (boot_requests s1) v ≡ first_request (boot_requests s) v
    asked v =
        rw (after, fresh.empty v)
          (ap {A = Machine} {B = Option Leaf} (λ z. first_request (boot_requests z) v) fresh.rest)

-- `enable_paging` returns, with a byte in each element of the bitmap, memory that starts on a page
-- and whose frames' addresses do not wrap, pages to map that exist, and a free frame for the root
-- table and two for each table of level 0 that they need. The new table, which `satp` names, maps
-- exactly the pages that `boot_requests` lists, where the first request of a page counts; no byte outside the free frames changes, and nothing but memory, frames, flushes,
-- `satp`, the console and `ident_map_addr`.
pub enable_paging-IsTranslated :
    (s : Machine)
    → IsBitmap s.frames
    → IsRange s.device.ram_start 0
    → 0 < s.device.ram_start
    → AreSmall (boot_requests s)
    → 1 + 2 * new_tables [] (boot_requests s) ≤ available s
    → Returns (λ _ s'. IsTranslated s s') (enable_paging s)
enable_paging-IsTranslated s bytes range above small enough =
    let (root, s1, fresh) =
      allocate_new_page_table-IsFresh (bare s) bytes range above (omega (arith, enough)) in
    let same : boot_requests s1 ≡ boot_requests s = ap boot_requests fresh.rest in
    rw (enable_paging-fill s root s1 fresh) (
      bind
        (filled root fresh.given s1 fresh.paged fresh.empty (rw same small)
          (rw same (omega (arith, enough, fresh.frames_left))))
        (λ _ s2 m. finish-IsTranslated s root s1 s2 fresh m))
