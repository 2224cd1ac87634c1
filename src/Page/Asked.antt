-- ===== src/Page/Asked.antt =====
-- The address space that `enable_paging` of src/page.c builds, by the addresses of the kernel, the
-- devices and memory.
use fifth_kernel.Page.BootSpace.{
  is_kernel_page, is_device_page, is_memory_page, boot_space, pages_of-one, self_request,
  locations_pages-asked,
}
use fifth_kernel.Base.{
  ℕ, ◌+◌, ◌-◌, ◌*◌, ◌/◌, ◌^◌, ◌≤◌, ◌<◌, ◌≡◌, refl, ap, ◌∙◌, arith, Bool, true, false, Option, none,
  some, ◌==◌, leb, ltb, ◌&&◌, ◌||◌, if◌then◌else◌, ◌⊎◌, inl, inr, Bool-cases, List, [], ◌∷◌, ==→eq,
  not_==→ne, ne→not_==, eq→==,
}
use fifth_kernel.Frame.Bitmap.{IsBitmap}
use fifth_kernel.Machine.{Machine, u64}
use fifth_kernel.Machine.Returns.{Returns, mono}
use fifth_kernel.Page.Walk.{Leaf, lookup}
use fifth_kernel.Page.Tree.{IsRange}
use fifth_kernel.Page.Boot.{kernel_start_page, enable_paging}
use fifth_kernel.Page.Paged.{page_leaf, available}
use fifth_kernel.Page.Requests.{Request, first_request, or_else, new_tables}
use fifth_kernel.Page.BootList.{request, kernel_page, kernel_pages, locations_pages, memory_pages}
use fifth_kernel.Page.Fill.{boot_requests, low_requests, memory_offset}
use fifth_kernel.Page.Enable.{enable_paging-IsTranslated, IsTranslated}
use fifth_kernel.Page.Translated.{
  first_request-append, pages_of-misses, IsLayout, locations_pages-misses, rounds, higher,
  higher_lem,
}
use fifth_kernel.Page.Maps.{boot_requests-AreSmall}

module _ (s : Machine) (layout : IsLayout s) (fits : s.kernel_end_addr + 4095 < 2 ^ 64) where
  abbrev start : ℕ
  start = kernel_start_page s

  kernel_range :
      (hit : ℕ) → (leb start hit && ltb hit (start + rounds s layout)) ≡ is_kernel_page s hit
  kernel_range hit = ground (arith, fits)

  kernel_pages-low :
      (v : ℕ)
      → v < 2 ^ 26
      → first_request (kernel_pages s) v ≡ (if is_kernel_page s v then some (page_leaf v) else none)
  unfolding first_request
  kernel_pages-low v low =
      pages_of-one (rounds s layout) start (kernel_page start) v v (λ p a b.
        let far =
          ne→not_== v (higher s layout p)
            (omega (arith, higher_lem s layout p a (omega arith), layout.kernel_low)) in
        rw far (self_request v p))
      ∙ ap (λ b. if b then some (page_leaf v) else none) (kernel_range v)

  kernel_pages-high :
      (v : ℕ)
      → 2 ^ 26 ≤ v
      → first_request (kernel_pages s) v
        ≡ (let p = start + (v - 2 ^ 26) in if is_kernel_page s p then some (page_leaf p) else none)
  unfolding first_request
  kernel_pages-high v high =
      pages_of-one (rounds s layout) start (kernel_page start) v (start + (v - 2 ^ 26)) (λ p a b.
        let far = ne→not_== v p (omega (arith, layout.kernel_low)) in
        let hit : ℕ = start + (v - 2 ^ 26) in
        let up = higher_lem s layout p a (omega arith) in
        elim (Bool-cases (p == hit)) [
          | inl same ↦
              let e = ==→eq p hit same in
              rw (far, same, eq→== v (higher s layout p) (omega (arith, e, up, a, high)))
                (ap (λ z. some (page_leaf z)) e)
          | inr other ↦
              let ne = not_==→ne p hit other in
              rw (far, other, ne→not_== v (higher s layout p) (omega (arith, ne, up, a, high))) refl
        ])
      ∙ ap (λ b. if b then some (page_leaf (start + (v - 2 ^ 26))) else none)
          (kernel_range (start + (v - 2 ^ 26)))

  abbrev memory_requests : List Request
  memory_requests = memory_pages memory_offset s.device.ram_start s.device.ram_size

  memory_pages-below : (v : ℕ) → v < memory_offset → first_request memory_requests v ≡ none
  unfolding first_request
  memory_pages-below v low =
      pages_of-misses _ _ (λ i. request i (u64 (memory_offset + i)) ∷ []) v
        (λ i a b.
          rw (ne→not_== v (u64 (memory_offset + i)) (omega (arith, layout.memory_low, low))) refl)

  memory_pages-at :
      (v : ℕ)
      → memory_offset ≤ v
      → first_request memory_requests v
        ≡ (let i = v - memory_offset in if is_memory_page s i then some (page_leaf i) else none)
  unfolding first_request
  memory_pages-at v high =
      let hit : ℕ = v - memory_offset in
      let first : ℕ = s.device.ram_start / 4096 in
      let past : ℕ = u64 (s.device.ram_start + s.device.ram_size) / 4096 in
      let within : (leb first hit && ltb hit (first + (past - first))) ≡ is_memory_page s hit =
        ground (arith, layout.memory_low) in
      pages_of-one (past - first) first (λ i. request i (u64 (memory_offset + i)) ∷ []) v hit
        (λ i a b. elim (Bool-cases (i == hit)) [
          | inl same ↦
              let e = ==→eq i hit same in
              rw
                (
                  same,
                  eq→== v (u64 (memory_offset + i)) (omega (arith, e, high, layout.memory_low)),
                )
                (ap (λ z. some (page_leaf z)) e)
          | inr other ↦
              let ne = not_==→ne i hit other in
              rw
                (
                  other,
                  ne→not_== v (u64 (memory_offset + i))
                      (omega (arith, ne, high, layout.memory_low)),
                )
                refl
        ])
      ∙ ap (λ b. if b then some (page_leaf hit) else none) within

  boot_requests-asked : (v : ℕ) → v < 2 ^ 27 → first_request (boot_requests s) v ≡ boot_space s v
  boot_requests-asked v small =
      first_request-append (low_requests s) memory_requests v
      ∙ rw (first_request-append (kernel_pages s) (locations_pages s.device.mapped_locations) v)
          (halves (Bool-cases (ltb v (2 ^ 26))))
    where
      either :
          (a b : Bool) (l : Leaf)
          → or_else (or_else (if a then some l else none) (if b then some l else none)) none
            ≡ (if a || b then some l else none)
      either true b l = refl
      either false true l = refl
      either false false l = refl

      kernel_first :
          (a : Bool) (l : Leaf) (o : Option Leaf)
          → or_else (or_else (if a then some l else none) none) o ≡ (if a then some l else o)
      kernel_first true l o = refl
      kernel_first false l o = refl

      memory_part :
          (leb memory_offset v ≡ true) ⊎ (leb memory_offset v ≡ false)
          → first_request memory_requests v ≡ (
              if leb memory_offset v && is_memory_page s (v - memory_offset)
              then some (page_leaf (v - memory_offset))
              else none)
      memory_part (inl at) = rw at (memory_pages-at v (ground (arith, at)))
      memory_part (inr below) = rw below (memory_pages-below v (ground (arith, below)))

      halves :
          (ltb v (2 ^ 26) ≡ true) ⊎ (ltb v (2 ^ 26) ≡ false)
          → or_else
              (or_else
                (first_request (kernel_pages s) v)
                (first_request (locations_pages s.device.mapped_locations) v))
              (first_request memory_requests v)
            ≡ boot_space s v
      halves (inl low) =
          rw
            (
              low,
              kernel_pages-low v (ground (arith, low)),
              locations_pages-asked s.device.mapped_locations v layout.devices_low,
              memory_pages-below v (ground (arith, low)),
            )
            (either (is_kernel_page s v) (is_device_page s.device.mapped_locations v) (page_leaf v))
      halves (inr high) =
          rw
            (
              high,
              kernel_pages-high v (ground (arith, high)),
              locations_pages-misses s.device.mapped_locations v layout.devices_low
                  (ground (arith, high)),
              memory_part (Bool-cases (leb memory_offset v)),
            )
            (kernel_first (is_kernel_page s (start + (v - 2 ^ 26)))
              (page_leaf (start + (v - 2 ^ 26))) _)

-- The state behind `enable_paging`: nothing but what `IsTranslated` says has changed, and the table
-- that `satp` names stands for the address space of the kernel, the devices and memory.
pub record IsBuilt (s s' : Machine) : Type 0 where
  pub translated : IsTranslated s s'
  pub mapped : (v : ℕ) → v < 2 ^ 27 → lookup s'.memory 0 translated.root v ≡ boot_space s v

-- `enable_paging` returns, where the kernel, the devices and memory lie below the higher half as
-- `IsLayout` says, with a kernel that ends a page before 2^64, a byte in each element of the bitmap,
-- memory that starts on a page and whose frames' addresses do not wrap, and frames for the root table
-- and for two tables for each run of 512 pages that is used. The table that `satp` then names gives
-- each page number exactly the leaf of `boot_space`: in the lower half the pages of the kernel and of
-- each device in use are mapped to themselves, from that of the first address to that of the end
-- rounded up to pages, which is the one behind the last page; in the higher half the same pages of
-- the kernel follow from its first one on, and 4 GiB behind the start of that half the whole pages
-- of memory by their physical addresses; every leaf is one of 4 KiB with all permissions; and no
-- other page is mapped. No byte outside the free frames changes, and nothing but
-- memory, frames, flushes, `satp`, the console and `ident_map_addr`.
pub enable_paging-IsBuilt :
    (s : Machine)
    → IsBitmap s.frames
    → IsRange s.device.ram_start 0
    → 0 < s.device.ram_start
    → IsLayout s
    → s.kernel_end_addr + 4095 < 2 ^ 64
    → 1 + 2 * new_tables [] (boot_requests s) ≤ available s
    → Returns (λ _ s'. IsBuilt s s') (enable_paging s)
enable_paging-IsBuilt s bytes range above layout fits enough =
    mono (enable_paging-IsTranslated s bytes range above (boot_requests-AreSmall s layout) enough)
      (λ _ s' t. record {
        translated = t;
        mapped = λ v small. t.mapped v small ∙ boot_requests-asked s layout fits v small;
      })
