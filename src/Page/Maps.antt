-- ===== src/Page/Maps.antt =====
-- What the table of `enable_paging` of src/page.c gives the kernel and `ident_map_addr`.
use fifth_kernel.Page.Small.{AreSmall-append, pages_of-AreSmall, locations_pages-AreSmall}
use fifth_kernel.Base.{
  ℕ, ◌+◌, ◌-◌, ◌/◌, ◌%◌, ◌^◌, ◌≤◌, ◌<◌, ◌≡◌, refl, sym, ap, ◌∙◌, arith, none, some, List, [], ◌∷◌,
  ==_refl, ne→not_==, eq→==, bit_or,
}
use fifth_kernel.Machine.{Machine, u64}
use fifth_kernel.Machine.Returns.{Returns}
use fifth_kernel.Page.MapType
use fifth_kernel.Page.Walk.{Leaf, lookup}
use fifth_kernel.Page.Boot.{kernel_start_page, kernel_end_page}
use fifth_kernel.Page.Paged.{page_leaf}
use fifth_kernel.Page.Requests.{Request, AreSmall, first_request}
use fifth_kernel.Page.BootList.{request, kernel_page, kernel_pages, locations_pages, memory_pages}
use fifth_kernel.Page.Enable.{IsTranslated}
use fifth_kernel.Page.Fill.{boot_requests, low_requests, memory_offset}
use fifth_kernel.Page.Translated.{
  first_request-append, pages_of-misses, pages_of-hits, IsLayout, locations_pages-misses, rounds,
  kernel_page-low, kernel_page-high, kernel_page-memory, higher_lem,
}

module _ (s : Machine) (layout : IsLayout s) where
  abbrev memory_requests : List Request
  memory_requests = memory_pages memory_offset s.device.ram_start s.device.ram_size

  abbrev first : ℕ
  first = s.device.ram_start / 4096

  abbrev past : ℕ
  past = u64 (s.device.ram_start + s.device.ram_size) / 4096

  pub boot_requests-AreSmall : AreSmall (boot_requests s)
  boot_requests-AreSmall =
      AreSmall-append (low_requests s) memory_requests
        (AreSmall-append (kernel_pages s) (locations_pages s.device.mapped_locations)
          (pages_of-AreSmall (rounds s layout) (kernel_start_page s)
            (kernel_page (kernel_start_page s))
            (λ q lo hi. (
              omega (arith, layout.kernel_low),
              (omega (arith, layout.kernel_low, higher_lem s layout q lo (omega arith)), tt),
            )))
          (locations_pages-AreSmall s.device.mapped_locations layout.devices_low))
        (pages_of-AreSmall (past - first) first (λ i. request i (u64 (memory_offset + i)) ∷ [])
          (λ i lo hi. (omega (arith, layout.memory_low), tt)))

  kernel-first :
      (v : ℕ) {asked : Leaf}
      → first_request (kernel_pages s) v ≡ some asked
      → first_request (boot_requests s) v ≡ some asked
  kernel-first v e =
      first_request-append (low_requests s) memory_requests v
      ∙ rw (first_request-append (kernel_pages s) (locations_pages s.device.mapped_locations) v, e)
          refl

  pub low_page :
      (p : ℕ)
      → kernel_start_page s ≤ p
      → p ≤ kernel_end_page s
      → first_request (boot_requests s) p ≡ some (page_leaf p)
  low_page p a b = kernel-first p (
      pages_of-hits (rounds s layout) (kernel_start_page s) (kernel_page (kernel_start_page s)) p p
        (page_leaf p) a (omega arith) (kernel_page-low s layout p p a b a b ∙ rw (==_refl p) refl)
        (λ q lo hi ne.
          kernel_page-low s layout p q a b lo (omega arith)
          ∙ rw (ne→not_== p q (λ e. ne (sym e))) refl))

  pub high_page :
      (p : ℕ)
      → kernel_start_page s ≤ p
      → p ≤ kernel_end_page s
      → first_request (boot_requests s) (MapType.higher_half_vpn + (p - kernel_start_page s))
        ≡ some (page_leaf p)
  high_page p a b = kernel-first (MapType.higher_half_vpn + (p - kernel_start_page s)) (
      pages_of-hits (rounds s layout) (kernel_start_page s) (kernel_page (kernel_start_page s))
        (MapType.higher_half_vpn + (p - kernel_start_page s)) p (page_leaf p) a (omega arith)
        (kernel_page-high s layout p p a b a b ∙ rw (==_refl p) refl)
        (λ q lo hi ne.
          kernel_page-high s layout p q a b lo (omega arith)
          ∙ rw (ne→not_== p q (λ e. ne (sym e))) refl))

  low_requests-misses : (i : ℕ) → first_request (low_requests s) (memory_offset + i) ≡ none
  low_requests-misses i =
      first_request-append (kernel_pages s) (locations_pages s.device.mapped_locations)
        (memory_offset + i)
      ∙ rw
          (pages_of-misses (rounds s layout) (kernel_start_page s)
            (kernel_page (kernel_start_page s)) (memory_offset + i)
            (λ q lo hi. kernel_page-memory s layout i q lo (omega arith)))
          (locations_pages-misses s.device.mapped_locations (memory_offset + i) layout.devices_low
            (omega arith))

  memory_page :
      (i : ℕ)
      → first ≤ i
      → i < past
      → first_request (boot_requests s) (memory_offset + i) ≡ some (page_leaf i)
  unfolding first_request
  memory_page i a b =
      first_request-append (low_requests s) memory_requests (memory_offset + i)
      ∙ rw (low_requests-misses i) (
          pages_of-hits (past - first) first (λ j. request j (u64 (memory_offset + j)) ∷ [])
            (memory_offset + i) i (page_leaf i) a (omega arith)
            (rw
              (eq→== (memory_offset + i) (u64 (memory_offset + i))
                (omega (arith, layout.memory_low)))
              refl)
            (λ j lo hi ne.
              rw
                (ne→not_== (memory_offset + i) (u64 (memory_offset + j))
                  (omega (arith, layout.memory_low)))
                refl))

-- The table that `satp` names, behind `enable_paging`: the kernel's pages are where they were and in
-- the higher half, and each page of memory is where `ident_map_addr` says.
pub record IsReachable (s s' : Machine) : Type 0 where
  pub root : ℕ
  pub satp : s'.csr.satp ≡ bit_or (root / 4096) MapType.paging_mode_sv39
  pub kernel :
      (p : ℕ)
      → kernel_start_page s ≤ p
      → p ≤ kernel_end_page s
      → (lookup s'.memory 0 root p ≡ some (page_leaf p))
        × (lookup s'.memory 0 root (MapType.higher_half_vpn + (p - kernel_start_page s))
            ≡ some (page_leaf p))
  pub memory :
      (a : ℕ)
      → s.device.ram_start / 4096 ≤ a / 4096
      → a / 4096 < (s.device.ram_start + s.device.ram_size) / 4096
      → lookup s'.memory 0 root ((a + s'.ident_map_addr) % 2 ^ 64 / 4096 % 2 ^ 27)
        ≡ some (page_leaf (a / 4096))

-- An address of memory is mapped where `ident_map_addr` says.
pub memory_reached :
    (s s' : Machine) (layout : IsLayout s) (t : IsTranslated s s') (a : ℕ)
    → s.device.ram_start / 4096 ≤ a / 4096
    → a / 4096 < (s.device.ram_start + s.device.ram_size) / 4096
    → lookup s'.memory 0 t.root ((a + s'.ident_map_addr) % 2 ^ 64 / 4096 % 2 ^ 27)
      ≡ some (page_leaf (a / 4096))
memory_reached s s' layout t a lo hi =
    let at : (a + s'.ident_map_addr) % 2 ^ 64 / 4096 % 2 ^ 27 ≡ memory_offset + a / 4096 =
      rw (ap (λ z. z.ident_map_addr) t.rest) (omega (arith, hi, layout.memory_low)) in
    rw at (
      t.mapped (memory_offset + a / 4096) (omega (arith, layout.memory_low))
      ∙ memory_page s layout (a / 4096) lo (omega (arith, layout.memory_low)))

pub IsTranslated-IsReachable : (s s' : Machine) → IsLayout s → IsTranslated s s' → IsReachable s s'
IsTranslated-IsReachable s s' layout t = record {
  root = t.root;
  satp = ap (λ z. z.csr.satp) t.rest;
  kernel = λ p a b. (
    t.mapped p (omega (arith, layout.kernel_low)) ∙ low_page s layout p a b,
    t.mapped (MapType.higher_half_vpn + (p - kernel_start_page s))
          (omega (arith, layout.kernel_low))
        ∙ high_page s layout p a b,
  );
  memory = memory_reached s s' layout t;
}
