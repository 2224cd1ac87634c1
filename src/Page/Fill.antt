-- ===== src/Page/Fill.antt =====
-- The loops of `enable_paging` of src/page.c as one list of requests.
use fifth_kernel.Page.Descend.{none_not_some}
use fifth_kernel.Base.{
  ℕ, ◌+◌, ◌*◌, ◌≤◌, ◌≡◌, ◌≢◌, sym, ap, ◌∙◌, arith, none, some, List, [], ◌++◌, ◌-◌, ap₂, true,
  false,
}
use fifth_kernel.Machine.{Machine, Run, Cmd, and_then, ◌>>◌}
use fifth_kernel.Machine.Returns.{Returns, returns}
use fifth_kernel.Page.MapType
use fifth_kernel.Page.Tree.{Places}
use fifth_kernel.Page.Boot.{
  for_pages, identity_map_memory, kernel_start_page, kernel_end_page, map_kernel_page,
  map_locations,
}
use fifth_kernel.Page.Paged.{IsPaged, space, available}
use fifth_kernel.Page.Requests.{Request, map_all, AreSmall, new_tables}
use fifth_kernel.Page.MapAll.{Mapped, map_all-Mapped, Ready}
use fifth_kernel.Page.BootList.{
  kernel_page, kernel_pages, locations_pages, memory_pages, map_all-append, for_pages-map_all,
  map_kernel_page-map_all, map_locations-map_all, identity_map_memory-map_all, AreSmall-left,
  new_tables-left, bind_assoc,
}

-- The kernel's pages and the devices', which `enable_paging` maps first.
abbrev pub low_requests : Machine → List Request
low_requests s = kernel_pages s ++ locations_pages s.device.mapped_locations

-- Where all of memory goes in the higher half.
abbrev pub memory_offset : ℕ
memory_offset = MapType.higher_half_vpn + 1024 * 1024

abbrev pub boot_requests : Machine → List Request
boot_requests s = low_requests s ++ memory_pages memory_offset s.device.ram_start s.device.ram_size

-- The three loops of `enable_paging`, on the table `pt`.
abbrev pub fill : (pt : ℕ) → Machine → Cmd (Unit {0})
fill pt s = do
  for_pages (kernel_end_page s + 1 - kernel_start_page s) (kernel_start_page s)
      (map_kernel_page pt (kernel_start_page s))
  map_locations pt s.device.mapped_locations
  identity_map_memory pt memory_offset

fill_low :
    (pt : ℕ) (s : Machine)
    → (for_pages
          (kernel_end_page s + 1 - kernel_start_page s)
          (kernel_start_page s)
          (map_kernel_page pt (kernel_start_page s))
        >> map_locations pt s.device.mapped_locations)
      ≡ map_all pt (low_requests s)
fill_low pt s =
    ap₂ (λ m n. m >> n)
      (for_pages-map_all pt (kernel_end_page s + 1 - kernel_start_page s) (kernel_start_page s)
        (map_kernel_page pt (kernel_start_page s)) (kernel_page (kernel_start_page s))
        (λ page. map_kernel_page-map_all pt (kernel_start_page s) page))
      (map_locations-map_all pt s.device.mapped_locations)
    ∙ sym (map_all-append pt (kernel_pages s) (locations_pages s.device.mapped_locations))

-- Two continuations that agree where a run can end.
and_then-same :
    {A B : Type 0} {P : A → Machine → Type 0} {r : Run A} {k k' : A → Cmd B}
    → Returns P r
    → ((a : A) (s : Machine) → P a s → k a s ≡ k' a s)
    → and_then r k ≡ and_then r k'
and_then-same (returns p) same = same _ _ p

module _ (root : ℕ) (given : root ≢ 0) {places : Places} (s : Machine)
    (paged : IsPaged places root s) (empty : (v : ℕ) → space root s v ≡ none)
    (small : AreSmall (boot_requests s))
    (enough : 2 * new_tables [] (boot_requests s) ≤ available s) where
  abbrev memory_requests : List Request
  memory_requests = memory_pages memory_offset s.device.ram_start s.device.ram_size

  ready : Ready root s []
  ready = (
    (λ v found below e. absurd (none_not_some (sym (empty v) ∙ e))),
    (λ g is. absurd (none_not_some (ap (λ b. elim b [ true ↦ none | false ↦ some tt ]) (sym is)))),
  )

  low :
      Returns (λ _ s2. Mapped root given s (low_requests s) [] s2) (map_all root (low_requests s) s)
  low =
      map_all-Mapped root given (low_requests s) s [] paged
        (AreSmall-left (low_requests s) memory_requests small) ready
        (omega (arith, enough, new_tables-left [] (low_requests s) memory_requests))

  fill-map_all : fill root s s ≡ map_all root (boot_requests s) s
  fill-map_all =
      sym (
        bind_assoc
          (for_pages (kernel_end_page s + 1 - kernel_start_page s) (kernel_start_page s)
            (map_kernel_page root (kernel_start_page s)) s)
          (λ _. map_locations root s.device.mapped_locations)
          (λ _. identity_map_memory root memory_offset))
      ∙ ap {A = Cmd (Unit {0})} {B = Run (Unit {0})}
          (λ k. and_then (k s) (λ _. identity_map_memory root memory_offset)) (fill_low root s)
      ∙ and_then-same low (λ _ s2 m.
        identity_map_memory-map_all root memory_offset s2
        ∙ ap {A = Machine} {B = Run (Unit {0})}
            (λ z. map_all root (memory_pages memory_offset z.device.ram_start z.device.ram_size) s2)
            m.rest)
      ∙ ap {A = Cmd (Unit {0})} {B = Run (Unit {0})} (λ k. k s)
          (sym (map_all-append root (low_requests s) memory_requests))

  pub filled : Returns (λ _ s2. Mapped root given s (boot_requests s) [] s2) (fill root s s)
  filled =
      rw fill-map_all (map_all-Mapped root given (boot_requests s) s [] paged small ready enough)
