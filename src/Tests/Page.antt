-- ===== src/Tests/Page.antt =====
-- src/page.c on a machine whose root table is empty.
use fifth_kernel.Base.{
  ℕ, ◌≡◌, ◌≢◌, refl, arith, none, ◌<◌, ◌^◌, ℕ, List, ◌∷◌, [], ◌+◌, ◌*◌, ◌/◌, ◌%◌,
}
use fifth_kernel.Memory.{load, Memory}
use fifth_kernel.Machine.{done, ◌>>=◌}
use fifth_kernel.Machine.Returns.{Returns}
use fifth_kernel.Page.{map_page, unmap_page, resolve, allocate_new_page_table}
use fifth_kernel.Page.MapType
use fifth_kernel.Page.Entry.{decode, load_pte, IsPte, load_pte-layout}
use fifth_kernel.Page.Walk.{prefix, walk, field}
use fifth_kernel.Page.Paged.{space, Refines, insert_page, remove_page}
use fifth_kernel.Page.NewTable.{IsNew, allocate_new_page_table-IsNew}
use fifth_kernel.Page.Map.{map_page-Refines}
use fifth_kernel.Page.RoundTrip.{unmap_page-map_page}
use fifth_kernel.Page.Err
use fifth_kernel.Page.Sequence.{Op, map, run_ops, spec_ops, Follows, run_ops-Refines}
use fifth_kernel.Page.Tree.{Places}
use fifth_kernel.Page.Paged.{IsPaged}
use fifth_kernel.Page.Unmap.{unmap_page-Refines}
use fifth_kernel.Tests.Values.{
  ram, one_frame-IsBitmap, frame_1-free, paged, paged-IsRange, places, paged-IsPaged,
  paged-available,
}

root_given : resolve ram paged ≡ done ram paged
unfolding resolve
root_given = refl

root_not_null : ram ≢ 0
root_not_null e = omega (arith, e)

map_page-Refines_example :
    Returns
      (Refines ram paged (insert_page (space ram paged) 0x12345 0x80001))
      (map_page ram 0x80001 0x12345 MapType.page paged)
map_page-Refines_example =
    map_page-Refines places ram ram 0x12345 0x80001 paged paged-IsPaged root_given root_not_null
      (omega arith) paged-available

unmap_page-Refines_example :
    Returns
      (Refines ram paged (remove_page (space ram paged) 0x12345))
      (unmap_page ram 0x12345 MapType.page paged)
unmap_page-Refines_example =
    unmap_page-Refines places ram ram 0x12345 paged paged-IsPaged root_given root_not_null
      (omega arith)

allocate_new_page_table-IsNew_example : Returns (IsNew paged) (allocate_new_page_table paged)
allocate_new_page_table-IsNew_example =
    allocate_new_page_table-IsNew paged 1 one_frame-IsBitmap paged-IsRange (omega arith)
      frame_1-free

-- Each byte is a part of its address.
abbrev counted : Memory
counted a = a % 256

load_pte-layout_example :
    let e = load_pte counted 0x50 in
    IsPte e
    × (0x50 ≡ e.v + 2 * e.r + 4 * e.w + 8 * e.x + 16 * e.u + 32 * e.g + 64 * e.a + 128 * e.d)
    × (0x51 ≡ e.rsw + 4 * (e.ppn % 64))
    × (0x52 ≡ e.ppn / 2 ^ 6 % 256)
    × (0x53 ≡ e.ppn / 2 ^ 14 % 256)
    × (0x54 ≡ e.ppn / 2 ^ 22 % 256)
    × (0x55 ≡ e.ppn / 2 ^ 30 % 256)
    × (0x56 ≡ e.ppn / 2 ^ 38 + 64 * (e.reserved % 4))
    × (0x57 ≡ e.reserved / 4 + 32 * e.pbmt + 128 * e.n)
load_pte-layout_example = load_pte-layout counted 0x50 (λ a. omega arith)

unmapped : space ram paged 0x12345 ≡ none
unfolding walk field prefix load_pte decode load
unmapped = refl

unmap_page-map_page_example :
    Returns
      (λ code s'.
        (code ≡ Err.success)
        × ((v : ℕ) → v < 2 ^ 27 → space ram s' v ≡ space ram paged v)
        × ((places' : Places) × IsPaged places' ram s'))
      ((map_page ram 0x80001 0x12345 MapType.page >>= λ _. unmap_page ram 0x12345 MapType.page)
        paged)
unmap_page-map_page_example =
    unmap_page-map_page places ram 0x12345 0x80001 paged paged-IsPaged root_not_null (omega arith)
      paged-available unmapped

abbrev calls : List Op
calls = map 0x80001 0x12345 ∷ []

run_ops-Refines_example :
    Returns (Follows ram paged (spec_ops calls (space ram paged))) (run_ops ram calls paged)
run_ops-Refines_example =
    run_ops-Refines places ram calls paged paged-IsPaged root_not_null (omega arith, tt)
      paged-available
