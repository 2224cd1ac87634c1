-- ===== src/Fdt/Recorded.antt =====
-- The ranges of a device, as src/fdt.c reads them from a property's bytes and records them.
use fifth_kernel.Base.{
  ℕ, zero, suc, ◌+◌, ◌*◌, ◌≡◌, refl, ap, ◌∙◌, ◌==◌, if◌then◌else◌, List, [], ◌∷◌, Bool-cases, inl,
  inr,
}
use fifth_kernel.Memory.{Memory, IsBytes}
use fifth_kernel.Machine.{Machine, Location, DeviceInformation, done}
use fifth_kernel.Fdt.Prop.{location_at, map_ranges}
use fifth_kernel.Fdt.Bytes.{big_endian, swapb64-load}
use fifth_kernel.Fdt.Facts.{enter, learned, ranges_of, map_ranges-learned}

-- Range `i` of the bytes from `ptr` on: a big-endian address of eight bytes with, unless the node has
-- no size cells, a big-endian size of eight bytes behind it.
abbrev pub range_at : Memory → (ptr size_cells i : ℕ) → Location
range_at m ptr size_cells i =
    if size_cells == 0
    then record { address = big_endian m (ptr + 8 * i); size = 0 }
    else record { address = big_endian m (ptr + 16 * i); size = big_endian m (ptr + 16 * i + 8) }

-- The ranges from number `i` on, `left` of them.
unfoldable pub ranges_from : Memory → (ptr size_cells left i : ℕ) → List Location
ranges_from m ptr size_cells zero i = []
ranges_from m ptr size_cells (suc left) i =
    range_at m ptr size_cells i ∷ ranges_from m ptr size_cells left (i + 1)

-- One after the other, each in the first unused element there is.
unfoldable pub enter_all : (table ranges : List Location) → List Location
enter_all table [] = table
enter_all table (l ∷ rest) = enter_all (enter table l) rest

location_at-range_at :
    (m : Memory) (ptr i size_cells : ℕ)
    → IsBytes m
    → location_at m ptr i size_cells ≡ range_at m ptr size_cells i
location_at-range_at m ptr i size_cells bytes = elim (Bool-cases (size_cells == 0)) [
  | inl without ↦ unfold location_at in rw (without, swapb64-load m (ptr + 8 * i) bytes) refl
  | inr with_size ↦
      unfold location_at in
      rw (with_size, swapb64-load m (ptr + 16 * i) bytes, swapb64-load m (ptr + 16 * i + 8) bytes)
        refl
]

learned-enter_all :
    (m : Memory) (ptr size_cells left i : ℕ) (d : DeviceInformation)
    → IsBytes m
    → learned (ranges_of m ptr size_cells left i) d ≡ record d {
      mapped_locations = enter_all d.mapped_locations (ranges_from m ptr size_cells left i);
    }
unfolding ranges_of ranges_from enter_all
learned-enter_all m ptr size_cells zero i d bytes = refl
learned-enter_all m ptr size_cells (suc left) i d bytes =
    rw (location_at-range_at m ptr i size_cells bytes) (
      learned-enter_all m ptr size_cells left (i + 1)
        (record d { mapped_locations = enter d.mapped_locations (range_at m ptr size_cells i) })
        bytes)

-- The loop over the ranges of a device's registers returns in a memory of bytes. It has read each
-- range as a big-endian address of eight bytes and, unless the node has no size cells, a big-endian
-- size of eight bytes behind it, and entered them in their order into the table of devices, each in
-- the first unused element (one whose address and size are zero) while there is one, and nowhere
-- else; nothing but the table has changed.
pub map_ranges-enter_all :
    (left i ptr size_cells : ℕ) (s : Machine)
    → IsBytes s.memory
    → map_ranges left i ptr size_cells s
      ≡ done tt (record s {
        device = record s.device {
          mapped_locations =
              enter_all s.device.mapped_locations (ranges_from s.memory ptr size_cells left i);
        };
      })
map_ranges-enter_all left i ptr size_cells s bytes =
    map_ranges-learned left i ptr size_cells s
    ∙ ap {A = DeviceInformation} (λ d. done tt (record s { device = d }))
        (learned-enter_all s.memory ptr size_cells left i s.device bytes)
