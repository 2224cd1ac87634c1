-- ===== src/Tests/Fdt.antt =====
-- src/fdt.c on memory of zeros, and on single words.
use fifth_kernel.Fdt.Recorded.{enter_all, ranges_from, map_ranges-enter_all}
use fifth_kernel.Base.{ℕ, ◌<◌, ◌≡◌, ◌≢◌, refl, arith, [], ◌∷◌, ◌==◌, if◌then◌else◌, ◌+◌}
use fifth_kernel.Memory.{load}
use fifth_kernel.Machine.{Machine, ◌>>=◌, done}
use fifth_kernel.Machine.Returns.{Returns}
use fifth_kernel.Machine.Prints.{OnlyPrints}
use fifth_kernel.Fdt.{Outside, swapb, start}
use fifth_kernel.Fdt.Bytes.{swapb-load}
use fifth_kernel.Fdt.Parse.{header_field, begin_node, end_node}
use fifth_kernel.Fdt.Prop.{map_ranges}
use fifth_kernel.Fdt.Locations.{IsKept, map_ranges-IsKept}
use fifth_kernel.Fdt.Cases.{end_node-begin_node}
use fifth_kernel.Tests.Values.{ram, zeros, zeros-IsBytes, paged}

abbrev out : Outside
out = record {
  sprintf_length = λ m a. 0;
  reg = 0x100;
  cpu = 0x110;
  memory = 0x120;
  address_cells = 0x130;
  size_cells = 0x140;
  address_before = 0;
  size_before = 0;
}

swapb-test : swapb 0x12345678 ≡ 0x78563412
unfolding swapb
swapb-test = refl

swapb-load_example : swapb (load 4 zeros ram) ≡ 0
swapb-load_example = swapb-load zeros ram zeros-IsBytes

no_magic : header_field zeros ram 0 ≢ 0xd00dfeed
unfolding swapb load
no_magic e = omega (arith, e)

end_node-begin_node_example :
    Returns
      (λ p' s'.
        (p'.depth ≡ 0)
        × (p'.tabs ≡ (start ram).tabs)
        × ((i : ℕ)
            → i < 0
            → (p'.address_cells_arr i ≡ (start ram).address_cells_arr i)
              × (p'.size_cells_arr i ≡ (start ram).size_cells_arr i)
              × (p'.node_arr i ≡ (start ram).node_arr i))
        × OnlyPrints paged s')
      ((begin_node out (start ram) >>= end_node out) paged)
end_node-begin_node_example = end_node-begin_node out (start ram) paged (omega arith)

abbrev KeptBy : Machine → Machine → Type 0
KeptBy s s' =
    IsKept s.device.mapped_locations s'.device.mapped_locations
    × (s' ≡ record s { device = record s.device { mapped_locations = s'.device.mapped_locations } })

-- One location is in use, one is free, and two ranges are to be recorded.
abbrev two_locations : Machine
two_locations = record paged {
  device = record paged.device {
    mapped_locations =
        record { address = 0x10000000; size = 0x100 } ∷ record { address = 0; size = 0 } ∷ [];
  };
}

map_ranges-IsKept_example :
    Returns (λ _ s'. KeptBy two_locations s') (map_ranges 2 0 ram 1 two_locations)
map_ranges-IsKept_example = map_ranges-IsKept 2 0 ram 1 two_locations

-- A range of 0x100 bytes at 0x10000000.
abbrev with_ranges : Machine
with_ranges = record two_locations {
  memory = λ a. if a == ram + 4 then 0x10 else if a == ram + 14 then 1 else 0;
}

map_ranges-enter_all_example :
    map_ranges 2 0 ram 1 with_ranges
    ≡ done tt (record with_ranges {
      device = record with_ranges.device {
        mapped_locations =
            enter_all with_ranges.device.mapped_locations
              (ranges_from with_ranges.memory ram 1 2 0);
      };
    })
map_ranges-enter_all_example = map_ranges-enter_all 2 0 ram 1 with_ranges (λ a. ground arith)

ranges_test :
    ranges_from with_ranges.memory ram 1 1 0 ≡ record { address = 0x10000000; size = 0x100 } ∷ []
unfolding ranges_from
ranges_test = refl
