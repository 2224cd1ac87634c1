-- ===== src/Fdt/Info.antt =====
-- `parse_dt_struct` and `print_fdt_info` of src/fdt.c on a well-formed device tree.
use fifth_kernel.Base.{
  ℕ, List, ap, zero, suc, ◌+◌, ◌*◌, ◌≤◌, ◌<◌, ◌≡◌, ◌≢◌, refl, sym, ◌∙◌, arith, true, false, ◌||◌,
  ◌==◌, if◌then◌else◌, [], ◌∷◌, eq→==, pos, Bool-cases, inl, inr,
}
use fifth_kernel.Memory.{Memory, load}
use fifth_kernel.Machine.{Machine, DeviceInformation, u64, printf, pure, ◌>>=◌, ◌>>◌}
use fifth_kernel.Machine.Returns.{Returns, returns, bind, mono}
use fifth_kernel.Machine.Prints.{
  OnlyPrints, OnlyPrints-memory, Prints, Prints-if, printf-Prints, pure-Prints, OnlyPrints-trans,
  printed,
}
use fifth_kernel.Fdt.{Outside, start}
use fifth_kernel.Fdt.Parse.{
  header_field, print_blocks, print_header_fields, read_tree, print_fdt_info, parse_dt_struct,
}
use fifth_kernel.Fdt.Learns.{Learns, Learns-trans, OnlyPrints-Learns}
use fifth_kernel.Fdt.Value.{HasNames}
use fifth_kernel.Fdt.Walk.{IsBlock, IsBlock-Ends, facts}
use fifth_kernel.Fdt.Facts.{Fact, learned, learned-IsKept}
use fifth_kernel.Fdt.Locations.{IsKept}

-- On a structure block that comes to FDT_END after `n` tokens, no more than 32 nodes deep, in which
-- each property stands in a node, has a name shorter than `bound`, and gives a device's ranges a
-- width, `parse_dt_struct` returns with fuel from `n + bound` on. It has learned the facts that the
-- block tells, in their order, and changed nothing else but the console.
pub parse_dt_struct-Learns :
    (out : Outside) (fuel ptr strings n bound : ℕ) (s : Machine) (names : HasNames out s.memory)
    (block : IsBlock out s.memory names strings bound n (start ptr))
    → n + bound ≤ fuel
    → Returns (λ _ s'. Learns (facts block) s s') (parse_dt_struct out fuel ptr strings s)
parse_dt_struct-Learns out fuel ptr strings n bound s names block enough =
    IsBlock-Ends out s.memory names strings bound block fuel s refl enough

-- The list of reserved blocks ends at index `k`.
abbrev pub EndsAt : Memory → (blocks k : ℕ) → Type 0
EndsAt m blocks k =
    ((load 8 m (blocks + 16 * k + 8) == 0) || (load 8 m (blocks + 16 * k) == 0)) ≡ true

print_blocks-Prints :
    (fuel i k blocks : ℕ) (s : Machine)
    → EndsAt s.memory blocks k
    → i ≤ k
    → k < i + fuel
    → Prints s (print_blocks fuel i blocks s)
unfolding print_blocks
print_blocks-Prints zero i k blocks s end low high = absurd (omega arith)
print_blocks-Prints (suc fuel) i k blocks s end low high =
    elim (Bool-cases
      ((load 8 s.memory (blocks + 16 * i + 8) == 0) || (load 8 s.memory (blocks + 16 * i) == 0))) [
        | inl stop ↦ rw stop (pure-Prints i s)
        | inr more ↦
            let address = load 8 s.memory (blocks + 16 * i) in
            let size = load 8 s.memory (blocks + 16 * i + 8) in
            let next =
              printed "Memory block %zd: 0x%p-0x%p\n" (i ∷ address ∷ u64 (address + size) ∷ []) s in
            let apart : i ≢ k = λ same. true_not_false (sym end ∙ rw same at more) in
            rw more (
              mono
                (print_blocks-Prints fuel (i + 1) k blocks next end (omega (arith, apart, low))
                  (omega arith))
                (λ _ s2 q. OnlyPrints-trans s next s2 (_, refl) q))
      ]
  where
    true_not_false : ¬ (true ≡ false)
    true_not_false e = cc

-- A device tree at `header`: its magic number is right, its list of reserved blocks ends at index
-- `k`, and its structure block after `n` tokens.
pub record IsTree (out : Outside) (m : Memory) (header n k bound : ℕ) : Type 0 where
  pub magic : header_field m header 0 ≡ 0xd00dfeed
  pub names : HasNames out m
  pub reserved : EndsAt m (u64 (header + header_field m header 16)) k
  pub block :
      IsBlock out m names
        (u64 (header + header_field m header 12))
        bound
        n
        (start (u64 (header + header_field m header 8)))

-- The state in which the tree's place and size are noted.
abbrev pub noted : (header : ℕ) → Machine → Machine
noted header s = record s {
  device = record s.device { dtb = header; dtb_size = header_field s.memory header 4 };
}

-- The tree's place and size were noted and the facts learned, no device of the table was lost, and
-- nothing else but the console changed.
pub record Informed (header : ℕ) (told : List Fact) (s s' : Machine) : Type 0 where
  pub device : s'.device ≡ learned told (noted header s).device
  pub kept : IsKept s.device.mapped_locations s'.device.mapped_locations
  pub rest : s' ≡ record s { device = s'.device; console = s'.console }

Learns-Informed :
    (header : ℕ) (told : List Fact) (s s' : Machine)
    → Learns told (noted header s) s'
    → Informed header told s s'
Learns-Informed header told s s' l =
    let device : s'.device ≡ learned told (noted header s).device = ap (λ z. z.device) l.rest in
    record {
      device = device;
      kept = rw device (learned-IsKept told (noted header s).device);
      rest =
          l.rest
          ∙ ap {A = DeviceInformation} {B = Machine}
              (λ d. record s { device = d; console = s'.console }) (sym device);
    }

-- `print_fdt_info` on a device tree as `IsTree` describes it returns 1, with fuel for its tokens and
-- the longest name of a property, and for its reserved blocks. It notes the place and size of the
-- tree and learns what its structure block tells, in the block's order: each range of memory
-- replaces the one before, and each range of a device goes to the first unused element of the table
-- of devices while there is one. No device of the table is lost, and nothing else but the console
-- changes.
pub print_fdt_info-Informed :
    (out : Outside) (fuel header n k bound : ℕ) (s : Machine)
    (tree : IsTree out s.memory header n k bound)
    → n + bound ≤ fuel
    → k < fuel
    → Returns
        (λ code s'. (code ≡ pos 1) × Informed header (facts tree.block) s s')
        (print_fdt_info out fuel header s)
unfolding print_fdt_info read_tree print_header_fields
print_fdt_info-Informed out fuel header n k bound s tree enough few =
    rw (eq→== (header_field s.memory header 0) 0xd00dfeed tree.magic) (rest _ (_, refl))
  where
    strings : ℕ
    strings = u64 (header + header_field s.memory header 12)

    rest :
        (t : Machine)
        → OnlyPrints (noted header s) t
        → Returns
            (λ code s'. (code ≡ pos 1) × Informed header (facts tree.block) s s')
            ((do
              i ← print_blocks fuel 0 (u64 (header + header_field s.memory header 16))
              if i == 0 then printf "No reserved memory blocks in dtb\n" [] else pure tt
              parse_dt_struct out fuel (u64 (header + header_field s.memory header 8)) strings
              pure (pos 1))
              t)
    rest t (c, e) = rw e (
        bind
          (print_blocks-Prints fuel 0 k (u64 (header + header_field s.memory header 16))
            (record (noted header s) { console = c }) tree.reserved (omega arith)
            (omega (arith, few)))
          (λ i s1 q1.
            bind
              (Prints-if s1 (i == 0) _ _ (printf-Prints s1 "No reserved memory blocks in dtb\n" [])
                (pure-Prints tt s1))
              (λ _ s2 q2.
                let q =
                  OnlyPrints-trans (noted header s) s1 s2
                    (OnlyPrints-trans (noted header s) (record (noted header s) { console = c }) s1
                      (c, refl) q1)
                    q2 in
                bind
                  (IsBlock-Ends out s.memory tree.names strings bound tree.block fuel s2
                    (OnlyPrints-memory (noted header s) s2 q) enough)
                  (λ _ s3 learns. returns (
                    refl,
                    Learns-Informed header (facts tree.block) s s3 (
                        Learns-trans [] (facts tree.block) (noted header s) s2 s3
                          (OnlyPrints-Learns (noted header s) s2 q) learns),
                  )))))
