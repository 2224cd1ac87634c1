-- ===== src/Fdt/Value.antt =====
-- A property of a node in the device tree of src/fdt.c: its value is printed or recorded.
use fifth_kernel.Base.{
  ℕ, ◌<◌, ◌≡◌, refl, Bool, true, not, ◌&&◌, if◌then◌else◌, inl, inr, Bool-cases, List, length, [],
  ◌∷◌, ◌+◌,
}
use fifth_kernel.Memory.{Memory, load}
use fifth_kernel.Machine.{Machine, done}
use fifth_kernel.Machine.Returns.{Returns, returns, bind}
use fifth_kernel.CString.{strncmp}
use fifth_kernel.CString.Order.{IsString, order, strcmp-order}
use fifth_kernel.Fdt.{swapb, swapb64, Parser, Outside}
use fifth_kernel.Fdt.Facts.{Fact, memory_at}
use fifth_kernel.Fdt.Prop.{is_zero, equal_strings, fill_from, prop_value}
use fifth_kernel.Fdt.Learns.{
  Learns, OnlyPrints-Learns, print_chars-Prints, HasRanges, range_facts, reg_prop-Learns,
  memory_prop-Learns,
}

-- The names that the walk looks for stand in memory as strings.
pub record HasNames (out : Outside) (m : Memory) : Type 0 where
  pub reg : List ℕ
  pub address : List ℕ
  pub size : List ℕ
  pub reg_is : IsString m out.reg reg
  pub address_is : IsString m out.address_cells address
  pub size_is : IsString m out.size_cells size

abbrev pub is_name : List ℕ → List ℕ → Bool
is_name xs ys = is_zero (order xs ys)

equal_strings-order :
    (fuel a b : ℕ) (s : Machine) (xs ys : List ℕ)
    → IsString s.memory a xs
    → IsString s.memory b ys
    → length xs < fuel
    → equal_strings fuel a b s ≡ done (is_name xs ys) s
unfolding equal_strings
equal_strings-order fuel a b s xs ys p q h =
    rw (strcmp-order fuel s.memory a b xs ys p q h, equal_strings) refl

abbrev pub node_is : Memory → (node name count : ℕ) → Bool
node_is m node name count = is_zero (strncmp m node name count)

-- The name is one of a device's registers.
abbrev pub is_device : Outside → Memory → (node : ℕ) → (reg : Bool) → Bool
is_device out m node reg =
    reg && not (node_is m node out.cpu 3) && not (node_is m node out.memory 6)

-- The name is that of memory's range.
abbrev pub is_range : Outside → Memory → (node : ℕ) → (reg : Bool) → Bool
is_range out m node reg = reg && node_is m node out.memory 6

-- The parser behind a property's value, where `index` is its node's.
abbrev pub valued : (value index : ℕ) → (device range address size : Bool) → Parser → Parser
valued value index device range address size p =
    if device
    then p
    else if range
    then p
    else if address
    then record p { address_cells_arr = fill_from index value p.address_cells_arr }
    else if size
    then record p { size_cells_arr = fill_from index value p.size_cells_arr }
    else p

-- The same of a property with the name `chars`, in memory.
abbrev pub understood :
    (out : Outside) (m : Memory) → HasNames out m → (index : ℕ) → List ℕ → Parser → Parser
understood out m names index chars p =
    let node = p.node_arr index in
    let reg = is_name chars names.reg in
    valued (swapb (load 4 m p.ptr)) index (is_device out m node reg) (is_range out m node reg)
      (is_name chars names.address) (is_name chars names.size) p

-- What a property tells: the ranges of a device, or the range of memory.
abbrev pub prop_facts :
    (out : Outside) (m : Memory)
    → HasNames out m
    → (index : ℕ) → List ℕ
    → (len : ℕ) → Parser
    → List Fact
prop_facts out m names index chars len p =
    let node = p.node_arr index in
    let reg = is_name chars names.reg in
    if is_device out m node reg
    then range_facts m len p.ptr (p.address_cells_arr index) (p.size_cells_arr index)
    else if is_range out m node reg
    then memory_at (swapb64 (load 8 m p.ptr)) (swapb64 (load 8 m (p.ptr + 8))) ∷ []
    else []

module _ (out : Outside) (fuel name len index : ℕ) (p : Parser) (s : Machine)
    (names : HasNames out s.memory) (chars : List ℕ) (is : IsString s.memory name chars)
    (short : length chars < fuel) where
  abbrev node : ℕ
  node = p.node_arr index

  abbrev device : Bool
  device = is_device out s.memory node (is_name chars names.reg)

  abbrev range : Bool
  range = is_range out s.memory node (is_name chars names.reg)

  abbrev Valued : Parser → Machine → Type 0
  Valued p' s' =
      (p' ≡ understood out s.memory names index chars p)
      × Learns (prop_facts out s.memory names index chars len p) s s'

  pub prop_value-Learns :
      (device ≡ true → HasRanges len (p.address_cells_arr index) (p.size_cells_arr index))
      → Returns Valued (prop_value out fuel name len index p s)
  unfolding prop_value
  prop_value-Learns ranges =
      rw (equal_strings-order fuel name out.reg s chars names.reg is names.reg_is short)
        (elim (Bool-cases device) [
          | inl yes_device ↦ rw yes_device (
              bind
                (reg_prop-Learns len p.ptr (p.address_cells_arr index) (p.size_cells_arr index) s
                  (ranges yes_device))
                (λ _ s1 learns.
                  returns (rw (understood, yes_device) refl, rw (prop_facts, yes_device) learns)))
          | inr no_device ↦ rw no_device (elim (Bool-cases range) [
            | inl yes_range ↦ rw yes_range (
                bind (memory_prop-Learns p.ptr s) (λ _ s1 learns. returns (
                  rw (understood, no_device, yes_range) refl,
                  rw (prop_facts, no_device, yes_range) learns,
                )))
            | inr no_range ↦
                rw
                  (
                    no_range,
                    equal_strings-order fuel name out.address_cells s chars names.address is
                        names.address_is short,
                  )
                  (elim (Bool-cases (is_name chars names.address)) [
                    | inl yes_address ↦ rw yes_address (
                        returns (
                          rw (understood, no_device, no_range, yes_address) refl,
                          rw (prop_facts, no_device, no_range) (OnlyPrints-Learns s _ (_, refl)),
                        ))
                    | inr no_address ↦
                        rw
                          (
                            no_address,
                            equal_strings-order fuel name out.size_cells s chars names.size is
                                names.size_is short,
                          )
                          (elim (Bool-cases (is_name chars names.size)) [
                            | inl yes_size ↦ rw yes_size (
                                returns (
                                  rw (understood, no_device, no_range, no_address, yes_size) refl,
                                  rw (prop_facts, no_device, no_range)
                                      (OnlyPrints-Learns s _ (_, refl)),
                                ))
                            | inr no_size ↦ rw no_size (
                                bind (print_chars-Prints len 0 p.ptr s) (λ _ s1 q. returns (
                                  rw (understood, no_device, no_range, no_address, no_size) refl,
                                  rw (prop_facts, no_device, no_range) (OnlyPrints-Learns s s1 q),
                                )))
                          ])
                  ])
          ])
        ])
