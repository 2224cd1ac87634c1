-- ===== src/Fdt/Cases.antt =====
-- `print_fdt_info` of src/fdt.c on what is no device tree, and a node that begins and ends.
use fifth_kernel.Fdt.Prop.{fill_from}
use fifth_kernel.Base.{
  ℕ, zero, suc, ◌+◌, ◌-◌, ◌<◌, ◌≡◌, ◌≢◌, refl, ◌∙◌, arith, ◌==◌, if◌then◌else◌, leb, ℤ, pos, negsuc,
  [], ne→not_==, false,
}
use fifth_kernel.Machine.{Machine, u64, ◌>>=◌}
use fifth_kernel.Machine.Returns.{Returns, returns, bind, mono}
use fifth_kernel.Machine.Prints.{
  OnlyPrints, OnlyPrints-trans, Prints, Prints-then, Prints-if, printed, printf-Prints, pure-Prints,
}
use fifth_kernel.Fdt.{align32, tabs_loop, print_tabs, inc, dec, Parser, Outside}
use fifth_kernel.Fdt.Parse.{header_field, print_fdt_info, begin_node, end_node, parent_cells}

-- Of a header whose magic number is not 0xd00dfeed `print_fdt_info` reads nothing else: it returns
-- -1, and changes nothing but the console; the device information is as before.
pub print_fdt_info-refuses :
    (out : Outside) (fuel header : ℕ) (s : Machine)
    → header_field s.memory header 0 ≢ 0xd00dfeed
    → Returns (λ code s'. (code ≡ negsuc 0) × OnlyPrints s s') (print_fdt_info out fuel header s)
unfolding print_fdt_info
print_fdt_info-refuses out fuel header s wrong =
    rw (ne→not_== (header_field s.memory header 0) 0xd00dfeed wrong) (returns (refl, (_, refl)))

tabs_loop-Prints : (left : ℕ) (s : Machine) → Prints s (tabs_loop left s)
unfolding tabs_loop
tabs_loop-Prints zero s = pure-Prints tt s
tabs_loop-Prints (suc left) s =
    Prints-then s (printf-Prints s _ _) (λ _ s' _. tabs_loop-Prints left s')

pub print_tabs-Prints : (count : ℤ) (s : Machine) → Prints s (print_tabs count s)
unfolding print_tabs
print_tabs-Prints (pos count) s = tabs_loop-Prints count s
print_tabs-Prints (negsuc n) s = pure-Prints tt s

-- The parser after FDT_BEGIN_NODE.
abbrev pub begun : (length : ℕ) → Parser → Parser
begun length p = record p {
  ptr = align32 (u64 (p.ptr + length + 1));
  node_arr = λ i. if i == p.depth then p.ptr else p.node_arr i;
  depth = p.depth + 1;
  tabs = inc p.tabs;
}

pub begin_node_lem :
    (out : Outside) (p : Parser) (s : Machine)
    → p.depth < 32
    → Returns
        (λ p' s'. (p' ≡ begun (out.sprintf_length s.memory p.ptr) p) × OnlyPrints s s')
        (begin_node out p s)
unfolding begin_node
begin_node_lem out p s h =
    let room : leb 32 p.depth ≡ false = ground arith in
    bind (print_tabs-Prints p.tabs s)
      (λ _ s1 q. rw room (returns (refl, OnlyPrints-trans s s1 _ q (_, refl))))

-- The parser after FDT_END_NODE.
abbrev pub closed : Outside → Parser → Parser
closed out p =
    let depth = p.depth - 1 in
    record p {
      tabs = dec p.tabs;
      depth = depth;
      address_cells_arr =
          fill_from depth (parent_cells out.address_before p.address_cells_arr depth)
            p.address_cells_arr;
      size_cells_arr =
          fill_from depth (parent_cells out.size_before p.size_cells_arr depth) p.size_cells_arr;
    }

pub end_node-closed :
    (out : Outside) (p : Parser) (s : Machine)
    → Returns (λ p' s'. (p' ≡ closed out p) × OnlyPrints s s') (end_node out p s)
unfolding end_node
end_node-closed out p s = bind (print_tabs-Prints (dec p.tabs) s) (λ _ s1 q1.
    let ended = printed "FDT_END_NODE\n" [] s1 in
    bind
      (Prints-if ended (p.depth == 0) _ _
        (printf-Prints ended "Warning: Device tree seems to be corrupted\n" [])
        (pure-Prints tt ended))
      (λ _ s2 q2.
        returns (refl, OnlyPrints-trans s s1 s2 q1 (OnlyPrints-trans s1 ended s2 (_, refl) q2))))

end_node_lem :
    (out : Outside) (p : Parser) (s : Machine)
    → Returns
        (λ p' s'.
          (p'.depth ≡ p.depth - 1)
          × (p'.tabs ≡ dec p.tabs)
          × ((i : ℕ)
              → i + 1 < p.depth
              → (p'.address_cells_arr i ≡ p.address_cells_arr i)
                × (p'.size_cells_arr i ≡ p.size_cells_arr i)
                × (p'.node_arr i ≡ p.node_arr i))
          × OnlyPrints s s')
        (end_node out p s)
end_node_lem out p s = mono (end_node-closed out p s) (λ p' s' (e, q). rw e (refl, refl, kept, q))
  where
    kept :
        (i : ℕ)
        → i + 1 < p.depth
        → ((if leb (p.depth - 1) i
              then parent_cells out.address_before p.address_cells_arr (p.depth - 1)
              else p.address_cells_arr i)
            ≡ p.address_cells_arr i)
          × ((if leb (p.depth - 1) i
                then parent_cells out.size_before p.size_cells_arr (p.depth - 1)
                else p.size_cells_arr i)
              ≡ p.size_cells_arr i)
          × (p.node_arr i ≡ p.node_arr i)
    kept i h = let above : leb (p.depth - 1) i ≡ false = ground arith in (rw above, rw above, refl)

dec-inc : (t : ℤ) → dec (inc t) ≡ t
dec-inc (pos n) = refl
dec-inc (negsuc zero) = refl
dec-inc (negsuc (suc n)) = refl

-- Below 32 nodes deep, FDT_BEGIN_NODE and then FDT_END_NODE leave the depth, the indentation, and
-- the names and cells of every node around the new one's parent as they were, and change nothing of
-- the kernel's state but the console.
pub end_node-begin_node :
    (out : Outside) (p : Parser) (s : Machine)
    → p.depth < 32
    → Returns
        (λ p' s'.
          (p'.depth ≡ p.depth)
          × (p'.tabs ≡ p.tabs)
          × ((i : ℕ)
              → i < p.depth
              → (p'.address_cells_arr i ≡ p.address_cells_arr i)
                × (p'.size_cells_arr i ≡ p.size_cells_arr i)
                × (p'.node_arr i ≡ p.node_arr i))
          × OnlyPrints s s')
        ((begin_node out p >>= end_node out) s)
end_node-begin_node out p s h = bind (begin_node_lem out p s h) (λ p1 s1 (e, q1). rw e (
    mono (end_node_lem out (begun (out.sprintf_length s.memory p.ptr) p) s1)
      (λ p2 s2 (depth, tabs, cells, q2). (
        depth ∙ (omega arith),
        tabs ∙ dec-inc p.tabs,
        (λ i small. kept p2 i small (cells i (omega arith))),
        OnlyPrints-trans s s1 s2 q1 q2,
      ))))
  where
    L : ℕ
    L = out.sprintf_length s.memory p.ptr

    kept :
        (p2 : Parser) (i : ℕ)
        → i < p.depth
        → (p2.address_cells_arr i ≡ p.address_cells_arr i)
          × (p2.size_cells_arr i ≡ p.size_cells_arr i)
          × (p2.node_arr i ≡ (begun L p).node_arr i)
        → (p2.address_cells_arr i ≡ p.address_cells_arr i)
          × (p2.size_cells_arr i ≡ p.size_cells_arr i)
          × (p2.node_arr i ≡ p.node_arr i)
    kept p2 i small (a, b, c) =
        let old : (i == p.depth) ≡ false = ground arith in (a, b, c ∙ rw old)
