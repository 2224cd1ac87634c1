-- ===== src/Fdt/Property.antt =====
-- `parse_prop` of src/fdt.c, and the tokens that tell nothing.
use fifth_kernel.Base.{ℕ, ◌+◌, ◌-◌, ◌<◌, ◌≡◌, refl, true, ◌==◌, List, [], ◌∷◌, length}
use fifth_kernel.Memory.{Memory, load}
use fifth_kernel.Machine.{Machine, u64}
use fifth_kernel.Machine.Returns.{Returns, returns, bind, mono}
use fifth_kernel.Machine.Prints.{
  OnlyPrints, OnlyPrints-trans, Prints, Prints-if, printed, printf-Prints, pure-Prints,
}
use fifth_kernel.CString.Order.{IsString}
use fifth_kernel.Fdt.{swapb, align32, Parser, Outside}
use fifth_kernel.Fdt.Prop.{in_arrays, parse_prop}
use fifth_kernel.Fdt.Parse.{end_tree, other_token}
use fifth_kernel.Fdt.Cases.{print_tabs-Prints}
use fifth_kernel.Fdt.Facts.{Fact}
use fifth_kernel.Fdt.Learns.{Learns, Learns-printing, HasRanges}
use fifth_kernel.Fdt.Value.{HasNames, is_name, is_device, understood, prop_facts, prop_value-Learns}

-- What the walk reads at the parser's place.
abbrev pub token_at : Memory → Parser → ℕ
token_at m p = swapb (load 4 m p.ptr)

abbrev pub past : Parser → Parser
past p = record p { ptr = u64 (p.ptr + 4) }

-- The length of a property's value, its name, and the place of its value, behind the token.
abbrev pub prop_length : Memory → Parser → ℕ
prop_length m p = swapb (load 4 m p.ptr)

abbrev pub prop_name : Memory → (strings : ℕ) → Parser → ℕ
prop_name m strings p = u64 (strings + swapb (load 4 m (p.ptr + 4)))

abbrev pub at_value : Parser → Parser
at_value p = record p { ptr = u64 (p.ptr + 8) }

-- The parser behind a property.
abbrev pub said : (out : Outside) (m : Memory) → HasNames out m → (chars : List ℕ) → Parser → Parser
said out m names chars p =
    let q = understood out m names (p.depth - 1) chars (at_value p) in
    record q { ptr = align32 (u64 (q.ptr + prop_length m p)) }

-- A property that has a meaning: it stands in a node, its name is a string shorter than `bound`, and
-- the ranges of a device have a width.
pub record IsProperty (out : Outside) (m : Memory) (names : HasNames out m) (strings bound : ℕ)
    (chars : List ℕ) (p : Parser) : Type 0 where
  pub in_node : in_arrays p ≡ true
  pub name : IsString m (prop_name m strings p) chars
  pub short : length chars < bound
  pub ranges :
      is_device out m (p.node_arr (p.depth - 1)) (is_name chars names.reg) ≡ true
      → HasRanges
          (prop_length m p)
          (p.address_cells_arr (p.depth - 1))
          (p.size_cells_arr (p.depth - 1))

-- What a property tells.
abbrev pub said_facts :
    (out : Outside) (m : Memory) → HasNames out m → (chars : List ℕ) → Parser → List Fact
said_facts out m names chars p =
    prop_facts out m names (p.depth - 1) chars (prop_length m p) (at_value p)

pub parse_prop-Learns :
    (out : Outside) (fuel strings : ℕ) (p : Parser) (s : Machine) (names : HasNames out s.memory)
    (chars : List ℕ)
    → IsProperty out s.memory names strings fuel chars p
    → Returns
        (λ p' s'.
          (p' ≡ said out s.memory names chars p)
          × Learns (said_facts out s.memory names chars p) s s')
        (parse_prop out fuel strings p s)
unfolding parse_prop
parse_prop-Learns out fuel strings p s names chars is =
    bind (print_tabs-Prints p.tabs s) (λ _ s1 (c, e).
      let named =
        printed "FDT_PROP: (%d) %s = " (prop_length s.memory p ∷ prop_name s.memory strings p ∷ [])
          (record s { console = c }) in
      rw (e, is.in_node)
        (bind
          (prop_value-Learns out fuel (prop_name s.memory strings p) (prop_length s.memory p)
            (p.depth - 1) (at_value p) named names chars is.name is.short is.ranges)
          (λ q s2 (eq, learns). returns (
            rw eq refl,
            Learns-printing (said_facts out s.memory names chars p) s named s2 (printed "\n" [] s2)
                (_, refl) learns (_, refl),
          ))))

pub other_token-Prints :
    (token : ℕ) (p : Parser) (s : Machine)
    → Returns (λ p' s'. (p' ≡ p) × OnlyPrints s s') (other_token token p s)
unfolding other_token
other_token-Prints token p s = bind (print_tabs-Prints p.tabs s) (λ _ s1 q.
    bind
      (Prints-if s1 (token == 4) _ _ (printf-Prints s1 "FDT_NOP\n" [])
        (printf-Prints s1 "Not a token: %d\n" (token ∷ [])))
      (λ _ s2 q2. returns (refl, OnlyPrints-trans s s1 s2 q q2)))

pub end_tree-Prints : (p : Parser) (s : Machine) → Prints s (end_tree p s)
unfolding end_tree
end_tree-Prints p s = bind (print_tabs-Prints p.tabs s) (λ _ s1 q.
    let ended = printed "FDT_END\n" [] s1 in
    mono
      (Prints-if ended (p.depth == 0) _ _ (pure-Prints tt ended)
        (printf-Prints ended "Warning: unexpected FDT_END\n" []))
      (λ _ s2 q2. OnlyPrints-trans s s1 s2 q (OnlyPrints-trans s1 ended s2 (_, refl) q2)))
