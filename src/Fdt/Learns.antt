-- ===== src/Fdt/Learns.antt =====
-- What the walk over the device tree of src/fdt.c changes of the kernel's state: it learns facts.
use mathlib.Core.List.{append-nil}
use fifth_kernel.Base.{
  ℕ, zero, suc, ◌+◌, ◌*◌, ◌/◌, ◌%◌, ◌^◌, ◌≡◌, refl, ap, sym, ◌∙◌, false, ◌==◌, leb, List, [], ◌∷◌,
  ◌++◌,
}
use fifth_kernel.Memory.{Memory, load}
use fifth_kernel.Machine.{Machine, DeviceInformation}
use fifth_kernel.Machine.Returns.{Returns, returns, bind}
use fifth_kernel.Machine.Prints.{
  OnlyPrints, Prints, Prints-then, Prints-if, printf-Prints, pure-Prints,
}
use fifth_kernel.Fdt.{swapb64}
use fifth_kernel.Fdt.Prop.{print_words, print_chars, reg_prop, memory_prop}
use fifth_kernel.Fdt.Facts.{Fact, memory_at, learned, learned-append, ranges_of, map_ranges-learned}

-- The facts were learned, in order, and nothing else but the console changed.
pub record Learns (facts : List Fact) (s s' : Machine) : Type 0 where
  pub rest : s' ≡ record s { device = learned facts s.device; console = s'.console }

pub Learns-trans :
    (xs ys : List Fact) (s s' s'' : Machine)
    → Learns xs s s'
    → Learns ys s' s''
    → Learns (xs ++ ys) s s''
Learns-trans xs ys s s' s'' p q = record {
  rest =
      q.rest
      ∙ ap {A = Machine} {B = Machine}
          (λ z. record z { device = learned ys z.device; console = s''.console }) p.rest
      ∙ ap {A = DeviceInformation} {B = Machine}
          (λ d. record s { device = d; console = s''.console })
          (sym (learned-append xs ys s.device));
}

pub Learns-memory : (facts : List Fact) (s s' : Machine) → Learns facts s s' → s'.memory ≡ s.memory
Learns-memory facts s s' p = ap {A = Machine} {B = Memory} (λ z. z.memory) p.rest

pub OnlyPrints-Learns : (s s' : Machine) → OnlyPrints s s' → Learns [] s s'
OnlyPrints-Learns s s' (c, p) = record {
  rest = p ∙ ap (λ c. record s { console = c }) (sym (ap (λ z. z.console) p));
}

-- Prints before and behind change nothing.
pub Learns-printing :
    (facts : List Fact) (s s1 s2 s3 : Machine)
    → OnlyPrints s s1
    → Learns facts s1 s2
    → OnlyPrints s2 s3
    → Learns facts s s3
Learns-printing facts s s1 s2 s3 before l behind = rw (append-nil facts) at (
    Learns-trans facts [] s s2 s3 (Learns-trans [] facts s s1 s2 (OnlyPrints-Learns s s1 before) l)
      (OnlyPrints-Learns s2 s3 behind))

pub print_words-Prints : (left i ptr : ℕ) (s : Machine) → Prints s (print_words left i ptr s)
unfolding print_words
print_words-Prints zero i ptr s = pure-Prints tt s
print_words-Prints (suc left) i ptr s =
    Prints-then s (Prints-if s (i == 0) _ _ (pure-Prints tt s) (printf-Prints s " " [])) (λ _ s1 _.
      Prints-then s1 (printf-Prints s1 _ _) (λ _ s2 _. print_words-Prints left (i + 1) ptr s2))

pub print_chars-Prints : (left i ptr : ℕ) (s : Machine) → Prints s (print_chars left i ptr s)
unfolding print_chars
print_chars-Prints zero i ptr s = pure-Prints tt s
print_chars-Prints (suc left) i ptr s =
    Prints-then s (printf-Prints s _ _) (λ _ s1 _. print_chars-Prints left (i + 1) ptr s1)

-- The cells of a device's ranges have no width, or they are so many that the loop's `int` overflows.
abbrev pub HasRanges : (len address_cells size_cells : ℕ) → Type 0
HasRanges len address_cells size_cells =
    let cells = (size_cells + address_cells) % 2 ^ 32 in
    ((cells == 0) ≡ false) × (leb (2 ^ 31) (len / 4 / cells * 4) ≡ false)

-- The facts in the ranges of a device.
abbrev pub range_facts : Memory → (len ptr address_cells size_cells : ℕ) → List Fact
range_facts m len ptr address_cells size_cells =
    ranges_of m ptr size_cells (len / 4 / ((size_cells + address_cells) % 2 ^ 32)) 0

pub reg_prop-Learns :
    (len ptr address_cells size_cells : ℕ) (s : Machine)
    → HasRanges len address_cells size_cells
    → Returns
        (λ _ s'. Learns (range_facts s.memory len ptr address_cells size_cells) s s')
        (reg_prop len ptr address_cells size_cells s)
unfolding reg_prop
reg_prop-Learns len ptr address_cells size_cells s (some_cells, few) =
    rw (some_cells, few)
      (bind
        (Prints-then s
          (Prints-then s (printf-Prints s "<" []) (λ _ s1 _.
            print_words-Prints (len / 4 / ((size_cells + address_cells) % 2 ^ 32) * 4) 0 ptr s1))
          (λ _ s2 _. printf-Prints s2 ">" []))
        (λ _ s3 (c, e). rw (e, map_ranges-learned) (returns record { rest = refl })))

pub memory_prop-Learns :
    (ptr : ℕ) (s : Machine)
    → Returns
        (λ _ s'.
          Learns
            (memory_at (swapb64 (load 8 s.memory ptr)) (swapb64 (load 8 s.memory (ptr + 8))) ∷ [])
            s
            s')
        (memory_prop ptr s)
unfolding memory_prop
memory_prop-Learns ptr s = returns record { rest = refl }
