-- ===== src/Fdt/Walk.antt =====
-- The loop of `parse_dt_struct` in src/fdt.c on a structure block that ends.
use fifth_kernel.Fdt.Property.{
  token_at, past, said, IsProperty, said_facts, parse_prop-Learns, other_token-Prints,
  end_tree-Prints,
}
use fifth_kernel.Base.{
  ℕ, zero, suc, ◌+◌, ◌≤◌, ◌<◌, ◌≡◌, ◌≢◌, refl, ap, ◌∙◌, arith, false, ◌==◌, List, [], ◌++◌,
  ne→not_==, sym,
}
use fifth_kernel.Memory.{Memory}
use fifth_kernel.Machine.{Machine}
use fifth_kernel.Machine.Returns.{Returns, bind, mono}
use fifth_kernel.Fdt.{Parser, Outside}
use fifth_kernel.Fdt.Prop.{parse_prop}
use fifth_kernel.Fdt.Parse.{parse_token, parse_loop}
use fifth_kernel.Fdt.Cases.{begun, begin_node_lem, closed, end_node-closed}
use fifth_kernel.Fdt.Facts.{Fact}
use fifth_kernel.Fdt.Learns.{Learns, Learns-trans, Learns-memory, OnlyPrints-Learns}
use fifth_kernel.Fdt.Value.{HasNames}

-- A structure block, from the parser's place on, that comes to FDT_END after a number of tokens; no
-- node is more than 32 deep, and each property has a meaning.
pub data IsBlock (out : Outside) (m : Memory) (names : HasNames out m) (strings bound : ℕ)
    : ℕ → Parser → Type 0 where
  ends : {p : Parser} → token_at m p ≡ 9 → IsBlock out m names strings bound 1 p
  begins :
      {n : ℕ} {p : Parser}
      → token_at m p ≡ 1
      → p.depth < 32
      → IsBlock out m names strings bound n (begun (out.sprintf_length m (past p).ptr) (past p))
      → IsBlock out m names strings bound (suc n) p
  closes :
      {n : ℕ} {p : Parser}
      → token_at m p ≡ 2
      → IsBlock out m names strings bound n (closed out (past p))
      → IsBlock out m names strings bound (suc n) p
  says :
      {n : ℕ} {p : Parser} (chars : List ℕ)
      → token_at m p ≡ 3
      → IsProperty out m names strings bound chars (past p)
      → IsBlock out m names strings bound n (said out m names chars (past p))
      → IsBlock out m names strings bound (suc n) p
  skips :
      {n : ℕ} {p : Parser}
      → token_at m p ≢ 1
      → token_at m p ≢ 2
      → token_at m p ≢ 3
      → token_at m p ≢ 9
      → IsBlock out m names strings bound n (past p)
      → IsBlock out m names strings bound (suc n) p

-- What a structure block tells, in order.
unfoldable pub facts :
    {out : Outside} {m : Memory} {names : HasNames out m} {strings bound n : ℕ} {p : Parser}
    → IsBlock out m names strings bound n p
    → List Fact
facts (ends token) = []
facts (begins token room block) = facts block
facts (closes token block) = facts block
facts {out} {m} {names} (says {p} chars token is block) =
    said_facts out m names chars (past p) ++ facts block
facts (skips a b c d block) = facts block

parse_prop_in :
    (out : Outside) (fuel strings : ℕ) (p : Parser) (s : Machine) (m : Memory) (chars : List ℕ)
    → m ≡ s.memory
    → (names : HasNames out m) → IsProperty out m names strings fuel chars p
    → Returns
        (λ p' s'. (p' ≡ said out m names chars p) × Learns (said_facts out m names chars p) s s')
        (parse_prop out fuel strings p s)
parse_prop_in out fuel strings p s m chars e =
    rw e (λ names is. parse_prop-Learns out fuel strings p s names chars is)

module _ (out : Outside) (m : Memory) (names : HasNames out m) (strings bound : ℕ) where
  -- What a round leaves for the next, and what it tells.
  abbrev Round : List Fact → Parser → Machine → Parser → Machine → Type 0
  Round told q s p' s' = (p' ≡ q) × Learns told s s'

  abbrev Ends : ℕ → Parser → List Fact → Type 0
  Ends n p told =
      (fuel : ℕ) (s : Machine)
      → s.memory ≡ m
      → n + bound ≤ fuel
      → Returns (λ _ s'. Learns told s s') (parse_loop out fuel strings p s)

  parse_loop-next :
      (n fuel : ℕ) (p q : Parser) (s : Machine) (now later : List Fact)
      → (token_at s.memory p == 9) ≡ false
      → Returns (Round now q s) (parse_token out fuel strings (token_at s.memory p) (past p) s)
      → s.memory ≡ m
      → n + bound ≤ fuel
      → Ends n q later
      → Returns (λ _ s'. Learns (now ++ later) s s') (parse_loop out (suc fuel) strings p s)
  unfolding parse_loop
  parse_loop-next n fuel p q s now later more round e enough rest = rw more (
      bind round (λ p' s1 (eq, learns). rw eq (
        mono (rest fuel s1 (Learns-memory now s s1 learns ∙ e) enough)
          (λ _ s2 learns'. Learns-trans now later s s1 s2 learns learns'))))

  IsBlock-le : {n : ℕ} {p : Parser} → IsBlock out m names strings bound n p → 1 ≤ n
  IsBlock-le (ends token) = omega arith
  IsBlock-le (begins token room block) = omega arith
  IsBlock-le (closes token block) = omega arith
  IsBlock-le (says chars token is block) = omega arith
  IsBlock-le (skips a b c d block) = omega arith

  token_in : (s : Machine) (p : Parser) → s.memory ≡ m → token_at s.memory p ≡ token_at m p
  token_in s p e = ap (λ z. token_at z p) e

  pub IsBlock-Ends :
      {n : ℕ} {p : Parser} (block : IsBlock out m names strings bound n p) → Ends n p (facts block)
  unfolding parse_loop parse_token facts
  IsBlock-Ends block zero s e enough = absurd (omega (arith, IsBlock-le block))
  IsBlock-Ends (ends {p} token) (suc fuel) s e enough =
      rw (token_in s p e ∙ token)
        (mono (end_tree-Prints (past p) s) (λ _ s1 q. OnlyPrints-Learns s s1 q))
  IsBlock-Ends (begins {n} {p} token room block) (suc fuel) s e enough =
      let q = begun (out.sprintf_length m (past p).ptr) (past p) in
      let at = token_in s p e ∙ token in
      parse_loop-next n fuel p q s [] (facts block) (rw at refl)
        (rw at (
          mono (begin_node_lem out (past p) s room) (λ p' s' (eq, prints). (
            eq ∙ ap (λ z. begun (out.sprintf_length z (past p).ptr) (past p)) e,
            OnlyPrints-Learns s s' prints,
          ))))
        e (omega arith) (IsBlock-Ends block)
  IsBlock-Ends (closes {n} {p} token block) (suc fuel) s e enough =
      let at = token_in s p e ∙ token in
      parse_loop-next n fuel p (closed out (past p)) s [] (facts block) (rw at refl)
        (rw at (
          mono (end_node-closed out (past p) s)
            (λ p' s' (eq, prints). (eq, OnlyPrints-Learns s s' prints))))
        e (omega arith) (IsBlock-Ends block)
  IsBlock-Ends (says {n} {p} chars token is block) (suc fuel) s e enough =
      let at = token_in s p e ∙ token in
      parse_loop-next n fuel p (said out m names chars (past p)) s
        (said_facts out m names chars (past p)) (facts block) (rw at refl)
        (rw at (
          parse_prop_in out fuel strings (past p) s m chars (sym e) names record {
            in_node = is.in_node;
            name = is.name;
            short = omega (arith, is.short, enough);
            ranges = is.ranges;
          }))
        e (omega arith) (IsBlock-Ends block)
  IsBlock-Ends (skips {n} {p} a b c d block) (suc fuel) s e enough =
      let at = token_in s p e in
      parse_loop-next n fuel p (past p) s [] (facts block) (rw at (ne→not_== (token_at m p) 9 d))
        (rw
          (
            at,
            ne→not_== (token_at m p) 1 a,
            ne→not_== (token_at m p) 2 b,
            ne→not_== (token_at m p) 3 c,
          )
          (mono (other_token-Prints (token_at m p) (past p) s)
            (λ p' s' (eq, prints). (eq, OnlyPrints-Learns s s' prints))))
        e (omega arith) (IsBlock-Ends block)
