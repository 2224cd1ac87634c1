-- ===== src/Page/Descend.antt =====
-- The loop of `map_page` in src/page.c.
use fifth_kernel.Frame.Lowest.{Filled-trans}
use fifth_kernel.Page.Footprint.{Spares-trans}
use fifth_kernel.Base.{
  ℕ, zero, suc, ◌+◌, ◌*◌, ◌^◌, ◌≤◌, ◌<◌, ◌≡◌, refl, sym, ap, ◌∙◌, arith, some, inl, inr, none, ◌⊎◌,
}
use fifth_kernel.Machine.{Machine, Cmd, pure, and_then}
use fifth_kernel.Machine.Returns
use fifth_kernel.Machine.Returns.{Returns, returns}
use fifth_kernel.Page.{Descent, at, stop, map_level, descend, vpn_arr}
use fifth_kernel.Page.Walk.{field, vpn_arr-field}
use fifth_kernel.Page.Tree.{Places}
use fifth_kernel.Page.Update.{Reaches}
use fifth_kernel.Page.Paged.{IsPaged, with_pages, available, space}
use fifth_kernel.Page.Level.{Outcome, map_level-Outcome}
use fifth_kernel.Page.Kept.{Kept, Kept-refl}

Kept-trans : {root : ℕ} {s s' s'' : Machine} → Kept root s s' → Kept root s' s'' → Kept root s s''
Kept-trans {root} {s} {s'} {s''} a b = record {
  places = b.places;
  paged = b.paged;
  same = λ v h. b.same v h ∙ a.same v h;
  rest = b.rest ∙ ap (λ z. with_pages z s''.frames s''.memory) a.rest;
  held = λ f p. b.held f (a.held f p);
  filled = Filled-trans s.frames s'.frames s''.frames a.filled b.held b.filled;
  bytes = λ h. b.bytes (a.bytes h);
  spares = Spares-trans root s s' s'' a.spares b.spares;
}

pub none_not_some : {A : Type 0} {a : A} → ¬ (none ≡ some a)
none_not_some e = ground (arith, e)

Outcome-trans :
    {root vpn : ℕ} {s s' s'' : Machine} {l spare : ℕ} {r : Descent}
    → vpn < 2 ^ 27
    → Kept root s s'
    → (s' ≡ s) ⊎ (space root s vpn ≡ none)
    → Outcome root vpn s' l spare r s''
    → Outcome root vpn s l spare r s''
Outcome-trans {vpn = vpn} h k first (inl a) = inl record {
  kept = Kept-trans k a.kept;
  table = a.table;
  result = a.result;
  reaches = a.reaches;
  spare_frames = a.spare_frames;
  fresh = elim first [
    | inr free ↦ inr free
    | inl same ↦ elim a.fresh [
      | inl again ↦ inl (again ∙ same)
      | inr free ↦ inr (sym (k.same vpn h) ∙ free)
    ]
  ];
}
Outcome-trans {vpn = vpn} h k first (inr b) = inr record {
  kept = Kept-trans k b.kept;
  result = b.result;
  unchanged = elim first [
    | inl same ↦ b.unchanged ∙ same
    | inr free ↦ absurd (none_not_some (sym free ∙ sym (k.same vpn h) ∙ b.hit.1))
  ];
  hit = (b.hit.0, sym (k.same vpn h) ∙ b.hit.1, b.hit.2);
}

pub vpn_arr_lem : (vpn i : ℕ) → i ≤ 2 → vpn_arr vpn i ≡ some (field i vpn)
vpn_arr_lem vpn zero h = (vpn_arr-field vpn).0
vpn_arr_lem vpn (suc zero) h = (vpn_arr-field vpn).1
vpn_arr_lem vpn (suc (suc zero)) h = (vpn_arr-field vpn).2
vpn_arr_lem vpn (suc (suc (suc i))) h = absurd (omega arith)

pub descend-suc :
    (body : ℕ → Cmd Descent) (l vpn t : ℕ) (s : Machine)
    → suc l ≤ 2
    → descend body (suc l) vpn t s
      ≡ and_then
          (body (t + 8 * field (suc l) vpn) s)
          (λ walk. elim walk [ stop err ↦ pure (stop err) | at t' ↦ descend body l vpn t' ])
unfolding descend
descend-suc body l vpn t s h = rw (vpn_arr_lem vpn (suc l) h, descend)

-- The whole loop of `map_page`, down to a table of level 0.
pub descend-Outcome :
    (i : ℕ) {places : Places} {root : ℕ} (s : Machine) (vpn t spare : ℕ)
    → IsPaged places root s
    → vpn < 2 ^ 27
    → Reaches s.memory s.ident_map_addr root vpn i t
    → i ≤ 2
    → i + spare ≤ available s
    → Returns (Outcome root vpn s 0 spare) (descend map_level i vpn t s)
descend-Outcome zero {places} {root} s vpn t spare paged h reaches low enough =
    unfold descend in
    returns (
      inl (record {
        kept = Kept-refl s paged;
        table = t;
        result = refl;
        reaches = reaches;
        spare_frames = omega arith;
        fresh = inl refl;
      }))
descend-Outcome (suc l) {root = root} s vpn t spare paged h reaches low enough =
    rw (descend-suc map_level l vpn t s low) (
      Returns.bind (map_level-Outcome s paged vpn l t (l + spare) h reaches (omega arith))
        (λ r s' out. go r s' out λ places' t' paged' reaches' enough'.
          descend-Outcome l {places = places'} s' vpn t' spare paged' h reaches' (omega arith)
            enough'))
  where
    go :
        (r : Descent) (s' : Machine)
        → Outcome root vpn s l (l + spare) r s'
        → ((places' : Places) (t' : ℕ)
            → IsPaged places' root s'
            → Reaches s'.memory s'.ident_map_addr root vpn l t'
            → l + spare ≤ available s'
            → Returns (Outcome root vpn s' 0 spare) (descend map_level l vpn t' s'))
        → Returns (Outcome root vpn s 0 spare) (
            (elim r as (λ _. Cmd Descent) [
              | stop err ↦ pure (stop err)
              | at t' ↦ descend map_level l vpn t'
            ])
              s')
    go r s' (inl a) below = rw a.result (
        Returns.mono (below a.kept.places a.table a.kept.paged a.reaches a.spare_frames)
          (λ r' s'' out. Outcome-trans h a.kept a.fresh out))
    go r s' (inr b) below = rw b.result (
        returns (inr record { kept = b.kept; result = refl; unchanged = b.unchanged; hit = b.hit }))
