-- ===== src/Page/Grow.antt =====
-- `map_level` of src/page.c, where a table is added.
use fifth_kernel.Page.NewTable.{IsTaken}
use fifth_kernel.Base.{
  ℕ, ◌+◌, ◌-◌, ◌*◌, ◌/◌, ◌%◌, ◌^◌, ◌<◌, ◌≡◌, ◌≢◌, refl, sym, ap, ◌∙◌, arith, true, Option, none,
  some, inl,
}
use fifth_kernel.Memory.{Memory, IsBytes}
use fifth_kernel.Mem.{memset}
use fifth_kernel.Mem.Copy.{memset_lem, memset-IsBytes}
use fifth_kernel.Frame.{Frames, frame_count}
use fifth_kernel.Frame.Bitmap.{allocated}
use fifth_kernel.Machine.{Machine, done, u64}
use fifth_kernel.Page.{table_of, allocate_new_page_table, link_new_table, map_level, at}
use fifth_kernel.Page.Entry.{
  Pte, IsPte, load_pte, store_pte, load_pte-IsPte, load_pte-store_pte, load_pte-store_pte_apart,
  load_pte_ext, load_pte-zero, store_pte-IsBytes,
}
use fifth_kernel.Page.Tree.{Place, Places, frame_addr, IsRange, IsFramed, IsTree}
use fifth_kernel.Page.Update.{IsFramed-aligned, entries_apart}
use fifth_kernel.Page.Rewrite.{Rewrites, store_pte-Rewrites}
use fifth_kernel.Page.Link.{Links}

-- `map_level`'s flags of an entry that becomes a link.
abbrev pub link_flags : Pte → Pte
link_flags e = record e { v = 1; r = 0; w = 0; x = 0 }

-- The physical page number that is stored for the table at `pt`.
abbrev pub link_ppn : (ident pt : ℕ) → ℕ
link_ppn ident pt = (pt + 2 ^ 64 - ident) % 2 ^ 64 / 4096 % 2 ^ 44

-- The entry that links to the table at `pt`.
abbrev pub link_to : (ident pt : ℕ) → Pte → Pte
link_to ident pt e = record (link_flags e) { ppn = link_ppn ident pt }

-- The memory after the three stores of `map_level`.
abbrev pub grown : Memory → (ident entry pt : ℕ) → Memory
grown m ident entry pt =
    let cleared = memset (store_pte m entry (link_flags (load_pte m entry))) pt 0 4096 in
    store_pte cleared entry (record (load_pte cleared entry) { ppn = link_ppn ident pt })

pub grown-IsBytes : (m : Memory) (ident entry pt : ℕ) → IsBytes m → IsBytes (grown m ident entry pt)
grown-IsBytes m ident entry pt bytes =
    let flagged = store_pte m entry (link_flags (load_pte m entry)) in
    let cleared = memset flagged pt 0 4096 in
    store_pte-IsBytes cleared entry (record (load_pte cleared entry) { ppn = link_ppn ident pt })
      (memset-IsBytes flagged pt 0 4096
        (store_pte-IsBytes m entry (link_flags (load_pte m entry)) bytes))

link_ppn-table :
    (ram_start ident f : ℕ)
    → IsRange ram_start ident
    → f < frame_count
    → u64 (link_ppn ident (frame_addr ram_start ident f) * 4096 + ident)
      ≡ frame_addr ram_start ident f
link_ppn-table ram_start ident f range h =
    omega (arith, range.ram_aligned, range.ident_aligned, range.no_wrap, range.fits)

module _ {places : Places} {root : ℕ} {m : Memory} {fs : Frames} {ram_start ident : ℕ}
    (tree : IsTree places root m fs ram_start ident) (range : IsRange ram_start ident) (t0 i0 : ℕ)
    (pl0 : Place) (here : places t0 ≡ some pl0) (small : i0 < 512) {fs' : Frames} (f : ℕ)
    (taken : IsTaken fs fs' f) where
  abbrev pt : ℕ
  pt = frame_addr ram_start ident f

  -- A placed table lies in another frame.
  other_table : (t : ℕ) (pl : Place) → places t ≡ some pl → t ≢ pt
  other_table t pl there e = clash (tree.framed t pl there)
    where
      clash : IsFramed fs ram_start ident t → ⊥
      clash framed =
          let same : framed.frame ≡ f = omega (arith, framed.here) in
          let busy : allocated fs f ≡ true = rw (← same) framed.taken in
          ground (arith, busy, taken.was_free)

  unplaced : (o : Option Place) → places pt ≡ o → places pt ≡ none
  unplaced none e = e
  unplaced (some pl) e = absurd (other_table pt pl e refl)

  -- Clearing the new page spares the placed tables.
  spared :
      (m1 : Memory) (t i : ℕ) (pl : Place)
      → places t ≡ some pl
      → i < 512
      → load_pte (memset m1 pt 0 4096) (t + 8 * i) ≡ load_pte m1 (t + 8 * i)
  spared m1 t i pl there h = load_pte_ext (memset m1 pt 0 4096) m1 (t + 8 * i) λ x p q. ground (
    arith,
    memset_lem m1 pt 0 4096 x,
    other_table t pl there,
    IsFramed-aligned range (tree.framed t pl there),
    range.ram_aligned,
    range.ident_aligned,
  )

  ppn-IsPte : (e : Pte) (k : ℕ) → IsPte e → k < 2 ^ 44 → IsPte (record e { ppn = k })
  ppn-IsPte e k is h = omega arith

  flags-IsPte : (e : Pte) → IsPte e → IsPte (link_flags e)
  flags-IsPte e is = omega arith

  abbrev entry : ℕ
  entry = t0 + 8 * i0

  abbrev flagged : Memory
  flagged = store_pte m entry (link_flags (load_pte m entry))

  flagged-Rewrites : Rewrites places m flagged t0 i0 (link_flags (load_pte m entry))
  flagged-Rewrites =
      store_pte-Rewrites tree range t0 i0 pl0 here small (link_flags (load_pte m entry))
        (flags-IsPte (load_pte m entry) (load_pte-IsPte m entry))

  cleared_entry : load_pte (memset flagged pt 0 4096) entry ≡ link_flags (load_pte m entry)
  cleared_entry = spared flagged t0 i0 pl0 here small ∙ flagged-Rewrites.changed

  abbrev new_entry : Pte
  new_entry = link_to ident pt (load_pte m entry)

  abbrev cleared : Memory
  cleared = memset flagged pt 0 4096

  abbrev stored : Pte
  stored = record (load_pte cleared entry) { ppn = link_ppn ident pt }

  stored-eq : stored ≡ new_entry
  stored-eq = ap {A = Pte} (λ e. record e { ppn = link_ppn ident pt }) cleared_entry

  stored-IsPte : IsPte stored
  stored-IsPte =
      ppn-IsPte (load_pte cleared entry) (link_ppn ident pt) (load_pte-IsPte cleared entry)
        (omega arith)

  pt_aligned : pt % 4096 ≡ 0
  pt_aligned = omega (arith, range.ram_aligned, range.ident_aligned)

  t0_aligned : t0 % 4096 ≡ 0
  t0_aligned = IsFramed-aligned range (tree.framed t0 pl0 here)

  -- The new page is empty, and the entry links to it.
  pub grown-Links :
      (load_pte m entry).v ≡ 0
      → Links places m (grown m ident entry pt) ident t0 i0 pt (link_to ident pt (load_pte m entry))
  grown-Links invalid = record {
    rewrites = record {
      changed = load_pte-store_pte cleared entry stored stored-IsPte ∙ stored-eq;
      others = λ t i pl there h ne.
          load_pte-store_pte_apart cleared entry (t + 8 * i) stored (
            entries_apart t0 t i0 i t0_aligned (IsFramed-aligned range (tree.framed t pl there))
              small h ne)
          ∙ spared flagged t i pl there h
          ∙ flagged-Rewrites.others t i pl there h ne;
    };
    was_empty = invalid;
    link = refl;
    to = link_ppn-table ram_start ident f range taken.in_bitmap;
    empty = λ j h.
        load_pte-store_pte_apart cleared entry (pt + 8 * j) stored (
          entries_apart t0 pt i0 j t0_aligned pt_aligned small h
            (inl (λ e. other_table t0 pl0 here (sym e))))
        ∙ load_pte-zero cleared (pt + 8 * j)
            (λ x p q. ground (arith, memset_lem flagged pt 0 4096 x));
    fresh = unplaced (places pt) refl;
  }

  pub new-IsFramed : IsFramed fs' ram_start ident pt
  new-IsFramed = record {
    frame = f;
    in_bitmap = taken.in_bitmap;
    taken = ground (arith, taken.marked f);
    here = refl;
  }

  pub old-IsFramed : (t : ℕ) → IsFramed fs ram_start ident t → IsFramed fs' ram_start ident t
  old-IsFramed t framed = record {
    frame = framed.frame;
    in_bitmap = framed.in_bitmap;
    taken = ground (arith, taken.marked framed.frame, framed.taken);
    here = framed.here;
  }

-- The run of `map_level` at an empty entry.
pub map_level-grow :
    (s : Machine) (entry pt : ℕ) (fs : Frames)
    → (load_pte s.memory entry).v ≡ 0
    → (let m = store_pte s.memory entry (link_flags (load_pte s.memory entry)) in
        allocate_new_page_table (record s { memory = m })
        ≡ done pt (record s { frames = fs; memory = memset m pt 0 4096 }))
    → (let m' = grown s.memory s.ident_map_addr entry pt in
        map_level entry s
        ≡ done
            (at (table_of s.ident_map_addr (load_pte m' entry)))
            (record s { frames = fs; memory = m' }))
unfolding map_level link_new_table
map_level-grow s entry pt fs invalid allocate = rw (invalid, allocate)
