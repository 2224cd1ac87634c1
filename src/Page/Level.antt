-- ===== src/Page/Level.antt =====
-- One round of the loop of `map_page` in src/page.c.
use fifth_kernel.Page.Kept.{Kept, Kept-refl}
use fifth_kernel.Frame.Lowest.{Filled-taken}
use fifth_kernel.Page.Spares.{Links-Spares}
use fifth_kernel.Base.{
  ℕ, suc, ◌+◌, ◌*◌, ◌^◌, ◌≤◌, ◌<◌, ◌≡◌, refl, ap, ◌∙◌, arith, true, false, Option, some, ◌==◌, ◌⊎◌,
  inl, inr, Bool-cases, ==→eq, none,
}
use fifth_kernel.Mem.{memset}
use fifth_kernel.Frame.{Frames, frame_count}
use fifth_kernel.Frame.Bitmap.{allocated}
use fifth_kernel.Frame.Free.{free_frame, free_frames-taken}
use fifth_kernel.Machine.{Machine, done}
use fifth_kernel.Machine.Returns.{Returns, returns}
use fifth_kernel.Page.{table_of, is_leaf, Descent, at, stop, map_level, allocate_new_page_table}
use fifth_kernel.Page.Err
use fifth_kernel.Page.Entry.{Pte, load_pte, store_pte}
use fifth_kernel.Page.Walk.{prefix, field, Leaf, leaf, visit, walk, field-lt}
use fifth_kernel.Page.Tree.{place, Places, is_link, frame_addr, Serves}
use fifth_kernel.Page.Update.{Reaches, next, Reaches-lookup, Reaches-Serves}
use fifth_kernel.Page.Link.{Links, extend, Links-IsTree, Links-lookup, Links-Reaches, visit_invalid}
use fifth_kernel.Page.Grow.{
  link_flags, link_to, grown, grown-Links, new-IsFramed, old-IsFramed, map_level-grow,
  grown-IsBytes,
}
use fifth_kernel.Page.NewTable.{IsTaken, allocate_new_page_table_lem}
use fifth_kernel.Page.Paged.{IsPaged, space, with_pages, available}

-- The walk of `vpn` has come to the table `t` of level `l`, with `spare` frames left.
pub record Arrived (root vpn : ℕ) (s : Machine) (l spare : ℕ) (r : Descent) (s' : Machine)
    : Type 0 where
  pub kept : Kept root s s'
  pub table : ℕ
  pub result : r ≡ at table
  pub reaches : Reaches s'.memory s'.ident_map_addr root vpn l table
  pub spare_frames : spare ≤ available s'
  pub fresh : (s' ≡ s) ⊎ (space root s vpn ≡ none)

-- The walk of `vpn` met a larger leaf.
pub record Blocked (root vpn : ℕ) (s : Machine) (r : Descent) (s' : Machine) : Type 0 where
  pub kept : Kept root s s'
  pub result : r ≡ stop Err.already_mapped
  pub unchanged : s' ≡ s
  pub hit : (found : Leaf) × (space root s vpn ≡ some found) × (1 ≤ found.level)

abbrev pub Outcome : (root vpn : ℕ) → Machine → (l spare : ℕ) → Descent → Machine → Type 0
Outcome root vpn s l spare r s' = Arrived root vpn s l spare r s' ⊎ Blocked root vpn s r s'

pub visit-leaf :
    (l : ℕ) (e : Pte) (a : Option Leaf)
    → (e.v == 0) ≡ false
    → is_leaf e ≡ true
    → visit l e a ≡ some (leaf l e)
visit-leaf l e a p q = ground arith

pub link_of : (e : Pte) → (e.v == 0) ≡ false → is_leaf e ≡ false → is_link e ≡ true
link_of e p q = ground arith

-- One round of the loop of `map_page`, from a table of level `suc l`.
module _ {places : Places} {root : ℕ} (s : Machine) (paged : IsPaged places root s)
    (vpn l t spare : ℕ) (h : vpn < 2 ^ 27)
    (reaches : Reaches s.memory s.ident_map_addr root vpn (suc l) t)
    (enough : suc spare ≤ available s) where
  abbrev entry : ℕ
  entry = t + 8 * field (suc l) vpn

  abbrev e : Pte
  e = load_pte s.memory entry

  here : Serves places (suc l) vpn t
  here = Reaches-Serves paged.tree h reaches

  blocked : (e.v == 0) ≡ false → is_leaf e ≡ true → Blocked root vpn s (stop Err.already_mapped) s
  blocked p q = record {
    kept = Kept-refl s paged;
    result = refl;
    unchanged = refl;
    hit = (
      leaf (suc l) e,
      Reaches-lookup reaches ∙ (unfold walk in visit-leaf (suc l) e _ p q),
      omega arith,
    );
  }

  linked :
      (e.v == 0) ≡ false
      → is_leaf e ≡ false
      → Arrived root vpn s l spare (at (table_of s.ident_map_addr e)) s
  linked p q = record {
    kept = Kept-refl s paged;
    table = table_of s.ident_map_addr e;
    result = refl;
    reaches = next reaches (link_of e p q) refl;
    spare_frames = omega arith;
    fresh = inl refl;
  }

  linked_new :
      (f : ℕ) (fs : Frames)
      → IsTaken s.frames fs f
      → e.v ≡ 0
      → (let m' =
            grown s.memory s.ident_map_addr entry
              (frame_addr s.device.ram_start s.ident_map_addr f) in
          Arrived root vpn s l spare
            (at (table_of s.ident_map_addr (load_pte m' entry)))
            (with_pages s fs m'))
  linked_new f fs taken invalid = record {
    kept = record {
      places = extend places pt (place l (prefix (suc l) vpn * 512 + field (suc l) vpn));
      paged = record {
        tree =
            Links-IsTree paged.tree links here fs
              (new-IsFramed paged.tree paged.range t (field (suc l) vpn)
                (place (suc l) (prefix (suc l) vpn)) here (field-lt (suc l) vpn) f taken)
              (old-IsFramed paged.tree paged.range t (field (suc l) vpn)
                (place (suc l) (prefix (suc l) vpn)) here (field-lt (suc l) vpn) f taken);
        bitmap = taken.bitmap;
        range = paged.range;
      };
      same = Links-lookup paged.tree links here;
      rest = refl;
      held = λ n p. ground (arith, taken.marked n);
      filled = Filled-taken s.frames fs f taken.lowest taken.marked;
      bytes = grown-IsBytes s.memory s.ident_map_addr entry pt;
      spares =
          Links-Spares s paged h reaches (field (suc l) vpn) (field-lt (suc l) vpn) f taken links;
    };
    table = pt;
    result = ap at (ap (table_of s.ident_map_addr) links.rewrites.changed ∙ links.to);
    reaches = Links-Reaches paged.tree links here vpn h reaches refl;
    spare_frames = omega (
      arith,
      free_frames-taken s.frames fs f taken.marked frame_count taken.in_bitmap taken.was_free,
    );
    fresh = inr (Reaches-lookup reaches ∙ (unfold walk in visit_invalid (suc l) e _ invalid));
  }
    where
      pt : ℕ
      pt = frame_addr s.device.ram_start s.ident_map_addr f

      links :
          Links places s.memory
            (grown s.memory s.ident_map_addr entry pt)
            s.ident_map_addr
            t
            (field (suc l) vpn)
            pt
            (link_to s.ident_map_addr pt e)
      links =
          grown-Links paged.tree paged.range t (field (suc l) vpn)
            (place (suc l) (prefix (suc l) vpn)) here (field-lt (suc l) vpn) f taken invalid

  grow : (e.v == 0) ≡ true → Returns (Outcome root vpn s l spare) (map_level entry s)
  grow invalid = take (free_frame frame_count s.frames (omega arith))
    where
      take :
          (n : ℕ) × (n < frame_count) × (allocated s.frames n ≡ false)
          → Returns (Outcome root vpn s l spare) (map_level entry s)
      take (n, small, free) = run (
          allocate_new_page_table_lem
            (record s { memory = store_pte s.memory entry (link_flags e) }) n paged.bitmap
            paged.range small free)
        where
          run :
              (f : ℕ) × (fs : Frames) × IsTaken s.frames fs f
                × (let pt = frame_addr s.device.ram_start s.ident_map_addr f in
                    let m = store_pte s.memory entry (link_flags e) in
                    allocate_new_page_table (record s { memory = m })
                    ≡ done pt (record s { frames = fs; memory = memset m pt 0 4096 }))
              → Returns (Outcome root vpn s l spare) (map_level entry s)
          run (f, fs, taken, eq) =
              rw
                (map_level-grow s entry (frame_addr s.device.ram_start s.ident_map_addr f) fs
                  (==→eq e.v 0 invalid) eq)
                (returns (inl (linked_new f fs taken (==→eq e.v 0 invalid))))

  pub map_level-Outcome : Returns (Outcome root vpn s l spare) (map_level entry s)
  map_level-Outcome = elim (Bool-cases (e.v == 0)) [
    | inl invalid ↦ grow invalid
    | inr valid ↦ elim (Bool-cases (is_leaf e)) [
      | inl q ↦ unfold map_level in rw (valid, q) (returns (inr (blocked valid q)))
      | inr q ↦ unfold map_level in rw (valid, q) (returns (inl (linked valid q)))
    ]
  ]
