-- ===== src/Page/Spares.antt =====
-- The two ways in which src/page.c writes to memory, one entry and one new table, spare what lies
-- outside the tables and the free frames.
use fifth_kernel.Base.{
  ℕ, ◌+◌, ◌*◌, ◌^◌, ◌≤◌, ◌<◌, ◌≡◌, ◌∙◌, arith, true, false, some, ◌⊎◌, inl, inr,
}
use fifth_kernel.Memory.{Memory}
use fifth_kernel.Mem.{memset}
use fifth_kernel.Mem.Copy.{memset_lem}
use fifth_kernel.Frame.{Frames}
use fifth_kernel.Machine.{Machine}
use fifth_kernel.Page.{table_of}
use fifth_kernel.Page.Entry.{Pte, load_pte, store_pte, store_pte_outside}
use fifth_kernel.Page.Tree.{Place, Places, is_link, frame_addr}
use fifth_kernel.Page.Update.{Reaches}
use fifth_kernel.Page.Rewrite.{Rewrites, same_entry}
use fifth_kernel.Page.Link.{Links, decode-no_link}
use fifth_kernel.Page.Grow.{grown, link_flags, link_ppn}
use fifth_kernel.Page.NewTable.{IsTaken}
use fifth_kernel.Page.Footprint.{Apart, Spares, no_link, Reaches-back}
use fifth_kernel.Page.Paged.{IsPaged, with_pages}

-- The byte at `x` is not one of the entry's eight.
abbrev pub Beside : (entry x : ℕ) → Type 0
Beside entry x = (x < entry) ⊎ (entry + 8 ≤ x)

Apart-Beside : (t i x : ℕ) → i < 512 → Apart t x → Beside (t + 8 * i) x
Apart-Beside t i x small (inl h) = inl (omega arith)
Apart-Beside t i x small (inr h) = inr (omega arith)

pub store_pte-Beside :
    (m : Memory) (entry : ℕ) (p : Pte) (x : ℕ) → Beside entry x → store_pte m entry p x ≡ m x
store_pte-Beside m entry p x out = store_pte_outside m entry x p out

pub memset-Beside : (m : Memory) (entry x : ℕ) → Beside entry x → memset m entry 0 8 x ≡ m x
memset-Beside m entry x out = ground (arith, memset_lem m entry 0 8 x)

pub memset-Apart : (m : Memory) (t x : ℕ) → Apart t x → memset m t 0 4096 x ≡ m x
memset-Apart m t x out = ground (arith, memset_lem m t 0 4096 x)

module _ {places : Places} {root : ℕ} (s : Machine) (paged : IsPaged places root s) {vpn l t : ℕ}
    (h : vpn < 2 ^ 27) (reaches : Reaches s.memory s.ident_map_addr root vpn l t) (i : ℕ)
    (small : i < 512) where
  -- The entry of a table on the way of a page number is rewritten, by one that is no link.
  pub Rewrites-Spares :
      (m' : Memory) {p : Pte} (flushes : ℕ)
      → Rewrites places s.memory m' t i p
      → is_link p ≡ false
      → ((x : ℕ) → Beside (t + 8 * i) x → m' x ≡ s.memory x)
      → Spares root s (record s { memory = m'; flushes = flushes })
  Rewrites-Spares m' {p} flushes rewrites plain same x out = (
    record {
      tables = λ v k t' below there. out.tables v k t' below (before below there);
      unused = out.unused;
    },
    same x (Apart-Beside t i x small (out.tables vpn l t h reaches)),
  )
    where
      leads :
          (t' j : ℕ) (pl : Place)
          → places t' ≡ some pl
          → j < 512
          → is_link (load_pte m' (t' + 8 * j)) ≡ true
          → (load_pte m' (t' + 8 * j) ≡ load_pte s.memory (t' + 8 * j)) ⊎ ⊥
      leads t' j pl there below link = elim (same_entry t' j t i) [
        | inl (e, f) ↦ no_link plain (rw (e, f, rewrites.changed) at link)
        | inr ne ↦ inl (rewrites.others t' j pl there below ne)
      ]

      before :
          {v k t' : ℕ}
          → v < 2 ^ 27
          → Reaches m' s.ident_map_addr root v k t'
          → Reaches s.memory s.ident_map_addr root v k t'
      before below there =
          elim (Reaches-back paged.tree m' (λ _. ⊥) (λ t' j new _. absurd new) leads below there) [
            | inl r ↦ r
            | inr new ↦ absurd new
          ]

  module _ (f : ℕ) {fs : Frames} (taken : IsTaken s.frames fs f) where
    abbrev pt : ℕ
    pt = frame_addr s.device.ram_start s.ident_map_addr f

    abbrev m' : Memory
    m' = grown s.memory s.ident_map_addr (t + 8 * i) pt

    grown-same : (x : ℕ) → Beside (t + 8 * i) x → Apart pt x → m' x ≡ s.memory x
    grown-same x beside apart =
        let entry = t + 8 * i in
        let flagged = store_pte s.memory entry (link_flags (load_pte s.memory entry)) in
        let cleared = memset flagged pt 0 4096 in
        store_pte-Beside cleared entry
          (record (load_pte cleared entry) { ppn = link_ppn s.ident_map_addr pt }) x beside
        ∙ memset-Apart flagged pt x apart
        ∙ store_pte-Beside s.memory entry (link_flags (load_pte s.memory entry)) x beside

    -- A new table in a free frame is linked into the entry.
    pub Links-Spares :
        {p : Pte}
        → Links places s.memory m' s.ident_map_addr t i pt p
        → Spares root s (with_pages s fs m')
    Links-Spares {p} links x out = (
      record {
        tables = λ v k t' below there.
            back v k t' below (Reaches-back paged.tree m' (λ t'. t' ≡ pt) ends leads below there);
        unused = λ g below free. out.unused g below (ground (arith, taken.marked g, free));
      },
      grown-same x (Apart-Beside t i x small (out.tables vpn l t h reaches))
          (out.unused f taken.in_bitmap taken.was_free),
    )
      where
        ends : (t' j : ℕ) → t' ≡ pt → j < 512 → is_link (load_pte m' (t' + 8 * j)) ≡ false
        ends t' j new below = rw (new, links.empty j below) decode-no_link

        leads :
            (t' j : ℕ) (pl : Place)
            → places t' ≡ some pl
            → j < 512
            → is_link (load_pte m' (t' + 8 * j)) ≡ true
            → (load_pte m' (t' + 8 * j) ≡ load_pte s.memory (t' + 8 * j))
              ⊎ (table_of s.ident_map_addr (load_pte m' (t' + 8 * j)) ≡ pt)
        leads t' j pl there below link = elim (same_entry t' j t i) [
          | inl (e, f) ↦ inr (rw (e, f, links.rewrites.changed) links.to)
          | inr ne ↦ inl (links.rewrites.others t' j pl there below ne)
        ]

        back :
            (v k t' : ℕ)
            → v < 2 ^ 27
            → Reaches s.memory s.ident_map_addr root v k t' ⊎ (t' ≡ pt)
            → Apart t' x
        back v k t' below (inl before) = out.tables v k t' below before
        back v k t' below (inr new) = rw new (out.unused f taken.in_bitmap taken.was_free)
