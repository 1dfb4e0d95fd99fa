-- ===== src/Mmap/Removal.antt =====
-- What `munmap` of Project 3 takes out of the page table and out of the list of mappings.
use mathlib.Core.List.{append-nil, append_assoc}
use comp_sys_pint_os.Base.{
  ℕ, ◌≡◌, refl, ap, ◌∙◌, sym, Bool, true, false, not, ◌&&◌, ◌||◌, ◌==◌, if◌then◌else◌, List, [],
  ◌∷◌, ◌++◌, Option, none, some, arith, Bool-cases, inl, inr, Returns, Returns->>=, Returns-map,
  Returns-assert,
}
use comp_sys_pint_os.Vm.{Spte, FrameEntry, Kernel, Vm}
use comp_sys_pint_os.Vm.Frame.{free_found, free_frame, find_frame}
use comp_sys_pint_os.Vm.Page.{put, page_free, or_null}
use comp_sys_pint_os.Mmap.{
  MmapFile, MapFiles, Maps, Walk, close_all, close_file, write_dirty, drop_page, hash_delete,
  is_hash_error, drop_entry, close_before, remove_mapped, remove_node, remove_nodes, munmap,
}

abbrev pub is_chosen : ℕ → MmapFile → Bool
is_chosen mapping mm = mm.mapid == mapping || mapping == close_all

-- The entry that `p` points to is in the page table, at the page `va`.
abbrev pub has_page : (ℕ → Spte) → ℕ → ℕ → Bool
has_page at p va = not (is_hash_error (at p).type) && ((at p).unused_virtual_address == va)

-- Is `va` a page of the mapping?
unfoldable pub covers : (ℕ → Spte) → ℕ → List MmapFile → ℕ → Bool
covers at mapping [] va = false
covers at mapping (mm ∷ mms) va =
    (is_chosen mapping mm && has_page at mm.spte va) || covers at mapping mms va

-- The nodes of the other mappings, in order.
unfoldable pub others : ℕ → List MmapFile → List MmapFile
others mapping [] = []
others mapping (mm ∷ mms) =
    if is_chosen mapping mm then others mapping mms else mm ∷ others mapping mms

-- The same pages, of the same types.
abbrev pub SamePages : (ℕ → Spte) → (ℕ → Spte) → Type 0
SamePages a b =
    (p : ℕ)
    → ((b p).type ≡ (a p).type) × ((b p).unused_virtual_address ≡ (a p).unused_virtual_address)

pub covers-SamePages :
    (a b : ℕ → Spte)
    → SamePages a b
    → (mapping : ℕ) (mms : List MmapFile) (va : ℕ)
    → covers b mapping mms va ≡ covers a mapping mms va
unfolding covers
covers-SamePages a b h mapping [] va = refl
covers-SamePages a b h mapping (mm ∷ mms) va =
    rw ((h mm.spte).0, (h mm.spte).1, covers-SamePages a b h mapping mms va) refl

if_or :
    (a b : Bool) (o : Option ℕ)
    → (if b then none else if a || false then none else o) ≡ (if a || b then none else o)
if_or true true o = refl
if_or true false o = refl
if_or false b o = refl

pub or_false : (a : Bool) → (a || false) ≡ a
or_false true = refl
or_false false = refl

kept_more :
    (b : Bool) (xs ys : List MmapFile) (mm : MmapFile)
    → (xs ++ (if b then [] else mm ∷ [])) ++ ys ≡ xs ++ (if b then ys else mm ∷ ys)
kept_more true xs ys mm = ap (λ l. l ++ ys) (append-nil xs)
kept_more false xs ys mm = append_assoc xs (mm ∷ []) ys

module _ {W : Type 0} (k : Kernel W) (files : MapFiles W) where
  -- Neither lock is held.
  abbrev pub Unlocked : Vm W → Type 0
  Unlocked v = (v.file_lock ≡ false) × (v.frame_tbl_lock ≡ false)

  -- Both locks are free, and only frames and the outside have changed.
  pub record Kept (v u : Vm W) : Type 0 where
    pub unlocked : Unlocked u
    pub page_table : u.spt ≡ v.spt
    pub entries : u.spte_at ≡ v.spte_at

  free_found-Kept :
      (o : Option FrameEntry) (frame : ℕ) (v : Vm W) → Unlocked v → Kept v (free_found k o frame v)
  unfolding free_found
  free_found-Kept none frame v h = record { unlocked = h; page_table = refl; entries = refl }
  free_found-Kept (some e) frame v h = record { unlocked = h; page_table = refl; entries = refl }

  pub page_free-Kept :
      (va : ℕ) (o : Option ℕ) (v : Vm W) → Unlocked v → Returns (Kept v) (page_free k va o v)
  unfolding page_free free_frame
  page_free-Kept va o v h =
      Returns->>= (Kept v) (Kept v) _ _
        (Returns-assert (Kept v) (not v.frame_tbl_lock) _ (ap not h.1)
          (free_found-Kept (find_frame (or_null o) v.frame_tbl_list) (or_null o) v h))
        (λ u q. record { unlocked = q.unlocked; page_table = q.page_table; entries = q.entries })

  write_dirty-Kept : (e : Spte) (v : Vm W) → Unlocked v → Returns (Kept v) (write_dirty k files e v)
  unfolding write_dirty
  write_dirty-Kept e v h =
      elim (Bool-cases (k.pagedir_is_dirty v.world v.thread_current e.unused_virtual_address)) [
        | inl dirty ↦ rw dirty (
            Returns-assert (Kept v) (not v.file_lock) _ (ap not h.0)
              (record { unlocked = h; page_table = refl; entries = refl }))
        | inr clean ↦ rw clean (record { unlocked = h; page_table = refl; entries = refl })
      ]

  drop_page-Kept : (e : Spte) (v : Vm W) → Unlocked v → Returns (Kept v) (drop_page k files e v)
  unfolding drop_page
  drop_page-Kept e v h = elim (Bool-cases e.is_loaded) [
    | inl loaded ↦ rw loaded (
        Returns->>= (Kept v) (Kept v) (write_dirty k files e v) _ (write_dirty-Kept e v h) (λ u q.
          Returns-map (Kept u) (Kept v) _ (λ t. Kept-trans v u t q)
            (page_free-Kept e.unused_virtual_address
              (k.pagedir_get_page u.world u.thread_current e.unused_virtual_address) u q.unlocked)))
    | inr unloaded ↦ rw unloaded (record { unlocked = h; page_table = refl; entries = refl })
  ]
    where
      Kept-trans : (v u t : Vm W) → Kept v u → Kept u t → Kept v t
      Kept-trans v u t p q = record {
        unlocked = q.unlocked;
        page_table = q.page_table ∙ p.page_table;
        entries = q.entries ∙ p.entries;
      }

  -- The entry that `p` points to has left the page table.
  record Dropped (p : ℕ) (v u : Vm W) : Type 0 where
    pub unlocked : Unlocked u
    pub page_table : (va : ℕ) → u.spt va ≡ (if has_page v.spte_at p va then none else v.spt va)
    pub pages : SamePages v.spte_at u.spte_at

  put-SamePages :
      (p : ℕ) (v : Vm W)
      → SamePages v.spte_at (put k p (record (v.spte_at p) { pinned = true }) v).spte_at
  put-SamePages p v q = ground arith

  drop_entry-Dropped :
      (p : ℕ) (v : Vm W) → Unlocked v → Returns (Dropped p v) (drop_entry k files p v)
  unfolding drop_entry hash_delete
  drop_entry-Dropped p v h =
      let e = record (v.spte_at p) { pinned = true } in
      let t = put k p e v in
      Returns->>= (Kept t) (Dropped p v) (drop_page k files e t) _ (drop_page-Kept e t h) (λ u q.
        elim (Bool-cases (is_hash_error (v.spte_at p).type)) [
          | inl marked ↦ rw marked (record {
            unlocked = q.unlocked;
            page_table = λ va. rw (q.page_table, marked) refl;
            pages = rw q.entries (put-SamePages p v);
          })
          | inr mapped ↦ rw mapped (record {
            unlocked = q.unlocked;
            page_table = λ va. rw (q.page_table, mapped) refl;
            pages = rw q.entries (put-SamePages p v);
          })
        ])

  close_file-Kept :
      (f : Option ℕ) (v : Vm W) → Unlocked v → Returns (Kept v) (close_file k files f v)
  unfolding close_file
  close_file-Kept none v h = record { unlocked = h; page_table = refl; entries = refl }
  close_file-Kept (some f) v h =
      Returns-assert (Kept v) (not v.file_lock) _ (ap not h.0)
        (record { unlocked = h; page_table = refl; entries = refl })

  -- What one node, or the rest of the list, does to the walk.
  record Removed (mapping : ℕ) (mms : List MmapFile) (r q : Walk W) : Type 0 where
    pub unlocked : Unlocked q.pages
    pub kept : q.kept ≡ r.kept ++ others mapping mms
    pub page_table :
        (va : ℕ)
        → q.pages.spt va ≡ (if covers r.pages.spte_at mapping mms va then none else r.pages.spt va)
    pub pages : SamePages r.pages.spte_at q.pages.spte_at

  close_before-Kept :
      (mm : MmapFile) (r : Walk W)
      → Unlocked r.pages
      → Returns (λ q. Kept r.pages q.pages × (q.kept ≡ r.kept)) (close_before k files mm r)
  unfolding close_before
  close_before-Kept mm r h = elim (Bool-cases (mm.mapid == r.close)) [
    | inl same ↦ rw same (record { unlocked = h; page_table = refl; entries = refl }, refl)
    | inr other ↦ rw other (
        Returns->>= (Kept r.pages) _ (close_file k files r.f r.pages) _
          (close_file-Kept r.f r.pages h) (λ u q. (q, refl)))
  ]

  remove_mapped-Dropped :
      (mm : MmapFile) (r : Walk W)
      → Unlocked r.pages
      → Returns
          (λ q. Dropped mm.spte r.pages q.pages × (q.kept ≡ r.kept))
          (remove_mapped k files mm r)
  unfolding remove_mapped
  remove_mapped-Dropped mm r h =
      Returns->>= (Dropped mm.spte r.pages) _ (drop_entry k files mm.spte r.pages) _
        (drop_entry-Dropped mm.spte r.pages h)
        (λ v d.
          Returns->>= (λ q. Kept v q.pages × (q.kept ≡ r.kept)) _
            (close_before k files mm (record r { pages = v })) _
            (close_before-Kept mm (record r { pages = v }) d.unlocked)
            (λ q c. (
              record {
                unlocked = c.0.unlocked;
                page_table = λ va. rw c.0.page_table (d.page_table va);
                pages = rw c.0.entries d.pages;
              },
              c.1,
            )))

  remove_node-Removed :
      (mapping : ℕ) (mm : MmapFile) (r : Walk W)
      → Unlocked r.pages
      → Returns (Removed mapping (mm ∷ []) r) (remove_node k files mapping mm r)
  unfolding remove_node covers others
  remove_node-Removed mapping mm r h = elim (Bool-cases (is_chosen mapping mm)) [
    | inl chosen ↦ rw chosen (
        Returns-map _ _ (remove_mapped k files mm r)
          (λ q d. record {
            unlocked = d.0.unlocked;
            kept = rw chosen (d.1 ∙ sym (append-nil r.kept));
            page_table = λ va.
                rw (chosen, d.0.page_table va)
                  (rw (or_false (has_page r.pages.spte_at mm.spte va)) refl);
            pages = d.0.pages;
          })
          (remove_mapped-Dropped mm r h))
    | inr other ↦ rw other (record {
      unlocked = h;
      kept = rw other refl;
      page_table = λ va. rw other refl;
      pages = λ p. (refl, refl);
    })
  ]

  remove_nodes-Removed :
      (mapping : ℕ) (mms : List MmapFile) (r : Walk W)
      → Unlocked r.pages
      → Returns (Removed mapping mms r) (remove_nodes k files mapping mms r)
  unfolding remove_nodes covers others
  remove_nodes-Removed mapping [] r h = record {
    unlocked = h;
    kept = sym (append-nil r.kept);
    page_table = λ va. refl;
    pages = λ p. (refl, refl);
  }
  remove_nodes-Removed mapping (mm ∷ mms) r h =
      Returns->>= (Removed mapping (mm ∷ []) r) _ (remove_node k files mapping mm r) _
        (remove_node-Removed mapping mm r h)
        (λ q a.
          Returns-map (Removed mapping mms q) _ (remove_nodes k files mapping mms q)
            (λ t b. record {
              unlocked = b.unlocked;
              kept =
                  b.kept
                  ∙ ap (λ l. l ++ others mapping mms) a.kept
                  ∙ kept_more (is_chosen mapping mm) r.kept (others mapping mms) mm;
              page_table = λ va. b.page_table va ∙ walked q a va;
              pages = λ p. ((b.pages p).0 ∙ (a.pages p).0, (b.pages p).1 ∙ (a.pages p).1);
            })
            (remove_nodes-Removed mapping mms q a.unlocked))
    where
      walked :
          (q : Walk W)
          → Removed mapping (mm ∷ []) r q
          → (va : ℕ)
          → (if covers q.pages.spte_at mapping mms va then none else q.pages.spt va)
            ≡ (if covers r.pages.spte_at mapping (mm ∷ mms) va then none else r.pages.spt va)
      walked q a va =
          rw
            (
              covers-SamePages r.pages.spte_at q.pages.spte_at a.pages mapping mms va,
              a.page_table va,
            )
            (if_or (is_chosen mapping mm && has_page r.pages.spte_at mm.spte va)
              (covers r.pages.spte_at mapping mms va) (r.pages.spt va))

  -- If neither lock is held, `munmap` returns, with neither lock held. It takes the nodes of the
  -- mapping out of the list of mappings and leaves the others in order (all are taken for CLOSE_ALL),
  -- and a page leaves the page table exactly if a removed node that is not marked HASH_ERROR has it.
  -- Every entry keeps its page and its type; the counter of mappings and the open files are as they were.
  pub munmap-removes :
      (mapping : ℕ) (s : Maps W)
      → Unlocked s.vm
      → Returns
          (λ t.
            Unlocked t.vm
            × (t.mmap_list ≡ others mapping s.mmap_list)
            × ((va : ℕ)
                → t.vm.spt va
                  ≡ (if covers s.vm.spte_at mapping s.mmap_list va then none else s.vm.spt va))
            × SamePages s.vm.spte_at t.vm.spte_at
            × (t.mapid ≡ s.mapid)
            × (t.file_list ≡ s.file_list))
          (munmap k files mapping s)
  unfolding munmap
  munmap-removes mapping s h =
      Returns->>= (Removed mapping s.mmap_list start) _
        (remove_nodes k files mapping s.mmap_list start) _
        (remove_nodes-Removed mapping s.mmap_list start h)
        (λ r a.
          Returns->>= (Kept r.pages) _ (close_file k files r.f r.pages) _
            (close_file-Kept r.f r.pages a.unlocked)
            (λ v c. (
              c.unlocked,
              a.kept,
              (λ va. rw c.page_table (a.page_table va)),
              rw c.entries a.pages,
              refl,
              refl,
            )))
    where
      start : Walk W
      start = record { close = 0; f = none; kept = []; pages = s.vm }
