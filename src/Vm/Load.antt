-- ===== src/Vm/Load.antt =====
-- What `load_file` and `load_page` of Project 3/vm/page.c promise, where a page of memory is free.
use comp_sys_pint_os.Base.{
  update, ℕ, ◌+◌, ◌≡◌, refl, inl, inr, sym, ap, ◌∙◌, subst, Bool, true, false, ◌==◌, ltb, not, List,
  [], ◌∷◌, ◌++◌, Option, none, some, Outcome, returns, Returns, Returns->>=, Returns-assert, ◌>>=◌,
  assert-true, All, ◌&&◌, ◌||◌, Bool-cases, arith, ==_refl, if_true, if_false, if◌then◌else◌,
}
use comp_sys_pint_os.Vm.{Spte, FrameEntry, Flags, Kernel, Vm}
use comp_sys_pint_os.Vm.Frame.{
  find_frame, list_remove, add_frame_to_tbl, add_entry, alloc_with, frame_alloc, free_frame,
  free_found,
}
use comp_sys_pint_os.Vm.Page.{
  put, install_page, finish_load, install_loaded, read_file, load_read, load_framed, load_file,
}

list_remove-append :
    (e : FrameEntry) (table : List FrameEntry)
    → All (λ x. (x.elem == e.elem) ≡ false) table
    → list_remove e.elem (table ++ e ∷ []) ≡ table
unfolding list_remove
list_remove-append e [] fresh = rw (==_refl e.elem)
list_remove-append e (x ∷ table) fresh = rw (fresh.0, list_remove-append e table fresh.1)

find_frame-append :
    (e : FrameEntry) (table : List FrameEntry)
    → find_frame e.frame table ≡ none
    → find_frame e.frame (table ++ e ∷ []) ≡ some e
unfolding find_frame
find_frame-append e [] fresh = rw (==_refl e.frame)
find_frame-append e (x ∷ table) fresh = elim (Bool-cases (x.frame == e.frame)) [
  | inl same ↦ ground arith
  | inr other ↦ rw other (find_frame-append e table (ground arith))
]

both : (a b c : Bool) → a ≡ true → b ≡ true → (a && (b && c)) ≡ c
both true true c e f = refl
both true false c e f = cc
both false b c e f = cc

and_false : (a : Bool) → (a && false) ≡ false
and_false true = refl
and_false false = refl

counted : (a b : Bool) → a ≡ true → (not a || b) ≡ b
counted true b e = refl
counted false b e = cc

module _ {W : Type 0} (k : Kernel W) where
  -- The allocators have a page and a table entry that are new to the frame table, and the locks are
  -- free.
  pub record HasPage (flags : Flags) (p : ℕ) (s : Vm W) : Type 0 where
    pub frame : ℕ
    pub elem : ℕ
    pub allotted : W
    pub ready : W
    pub page : k.palloc_get_page flags s.world ≡ (some frame, allotted)
    pub node : k.malloc allotted ≡ (some elem, ready)
    pub new_frame : find_frame frame s.frame_tbl_list ≡ none
    pub new_elem : All (λ x. (x.elem == elem) ≡ false) s.frame_tbl_list
    pub unlocked : s.frame_tbl_lock ≡ false
    pub file_unlocked : s.file_lock ≡ false

  module _ {flags : Flags} {p : ℕ} {s : Vm W} (h : HasPage flags p s) where
    abbrev pub entry : FrameEntry
    entry = record { elem = h.elem; frame = h.frame; thread = s.thread_current; spte = p }

    -- The page is in the table, in a world `w`.
    abbrev pub framed : W → Vm W
    framed w = record s { frame_tbl_list = s.frame_tbl_list ++ entry ∷ []; world = w }

    pub frame_alloc-framed :
        (fuel : ℕ)
        → flags.user ≡ true
        → frame_alloc k fuel flags p s ≡ returns (some h.frame, framed h.ready)
    unfolding frame_alloc alloc_with add_frame_to_tbl add_entry
    frame_alloc-framed fuel user =
        if_true flags.user _ _ user
        ∙ (ap (λ r. alloc_with k fuel flags p r s) h.page
            ∙ ap (λ r. add_entry k r h.frame p (record s { world = h.allotted }) >>= done) h.node
            ∙ ap (λ m. m >>= done) (assert-true (not s.frame_tbl_lock) _ (ap not h.unlocked)))
      where
        done : Vm W → Outcome (Option ℕ × Vm W)
        done t = returns (some h.frame, t)

    pub free_frame-framed :
        (w : W)
        → free_frame k h.frame (framed w)
          ≡ returns (record s { world = k.palloc_free_page h.frame (k.free h.elem w) })
    unfolding free_frame free_found
    free_frame-framed w =
        assert-true (not s.frame_tbl_lock) _ (ap not h.unlocked)
        ∙ ap (λ o. returns (free_found k o h.frame (framed w)))
            (find_frame-append entry s.frame_tbl_list h.new_frame)
        ∙ ap
            (λ l. returns (record s {
              frame_tbl_list = l;
              world = k.palloc_free_page h.frame (k.free h.elem w);
            }))
            (list_remove-append entry s.frame_tbl_list h.new_elem)

    abbrev reads : Bool
    reads = ltb 0 (s.spte_at p).read_bytes

    -- What the file delivers into the new frame.
    abbrev delivered : ℕ × W
    delivered =
        k.file_read_at (s.spte_at p).file h.frame (s.spte_at p).read_bytes (s.spte_at p).offset
          h.ready

    -- The bytes that are wanted are all there.
    abbrev whole : Bool
    whole = not reads || (delivered.0 == (s.spte_at p).read_bytes)

    -- The frame holds those bytes and then zeros.
    abbrev filled : W
    filled =
        if reads
        then k.clear_bytes (h.frame + (s.spte_at p).read_bytes) (s.spte_at p).zero_bytes delivered.1
        else h.ready

    abbrev is_none : Option ℕ → Bool
    is_none none = true
    is_none (some a) = false

    -- Nothing is mapped at the address of the page yet.
    abbrev unmapped : Bool
    unmapped =
        is_none (k.pagedir_get_page filled s.thread_current (s.spte_at p).unused_virtual_address)

    -- The page is mapped to the frame.
    abbrev mapping : Bool × W
    mapping =
        k.pagedir_set_page s.thread_current (s.spte_at p).unused_virtual_address h.frame
          (s.spte_at p).writable filled

    -- How a load ends. It is true just if the file was long enough, nothing was mapped at the address,
    -- and the mapping could be set. Then the frame holds the bytes and is mapped, the page is in the
    -- table and marked as loaded; otherwise the table and the entries are as they were. The page table
    -- stays, and the locks are free.
    pub record LoadEnds (r : Bool × Vm W) : Type 0 where
      pub result : r.0 ≡ (whole && (unmapped && mapping.0))
      pub mapped : r.0 ≡ true → r.1.world ≡ mapping.1
      pub table_unlocked : r.1.frame_tbl_lock ≡ false
      pub file_system_unlocked : r.1.file_lock ≡ false
      pub same_page_table : r.1.spt ≡ s.spt
      pub loaded :
          r.0 ≡ true
          → (r.1.frame_tbl_list ≡ s.frame_tbl_list ++ entry ∷ [])
            × (r.1.spte_at ≡ update s.spte_at p (record (s.spte_at p) { is_loaded = true }))
      pub restored :
          r.0 ≡ false → (r.1.frame_tbl_list ≡ s.frame_tbl_list) × (r.1.spte_at ≡ s.spte_at)

    given_back :
        (w : W)
        → (whole && (unmapped && mapping.0)) ≡ false
        → Returns LoadEnds (free_frame k h.frame (framed w) >>= λ t. returns (false, t))
    given_back w fails = rw (free_frame-framed w) (record {
      result = sym fails;
      mapped = λ e. cc;
      table_unlocked = h.unlocked;
      file_system_unlocked = h.file_unlocked;
      same_page_table = refl;
      loaded = λ e. cc;
      restored = λ e. (refl, refl);
    })

    marked :
        (w : W)
        → (whole && (unmapped && mapping.0)) ≡ true
        → w ≡ mapping.1
        → LoadEnds (true, put k p (record (s.spte_at p) { is_loaded = true }) (framed w))
    marked w works set = record {
      result = sym works;
      mapped = λ e. set;
      table_unlocked = h.unlocked;
      file_system_unlocked = h.file_unlocked;
      same_page_table = refl;
      loaded = λ e. (refl, refl);
      restored = λ e. cc;
    }

    finish_load-LoadEnds :
        (b : Bool) (w : W)
        → (whole && (unmapped && mapping.0)) ≡ b
        → (b ≡ true → w ≡ mapping.1)
        → Returns LoadEnds (finish_load k p h.frame (b, framed w))
    unfolding finish_load
    finish_load-LoadEnds true w e set = marked w e (set refl)
    finish_load-LoadEnds false w e set = given_back w e

    install_loaded-LoadEnds :
        whole ≡ true → Returns LoadEnds (install_loaded k p h.frame (framed filled))
    unfolding install_loaded install_page
    install_loaded-LoadEnds all_there = go (k.pagedir_get_page filled s.thread_current va) refl
      where
        va : ℕ
        va = (s.spte_at p).unused_virtual_address

        go :
            (o : Option ℕ)
            → k.pagedir_get_page filled s.thread_current va ≡ o
            → Returns LoadEnds (
                finish_load k p h.frame (elim o [
                  | some old ↦ (false, framed filled)
                  | none ↦ (mapping.0, framed mapping.1)
                ]))
        go none e =
            finish_load-LoadEnds mapping.0 mapping.1
              (both whole unmapped mapping.0 all_there (ap is_none e)) (λ _. refl)
        go (some old) e =
            finish_load-LoadEnds false filled
              (ap (λ b. whole && (b && mapping.0)) (ap is_none e) ∙ and_false whole) (λ x. cc)

    read_file-LoadEnds :
        reads ≡ true
        → Returns LoadEnds (read_file k p h.frame (framed h.ready) >>= load_read k p h.frame)
    unfolding read_file load_read
    read_file-LoadEnds wanted =
        Returns->>= Framed LoadEnds (read_file k p h.frame (framed h.ready)) (load_read k p h.frame)
          (Returns-assert Framed (not s.file_lock) _ (ap not h.file_unlocked)
            (go (delivered.0 == e.read_bytes) refl))
          next
      where
        e : Spte
        e = s.spte_at p

        Framed : Bool × Vm W → Type 0
        Framed r = (v : W) × (r.1 ≡ framed v) × (whole ≡ r.0) × (r.0 ≡ true → v ≡ filled)

        go :
            (b : Bool)
            → (delivered.0 == e.read_bytes) ≡ b
            → Framed (
                if b
                then (
                  true,
                  framed (k.clear_bytes (h.frame + e.read_bytes) e.zero_bytes delivered.1),
                )
                else (false, framed delivered.1))
        go true same = (_, refl, counted reads _ wanted ∙ same, λ _. sym (if_true reads _ _ wanted))
        go false other = (_, refl, counted reads _ wanted ∙ other, λ x. cc)

        next : (r : Bool × Vm W) → Framed r → Returns LoadEnds (load_read k p h.frame r)
        next (true, t) (v, same, all_there, ready) =
            subst (λ u. Returns LoadEnds (install_loaded k p h.frame u))
              (sym (same ∙ ap framed (ready refl))) (install_loaded-LoadEnds all_there)
        next (false, t) (v, same, short, ready) =
            subst (λ u. Returns LoadEnds (free_frame k h.frame u >>= λ x. returns (false, x)))
              (sym same) (given_back v (ap (λ b. b && (unmapped && mapping.0)) short))

    load_framed-LoadEnds : Returns LoadEnds (load_framed k p (some h.frame, framed h.ready))
    unfolding load_framed
    load_framed-LoadEnds = elim (Bool-cases reads) [
      | inl wanted ↦
          subst (Returns LoadEnds) (sym (if_true _ _ _ wanted)) (read_file-LoadEnds wanted)
      | inr zeroed ↦ subst (Returns LoadEnds) (sym (if_false _ _ _ zeroed)) (
          subst (λ w. Returns LoadEnds (install_loaded k p h.frame (framed w)))
            (if_false reads _ _ zeroed)
            (install_loaded-LoadEnds
              (ap (λ b. not b || (delivered.0 == (s.spte_at p).read_bytes)) zeroed)))
    ]

  abbrev pub file_flags : Vm W → ℕ → Flags
  file_flags s p = record { user = true; zeroed = (s.spte_at p).read_bytes == 0 }

  -- Where a page is free and the locks are, `load_file` returns. It returns true just if no bytes are
  -- wanted of the file or the file has as many as are wanted, nothing is mapped at the address of the
  -- page, and the mapping can be set. Then the frame holds the bytes and zeros behind them and is mapped
  -- at the address, the frame table has one more entry, for the new frame and this page, and the page is
  -- marked as loaded. If it returns false, the frame table and all entries are as they were. The page
  -- table stays, and both locks are free.
  pub load_file-LoadEnds :
      (fuel p : ℕ) (s : Vm W) (h : HasPage (file_flags s p) p s)
      → Returns (LoadEnds h) (load_file k fuel p s)
  unfolding load_file
  load_file-LoadEnds fuel p s h =
      subst (λ m. Returns (LoadEnds h) (m >>= load_framed k p))
        (sym (frame_alloc-framed h fuel refl)) (load_framed-LoadEnds h)
