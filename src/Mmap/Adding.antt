-- ===== src/Mmap/Adding.antt =====
-- `add_mmap_page_tbl` of Project 3/vm/page.c while `mmap` runs: what it adds, `munmap` can take back.
use mathlib.Core.Bool.{false≢true}
use comp_sys_pint_os.Base.{
  ℕ, ◌≡◌, refl, ap, ◌∙◌, sym, subst, Bool, true, false, ◌&&◌, ◌||◌, ◌==◌, if◌then◌else◌, List, [],
  ◌∷◌, ◌++◌, Option, none, some, arith, All, All-append, update, ==_refl, ==_ne, ℕ_discrete,
}
use comp_sys_pint_os.Vm.{PageType, Spte, Kernel, Vm}
use comp_sys_pint_os.Vm.Page.{put, hash_insert}
use comp_sys_pint_os.Mmap.{
  MmapFile, MapFiles, Maps, mmap_entry, with_world, add_mmap, process_add_mmap, mark_inserted,
  add_listed, add_mmap_at, add_mmap_page_tbl,
}
use comp_sys_pint_os.Mmap.Removal.{or_false, is_chosen, has_page, covers, others, Unlocked}

-- A block that `malloc` gives out is none of those in use, and then is in use.
pub record Allocates {W : Type 0} (k : Kernel W) (InUse : W → ℕ → Type 0) : Type 0 where
  pub fresh : (w v : W) (p q : ℕ) → k.malloc w ≡ (some p, v) → InUse w q → (p == q) ≡ false
  pub taken : (w v : W) (p : ℕ) → k.malloc w ≡ (some p, v) → InUse v p
  pub kept : (w v : W) (o : Option ℕ) (q : ℕ) → k.malloc w ≡ (o, v) → InUse w q → InUse v q

covers-append :
    (at : ℕ → Spte) (mapping : ℕ) (mms : List MmapFile) (mm : MmapFile) (va : ℕ)
    → is_chosen mapping mm ≡ true
    → covers at mapping (mms ++ mm ∷ []) va ≡ (covers at mapping mms va || has_page at mm.spte va)
unfolding covers
covers-append at mapping [] mm va c = rw c (or_false (has_page at mm.spte va))
covers-append at mapping (x ∷ mms) mm va c = rw (covers-append at mapping mms mm va c) (
    or_assoc (is_chosen mapping x && has_page at x.spte va) (covers at mapping mms va)
      (has_page at mm.spte va))
  where
    or_assoc : (a b c : Bool) → (a || (b || c)) ≡ ((a || b) || c)
    or_assoc true b c = refl
    or_assoc false b c = refl

others-append :
    (mapping : ℕ) (mms : List MmapFile) (mm : MmapFile)
    → is_chosen mapping mm ≡ true
    → others mapping (mms ++ mm ∷ []) ≡ others mapping mms
unfolding others
others-append mapping [] mm c = rw c refl
others-append mapping (x ∷ mms) mm c = rw (others-append mapping mms mm c) refl

covers-update :
    (at : ℕ → Spte) (p : ℕ) (e : Spte) (mapping : ℕ) (mms : List MmapFile) (va : ℕ)
    → All (λ mm. (p == mm.spte) ≡ false) mms
    → covers (update at p e) mapping mms va ≡ covers at mapping mms va
unfolding covers
covers-update at p e mapping [] va h = refl
covers-update at p e mapping (mm ∷ mms) va h =
    rw (h.0, covers-update at p e mapping mms va h.1) refl

pub All-each {ℓ} :
    {A : Type ℓ} (P Q : A → Type 0) (xs : List A) → ((x : A) → P x → Q x) → All P xs → All Q xs
All-each P Q [] f h = tt
All-each P Q (x ∷ xs) f h = (f x h.0, All-each P Q xs f h.1)

added_same :
    (c : Bool) (spt : ℕ → Option ℕ) (va p a : ℕ)
    → spt va ≡ none
    → (if c || va == a then none else update spt va (some p) a) ≡ (if c then none else spt a)
added_same true spt va p a h = refl
added_same false spt va p a h = elim (ℕ_discrete va a) [
  | yes e ↦ rw (sym e, ==_refl va) (sym h)
  | no ne ↦ rw (==_ne va a ne) refl
]

module _ {W : Type 0} (k : Kernel W) where
  pub hash_insert-absent :
      (p va : ℕ) (v : Vm W)
      → (v.spte_at p).unused_virtual_address ≡ va
      → v.spt va ≡ none
      → hash_insert k p v ≡ (none, record v { spt = update v.spt va (some p) })
  unfolding hash_insert
  hash_insert-absent p va v a e = rw (ap v.spt a ∙ e, hash_insert) (ap (entered_at p v) a)
    where
      entered_at : ℕ → Vm W → ℕ → Option ℕ × Vm W
      entered_at p v x = (none, record v { spt = update v.spt x (some p) })

  pub hash_insert-present :
      (p va old : ℕ) (v : Vm W)
      → (v.spte_at p).unused_virtual_address ≡ va
      → v.spt va ≡ some old
      → hash_insert k p v ≡ (some old, v)
  unfolding hash_insert
  hash_insert-present p va old v a e = rw (ap v.spt a ∙ e, hash_insert) refl

module _ {W : Type 0} (k : Kernel W) (files : MapFiles W) (InUse : W → ℕ → Type 0)
    (lawful : Allocates k InUse) (id : ℕ) (table : ℕ → Option ℕ) (list : List MmapFile) where
  -- Taking out the mapping `id` leaves the page table `table` and the list `list`.
  pub record Undoable (s : Maps W) : Type 0 where
    pub unlocked : Unlocked k files s.vm
    pub counted : s.mapid ≡ id
    pub listed : others id s.mmap_list ≡ list
    pub mapped :
        (va : ℕ) → (if covers s.vm.spte_at id s.mmap_list va then none else s.vm.spt va) ≡ table va

  abbrev pub Fresh : Maps W → Type 0
  Fresh s = All (λ mm. InUse s.vm.world mm.spte) s.mmap_list

  -- The entry `p`, not yet in the list, points to the page `va`.
  record Pending (p va : ℕ) (s : Maps W) : Type 0 where
    pub undoable : Undoable s
    pub in_use : InUse s.vm.world p
    pub fresh : Fresh s
    pub apart : All (λ mm. (p == mm.spte) ≡ false) s.mmap_list
    pub at_page : (s.vm.spte_at p).unused_virtual_address ≡ va
    pub is_mapping : (s.vm.spte_at p).type ≡ PageType.mmap

  abbrev pub Added : Bool × Maps W → Type 0
  Added r = Undoable r.1 × (r.0 ≡ true → Fresh r.1)

  -- The node of a pending entry stands at the end of the list.
  abbrev listed_as : ℕ → ℕ → W → Maps W → Maps W
  listed_as p mm w s = record (with_world k files w s) {
    mmap_list = s.mmap_list ++ record { elem = mm; spte = p; mapid = s.mapid } ∷ [];
  }

  chosen :
      (mm p : ℕ) (s : Maps W)
      → s.mapid ≡ id
      → is_chosen id (record { elem = mm; spte = p; mapid = s.mapid }) ≡ true
  chosen mm p s e = rw (e, ==_refl id) refl

  module _ (p mm va : ℕ) (w : W) (s : Maps W) (h : Pending p va s)
      (all : Fresh (listed_as p mm w s)) where
    node : MmapFile
    node = record { elem = mm; spte = p; mapid = s.mapid }

    listed_as-others : others id (s.mmap_list ++ node ∷ []) ≡ list
    unfolding node
    listed_as-others =
        others-append id s.mmap_list node (chosen mm p s h.undoable.counted) ∙ h.undoable.listed

    mark_inserted-Added :
        s.vm.spt va ≡ none
        → Added (
            mark_inserted k files p
              (none, record (listed_as p mm w s).vm { spt = update s.vm.spt va (some p) })
              (listed_as p mm w s))
    unfolding mark_inserted node
    mark_inserted-Added absent = (
      record {
        unlocked = h.undoable.unlocked;
        counted = h.undoable.counted;
        listed = listed_as-others;
        mapped = λ a.
            rw
              (
                covers-append s.vm.spte_at id s.mmap_list node a (chosen mm p s h.undoable.counted),
                h.is_mapping,
                h.at_page,
              )
              (added_same (covers s.vm.spte_at id s.mmap_list a) s.vm.spt va p a absent
                ∙ h.undoable.mapped a);
      },
      (λ _. all),
    )

    mark_inserted-refused :
        (old : ℕ)
        → Added (mark_inserted k files p (some old, (listed_as p mm w s).vm) (listed_as p mm w s))
    unfolding mark_inserted node
    mark_inserted-refused old = (
      record {
        unlocked = h.undoable.unlocked;
        counted = h.undoable.counted;
        listed = listed_as-others;
        mapped = λ a. refused a ∙ h.undoable.mapped a;
      },
      (λ _. all),
    )
      where
        marked : ℕ → Spte
        marked = update s.vm.spte_at p (record (s.vm.spte_at p) { type = PageType.hash_error })

        absent : (a : ℕ) → has_page marked p a ≡ false
        absent a = ground arith

        refused :
            (a : ℕ)
            → (if covers marked id (s.mmap_list ++ node ∷ []) a then none else s.vm.spt a)
              ≡ (if covers s.vm.spte_at id s.mmap_list a then none else s.vm.spt a)
        refused a =
            rw
              (
                covers-append marked id s.mmap_list node a (chosen mm p s h.undoable.counted),
                absent a,
                covers-update s.vm.spte_at p
                    (record (s.vm.spte_at p) { type = PageType.hash_error }) id s.mmap_list a
                    h.apart,
                or_false (covers s.vm.spte_at id s.mmap_list a),
              )
              refl

    insert-Added :
        (o : Option ℕ) → s.vm.spt va ≡ o → Added (add_listed k files p (true, listed_as p mm w s))
    unfolding add_listed
    insert-Added none e =
        subst (λ r. Added (mark_inserted k files p r (listed_as p mm w s)))
          (sym (hash_insert-absent k p va (listed_as p mm w s).vm h.at_page e))
          (mark_inserted-Added e)
    insert-Added (some old) e =
        subst (λ r. Added (mark_inserted k files p r (listed_as p mm w s)))
          (sym (hash_insert-present k p va old (listed_as p mm w s).vm h.at_page e))
          (mark_inserted-refused old)

  -- `process_add_mmap` and `hash_insert`, for a pending entry.
  add_listed-Added :
      (p va : ℕ) (s : Maps W) (m : Option ℕ × W)
      → Pending p va s
      → k.malloc s.vm.world ≡ m
      → Added (add_listed k files p (add_mmap k files p m s))
  unfolding add_mmap add_listed
  add_listed-Added p va s (none, w) h e = (
    record {
      unlocked = h.undoable.unlocked;
      counted = h.undoable.counted;
      listed = h.undoable.listed;
      mapped = h.undoable.mapped;
    },
    (λ x. absurd (false≢true x)),
  )
  add_listed-Added p va s (some mm, w) h e =
      insert-Added p mm va w s h
        (All-append (λ m. InUse w m.spte) s.mmap_list _
          (All-each _ _ s.mmap_list (λ m. lawful.kept s.vm.world w (some mm) m.spte e) h.fresh)
          (lawful.kept s.vm.world w (some mm) p e h.in_use, tt))
        (s.vm.spt va) refl

  add_mmap_at-Added :
      (file ofs upage read_bytes zero_bytes : ℕ) (s : Maps W) (m : Option ℕ × W)
      → Undoable s
      → Fresh s
      → k.malloc s.vm.world ≡ m
      → Added (add_mmap_at k files m file ofs upage read_bytes zero_bytes s)
  unfolding add_mmap_at process_add_mmap
  add_mmap_at-Added file ofs upage read_bytes zero_bytes s (none, w) u f e = (
    record { unlocked = u.unlocked; counted = u.counted; listed = u.listed; mapped = u.mapped },
    (λ x. absurd (false≢true x)),
  )
  add_mmap_at-Added file ofs upage read_bytes zero_bytes s (some p, w) u f e =
      add_listed-Added p upage entered (k.malloc w)
        (record {
          undoable = record {
            unlocked = u.unlocked;
            counted = u.counted;
            listed = u.listed;
            mapped = λ a. rw (covers-update s.vm.spte_at p new id s.mmap_list a apart) (u.mapped a);
          };
          in_use = lawful.taken s.vm.world w p e;
          fresh = All-each _ _ s.mmap_list (λ m. lawful.kept s.vm.world w (some p) m.spte e) f;
          apart = apart;
          at_page = rw (==_refl p) refl;
          is_mapping = rw (==_refl p) refl;
        })
        refl
    where
      new : Spte
      new = mmap_entry file ofs upage read_bytes zero_bytes (s.vm.spte_at p).swap_index

      entered : Maps W
      entered = record s { vm = record (put k p new s.vm) { world = w } }

      apart : All (λ mm. (p == mm.spte) ≡ false) s.mmap_list
      apart = All-each _ _ s.mmap_list (λ m. lawful.fresh s.vm.world w p m.spte e) f

  -- Whatever `add_mmap_page_tbl` manages to add, the removal of the mapping takes back.
  pub add_mmap_page_tbl-Added :
      (file ofs upage read_bytes zero_bytes : ℕ) (s : Maps W)
      → Undoable s
      → Fresh s
      → Added (add_mmap_page_tbl k files file ofs upage read_bytes zero_bytes s)
  unfolding add_mmap_page_tbl
  add_mmap_page_tbl-Added file ofs upage read_bytes zero_bytes s u f =
      add_mmap_at-Added file ofs upage read_bytes zero_bytes s (k.malloc s.vm.world) u f refl
