-- ===== src/Vm/Evict.antt =====
-- The eviction policy of Project 3/vm/frame.c: a second-chance scan of the frame table.
use mathlib.Core.List.{append_assoc}
use comp_sys_pint_os.Base.{
  ℕ, suc, ◌+◌, ◌*◌, ◌≡◌, refl, subst, ◌∙◌, Bool, true, false, List, [], ◌∷◌, Option, Outcome, stuck,
  arith, length, All, Bool-cases, ap, not, assert-true, ◌⊎◌, inl, inr, ◌++◌,
}
use comp_sys_pint_os.Vm.{FrameEntry, Flags, Kernel, Vm}
use comp_sys_pint_os.Vm.Frame.{next_entry, evict_entry, evict_scan, evict_frame}

-- What the scan relies on of the accessed bits: the bit that is cleared is clear, and clearing a bit
-- sets no other.
pub record ClearsAccessed {W : Type 0} (k : Kernel W) : Type 0 where
  pub cleared :
      (w : W) (t v : ℕ) → k.pagedir_is_accessed (k.pagedir_set_accessed t v false w) t v ≡ false
  pub sets_none :
      (w : W) (t v u x : ℕ)
      → k.pagedir_is_accessed w u x ≡ false
      → k.pagedir_is_accessed (k.pagedir_set_accessed t v false w) u x ≡ false

abbrev pub In : FrameEntry → List FrameEntry → Type 0
In x [] = ⊥
In x (e ∷ es) = (x ≡ e) ⊎ In x es

module _ {W : Type 0} (k : Kernel W) (lawful : ClearsAccessed k) (flags : Flags) where
  abbrev pub pinned_in : Vm W → FrameEntry → Bool
  pinned_in s x = (s.spte_at x.spte).pinned

  abbrev pub accessed_in : Vm W → W → FrameEntry → Bool
  accessed_in s w x = k.pagedir_is_accessed w x.thread (s.spte_at x.spte).unused_virtual_address

  -- Each of the entries was passed over, in this order, from one world to the other: it is pinned, or
  -- its accessed bit was set, and was cleared.
  abbrev pub Passes : Vm W → List FrameEntry → W → W → Type 0
  Passes s [] w v = v ≡ w
  Passes s (e ∷ es) w v =
      ((pinned_in s e ≡ true) × Passes s es w v)
      ⊎ ((pinned_in s e ≡ false)
          × (accessed_in s w e ≡ true)
          × Passes s es
              (k.pagedir_set_accessed e.thread (s.spte_at e.spte).unused_virtual_address false w) v)

  -- The scan of the entries `todo`, from the world `w` on, ends at the first that is not pinned and has
  -- its accessed bit clear when its turn comes. Those before it were passed over, and nothing else
  -- was done.
  pub record Evicts (todo table : List FrameEntry) (s : Vm W) (w : W)
      (o : Outcome (Option ℕ × Vm W)) : Type 0 where
    pub passed : List FrameEntry
    pub victim : FrameEntry
    pub rest : List FrameEntry
    pub after : W
    pub order : passed ++ victim ∷ rest ≡ todo
    pub passes : Passes s passed w after
    pub listed : In victim table
    pub unpinned : pinned_in s victim ≡ false
    pub unaccessed : accessed_in s after victim ≡ false
    pub evicted : o ≡ evict_entry k flags victim (record s { world = after })

  -- Pinned, or its accessed bit is clear.
  abbrev IsCleared : Vm W → W → FrameEntry → Type 0
  IsCleared s w x = (pinned_in s x ≡ true) ⊎ (accessed_in s w x ≡ false)

  -- No accessed bit that is clear in the first state is set in the second.
  abbrev ClearsMore : W → W → Type 0
  ClearsMore v w =
      (t x : ℕ) → k.pagedir_is_accessed v t x ≡ false → k.pagedir_is_accessed w t x ≡ false

  scan_skip :
      (fuel : ℕ) (table es : List FrameEntry) (e : FrameEntry) (s : Vm W)
      → pinned_in s e ≡ true
      → evict_scan k stuck (suc fuel) flags table (e ∷ es) s
        ≡ evict_scan k stuck fuel flags table (next_entry es table) s
  unfolding evict_scan
  scan_skip fuel table es e s pinned = rw pinned

  scan_clear :
      (fuel : ℕ) (table es : List FrameEntry) (e : FrameEntry) (s : Vm W)
      → pinned_in s e ≡ false
      → accessed_in s s.world e ≡ true
      → evict_scan k stuck (suc fuel) flags table (e ∷ es) s
        ≡ evict_scan k stuck fuel flags table (next_entry es table) (record s {
          world =
              k.pagedir_set_accessed e.thread
                (s.spte_at e.spte).unused_virtual_address
                false
                s.world;
        })
  unfolding evict_scan
  scan_clear fuel table es e s unpinned accessed = ground arith

  scan_evict :
      (fuel : ℕ) (table es : List FrameEntry) (e : FrameEntry) (s : Vm W)
      → pinned_in s e ≡ false
      → accessed_in s s.world e ≡ false
      → evict_scan k stuck (suc fuel) flags table (e ∷ es) s ≡ evict_entry k flags e s
  unfolding evict_scan
  scan_evict fuel table es e s unpinned unaccessed = ground arith

  -- A round for each element.
  abbrev more : List FrameEntry → ℕ → ℕ
  more [] fuel = fuel
  more (e ∷ es) fuel = suc (more es fuel)

  more_lem : (es : List FrameEntry) (fuel : ℕ) → more es fuel ≡ length es + fuel
  more_lem [] fuel = omega arith
  more_lem (e ∷ es) fuel = omega (arith, more_lem es fuel)

  abbrev pub at : Vm W → W → Vm W
  at s w = record s { world = w }

  Passes-append :
      (s : Vm W) (xs ys : List FrameEntry) (u v w : W)
      → Passes s xs u v
      → Passes s ys v w
      → Passes s (xs ++ ys) u w
  Passes-append s [] ys u v w p q = subst (λ x. Passes s ys x w) p q
  Passes-append s (x ∷ xs) ys u v w (inl (pinned, p)) q =
      inl (pinned, Passes-append s xs ys u v w p q)
  Passes-append s (x ∷ xs) ys u v w (inr (free, accessed, p)) q =
      inr (free, accessed, Passes-append s xs ys _ v w p q)

  -- A scan up to the end of the table evicts, or leaves every bit on its way clear.
  abbrev Sweep : List FrameEntry → Vm W → List FrameEntry → ℕ → W → Type 0
  Sweep table s es fuel w =
      Evicts (es ++ table) table s w (evict_scan k stuck (more es fuel) flags table es (at s w))
      ⊎ ((w' : W) × ClearsMore w w'
          × Passes s es w w'
          × All (IsCleared s w') es
          × (evict_scan k stuck (more es fuel) flags table es (at s w)
              ≡ evict_scan k stuck fuel flags table table (at s w')))

  chain :
      (table : List FrameEntry) (s : Vm W) (e : FrameEntry) (es : List FrameEntry) (fuel : ℕ)
      (w v : W)
      → ClearsMore w v
      → ((xs : List FrameEntry) (u : W) → Passes s xs v u → Passes s (e ∷ xs) w u)
      → IsCleared s v e
      → evict_scan k stuck (suc (more es fuel)) flags table (e ∷ es) (at s w)
        ≡ evict_scan k stuck (more es fuel) flags table es (at s v)
      → Sweep table s es fuel v
      → Sweep table s (e ∷ es) fuel w
  chain table s e es fuel w v less over clear step (inl found) = inl (record {
    passed = e ∷ found.passed;
    victim = found.victim;
    rest = found.rest;
    after = found.after;
    order = ap (λ xs. e ∷ xs) found.order;
    passes = over found.passed found.after found.passes;
    listed = found.listed;
    unpinned = found.unpinned;
    unaccessed = found.unaccessed;
    evicted = step ∙ found.evicted;
  })
  chain table s e es fuel w v less over clear step (inr (u, less', passes, all, eq)) =
      inr (u, λ t x h. less' t x (less t x h), over es u passes, (stays clear, all), step ∙ eq)
    where
      stays : IsCleared s v e → IsCleared s u e
      stays (inl pinned) = inl pinned
      stays (inr unaccessed) = inr (less' _ _ unaccessed)

  -- The cases of the first element, given what follows from the state behind it.
  turn :
      (table : List FrameEntry) (s : Vm W) (e : FrameEntry) (es : List FrameEntry) (fuel : ℕ)
      (w : W)
      → In e table
      → ((v : W)
          → ClearsMore w v
          → ((xs : List FrameEntry) (u : W) → Passes s xs v u → Passes s (e ∷ xs) w u)
          → IsCleared s v e
          → evict_scan k stuck (suc (more es fuel)) flags table (e ∷ es) (at s w)
            ≡ evict_scan k stuck (more es fuel) flags table (next_entry es table) (at s v)
          → Sweep table s (e ∷ es) fuel w)
      → Sweep table s (e ∷ es) fuel w
  turn table s e es fuel w listed go = elim (Bool-cases (pinned_in s e)) [
    | inl pinned ↦
        go w (λ t x h. h) (λ xs u p. inl (pinned, p)) (inl pinned)
          (scan_skip _ table es e (at s w) pinned)
    | inr unpinned ↦ elim (Bool-cases (accessed_in s w e)) [
      | inl accessed ↦
          go _ (λ t x h. lawful.sets_none w _ _ t x h) (λ xs u p. inr (unpinned, accessed, p))
            (inr (lawful.cleared w _ _)) (scan_clear _ table es e (at s w) unpinned accessed)
      | inr unaccessed ↦ inl (record {
        passed = [];
        victim = e;
        rest = es ++ table;
        after = w;
        order = refl;
        passes = refl;
        listed = listed;
        unpinned = unpinned;
        unaccessed = unaccessed;
        evicted = scan_evict _ table es e (at s w) unpinned unaccessed;
      })
    ]
  ]

  sweep :
      (table : List FrameEntry) (s : Vm W) (e : FrameEntry) (es : List FrameEntry) (fuel : ℕ)
      (w : W)
      → ((x : FrameEntry) → In x (e ∷ es) → In x table)
      → Sweep table s (e ∷ es) fuel w
  sweep table s e [] fuel w sub =
      turn table s e [] fuel w (sub e (inl refl))
        λ v less over clear step. inr (v, less, over [] v refl, (clear, tt), step)
  sweep table s e (y ∷ es) fuel w sub =
      turn table s e (y ∷ es) fuel w (sub e (inl refl)) λ v less over clear step.
        chain table s e (y ∷ es) fuel w v less over clear step
          (sweep table s y es fuel v (λ x m. sub x (inr m)))

  evict_now :
      (table : List FrameEntry) (s : Vm W) (e : FrameEntry) (es : List FrameEntry) (fuel : ℕ)
      (w : W)
      → In e table
      → IsCleared s w e
      → pinned_in s e ≡ false
      → Evicts (e ∷ es) table s w (evict_scan k stuck (suc fuel) flags table (e ∷ es) (at s w))
  evict_now table s e es fuel w listed (inl pinned) unpinned = cc
  evict_now table s e es fuel w listed (inr unaccessed) unpinned = record {
    passed = [];
    victim = e;
    rest = es;
    after = w;
    order = refl;
    passes = refl;
    listed = listed;
    unpinned = unpinned;
    unaccessed = unaccessed;
    evicted = scan_evict _ table es e (at s w) unpinned unaccessed;
  }

  -- The scan has first passed over some entries.
  prepend :
      (xs todo table : List FrameEntry) (s : Vm W) (w v : W) (o o' : Outcome (Option ℕ × Vm W))
      → Passes s xs w v
      → o ≡ o'
      → Evicts todo table s v o'
      → Evicts (xs ++ todo) table s w o
  prepend xs todo table s w v o o' p e found = record {
    passed = xs ++ found.passed;
    victim = found.victim;
    rest = found.rest;
    after = found.after;
    order =
        append_assoc xs found.passed (found.victim ∷ found.rest) ∙ ap (λ ys. xs ++ ys) found.order;
    passes = Passes-append s xs found.passed w v found.after p found.passes;
    listed = found.listed;
    unpinned = found.unpinned;
    unaccessed = found.unaccessed;
    evicted = e ∙ found.evicted;
  }

  -- Where every entry is pinned or has a clear bit, and one is not pinned, the scan evicts.
  second :
      (table : List FrameEntry) (s : Vm W) (x e : FrameEntry) (es : List FrameEntry) (fuel : ℕ)
      (w : W)
      → ((y : FrameEntry) → In y (e ∷ es) → In y table)
      → All (IsCleared s w) (e ∷ es)
      → In x (e ∷ es)
      → pinned_in s x ≡ false
      → Evicts
          (e ∷ es)
          table
          s
          w
          (evict_scan k stuck (more (e ∷ es) fuel) flags table (e ∷ es) (at s w))
  second table s x e es fuel w sub (clear, all) (inl same) unpinned =
      evict_now table s e es _ w (sub e (inl refl)) clear
        (subst (λ y. pinned_in s y ≡ false) same unpinned)
  second table s x e [] fuel w sub (clear, all) (inr listed) unpinned = absurd listed
  second table s x e (y ∷ es) fuel w sub (clear, all) (inr listed) unpinned =
      elim (Bool-cases (pinned_in s e)) [
        | inl pinned ↦
            prepend (e ∷ []) (y ∷ es) table s w w _ _ (inl (pinned, refl))
              (scan_skip _ table (y ∷ es) e (at s w) pinned)
              (second table s x y es fuel w (λ z m. sub z (inr m)) all listed unpinned)
        | inr free ↦ evict_now table s e (y ∷ es) _ w (sub e (inl refl)) clear free
      ]

  two_rounds :
      (s : Vm W) (x e : FrameEntry) (es : List FrameEntry)
      → In x (e ∷ es)
      → pinned_in s x ≡ false
      → Evicts
          ((e ∷ es) ++ (e ∷ es))
          (e ∷ es)
          s
          s.world
          (evict_scan k stuck (more (e ∷ es) (more (e ∷ es) 0)) flags (e ∷ es) (e ∷ es) s)
  two_rounds s x e es listed unpinned =
      elim (sweep (e ∷ es) s e es (more (e ∷ es) 0) s.world (λ y m. m)) [
        | inl found ↦ found
        | inr (w, less, passes, all, eq) ↦
            prepend (e ∷ es) (e ∷ es) (e ∷ es) s s.world w _ _ passes eq
              (second (e ∷ es) s x e es 0 w (λ y m. m) all listed unpinned)
      ]

  rounds :
      (table : List FrameEntry) (s : Vm W) (x : FrameEntry)
      → In x table
      → pinned_in s x ≡ false
      → Evicts
          (table ++ table)
          table
          s
          s.world
          (evict_scan k stuck (2 * length table) flags table table s)
  rounds [] s x listed unpinned = absurd listed
  rounds (e ∷ es) s x listed unpinned = rw fuel (two_rounds s x e es listed unpinned)
    where
      fuel : 2 * length (e ∷ es) ≡ more (e ∷ es) (more (e ∷ es) 0)
      fuel = omega (arith, more_lem es (more (e ∷ es) 0), more_lem es 0)

  -- If the lock of the frame table is free and some entry of the table is not pinned, the scan of
  -- `evict_frame` ends, within two rounds of the table: going through the table twice, it evicts the
  -- first entry that is not pinned and has its accessed bit clear when its turn comes. Of those before
  -- it, each is pinned, or its accessed bit was set and has been cleared. Before the eviction nothing
  -- but these bits has changed, and the lock of the frame table, which is taken.
  pub evict_frame-Evicts :
      (s : Vm W) (x : FrameEntry)
      → s.frame_tbl_lock ≡ false
      → In x s.frame_tbl_list
      → pinned_in s x ≡ false
      → Evicts
          (s.frame_tbl_list ++ s.frame_tbl_list)
          s.frame_tbl_list
          (record s { frame_tbl_lock = true })
          s.world
          (evict_frame k flags s)
  unfolding evict_frame
  evict_frame-Evicts s x free listed unpinned =
      prepend [] (s.frame_tbl_list ++ s.frame_tbl_list) s.frame_tbl_list locked s.world s.world _ _
        refl (assert-true (not s.frame_tbl_lock) _ (ap not free))
        (rounds s.frame_tbl_list locked x listed unpinned)
    where
      locked : Vm W
      locked = record s { frame_tbl_lock = true }
