-- ===== src/Threads/Turns.antt =====
-- The round robin of Project 3/threads/thread.c: the ready list is first in, first out.
use mathlib.Core.List.{append-nil, append_assoc}
use comp_sys_pint_os.Base.{
  ℕ, zero, suc, ◌≡◌, refl, sym, ap, ◌∙◌, Bool, true, false, ◌==◌, if◌then◌else◌, List, [], ◌∷◌,
  ◌++◌, length, update, ==_refl, Outcome, returns, ◌>>=◌, Returns, Returns->>=, Returns-map,
}
use comp_sys_pint_os.Alarm.{ready}
use comp_sys_pint_os.Threads.{Pages, Threads}
use comp_sys_pint_os.Threads.Switch.{next_thread_to_run, thread_yield, schedule}
use comp_sys_pint_os.Threads.Lists.{IsValid}
use comp_sys_pint_os.Threads.Invariant.{schedule-Switches, yielded-Lists, yielded-AllListed}

module _ {W : Type 0} (k : Pages W) where
  -- `n` threads in a row give way, each as soon as it runs.
  unfoldable pub yields : ℕ → Threads W → Outcome (Threads W)
  unfolding thread_yield
  yields zero s = returns s
  yields (suc n) s = thread_yield k s >>= yields n

  -- The first ready thread runs, and the others move up.
  record Turned (x : ℕ) (rest : List ℕ) (t : Threads W) : Type 0 where
    pub valid : IsValid k t
    pub runs : t.current ≡ x
    pub behind : List ℕ
    pub moved_up : t.ready_list ≡ rest ++ behind

  thread_yield-Turned :
      (s : Threads W) (x : ℕ) (rest : List ℕ)
      → IsValid k s
      → s.ready_list ≡ x ∷ rest
      → Returns (Turned x rest) (thread_yield k s)
  unfolding thread_yield next_thread_to_run
  thread_yield-Turned s x rest v e =
      Returns-map _ (Turned x rest) (schedule k yielded)
        (λ t h. record {
          valid = h.0;
          runs = h.1.current ∙ ap (λ (p : ℕ × List ℕ). p.0) first;
          behind = if s.current == s.idle_thread then [] else s.current ∷ [];
          moved_up = h.1.ready_list ∙ ap (λ (p : ℕ × List ℕ). p.1) first;
        })
        (schedule-Switches k yielded (yielded-Lists k s v (s.current == s.idle_thread) refl)
          (yielded-AllListed k s v (s.current == s.idle_thread) refl) refl
          (rw (==_refl s.current) refl))
    where
      yielded : Threads W
      yielded = record s {
        intr_on = false;
        ready_list =
            if s.current == s.idle_thread then s.ready_list else s.ready_list ++ s.current ∷ [];
        status = update s.status s.current ready;
      }

      first :
          next_thread_to_run yielded.idle_thread yielded.ready_list
          ≡ (x, rest ++ (if s.current == s.idle_thread then [] else s.current ∷ []))
      first = rw e (front (s.current == s.idle_thread))
        where
          front :
              (b : Bool)
              → next_thread_to_run s.idle_thread
                  (if b then x ∷ rest else x ∷ (rest ++ s.current ∷ []))
                ≡ (x, rest ++ (if b then [] else s.current ∷ []))
          front true = ap (λ l. (x, l)) (sym (append-nil rest))
          front false = refl

  -- In a valid state, a ready thread with `n` others before it on the ready list is the running one
  -- once `n + 1` threads in a row have yielded, each as soon as it runs.
  pub yields-reach :
      (xs : List ℕ) (t : ℕ) (ys : List ℕ) (s : Threads W)
      → IsValid k s
      → s.ready_list ≡ xs ++ t ∷ ys
      → Returns (λ u. u.current ≡ t) (yields (suc (length xs)) s)
  unfolding yields
  yields-reach [] t ys s v e =
      Returns->>= (Turned t ys) _ (thread_yield k s) _ (thread_yield-Turned s t ys v e)
        (λ u h. h.runs)
  yields-reach (x ∷ xs) t ys s v e =
      Returns->>= (Turned x (xs ++ t ∷ ys)) _ (thread_yield k s) _
        (thread_yield-Turned s x (xs ++ t ∷ ys) v e)
        (λ u h.
          yields-reach xs t (ys ++ h.behind) u h.valid
            (h.moved_up ∙ append_assoc xs (t ∷ ys) h.behind))
