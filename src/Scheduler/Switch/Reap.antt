-- ===== src/Scheduler/Switch/Reap.antt =====
-- reap_zombies touches nothing but the cells of zombies.
use nexus_os.Base.{
  ℕ, zero, suc, ◌+◌, ◌-◌, ◌≡◌, refl, sym, ap, ◌∙◌, true, false, ◌||◌, not, Option, List, [], ◌∷◌,
  inl, inr, Bool-cases, arith, ◌==◌, subst,
}
use nexus_os.Scheduler.Waiting.{max_threads}
use nexus_os.Scheduler.{Tcb, Scheduler, is_zombie, is_running, store}
use nexus_os.Scheduler.Chain.{Chain}
use nexus_os.Scheduler.Due.{Lists}
use nexus_os.Scheduler.Services.{Services}
use nexus_os.Scheduler.Switch.{reap, reap_from, reap_zombies, empty_tcb, points_to}

pub record Reaped (s s' : Scheduler) : Type 0 where
  pub others : s' ≡ record s { tcbs = s'.tcbs }
  pub cells : (j : ℕ) → is_zombie (s.tcbs j).state ≡ false → s'.tcbs j ≡ s.tcbs j
  pub idle : (j : ℕ) → is_running (s.tcbs j).state ≡ false → is_running (s'.tcbs j).state ≡ false

Reaped-refl : (s : Scheduler) → Reaped s s
Reaped-refl s = record { others = refl; cells = λ j h. refl; idle = λ j h. h }

Reaped-trans : (r s t : Scheduler) → Reaped r s → Reaped s t → Reaped r t
Reaped-trans r s t a b = record {
  others = b.others ∙ ap (λ (x : Scheduler). record x { tcbs = t.tcbs }) a.others;
  cells = λ j h. b.cells j (ap (λ (c : Tcb). is_zombie c.state) (a.cells j h) ∙ h) ∙ a.cells j h;
  idle = λ j h. b.idle j (a.idle j h);
}

module _ {W : Type 0} (k : Services W) where
  empty_tcb-Reaped :
      (i : ℕ) (s : Scheduler)
      → is_zombie (s.tcbs i).state ≡ true
      → Reaped s (record s { tcbs = store s.tcbs i (empty_tcb (s.tcbs i)) })
  empty_tcb-Reaped i s dead = record {
    others = refl;
    cells = λ j h. ground (arith, dead, h, ap (λ q. is_zombie (s.tcbs q).state) {x = i} {y = j});
    idle = λ j h. ground (arith, h);
  }

  reap-Reaped : (i : ℕ) (s : Scheduler) (w : W) → Reaped s (reap k i s w).0
  unfolding reap
  reap-Reaped i s w =
      elim (Bool-cases
        (points_to i s.current || not (s.tcbs i).live || not (is_zombie (s.tcbs i).state))) [
          | inl spared ↦ subst (Reaped s) (ground (arith, spared)) (Reaped-refl s)
          | inr dead ↦
              let released = empty_tcb-Reaped i s (ground (arith, dead)) in
              elim (Bool-cases ((s.tcbs i).process_pid == 0)) [
                | inl kernel ↦ subst (Reaped s) (ground (arith, dead, kernel)) released
                | inr user ↦
                    elim (Bool-cases (k.process_reap (s.tcbs i).process_pid (s.tcbs i).id w).0) [
                      | inl ok ↦ subst (Reaped s) (ground (arith, dead, user, ok)) released
                      | inr kept ↦
                          subst (Reaped s) (ground (arith, dead, user, kept)) (Reaped-refl s)
                    ]
              ]
        ]

  reap_from-Reaped : (rounds i : ℕ) (s : Scheduler) (w : W) → Reaped s (reap_from k rounds i s w).0
  unfolding reap_from
  reap_from-Reaped zero i s w = Reaped-refl s
  reap_from-Reaped (suc rounds) i s w =
      let (s1, w1) = reap k i s w in
      Reaped-trans s s1 (reap_from k rounds (i + 1) s1 w1).0 (reap-Reaped i s w)
        (reap_from-Reaped rounds (i + 1) s1 w1)

  pub reap_zombies-Reaped : (s : Scheduler) (w : W) → Reaped s (reap_zombies k s w).0
  reap_zombies-Reaped s w = reap_from-Reaped (max_threads - 1) 1 s w

-- None of the threads has ended.
unfoldable pub AllAlive : (ℕ → Tcb) → List ℕ → Type 0
AllAlive f [] = Unit
AllAlive f (x ∷ xs) = (is_zombie (f x).state ≡ false) × AllAlive f xs

pub AllAlive-mono :
    (f g : ℕ → Tcb) (xs : List ℕ)
    → ((j : ℕ) → is_zombie (f j).state ≡ false → is_zombie (g j).state ≡ false)
    → AllAlive f xs
    → AllAlive g xs
unfolding AllAlive
AllAlive-mono f g [] h a = tt
AllAlive-mono f g (x ∷ xs) h a = (h x a.0, AllAlive-mono f g xs h a.1)

Chain-alive :
    (f g : ℕ → Tcb) (p : Option ℕ) (xs : List ℕ)
    → Chain f p xs
    → AllAlive f xs
    → ((j : ℕ) → is_zombie (f j).state ≡ false → g j ≡ f j)
    → Chain g p xs
unfolding Chain AllAlive
Chain-alive f g p [] c a h = c
Chain-alive f g p (x ∷ xs) c a h = (
  c.0,
  subst (λ n. Chain g n xs) (ap (λ (t : Tcb). t.next) (sym (h x a.0)))
      (Chain-alive f g (f x).next xs c.1 a.1 h),
)

pub Reaped-Lists :
    (s s' : Scheduler) (rs zs : List ℕ)
    → Reaped s s'
    → Lists s rs zs
    → AllAlive s.tcbs rs
    → AllAlive s.tcbs zs
    → Lists s' rs zs
Reaped-Lists s s' rs zs r v ar az =
    subst (λ t. Lists t rs zs) (sym r.others)
      (record {
        queued = record {
          chain = Chain-alive s.tcbs s'.tcbs s.ready_head rs v.queued.chain ar r.cells;
          tail = v.queued.tail;
          counted = v.queued.counted;
          distinct = v.queued.distinct;
        };
        sleeping = record {
          chain = Chain-alive s.tcbs s'.tcbs s.sleep_head zs v.sleeping.chain az r.cells;
          counted = v.sleeping.counted;
          distinct = v.sleeping.distinct;
        };
        disjoint = v.disjoint;
        room = v.room;
      })
