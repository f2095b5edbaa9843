-- ===== src/Cronjobs/Manager.antt =====
-- Which jobs the manager keeps a task for.
use signapse_mdg.Base.{
  ◌≡◌, refl, sym, inl, inr, ◌⊎◌, Bool, true, false, not, ◌&&◌, ◌||◌, none, some, some_inj, [], ◌∷◌,
  String, string_eq, string_lawful, ◌==◌, Dict, has_key, insert, arith, eq_iff, ok, ok-injective,
  err_not_ok, subst, if◌then◌else◌, Bool-cases, HasDistinctKeys, HasDistinctKeys-insert, Fresh,
}
use signapse_mdg.Cronjobs.{
  Cronjob, CronjobState, CronjobManager, new_manager, register, start_jobs, start, drop_tasks,
  begin_stop, end_stop, new_status,
}

-- A task for each enabled job while the manager runs, for none before and after, and while it stops for no
-- other job.
abbrev TaskFits : Bool → Bool → CronjobState → Type 0
TaskFits started stopping state =
    ((started ≡ false) × (state.has_task ≡ false))
    ⊎ ((started ≡ true) × (stopping ≡ false) × (state.has_task ≡ state.job.enabled))
    ⊎ ((started ≡ true) × (stopping ≡ true) × (state.has_task ≡ true → state.job.enabled ≡ true))

abbrev EntryFits : Bool → Bool → String → CronjobState → Type 0
EntryFits started stopping name state =
    (state.job.name ≡ name)
    × (state.status.enabled ≡ state.job.enabled)
    × TaskFits started stopping state

abbrev AllFit : Bool → Bool → Dict String CronjobState → Type 0
AllFit started stopping [] = Unit {0}
AllFit started stopping ((name, state) ∷ more) =
    EntryFits started stopping name state × AllFit started stopping more

pub record IsManaged (m : CronjobManager) : Type 0 where
  pub distinct : HasDistinctKeys m.jobs
  pub all_fit : AllFit m.started m.stopping m.jobs
  pub stops_running : m.stopping ≡ true → m.started ≡ true

-- What the manager does, in any order; the parts of `stop` may have others between them.
pub data ManagerStep (m : CronjobManager) : CronjobManager → Type 0 where
  registers : (job : Cronjob) {n : CronjobManager} → register job m ≡ ok n → ManagerStep m n
  starts : ManagerStep m (start m)
  begins_stop : {n : CronjobManager} → begin_stop m ≡ some n → ManagerStep m n
  ends_stop : m.stopping ≡ true → ManagerStep m (end_stop m)

pub data ManagerReach : CronjobManager → Type 0 where
  new : ManagerReach new_manager
  after : {m n : CronjobManager} → ManagerReach m → ManagerStep m n → ManagerReach n

AllFit-insert :
    (started stopping : Bool) (name : String) (state : CronjobState)
    (jobs : Dict String CronjobState)
    → EntryFits started stopping name state
    → AllFit started stopping jobs
    → AllFit started stopping (insert name state jobs)
unfolding insert
AllFit-insert started stopping name state [] e h = (e, tt)
AllFit-insert started stopping name state ((k, s) ∷ jobs) e h =
    let ih = AllFit-insert started stopping name state jobs e h.1 in
    elim (Bool-cases (k == name)) [
      | inl q ↦
          let same = (eq_iff k name).0 q in
          rw q (subst (λ n. EntryFits started stopping n state) (sym same) e, h.1)
      | inr q ↦ rw q (h.0, ih)
    ]

AllFit-start :
    (stopping : Bool) (jobs : Dict String CronjobState)
    → AllFit false stopping jobs
    → AllFit true false (start_jobs jobs)
AllFit-start stopping [] h = tt
AllFit-start stopping ((name, state) ∷ more) h =
    ((h.0.0, h.0.1, ground (arith, h.0.2)), AllFit-start stopping more h.1)

AllFit-drop :
    (started stopping : Bool) (jobs : Dict String CronjobState)
    → AllFit started stopping jobs
    → AllFit false false (drop_tasks jobs)
AllFit-drop started stopping [] h = tt
AllFit-drop started stopping ((name, state) ∷ more) h =
    ((h.0.0, h.0.1, inl (refl, refl)), AllFit-drop started stopping more h.1)

AllFit-stop : (jobs : Dict String CronjobState) → AllFit true false jobs → AllFit true true jobs
AllFit-stop [] h = tt
AllFit-stop ((name, state) ∷ more) h = ((h.0.0, h.0.1, ground (arith, h.0.2)), AllFit-stop more h.1)

start-distinct :
    (jobs : Dict String CronjobState) → HasDistinctKeys jobs → HasDistinctKeys (start_jobs jobs)
start-distinct [] d = tt
start-distinct ((name, state) ∷ more) d = (go more d.0, start-distinct more d.1)
  where
    go : (l : Dict String CronjobState) → Fresh name l → Fresh name (start_jobs l)
    go [] f = tt
    go ((k, s) ∷ l) f = (f.0, go l f.1)

drop-distinct :
    (jobs : Dict String CronjobState) → HasDistinctKeys jobs → HasDistinctKeys (drop_tasks jobs)
drop-distinct [] d = tt
drop-distinct ((name, state) ∷ more) d = (go more d.0, drop-distinct more d.1)
  where
    go : (l : Dict String CronjobState) → Fresh name l → Fresh name (drop_tasks l)
    go [] f = tt
    go ((k, s) ∷ l) f = (f.0, go l f.1)

-- The task that a job gets when it is registered.
registered_fits :
    (started stopping : Bool) (job : Cronjob)
    → TaskFits started stopping (record {
      job = job;
      status = new_status job;
      has_task = started && (not stopping && job.enabled);
    })
registered_fits false stopping job = inl (refl, refl)
registered_fits true false job = inr (inl (refl, refl, refl))
registered_fits true true job = inr (inr (refl, refl, λ h. cc))

register-IsManaged :
    (job : Cronjob) (m n : CronjobManager) → register job m ≡ ok n → IsManaged m → IsManaged n
unfolding register
register-IsManaged job m n e v = elim (Bool-cases (has_key job.name m.jobs)) [
  | inl known ↦ absurd (err_not_ok (rw known at e))
  | inr fresh ↦ subst IsManaged (ok-injective (rw fresh at e)) (record {
    distinct = HasDistinctKeys-insert job.name _ m.jobs v.distinct;
    all_fit =
        AllFit-insert m.started m.stopping job.name _ m.jobs
          (refl, refl, registered_fits m.started m.stopping job) v.all_fit;
    stops_running = v.stops_running;
  })
]

start-IsManaged : (m : CronjobManager) → IsManaged m → IsManaged (start m)
unfolding start
start-IsManaged m v = go m.started refl
  where
    go :
        (b : Bool)
        → m.started ≡ b
        → IsManaged
            (if b then m else record { jobs = start_jobs m.jobs; started = true; stopping = false })
    go true e = v
    go false e = record {
      distinct = start-distinct m.jobs v.distinct;
      all_fit =
          AllFit-start m.stopping m.jobs (subst (λ b. AllFit b m.stopping m.jobs) e v.all_fit);
      stops_running = λ h. refl;
    }

begin_stop-IsManaged : (m n : CronjobManager) → begin_stop m ≡ some n → IsManaged m → IsManaged n
unfolding begin_stop
begin_stop-IsManaged m n q v = go m.started m.stopping refl refl q
  where
    go :
        (a b : Bool)
        → m.started ≡ a
        → m.stopping ≡ b
        → (if not a || b then none else some (record m { stopping = true })) ≡ some n
        → IsManaged n
    go false b ea eb e = absurd (none_not_some e)
      where
        none_not_some : none ≡ some n → ⊥
        none_not_some x = cc
    go true true ea eb e = absurd (none_not_some e)
      where
        none_not_some : none ≡ some n → ⊥
        none_not_some x = cc
    go true false ea eb e =
        let fit : AllFit true false m.jobs =
          subst (λ b. AllFit true b m.jobs) eb
            (subst (λ a. AllFit a m.stopping m.jobs) ea v.all_fit) in
        subst IsManaged (some_inj e) (record {
          distinct = v.distinct;
          all_fit = subst (λ a. AllFit a true m.jobs) (sym ea) (AllFit-stop m.jobs fit);
          stops_running = λ h. ea;
        })

ManagerStep-IsManaged : {m n : CronjobManager} → ManagerStep m n → IsManaged m → IsManaged n
unfolding end_stop
ManagerStep-IsManaged {m} {n} (registers job e) v = register-IsManaged job m n e v
ManagerStep-IsManaged {m} starts v = start-IsManaged m v
ManagerStep-IsManaged {m} {n} (begins_stop e) v = begin_stop-IsManaged m n e v
ManagerStep-IsManaged {m} (ends_stop e) v = record {
  distinct = drop-distinct m.jobs v.distinct;
  all_fit = AllFit-drop m.started m.stopping m.jobs v.all_fit;
  stops_running = λ h. cc;
}

-- After any registrations, starts and stops in any order, no name stands twice, and while the manager is
-- started and not stopping it has a task for exactly the enabled jobs; while it is not started, for none.
pub manager_tasks : {m : CronjobManager} → ManagerReach m → IsManaged m
manager_tasks new = record { distinct = tt; all_fit = tt; stops_running = λ h. cc }
manager_tasks (after before step) = ManagerStep-IsManaged step (manager_tasks before)
