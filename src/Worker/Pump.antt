-- ===== src/Worker/Pump.antt =====
-- `pump_once` of app/scheduler/worker.py with its semaphore and the worker threads: a step relation on
-- the semaphores of all pumps. A step is one access to what the threads share, so a pump that has a
-- slot and no worker yet is a state of its own. The scheduler starts a pump only when no other is there
-- (`max_instances=1` of app/scheduler/scheduler.py).
use Prim.Native.Nat.{max}
use gitlab_reviewer.Prelude.{
  ℕ, zero, suc, ◌+◌, ◌-◌, ◌≤◌, ◌<◌, ◌≡◌, refl, sym, ap, subst, List, [], ◌∷◌, ◌++◌, arith, All,
}

-- Where a pump is: before `acquire`, before the claim, before `thread.start`, or out of its loop.
pub data Phase : Type 0 where
  waiting claiming starting gone : Phase

-- The free slots, the live workers, and the slots of the threads that could not be started.
pub record Semaphore : Type 0 where
  pub free : ℕ
  pub workers : ℕ
  pub lost : ℕ
  pub phase : Phase

-- `max(1, int(max_concurrent_reviews or 1))`
abbrev pub cap_of : ℕ → ℕ
cap_of n = max 1 n

abbrev pub new_semaphore : ℕ → Semaphore
new_semaphore n = record { free = cap_of n; workers = 0; lost = 0; phase = waiting }

abbrev pub acquired : Semaphore → Semaphore
acquired s = record s { free = s.free - 1; phase = claiming }

-- A job is claimed and has its run.
abbrev pub claimed : Semaphore → Semaphore
claimed s = record s { phase = starting }

-- The queue is empty or the claim failed: the slot is given back, and the pump returns.
abbrev pub pumped : Semaphore → Semaphore
pumped s = record s { free = s.free + 1; phase = gone }

abbrev pub with_worker : Semaphore → Semaphore
with_worker s = record s { workers = s.workers + 1; phase = waiting }

-- `thread.start` raises out of the pump, and nothing gives the slot back.
abbrev pub start_failed : Semaphore → Semaphore
start_failed s = record s { lost = s.lost + 1; phase = gone }

-- A worker ends and gives its slot back.
abbrev pub released : Semaphore → Semaphore
released s = record s { free = s.free + 1; workers = s.workers - 1 }

pub data Move (s s' : Semaphore) : Type 0 where
  acquires : s.phase ≡ waiting → 1 ≤ s.free → s' ≡ acquired s → Move s s'
  claims : s.phase ≡ claiming → s' ≡ claimed s → Move s s'
  returns : s.phase ≡ claiming → s' ≡ pumped s → Move s s'
  starts : s.phase ≡ starting → s' ≡ with_worker s → Move s s'
  start_fails : s.phase ≡ starting → s' ≡ start_failed s → Move s s'
  ends : 1 ≤ s.workers → s' ≡ released s → Move s s'

-- One step of one thread; `n` is `max_concurrent_reviews`.
pub data Turn (n : ℕ) (all all' : List Semaphore) : Type 0 where
  pumps :
      All (λ (s : Semaphore). s.phase ≡ gone) all → all' ≡ new_semaphore n ∷ all → Turn n all all'
  moves :
      (front back : List Semaphore) (s s' : Semaphore)
      → Move s s'
      → all ≡ front ++ s ∷ back
      → all' ≡ front ++ s' ∷ back
      → Turn n all all'

pub data Turns (n : ℕ) : List Semaphore → List Semaphore → Type 0 where
  done : {all : List Semaphore} → Turns n all all
  turn :
      {all all' all'' : List Semaphore} → Turn n all all' → Turns n all' all'' → Turns n all all''

-- All reviews that run.
abbrev pub live_workers : List Semaphore → ℕ
live_workers [] = 0
live_workers (s ∷ all) = s.workers + live_workers all

-- The slots that the pump itself holds.
abbrev pub held : Phase → ℕ
held waiting = 0
held claiming = 1
held starting = 1
held gone = 0

-- Every slot is free, or held by the pump or a worker, or lost.
abbrev IsCounted : ℕ → Semaphore → Type 0
IsCounted n s = s.free + (held s.phase + (s.workers + s.lost)) ≡ cap_of n

Move-IsCounted : (n : ℕ) {s s' : Semaphore} → Move s s' → IsCounted n s → IsCounted n s'
Move-IsCounted n {s} {s'} (acquires p f e) c =
    let h : held s.phase ≡ 0 = ap held p in subst (IsCounted n) (sym e) (omega (arith, c, f, h))
Move-IsCounted n {s} {s'} (claims p e) c =
    let h : held s.phase ≡ 1 = ap held p in subst (IsCounted n) (sym e) (omega (arith, c, h))
Move-IsCounted n {s} {s'} (returns p e) c =
    let h : held s.phase ≡ 1 = ap held p in subst (IsCounted n) (sym e) (omega (arith, c, h))
Move-IsCounted n {s} {s'} (starts p e) c =
    let h : held s.phase ≡ 1 = ap held p in subst (IsCounted n) (sym e) (omega (arith, c, h))
Move-IsCounted n {s} {s'} (start_fails p e) c =
    let h : held s.phase ≡ 1 = ap held p in subst (IsCounted n) (sym e) (omega (arith, c, h))
Move-IsCounted n {s} {s'} (ends w e) c = subst (IsCounted n) (sym e) (omega (arith, c, w))

replaced-IsCounted :
    (n : ℕ) (front back : List Semaphore) (s s' : Semaphore)
    → Move s s'
    → All (IsCounted n) (front ++ s ∷ back)
    → All (IsCounted n) (front ++ s' ∷ back)
replaced-IsCounted n [] back s s' m c = (Move-IsCounted n m c.0, c.1)
replaced-IsCounted n (x ∷ front) back s s' m c = (c.0, replaced-IsCounted n front back s s' m c.1)

Turn-IsCounted :
    (n : ℕ) {all all' : List Semaphore}
    → Turn n all all'
    → All (IsCounted n) all
    → All (IsCounted n) all'
Turn-IsCounted n (pumps idle e) c = subst (All (IsCounted n)) (sym e) ((omega arith), c)
Turn-IsCounted n (moves front back s s' m e e') c =
    subst (All (IsCounted n)) (sym e')
      (replaced-IsCounted n front back s s' m (subst (All (IsCounted n)) e c))

Turns-IsCounted :
    (n : ℕ) {all all' : List Semaphore}
    → Turns n all all'
    → All (IsCounted n) all
    → All (IsCounted n) all'
Turns-IsCounted n done c = c
Turns-IsCounted n (turn t ts) c = Turns-IsCounted n ts (Turn-IsCounted n t c)

-- What the semaphore promises: the workers stay within the cap, also with the one that is about to
-- start; and no release, by the pump or by a worker, takes it above its initial value, where a
-- `BoundedSemaphore` raises ValueError.
pub record IsCapped (n : ℕ) (s : Semaphore) : Type 0 where
  pub workers_fit : s.workers ≤ cap_of n
  pub next_fits : s.phase ≡ starting → s.workers < cap_of n
  pub pump_releases : s.phase ≡ claiming → s.free < cap_of n
  pub worker_releases : 1 ≤ s.workers → s.free < cap_of n

IsCounted-IsCapped : (n : ℕ) (s : Semaphore) → IsCounted n s → IsCapped n s
IsCounted-IsCapped n s c = record {
  workers_fit = omega (arith, c);
  next_fits = λ p. let h : held s.phase ≡ 1 = ap held p in omega (arith, c, h);
  pump_releases = λ p. let h : held s.phase ≡ 1 = ap held p in omega (arith, c, h);
  worker_releases = λ w. omega (arith, c, w);
}

All-IsCapped : (n : ℕ) (all : List Semaphore) → All (IsCounted n) all → All (IsCapped n) all
All-IsCapped n [] c = tt
All-IsCapped n (s ∷ all) c = (IsCounted-IsCapped n s c.0, All-IsCapped n all c.1)

-- In every state that the pumps and the workers reach, in any interleaving, each pump has at most as
-- many live workers as its cap, and one less where its next worker is about to start; and where the
-- pump or a worker gives a slot back, the semaphore is below its initial value, so that no release
-- raises.
pub reached-IsCapped : (n : ℕ) {all : List Semaphore} → Turns n [] all → All (IsCapped n) all
reached-IsCapped n {all} ts = All-IsCapped n all (Turns-IsCounted n ts tt)

abbrev pub looping : ℕ → ℕ → Semaphore
looping free workers = record { free = free; workers = workers; lost = 0; phase = waiting }

abbrev pub returned : ℕ → ℕ → Semaphore
returned free workers = record { free = free; workers = workers; lost = 0; phase = gone }

-- One turn of the newest pump.
first_moves :
    (n : ℕ) (rest : List Semaphore) (s s' : Semaphore) {last : List Semaphore}
    → Move s s'
    → Turns n (s' ∷ rest) last
    → Turns n (s ∷ rest) last
first_moves n rest s s' m ts = turn (moves [] rest s s' m refl refl) ts

-- The pump acquires a slot, claims a job and starts its worker.
pub claims_one :
    (n f w : ℕ) (rest : List Semaphore) {last : List Semaphore}
    → 1 ≤ f
    → Turns n (looping (f - 1) (w + 1) ∷ rest) last
    → Turns n (looping f w ∷ rest) last
claims_one n f w rest h ts =
    let s1 = acquired (looping f w) in
    first_moves n rest (looping f w) s1 (acquires refl h refl) (
      first_moves n rest s1 (claimed s1) (claims refl refl)
        (first_moves n rest (claimed s1) (looping (f - 1) (w + 1)) (starts refl refl) ts))

-- A pump that claims k jobs one after the other.
claims_many :
    (n k f m w v : ℕ) (rest : List Semaphore) {last : List Semaphore}
    → f ≡ k + m
    → v ≡ k + w
    → Turns n (looping m v ∷ rest) last
    → Turns n (looping f w ∷ rest) last
claims_many n zero f m w v rest {last} p q ts =
    let p' : m ≡ f = omega (arith, p) in
    let q' : v ≡ w = omega (arith, q) in
    subst (λ x. Turns n (looping x w ∷ rest) last) p'
      (subst (λ x. Turns n (looping m x ∷ rest) last) q' ts)
claims_many n (suc k) f m w v rest p q ts =
    claims_one n f w rest (omega (arith, p))
      (claims_many n k (f - 1) m (w + 1) v rest (omega (arith, p)) (omega (arith, q)) ts)

-- The first pump leaves all but one slot to its workers and returns; the second fills all of its own.
two_pumps : (n : ℕ) → 2 ≤ n → Turns n [] (looping 0 n ∷ returned 1 (n - 1) ∷ [])
two_pumps n h =
    let s1 = acquired (looping 1 (n - 1)) in
    turn (pumps tt refl) (
      claims_many n (n - 1) (cap_of n) 1 0 (n - 1) [] (omega (arith, h)) (omega arith) (
        first_moves n [] (looping 1 (n - 1)) s1 (acquires refl (omega arith) refl) (
          first_moves n [] s1 (returned 1 (n - 1)) (returns refl refl) (
            turn (pumps (refl, tt) refl) (
              claims_many n n (cap_of n) 0 0 n (returned 1 (n - 1) ∷ []) (omega (arith, h))
                (omega arith) done)))))

-- With a cap of 2 or more the pumps and the workers reach a state in which 2 * n - 1 reviews run,
-- which is more than the cap.
pub two_pumps-live_workers :
    (n : ℕ)
    → 2 ≤ n
    → (all : List Semaphore) × Turns n [] all
      × (live_workers all ≡ n + (n - 1))
      × (cap_of n < live_workers all)
two_pumps-live_workers n h =
    (looping 0 n ∷ returned 1 (n - 1) ∷ [], two_pumps n h, (omega arith), (omega (arith, h)))
