-- ===== src/Chains.antt =====
-- tools/chain_executor.hpp: tasks in chains by key, worked off by threads. A chain has an identity,
-- its place in a heap, since the lists hold shared and weak pointers to it.
pub mod Owners
pub mod Invariant
pub mod Kept
pub mod Lives
pub mod Turns
pub mod Workers
pub mod Progress
mod Tests
use sdk_cp.Base.{
  ℕ, suc, ◌+◌, ◌<◌, ◌==◌, ltb, if◌then◌else◌, Bool, true, false, List, [], ◌∷◌, ◌++◌, Option, none,
  some, ◌≡◌, map, length,
}
use sdk_cp.Base.Counts.{one, count}

-- `task_chain`; `T` is its parameter.
pub record TaskChain {ℓ} (T : Type ℓ) : Type ℓ where
  pub tasks : List T
  pub is_pending : Bool

-- `task_syncronizer`, with the chains that `make_shared` has made: `made` many.
pub record TaskSyncronizer {ℓ} (T : Type ℓ) : Type ℓ where
  pub chains_list : List (ℕ × ℕ)
  pub ready2work_list : List ℕ
  pub heap : ℕ → TaskChain T
  pub made : ℕ

abbrev pub find_key : ℕ → List (ℕ × ℕ) → Option ℕ
find_key key [] = none
find_key key ((k, i) ∷ l) = if k == key then some i else find_key key l

abbrev pub erase_key : ℕ → List (ℕ × ℕ) → List (ℕ × ℕ)
erase_key key [] = []
erase_key key ((k, i) ∷ l) = if k == key then erase_key key l else (k, i) ∷ erase_key key l

-- `pop_chain()` on the ready list; `alive` says whether `weak_ptr::lock` finds the chain.
abbrev pub pop_chain : (ℕ → Bool) → List ℕ → Option ℕ × List ℕ
pop_chain alive [] = (none, [])
pop_chain alive (i ∷ l) = if alive i then (some i, l) else pop_chain alive l

module _ {ℓ} {T : Type ℓ} where
  abbrev pub new_chain : TaskChain T
  new_chain = record { tasks = []; is_pending = false }

  -- `task_chain::add_task(value)`: whether the chain was not pending.
  abbrev pub add_task : T → TaskChain T → Bool × TaskChain T
  add_task value c =
      if c.is_pending
      then (false, record { tasks = c.tasks ++ (value ∷ []); is_pending = true })
      else (true, record { tasks = c.tasks ++ (value ∷ []); is_pending = true })

  -- What `task_chain::get_task` answers: none for false, or the task with true. A task that it takes
  -- out with the answer false is not executed.
  abbrev pub get_task_of : List T → Bool → Option T × TaskChain T
  get_task_of [] pending = (none, record { tasks = []; is_pending = false })
  get_task_of (t ∷ ts) pending =
      (if pending then some t else none, record { tasks = ts; is_pending = pending })

  abbrev pub get_task : TaskChain T → Option T × TaskChain T
  get_task c = get_task_of c.tasks c.is_pending

  abbrev pub update : (ℕ → TaskChain T) → ℕ → TaskChain T → ℕ → TaskChain T
  update heap i c j = if j == i then c else heap j

  -- `_chains_list[key]`, made where there is none.
  abbrev pub chain_at : ℕ → TaskSyncronizer T → Option ℕ → ℕ × TaskSyncronizer T
  chain_at key s (some i) = (i, s)
  chain_at key s none = (
    s.made,
    record s {
      chains_list = (key, s.made) ∷ s.chains_list;
      heap = update s.heap s.made new_chain;
      made = suc s.made;
    },
  )

  abbrev pub chain_of : ℕ → TaskSyncronizer T → ℕ × TaskSyncronizer T
  chain_of key s = chain_at key s (find_key key s.chains_list)

  -- `remove_chain(key)`.
  abbrev pub remove_chain : ℕ → TaskSyncronizer T → TaskSyncronizer T
  remove_chain key s = record s { chains_list = erase_key key s.chains_list }

-- How often an identity stands in a list.
abbrev pub count_keys : ℕ → List (ℕ × ℕ) → ℕ
count_keys j [] = 0
count_keys j ((k, i) ∷ l) = one j i + count_keys j l

abbrev pub count_tasks {ℓ} : {T : Type ℓ} → ℕ → List (ℕ × T) → ℕ
count_tasks j [] = 0
count_tasks j ((i, t) ∷ l) = one j i + count_tasks j l

-- `chain_pool` and the threads on it: the callers of `add_task` that have their chain and not yet
-- put their task in (`entering`), those whose chain has to be made ready (`owing`), the workers
-- behind `pop_chain` (`working`), of `threads` many; and the tasks put in, taken and destroyed with
-- their chain, with their chains, in order.
pub record ChainPool {ℓ} (T : Type ℓ) : Type ℓ where
  pub syncro : TaskSyncronizer T
  pub stop : Bool
  pub threads : ℕ
  pub entering : List (ℕ × T)
  pub owing : List ℕ
  pub working : List ℕ
  pub entered : List (ℕ × T)
  pub taken : List (ℕ × T)
  pub destroyed : List (ℕ × T)

module _ {ℓ} {T : Type ℓ} where
  -- The shared pointers to a chain, and the threads and notices that are to work on it.
  abbrev pub held : ℕ → ChainPool T → ℕ
  held j p =
      count_keys j p.syncro.chains_list
      + (count_tasks j p.entering + (count j p.owing + count j p.working))

  abbrev pub load : ℕ → ChainPool T → ℕ
  load j p = count j p.owing + (count j p.syncro.ready2work_list + count j p.working)

  abbrev pub alive : ChainPool T → ℕ → Bool
  alive p j = ltb 0 (held j p)

  abbrev pub with_chain : ℕ → TaskChain T → TaskSyncronizer T → TaskSyncronizer T
  with_chain i c s = record s { heap = update s.heap i c }

  -- `chain_pool(num_threads)`, with the number that it settles on.
  abbrev pub start : ℕ → ChainPool T
  start num_threads = record {
    syncro = record { chains_list = []; ready2work_list = []; heap = λ i. new_chain; made = 0 };
    stop = false;
    threads = num_threads;
    entering = [];
    owing = [];
    working = [];
    entered = [];
    taken = [];
    destroyed = [];
  }

  -- The critical sections of `task_syncronizer::add_task`: the first, the one of the chain, and
  -- the last.
  abbrev pub with_own : T → ChainPool T → ℕ × TaskSyncronizer T → ChainPool T
  with_own v p (i, s) = record p { syncro = s; entering = (i, v) ∷ p.entering }

  abbrev pub looked_up : ℕ → T → ChainPool T → ChainPool T
  looked_up key v p = with_own v p (chain_of key p.syncro)

  abbrev pub put_in : ℕ → T → List (ℕ × T) → ChainPool T → ChainPool T
  put_in i v others p = record p {
    syncro = with_chain i (add_task v (p.syncro.heap i)).1 p.syncro;
    entering = others;
    owing = if (add_task v (p.syncro.heap i)).0 then i ∷ p.owing else p.owing;
    entered = p.entered ++ ((i, v) ∷ []);
  }

  abbrev pub made_ready : ℕ → List ℕ → ChainPool T → ChainPool T
  made_ready i others p = record p {
    syncro = record p.syncro { ready2work_list = p.syncro.ready2work_list ++ (i ∷ []) };
    owing = others;
  }

  -- `pop_chain` in `threadManager`, where a worker gets a chain or none.
  abbrev pub popped : Option ℕ × List ℕ → ChainPool T → ChainPool T
  popped (none, rest) p = record p { syncro = record p.syncro { ready2work_list = rest } }
  popped (some i, rest) p = record p {
    syncro = record p.syncro { ready2work_list = rest };
    working = i ∷ p.working;
  }

  -- `get_task` in `threadManager`: a task is executed, or the worker leaves the chain.
  abbrev pub got : ℕ → List ℕ → Option T × TaskChain T → ChainPool T → ChainPool T
  got i others (some t, c) p = record p {
    syncro = with_chain i c p.syncro;
    taken = p.taken ++ ((i, t) ∷ []);
  }
  got i others (none, c) p = record p { syncro = with_chain i c p.syncro; working = others }

  -- The destructor of a chain, and of the tasks that it still has.
  abbrev pub dropped : ℕ → ChainPool T → ChainPool T
  dropped i p = record p {
    syncro =
        with_chain i (record { tasks = []; is_pending = (p.syncro.heap i).is_pending }) p.syncro;
    destroyed = p.destroyed ++ map (λ (t : T). (i, t)) (p.syncro.heap i).tasks;
  }

-- The steps of the threads, one critical section each, in any order. A worker takes a chain only when
-- one of the threads is at none; a chain is destroyed once its last shared pointer is gone.
pub data Step {ℓ} {T : Type ℓ} (p : ChainPool T) : ChainPool T → Type ℓ where
  look_up : (key : ℕ) (v : T) → Step p (looked_up key v p)
  put :
      (xs ys : List (ℕ × T)) (i : ℕ) (v : T)
      → p.entering ≡ xs ++ ((i, v) ∷ ys)
      → Step p (put_in i v (xs ++ ys) p)
  make_ready :
      (xs ys : List ℕ) (i : ℕ) → p.owing ≡ xs ++ (i ∷ ys) → Step p (made_ready i (xs ++ ys) p)
  pop :
      length p.working < p.threads
      → Step p (popped (pop_chain (alive p) p.syncro.ready2work_list) p)
  take :
      (xs ys : List ℕ) (i : ℕ)
      → p.working ≡ xs ++ (i ∷ ys)
      → Step p (got i (xs ++ ys) (get_task (p.syncro.heap i)) p)
  destroy : (i : ℕ) → held i p ≡ 0 → i < p.syncro.made → Step p (dropped i p)
  remove : (key : ℕ) → Step p (record p { syncro = remove_chain key p.syncro })
  halt : Step p (record p { stop = true })
  leave :
      (xs ys : List ℕ) (i : ℕ)
      → p.working ≡ xs ++ (i ∷ ys)
      → p.stop ≡ true
      → Step p (record p { working = xs ++ ys })

pub data Reach {ℓ} {T : Type ℓ} : ChainPool T → Type ℓ where
  begin : (num_threads : ℕ) → 0 < num_threads → Reach (start num_threads)
  later : {p q : ChainPool T} → Reach p → Step p q → Reach q
