-- ===== src/StaticFrame.antt =====
-- tools/static_frame.hpp: a window over the last `SZ` items, on a ring of `SZ + 1` cells.
pub mod Window
mod Tests
use sdk_cp.Base.{
  ℕ, ◌+◌, ◌-◌, ◌%◌, min, if◌then◌else◌, ltb, Option, none, some, List, get_elem?, set, ◌>>=◌, add64,
  sub64,
}

-- `static_frame`; `cells` is `_data`.
pub record StaticFrame {ℓ} (T : Type ℓ) : Type ℓ where
  pub cells : List T
  pub iterator : ℕ
  pub stored : ℕ

-- `k_virt_blocks`, of the parameter `SZ`.
abbrev pub virt_blocks : ℕ → ℕ
virt_blocks sz = sz + 1

-- `sz` is the parameter `SZ`. A callback `f` on a `T&` is a function on its value.
module _ {ℓ} {T : Type ℓ} (sz : ℕ) where
  -- `_iterator_to_node(it)`, read and changed.
  abbrev pub node : ℕ → StaticFrame T → Option T
  node it s = get_elem? s.cells (it % virt_blocks sz)

  abbrev pub at_node : ℕ → (T → T) → StaticFrame T → Option (StaticFrame T)
  at_node it f s =
      node it s >>= λ x. some (record s { cells = set s.cells (it % virt_blocks sz) (f x) })

  abbrev pub from_first : ℕ → StaticFrame T → ℕ
  from_first offset s = sub64 (s.iterator + virt_blocks sz) offset

  -- `get_from_first(offset)`.
  abbrev pub get_from_first : ℕ → StaticFrame T → Option T
  get_from_first offset s = node (from_first offset s) s

  -- A write through `get_first()`, and so through what `move_fwd` returns.
  abbrev pub set_first : T → StaticFrame T → Option (StaticFrame T)
  set_first v s = at_node s.iterator (λ x. v) s

  -- `pop_back(f)`; the offset fits an `int`.
  abbrev pub pop_back : (T → T) → StaticFrame T → Option (StaticFrame T)
  pop_back f s =
      if ltb 0 s.stored
      then (at_node (from_first (s.stored - 1) s) f s >>= λ s'.
          some (record s' { stored = s.stored - 1 }))
      else some s

  -- `move_fwd(f)`: `f` on `get_last()`, then one step on.
  abbrev pub move_fwd : (T → T) → StaticFrame T → Option (StaticFrame T)
  move_fwd f s = at_node (s.iterator + virt_blocks sz - sz + 1) f s >>= λ s'. some (record s' {
    iterator = add64 s.iterator 1 % virt_blocks sz;
    stored = min (add64 s.stored 1) sz;
  })

  -- `move_bck(f)`.
  abbrev pub move_bck : (T → T) → StaticFrame T → Option (StaticFrame T)
  move_bck f s = at_node s.iterator f s >>= λ s'. some (record s' {
    iterator = (s.iterator + virt_blocks sz - 1) % virt_blocks sz;
    stored = min (sub64 s.stored 1) 0;
  })
