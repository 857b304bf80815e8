-- ===== src/Ring.antt =====
-- include/fmd_ring.h: the ring of 128 pointers through which threads hand events over.
pub mod Fifo
pub mod Protocol
use fms.Base.{
  ℕ, ◌+◌, ◌-◌, ◌%◌, Option, none, some, List, ◌==◌, if◌then◌else◌, get_or, set, replicate,
}

abbrev pub ring_size : ℕ
ring_size = 128

-- `ring_t` without its lock. A slot is `none` for NULL. `ring_contain` and `ring_vaild` are the
-- values of the two semaphores.
pub record Ring {ℓ} (A : Type ℓ) : Type ℓ where
  pub ring_contain : ℕ
  pub ring_vaild : ℕ
  pub front : ℕ
  pub rear : ℕ
  pub count : ℕ
  pub ring_item : List (Option A)

module _ {ℓ} {A : Type ℓ} where
  unfoldable pub ring_init : Ring A
  ring_init = record {
    ring_contain = 0;
    ring_vaild = ring_size;
    front = 0;
    rear = 0;
    count = 0;
    ring_item = replicate ring_size none;
  }

  abbrev pub ring_stat : Ring A → ℕ
  ring_stat r = r.count

  -- `none` is the return value -1: the ring is full and nothing is stored.
  unfoldable pub ring_add : Ring A → A → Option (Ring A)
  ring_add r p =
      if ring_stat r == ring_size
      then none
      else some (record r {
        ring_item = set r.ring_item r.rear (some p);
        rear = (r.rear + 1) % ring_size;
        count = r.count + 1;
      })

  -- The first component is the returned pointer, `none` for NULL.
  unfoldable pub ring_del : Ring A → Option A × Ring A
  ring_del r = if ring_stat r == 0 then (none, r) else (
    get_or r.ring_item r.front none,
    record r { front = (r.front + 1) % ring_size; count = r.count - 1 },
  )
