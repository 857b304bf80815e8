-- ===== src/Tests/Rings.antt =====
-- Runs of the ring.
use fms.Base.{ℕ, ◌<◌, ◌≡◌, refl, ◌≢◌, none, some, List, [], ◌∷◌, ◌++◌, map, replicate}
use fms.Ring.{Ring, ring_init, ring_add, ring_del}
use fms.Ring.Fifo.{contents}
use fms.Ring.Protocol.{
  Hand, idle_hand, wait_vaild, add, post_contain, wait_contain, Reach, start, later, add_or_drop,
  Reach-fifo, Reach-never_refused,
}

abbrev empty_ring : Ring ℕ
empty_ring = ring_init

-- One thread has put 7 into the ring, and another one has taken it out.
abbrev after_add : Hand ℕ
after_add = record idle_hand {
  ring = record empty_ring {
    ring_vaild = 127;
    rear = 1;
    count = 1;
    ring_item = some 7 ∷ replicate 127 none;
  };
  posting = 1;
  sent = 7 ∷ [];
}

abbrev after_wait : Hand ℕ
after_wait = record after_add {
  ring = record (after_add.ring) { ring_contain = 0 };
  posting = 0;
  taking = 1;
}

Reach-add : Reach after_add
unfolding ring_init ring_add add_or_drop
Reach-add = later (later start (wait_vaild 127 refl)) (add 0 7 refl)

Reach-wait : Reach after_wait
unfolding ring_init
Reach-wait = later (later Reach-add (post_contain 0 refl)) (wait_contain 0 refl)

Reach-fifo_example :
    (taken waiting : List ℕ) × (after_wait.sent ≡ taken ++ waiting)
    × (after_wait.got ≡ map some taken)
    × (contents after_wait.ring ≡ map some waiting)
Reach-fifo_example = Reach-fifo Reach-wait

Reach-never_refused_example :
    (0 < after_wait.adding → ring_add after_wait.ring 9 ≢ none)
    × (0 < after_wait.taking → (ring_del after_wait.ring).0 ≢ none)
Reach-never_refused_example = Reach-never_refused 9 Reach-wait
