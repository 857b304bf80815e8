-- ===== src/Ring/Protocol.antt =====
-- The hand-over of pointers through a ring by any number of threads: fmd_queue_dispatch and
-- put_to_agent put pointers in, queue_start and do_agent take them out. Each first waits on a
-- semaphore, then works on the ring under its lock, then posts the other semaphore.
use fms.Base.{
  ℕ, suc, ◌+◌, ◌<◌, ◌≡◌, refl, sym, ap, ◌∙◌, ◌≢◌, inl, inr, Option, none, some, List, [], ◌∷◌, ◌++◌,
  map, append_assoc, arith, length,
}
use mathlib.Core.List.{map-append}
use fms.Ring.{Ring, ring_size, ring_init, ring_add, ring_del}
use fms.Ring.Fifo.{
  IsRing, contents, ring_init-IsRing, contents-ring_init, ring_add_fifo, ring_del_fifo,
  length-window,
}

module _ {ℓ} {A : Type ℓ} where
  -- The callers of `ring_add` do not look at what it returns.
  unfoldable pub add_or_drop : Ring A → A → Ring A
  add_or_drop r p = elim (ring_add r p) [ none ↦ r | some s ↦ s ]

-- The ring and its semaphores, with the number of threads that stand between two calls:
-- `adding` between sem_wait(ring_vaild) and ring_add, `posting` between ring_add and
-- sem_post(ring_contain), `taking` between sem_wait(ring_contain) and ring_del, `giving` between
-- ring_del and sem_post(ring_vaild). `sent` and `got` record the pointers in the order in which
-- ring_add was called on them and ring_del returned them.
pub record Hand {ℓ} (A : Type ℓ) : Type ℓ where
  pub ring : Ring A
  pub adding : ℕ
  pub posting : ℕ
  pub taking : ℕ
  pub giving : ℕ
  pub sent : List A
  pub got : List (Option A)

module _ {ℓ} {A : Type ℓ} where
  abbrev pub idle_hand : Hand A
  idle_hand = record {
    ring = ring_init;
    adding = 0;
    posting = 0;
    taking = 0;
    giving = 0;
    sent = [];
    got = [];
  }

  -- One call of one thread. A wait is possible only on a positive semaphore.
  pub data Step (s : Hand A) : Hand A → Type ℓ where
    wait_vaild :
        (n : ℕ)
        → s.ring.ring_vaild ≡ suc n
        → Step s (record s { ring = record (s.ring) { ring_vaild = n }; adding = suc s.adding })
    add :
        (n : ℕ) (p : A)
        → s.adding ≡ suc n
        → Step s (record s {
          ring = add_or_drop s.ring p;
          adding = n;
          posting = suc s.posting;
          sent = s.sent ++ (p ∷ []);
        })
    post_contain :
        (n : ℕ)
        → s.posting ≡ suc n
        → Step s (record s {
          ring = record (s.ring) { ring_contain = suc s.ring.ring_contain };
          posting = n;
        })
    wait_contain :
        (n : ℕ)
        → s.ring.ring_contain ≡ suc n
        → Step s (record s { ring = record (s.ring) { ring_contain = n }; taking = suc s.taking })
    del :
        (n : ℕ)
        → s.taking ≡ suc n
        → Step s (record s {
          ring = (ring_del s.ring).1;
          taking = n;
          giving = suc s.giving;
          got = s.got ++ ((ring_del s.ring).0 ∷ []);
        })
    post_vaild :
        (n : ℕ)
        → s.giving ≡ suc n
        → Step s
            (record s { ring = record (s.ring) { ring_vaild = suc s.ring.ring_vaild }; giving = n })

  pub data Reach : Hand A → Type ℓ where
    start : Reach idle_hand
    later : {s t : Hand A} → Reach s → Step s t → Reach t

  -- Every free slot is counted once, and every filled slot once.
  pub record HandInv (s : Hand A) : Type ℓ where
    pub ring_ok : IsRing s.ring
    pub free : s.ring.ring_vaild + s.adding + s.ring.count + s.giving ≡ ring_size
    pub filled : s.ring.ring_contain + s.posting + s.taking ≡ s.ring.count
    pub in_order : map some s.sent ≡ s.got ++ contents s.ring

  add_room :
      (r : Ring A) (p : A)
      → IsRing r
      → r.count < ring_size
      → IsRing (add_or_drop r p)
        × (contents (add_or_drop r p) ≡ contents r ++ (some p ∷ []))
        × ((add_or_drop r p).count ≡ suc r.count)
        × ((add_or_drop r p).ring_vaild ≡ r.ring_vaild)
        × ((add_or_drop r p).ring_contain ≡ r.ring_contain)
  unfolding add_or_drop
  add_room r p v h = elim (ring_add_fifo r p v) [
    | inl (e, full) ↦ absurd (omega arith)
    | inr (s, e, c, n, a, b, w) ↦ rw (e, add_or_drop) (w, c, n, a, b)
  ]

  add-HandInv :
      {s : Hand A} (n : ℕ) (p : A)
      → HandInv s
      → s.adding ≡ suc n
      → HandInv (record s {
        ring = add_or_drop s.ring p;
        adding = n;
        posting = suc s.posting;
        sent = s.sent ++ (p ∷ []);
      })
  add-HandInv {s} n p v h =
      let (ok, held, more, same_vaild, same_contain) = add_room s.ring p v.ring_ok (omega arith) in
      record {
        ring_ok = ok;
        free = omega arith;
        filled = omega arith;
        in_order = simp (map-append, v.in_order, held, append_assoc);
      }

  del-HandInv :
      {s : Hand A} (n : ℕ)
      → HandInv s
      → s.taking ≡ suc n
      → HandInv (record s {
        ring = (ring_del s.ring).1;
        taking = n;
        giving = suc s.giving;
        got = s.got ++ ((ring_del s.ring).0 ∷ []);
      })
  del-HandInv {s} n v h = elim (ring_del_fifo s.ring v.ring_ok) [
    | inl (held, e) ↦
        absurd
          (omega (arith, ap length held, length-window s.ring.ring_item s.ring.front s.ring.count))
    | inr (x, rest, held, e, left, fewer, same_vaild, same_contain, ok) ↦ record {
      ring_ok = ok;
      free = omega arith;
      filled = omega arith;
      in_order = simp (e, left, append_assoc) (v.in_order ∙ ap (◌++◌ s.got) held);
    }
  ]

  pub Step-HandInv : {s t : Hand A} → HandInv s → Step s t → HandInv t
  Step-HandInv v (wait_vaild n h) = ground arith
  Step-HandInv v (add n p h) = add-HandInv n p v h
  Step-HandInv v (post_contain n h) = ground arith
  Step-HandInv v (wait_contain n h) = ground arith
  Step-HandInv v (del n h) = del-HandInv n v h
  Step-HandInv v (post_vaild n h) = ground arith

  pub Reach-HandInv : {s : Hand A} → Reach s → HandInv s
  unfolding ring_init
  Reach-HandInv start = record {
    ring_ok = ring_init-IsRing;
    free = refl;
    filled = refl;
    in_order = sym contents-ring_init;
  }
  Reach-HandInv (later r st) = Step-HandInv (Reach-HandInv r) st

  -- A list of known pointers that splits does so into lists of known pointers.
  map-some_split :
      (xs : List A) (ys zs : List (Option A))
      → map some xs ≡ ys ++ zs
      → (ps : List A) × (bs : List A) × (xs ≡ ps ++ bs) × (ys ≡ map some ps) × (zs ≡ map some bs)
  map-some_split xs [] zs e = ([], xs, refl, refl, sym e)
  map-some_split [] (y ∷ ys) zs e = cc
  map-some_split (x ∷ xs) (y ∷ ys) zs e =
      let (ps, bs, p, q, r) = map-some_split xs ys zs (ground arith) in
      (x ∷ ps, bs, ap (◌∷◌ x) p, ground arith, r)

  -- However the threads are interleaved, the pointers handed to `ring_add` come out of `ring_del`
  -- in the same order, each once and none as NULL: those taken so far are the first ones sent, and
  -- the ring holds exactly the others.
  pub Reach-fifo :
      {s : Hand A}
      → Reach s
      → (taken waiting : List A) × (s.sent ≡ taken ++ waiting)
        × (s.got ≡ map some taken)
        × (contents s.ring ≡ map some waiting)
  Reach-fifo {s} r = map-some_split s.sent s.got (contents s.ring) (Reach-HandInv r).in_order

  not_none :
      (xs : List A) (x : Option A) (rest : List (Option A)) → map some xs ≡ x ∷ rest → x ≢ none
  not_none [] x rest e h = cc
  not_none (y ∷ xs) x rest e h = cc

  -- In every reachable state a thread that has passed its wait finds the ring fit for its call:
  -- `ring_add` is not refused and `ring_del` does not return NULL.
  pub Reach-never_refused :
      {s : Hand A} (p : A)
      → Reach s
      → (0 < s.adding → ring_add s.ring p ≢ none) × (0 < s.taking → (ring_del s.ring).0 ≢ none)
  Reach-never_refused {s} p r = (λ h e. added h e, λ h e. taken h e)
    where
      v : HandInv s
      v = Reach-HandInv r

      added : 0 < s.adding → ring_add s.ring p ≢ none
      added h e = elim (ring_add_fifo s.ring p v.ring_ok) [
        | inl (_, full) ↦ absurd (omega (arith, v.free))
        | inr (t, e', _, _, _, _, _) ↦ cc
      ]

      taken : 0 < s.taking → (ring_del s.ring).0 ≢ none
      taken h e =
          let (sent, waiting, _, _, held) = Reach-fifo r in
          elim (ring_del_fifo s.ring v.ring_ok) [
            | inl (empty, _) ↦ absurd (
                omega (
                  arith,
                  v.filled,
                  ap length empty,
                  length-window s.ring.ring_item s.ring.front s.ring.count,
                ))
            | inr (x, rest, some_held, x_is, _, _, _, _, _) ↦
                not_none waiting x rest (sym held ∙ some_held) (sym x_is ∙ e)
          ]
