-- ===== src/Source/Mce/Messages.antt =====
-- What decode_mca adds to the array of messages.
use fms.Base.{
  ℕ, suc, ◌+◌, ◌*◌, ◌/◌, ◌%◌, ◌≤◌, ◌<◌, ◌≡◌, refl, ◌∙◌, ◌≢◌, ◌⊎◌, inl, inr, true, false, ◌&&◌, ◌||◌,
  some, arith, ltb, leb, ◌==◌, Bool-cases, length, get_or, set, get_or-set_self,
}
use fms.Text.{codes}
use fms.Source.Mce.{Msg, zero_msg, mce_msg_maxnum, Msgs, error_code, Printf}
use fms.Source.Mce.Decode.{decode_code, decode_mca}
use fms.Source.Mce.Laws.{IsCpuMsg, IsMemMsg, decode_cache-some, decode_memory_controller-some}
use fms.Source.Mce.Codes.{Known, Describes, Known-Describes, code_cache, code_memory, code_unknown}

-- The array with one more message in use.
abbrev pub with_msg : Msgs → Msg → Msgs
with_msg ms m = record { mm = set ms.mm ms.mm_num m; mm_num = ms.mm_num + 1 }

-- The message that is written next.
abbrev pub next_msg : Msgs → Msg
next_msg ms = get_or ms.mm ms.mm_num zero_msg

pub Known-cases : (mca : ℕ) → Known mca ⊎ (¬ Known mca)
Known-cases mca =
    elim (Bool-cases (
      ltb mca 7
      || (leb 12 mca && ltb mca 32)
      || (leb 128 mca && ltb mca 512)
      || (leb 1024 mca && ltb mca 4096))) [
        | inl h ↦ inl (ground arith)
        | inr h ↦ inr (λ k. ground arith)
      ]

module _ (printf : Printf) (status misc cpu socket : ℕ) (ms : Msgs) where
  refused :
      (error_code status ≡ 0) ⊎ (mce_msg_maxnum ≤ ms.mm_num)
      → decode_mca printf status misc cpu socket ms ≡ some (false, ms)
  unfolding decode_mca
  refused h = ground arith

  adds :
      (m : Msg)
      → error_code status ≢ 0
      → ms.mm_num < mce_msg_maxnum
      → decode_code printf status misc cpu socket (error_code status) (next_msg ms) ≡ some m
      → decode_mca printf status misc cpu socket ms ≡ some (true, with_msg ms m)
  unfolding decode_mca
  adds m h l p =
      let no_code : error_code status == 0 ≡ false = ground arith in
      let room : leb mce_msg_maxnum ms.mm_num ≡ false = ground arith in rw (no_code, room, p)

  -- `decode_mca` reads past none of its tables. It returns -1 and changes nothing exactly when the
  -- status has no error code or 64 messages are in use. Otherwise one more message is in use: for a
  -- known code it has the mnemonic of the kind of error that the code stands for (a simple error, a
  -- cache, a TLB, memory, an internal error or a bus), for a cache or TLB also the level and type of
  -- the code, and a description; for any other code it is what the array held there.
  pub decode_mca_lem :
      (((error_code status ≡ 0) ⊎ (mce_msg_maxnum ≤ ms.mm_num))
        × (decode_mca printf status misc cpu socket ms ≡ some (false, ms)))
      ⊎ ((error_code status ≢ 0)
          × (ms.mm_num < mce_msg_maxnum)
          × ((m : Msg) × (decode_mca printf status misc cpu socket ms ≡ some (true, with_msg ms m))
              × ((Known (error_code status) × Describes status (error_code status) m)
                  ⊎ ((¬ Known (error_code status)) × (m ≡ next_msg ms)))))
  decode_mca_lem = elim (Bool-cases (error_code status == 0 || leb mce_msg_maxnum ms.mm_num)) [
    | inl h ↦
        (let no : (error_code status ≡ 0) ⊎ (mce_msg_maxnum ≤ ms.mm_num) = ground arith in
          inl (no, refused no))
    | inr h ↦ inr (ground arith, ground arith, one_more (ground arith) (ground arith))
  ]
    where
      one_more :
          error_code status ≢ 0
          → ms.mm_num < mce_msg_maxnum
          → (m : Msg) × (decode_mca printf status misc cpu socket ms ≡ some (true, with_msg ms m))
            × ((Known (error_code status) × Describes status (error_code status) m)
                ⊎ ((¬ Known (error_code status)) × (m ≡ next_msg ms)))
      one_more h l = elim (Known-cases (error_code status)) [
        | inl k ↦
            (let (m, p, u) =
                Known-Describes printf status misc cpu socket (error_code status) (next_msg ms) k in
              (m, adds m h l p, inl (k, u)))
        | inr n ↦ (
          next_msg ms,
          adds (next_msg ms) h l
              (code_unknown printf status misc cpu socket (error_code status) (next_msg ms) n),
          inr (n, refl),
        )
      ]

  -- A code 256 + 16 r + 4 t + l becomes a message of the processor about its cache of level l and
  -- type t, if there is room for one.
  pub decode_mca_cache :
      (r t l : ℕ)
      → error_code status ≡ 256 + 16 * r + 4 * t + l
      → r < 16
      → t < 4
      → l < 4
      → ms.mm_num < length ms.mm
      → ms.mm_num < mce_msg_maxnum
      → (out : Msgs) × (decode_mca printf status misc cpu socket ms ≡ some (true, out))
        × (out.mm_num ≡ suc ms.mm_num)
        × IsCpuMsg (codes "cache") status l t (get_or out.mm ms.mm_num zero_msg)
  decode_mca_cache r t l e hr ht hl hm room =
      let (m, p, v) = decode_cache-some status (error_code status) (next_msg ms) in
      let code =
        code_cache printf status misc cpu socket (error_code status) (next_msg ms) (omega arith)
          (omega arith) in
      let level : error_code status % 4 ≡ l = omega arith in
      let type : error_code status / 4 % 4 ≡ t = omega arith in
      (
        with_msg ms m,
        adds m (omega arith) room (code ∙ p),
        omega arith,
        rw (get_or-set_self ms.mm ms.mm_num m zero_msg hm, ← level, ← type) v,
      )

  -- A code from 128 to 255 becomes a message about memory, if there is room for one. It is about a
  -- page exactly if the status has a valid address and the error was corrected.
  pub decode_mca_memory :
      128 ≤ error_code status
      → error_code status < 256
      → ms.mm_num < length ms.mm
      → ms.mm_num < mce_msg_maxnum
      → (out : Msgs) × (decode_mca printf status misc cpu socket ms ≡ some (true, out))
        × (out.mm_num ≡ suc ms.mm_num)
        × IsMemMsg status (get_or out.mm ms.mm_num zero_msg)
  decode_mca_memory lo hi hm room =
      let (m, p, v) =
        decode_memory_controller-some printf status (error_code status) (next_msg ms) in
      let code =
        code_memory printf status misc cpu socket (error_code status) (next_msg ms) lo hi in
      (
        with_msg ms m,
        adds m (omega arith) room (code ∙ p),
        omega arith,
        rw (get_or-set_self ms.mm ms.mm_num m zero_msg hm) v,
      )
