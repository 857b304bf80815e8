-- ===== src/Topology/Scan/Table.antt =====
-- lib/libtopo/dmi.c: dmi_table, with include/dmi.h. A pointer is its distance from `buf`.
use fms.Base.{
  ℕ, zero, suc, ◌+◌, ◌-◌, ◌*◌, ◌%◌, ◌^◌, true, false, ◌||◌, Option, none, some, List, [], ◌∷◌, ltb,
  ◌==◌, if◌then◌else◌,
}

-- `dmi_mem_array_t`
pub record MemArray : Type 0 where
  pub handle : ℕ
  pub devices : ℕ

-- `dmi_mem_device_t`
pub record MemDevice : Type 0 where
  pub handle : ℕ
  pub array_handle : ℕ
  pub size : ℕ

-- `dmi_array_map_addr_t`
pub record ArrayAddr : Type 0 where
  pub handle : ℕ
  pub array_handle : ℕ
  pub start : ℕ
  pub end : ℕ

-- `dmi_device_map_addr_t`
pub record DeviceAddr : Type 0 where
  pub handle : ℕ
  pub device_handle : ℕ
  pub array_addr_handle : ℕ
  pub start : ℕ
  pub end : ℕ

-- `dmi_processor_t`
pub record Processor : Type 0 where
  pub handle : ℕ
  pub processor_id : ℕ

-- `dmi_data_t`
pub record DmiData : Type 0 where
  pub processor_list : List Processor
  pub array_list : List MemArray
  pub device_list : List MemDevice
  pub array_addr_list : List ArrayAddr
  pub device_addr_list : List DeviceAddr

-- An int as a uint64_t.
unfoldable pub sign_extend : ℕ → ℕ
sign_extend x = if ltb x (2 ^ 31) then x else x + (2 ^ 64 - 2 ^ 32)

-- The sizes of a range, which count megabytes if the range is short.
unfoldable pub range : ℕ → ℕ → ℕ × ℕ
range start end =
    if ltb ((end + 2 ^ 64 - start) % 2 ^ 64) 512
    then (start * 1024 % 2 ^ 64, end * 1024 % 2 ^ 64)
    else (start, end)

-- How a loop on fuel ends: before its end, by a read behind the buffer, or at its end.
pub data Walk (A : Type 0) : Type 0 where
  out_of_fuel : Walk A
  overrun : Walk A
  ends : A → Walk A

module _ (buf : ℕ → ℕ) (len : ℕ) where
  -- data[i + 1] << 8 | data[i]
  unfoldable pub u16 : ℕ → ℕ
  u16 i = buf (i + 1) * 256 + buf i

  -- Four bytes as an int.
  unfoldable pub s32 : ℕ → ℕ
  s32 i = sign_extend (u16 (i + 2) * 65536 + u16 i)

  -- 1024ULL * (u & 0x7fff) * ((u & 0x8000) ? 1 : 1024ULL), 0 where the size is not known.
  unfoldable pub device_size : ℕ → ℕ
  device_size u =
      if u == 0xffff then 0 else if ltb u 0x8000 then 1024 * u * 1024 else 1024 * (u - 0x8000)

  -- How many bytes of an entry the branches read.
  unfoldable pub bytes_read : ℕ → ℕ
  bytes_read d =
      if buf d == 4
      then 9
      else if buf d == 16
      then (if buf (d + 5) == 3 then 14 else 6)
      else if buf d == 17
      then 14
      else if buf d == 19
      then 14
      else if buf d == 20
      then 15
      else 0

  -- What is kept of the entry at `d`. A handle is read as one byte.
  unfoldable pub read_entry : ℕ → DmiData → DmiData
  read_entry d p =
      if buf d == 4
      then record p {
        processor_list =
            (record { handle = buf (d + 2); processor_id = buf (d + 8) }) ∷ p.processor_list;
      }
      else if buf d == 16
      then (if buf (d + 5) == 3
          then record p {
            array_list = (record { handle = buf (d + 2); devices = buf (d + 13) }) ∷ p.array_list;
          }
          else p)
      else if buf d == 17
      then record p {
        device_list =
            (record {
              handle = buf (d + 2);
              array_handle = u16 (d + 4);
              size = device_size (u16 (d + 12));
            })
            ∷ p.device_list;
      }
      else if buf d == 19
      then record p {
        array_addr_list =
            (record {
              handle = buf (d + 2);
              array_handle = u16 (d + 12);
              start = (range (s32 (d + 4)) (s32 (d + 8))).0;
              end = (range (s32 (d + 4)) (s32 (d + 8))).1;
            })
            ∷ p.array_addr_list;
      }
      else if buf d == 20
      then record p {
        device_addr_list =
            (record {
              handle = buf (d + 2);
              device_handle = u16 (d + 12);
              array_addr_handle = buf (d + 14);
              start = (range (s32 (d + 4)) (s32 (d + 8))).0;
              end = (range (s32 (d + 4)) (s32 (d + 8))).1;
            })
            ∷ p.device_addr_list;
      }
      else p

  -- while (*data || data[1]) data++, on fuel for its rounds.
  unfoldable pub skip_strings : ℕ → ℕ → Walk ℕ
  skip_strings zero d = out_of_fuel
  skip_strings (suc n) d = elim (ltb d len) [
    | false ↦ overrun
    | true ↦ elim (buf d == 0) [
      | false ↦ skip_strings n (d + 1)
      | true ↦ elim (ltb (d + 1) len) [
        | false ↦ overrun
        | true ↦ elim (buf (d + 1) == 0) [ true ↦ ends (d + 2) | false ↦ skip_strings n (d + 1) ]
      ]
    ]
  ]

  -- The loop of `dmi_table` from `d` on, on fuel for its rounds. The bytes that are left are enough
  -- rounds for the strings of an entry.
  unfoldable pub table_from : ℕ → ℕ → DmiData → Walk DmiData
  table_from zero d p = out_of_fuel
  table_from (suc n) d p = elim (ltb len (d + 4) || ltb len (d + buf (d + 1))) [
    | true ↦ ends p
    | false ↦ elim (ltb len (d + bytes_read d)) [
      | true ↦ overrun
      | false ↦ elim (skip_strings (len - (d + buf (d + 1)) + 1) (d + buf (d + 1))) [
        | out_of_fuel ↦ out_of_fuel
        | overrun ↦ overrun
        | ends next ↦ table_from n next (read_entry d p)
      ]
    ]
  ]

-- `dmi_table` on the bytes that are mapped: `none` for a read behind the buffer, `some none` for NULL.
-- There are fewer entries than rounds, so that the loop does not run out of them.
unfoldable pub dmi_table : (ℕ → ℕ) → ℕ → Option (Option DmiData)
dmi_table buf len =
    if len == 0
    then some none
    else elim (table_from buf len (len + 1) 0 (record {
      processor_list = [];
      array_list = [];
      device_list = [];
      array_addr_list = [];
      device_addr_list = [];
    })) [ out_of_fuel ↦ none | overrun ↦ none | ends p ↦ some (some p) ]
