-- ===== src/Tests/Caches.antt =====
-- Runs on two processors that share a unified cache.
use fms.Base.{map, ◌*◌, ◌≡◌, refl, ◌≢◌, ◌↔◌, none, some, [], ◌∷◌, arith, length, Among}
use fms.Text.{Text, codes, skip_while, is_space, is_digit}
use fms.Agent.Cpumem.CpuMap.{
  is_xdigit, hex_from, xdigit, cpumap_len, parse_cpumap, len_from, field_bytes, parse_from, memrchr,
  strtoul16, text_from, signed_ulong, unprefixed, ulong_of,
}
use fms.Agent.Cpumem.CpuMap.RoundTrip.{IsWord, render, parse_cpumap-render}
use fms.Agent.Cpumem.Cache.{Caches, CpuDir, IndexDir, read_dirs, read_cache, mask_cpus}
use fms.Agent.Cpumem.Cache.Laws.{Fits, read_dirs-Fits, mask_cpus_iff, HasBit}

abbrev low_word : Text
low_word = codes "00000003"

abbrev high_word : Text
high_word = codes "00000000"

low_word-IsWord : IsWord low_word
unfolding is_xdigit is_digit
low_word-IsWord =
    ((refl, (refl, (refl, (refl, (refl, (refl, (refl, (refl, tt)))))))), omega arith, omega arith)

high_word-IsWord : IsWord high_word
unfolding is_xdigit is_digit
high_word-IsWord =
    ((refl, (refl, (refl, (refl, (refl, (refl, (refl, (refl, tt)))))))), omega arith, omega arith)

map_text : render low_word (high_word ∷ []) ≡ codes "00000000,00000003"
unfolding render
map_text = refl

map_runs : parse_cpumap (codes "00000000,00000003") ≡ 3 ∷ 0 ∷ []
unfolding parse_cpumap parse_from memrchr strtoul16 text_from signed_ulong unprefixed ulong_of
    hex_from is_xdigit xdigit skip_while is_space is_digit
map_runs = refl

-- The text of a file that could not be read makes one word of no bytes.
empty_runs : parse_cpumap [] ≡ 0 ∷ []
unfolding parse_cpumap parse_from memrchr strtoul16 signed_ulong skip_while
empty_runs = refl

empty_len : cpumap_len [] ≡ 0
unfolding cpumap_len len_from field_bytes
empty_len = refl

parse_cpumap-render_example :
    (parse_cpumap (render low_word (high_word ∷ []))
      ≡ hex_from 0 low_word ∷ hex_from 0 high_word ∷ [])
    × (cpumap_len (render low_word (high_word ∷ []))
        ≡ 4 * length (parse_cpumap (render low_word (high_word ∷ []))))
parse_cpumap-render_example =
    parse_cpumap-render low_word (high_word ∷ []) low_word-IsWord (high_word-IsWord, tt)
      (omega arith)

abbrev index_dir : IndexDir
index_dir = record {
  type_field = codes "Unified";
  level_field = 2;
  shared_cpu_map = render low_word (high_word ∷ []);
}

mask_cpus_iff_example :
    Among 1 (mask_cpus (read_cache index_dir))
    ↔ HasBit 1 (map (hex_from 0) (low_word ∷ high_word ∷ []))
mask_cpus_iff_example =
    mask_cpus_iff index_dir low_word (high_word ∷ []) low_word-IsWord (high_word-IsWord, tt)
      (omega arith) refl 1

abbrev cpu0 : CpuDir
cpu0 = record { cpu = 0; nlink = 3; index = λ i. index_dir }

abbrev cpu1 : CpuDir
cpu1 = record { cpu = 1; nlink = 3; index = λ i. index_dir }

abbrev cpu9 : CpuDir
cpu9 = record { cpu = 9; nlink = 3; index = λ i. index_dir }

-- The entry of processor 9 comes first.
read_dirs-Fits_example :
    ((read_dirs (cpu9 ∷ cpu0 ∷ []) [] ≢ none) → Fits 0 (cpu9 ∷ cpu0 ∷ []))
    × (Fits 0 (cpu9 ∷ cpu0 ∷ []) → (out : Caches) × (read_dirs (cpu9 ∷ cpu0 ∷ []) [] ≡ some out))
read_dirs-Fits_example = read_dirs-Fits (cpu9 ∷ cpu0 ∷ []) []

nine_overruns : ¬ Fits 0 (cpu9 ∷ cpu0 ∷ [])
nine_overruns f = absurd (omega (arith, f.0))
