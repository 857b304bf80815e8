-- ===== src/Topology/Scan/Names.antt =====
-- The names of PCI devices in sysfs are read back by lib/libtopo/pci.c.
use fms.Base.{
  ℕ, ◌%◌, ◌^◌, ◌<◌, ◌≡◌, refl, ap, subst, true, false, some, List, [], ◌∷◌, ◌++◌, map, append-nil,
  arith, ◌==◌, length, All,
}
use native.Mathlib.Nat.{pow-le-pow_right}
use fms.Text.{Text, is_space, is_digit, skip_while}
use fms.Agent.Cpumem.CpuMap.{is_xdigit, hex_from, unprefixed}
use fms.Agent.Cpumem.CpuMap.RoundTrip.{IsWord, hex_from-lt, unprefixed-word}
use fms.Topology.Scan.Numbers.{strtol_from, strtol16, tokens, is_bus_delim, numbers}
use fms.Topology.Scan.Pci.{pci_at}

-- A word of hexadecimal digits is one token.
tokens-word :
    (w s : Text) (c : ℕ)
    → All (λ c. is_xdigit c ≡ true) w
    → is_bus_delim c ≡ true
    → tokens is_bus_delim (w ++ c ∷ s) ≡ w ∷ tokens is_bus_delim s
unfolding tokens
tokens-word [] s c h d = ground arith
tokens-word (x ∷ w) s c h d =
    let n : is_bus_delim x ≡ false =
      unfold is_bus_delim is_xdigit is_digit in ground (arith, h.0) in
    ground (arith, n, tokens-word w s c h.1 d)

tokens-last : (w : Text) → All (λ c. is_xdigit c ≡ true) w → tokens is_bus_delim w ≡ w ∷ []
unfolding tokens
tokens-last [] h = refl
tokens-last (x ∷ w) h =
    let n : is_bus_delim x ≡ false =
      unfold is_bus_delim is_xdigit is_digit in ground (arith, h.0) in
    ground (arith, n, tokens-last w h.1)

strtol16-word : (w : Text) → IsWord w → strtol16 w ≡ hex_from 0 w
unfolding strtol16 strtol_from skip_while
strtol16-word [] h = absurd (omega arith)
strtol16-word (x ∷ w) h =
    let lt = hex_from-lt 0 1 (x ∷ w) h.0 (omega arith) in
    let lt8 : hex_from 0 (x ∷ w) < 2 ^ 32 =
      omega (arith, lt, pow-le-pow_right {n = 16} (omega arith) {i = length (x ∷ w)} {j = 8} h.2) in
    let no_space : is_space x ≡ false =
      unfold is_xdigit is_digit is_space in ground (arith, h.0.0) in
    let no_minus : (x == b'-') ≡ false = unfold is_xdigit is_digit in ground (arith, h.0.0) in
    let no_plus : (x == b'+') ≡ false = unfold is_xdigit is_digit in ground (arith, h.0.0) in
    let u : unprefixed (x ∷ w) ≡ x ∷ w =
      subst (λ t. unprefixed t ≡ t) (append-nil (x ∷ w)) (unprefixed-word (x ∷ w) [] h.0 tt) in
    ground (arith, no_space, no_minus, no_plus, u, lt8)

-- A name of the form domain:bus:slot.function, as sysfs writes it.
unfoldable pub bus_id : Text → Text → Text → Text → Text
bus_id d b s f = d ++ b':' ∷ (b ++ b':' ∷ (s ++ b'.' ∷ f))

tokens-bus_id :
    (d b s f : Text)
    → All IsWord (d ∷ b ∷ s ∷ f ∷ [])
    → tokens is_bus_delim (bus_id d b s f) ≡ d ∷ b ∷ s ∷ f ∷ []
unfolding bus_id
tokens-bus_id d b s f h =
    let colon : is_bus_delim b':' ≡ true = unfold is_bus_delim in refl in
    let dot : is_bus_delim b'.' ≡ true = unfold is_bus_delim in refl in
    rw (tokens-word d (b ++ b':' ∷ (s ++ b'.' ∷ f)) b':' h.0.0 colon) (
      rw (tokens-word b (s ++ b'.' ∷ f) b':' h.1.0.0 colon)
        (rw (tokens-word s f b'.' h.1.1.0.0 dot) (rw (tokens-last f h.1.1.1.0.0) refl)))

-- The name of a device is read back as its numbers, as far as the bit fields hold them.
pub pci_at-bus_id :
    (d b s f : Text)
    → All IsWord (d ∷ b ∷ s ∷ f ∷ [])
    → (p : List ℕ) × (numbers is_bus_delim 4 (bus_id d b s f) ≡ some p)
      × ((pci_at p).pci_chassis ≡ hex_from 0 d % 256)
      × ((pci_at p).pci_hostbridge ≡ hex_from 0 b % 256)
      × ((pci_at p).pci_slot ≡ hex_from 0 s % 256)
      × ((pci_at p).pci_func ≡ hex_from 0 f % 16)
unfolding numbers pci_at
pci_at-bus_id d b s f h =
    let t = tokens-bus_id d b s f h in
    let v : map strtol16 (d ∷ b ∷ s ∷ f ∷ [])
        ≡ hex_from 0 d ∷ hex_from 0 b ∷ hex_from 0 s ∷ hex_from 0 f ∷ [] =
      ground (
        arith,
        strtol16-word d h.0,
        strtol16-word b h.1.0,
        strtol16-word s h.1.1.0,
        strtol16-word f h.1.1.1.0,
      ) in
    (
      hex_from 0 d ∷ hex_from 0 b ∷ hex_from 0 s ∷ hex_from 0 f ∷ [],
      rw (t, numbers) (ap some v),
      refl,
      refl,
      refl,
      refl,
    )
